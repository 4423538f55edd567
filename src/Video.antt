-- ===== src/Video.antt =====
-- internal/domain/video: the assets and shares of an event, their order and their matching.
pub mod Shares
pub mod Rank
pub mod Match
pub mod Selection
use found_footy.Common.{ℕ, String, Bool, true, false, Option, List, str_eq, Time}
use found_footy.Common.Int.{ℤ}

-- `ShareState`. A text that is none of the three constants is `unknown`.
pub data ShareState : Type 0 where
  active removed superseded : ShareState
  unknown : String → ShareState

-- the share's own `RemovalReason`
pub data RemovalReason : Type 0 where
  var policy asset_gone : RemovalReason
  unknown : String → RemovalReason

-- `RemovalReason.Valid`
abbrev pub reason_valid : RemovalReason → Bool
reason_valid (RemovalReason.unknown s) = false
reason_valid _ = true

-- Go's `==` on removal reasons
unfoldable pub reason_eq : RemovalReason → RemovalReason → Bool
reason_eq var var = true
reason_eq policy policy = true
reason_eq asset_gone asset_gone = true
reason_eq (RemovalReason.unknown s) (RemovalReason.unknown t) = str_eq s t
reason_eq _ _ = false

-- `Asset`. A UUID is its 128-bit number. The frame rate and the aspect ratio, which are floating
-- point and which nothing here reads, have no field.
pub record Asset : Type 0 where
  pub id : ℕ
  pub event_id : ℕ
  pub fixture_id : ℤ
  pub s3_bucket : String
  pub s3_key : String
  pub object_reclaimed_at : Option Time
  pub md5 : List ℕ
  pub media_fingerprint : String
  pub frame_hash_version : String
  pub frame_hashes : List ℕ
  pub width : ℤ
  pub height : ℤ
  pub duration_ms : ℤ
  pub file_size_bytes : ℤ
  pub bitrate : Option ℤ
  pub popularity : ℤ
  pub superseded_by : Option ℕ
  pub first_seen_at : Time

-- `Share`
pub record Share : Type 0 where
  pub id : String
  pub asset_id : ℕ
  pub event_id : ℕ
  pub timestamp_verified : Bool
  pub extracted_minute : Option ℤ
  pub state : ShareState
  pub removed_reason : Option RemovalReason
  pub removed_at : Option Time
  pub rank : ℤ
  pub created_at : Time

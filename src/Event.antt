-- ===== src/Event.antt =====
-- internal/domain/event: the match event, its classification, its key and its phase.
pub mod Lifecycle
pub mod Debounce
pub mod Key
use found_footy.Common.{
  ℕ, String, Bool, true, false, Option, none, some, [], ◌∷◌, one_of, str_eq, Time, is_some, ◌||◌,
  ◌&&◌, not, if◌then◌else◌, option_eq, ◌==◌,
}
use found_footy.Common.Int.{ℤ, eqb_ℤ}

-- `Type`: a text that is none of the five constants is `unknown`.
pub data EventType : Type 0 where
  goal card subst var missed_penalty : EventType
  unknown : String → EventType

-- `Type.Valid`
abbrev pub type_valid : EventType → Bool
type_valid (unknown s) = false
type_valid _ = true

-- `TrackableEventType`, over the provider's type and detail codes. `shootout` is the answer of
-- `apifootball.HasPenaltyShootoutComment` on the comments.
unfoldable pub trackable_event_type :
    (api_type api_detail : String) → (shootout : Bool) → Option EventType
trackable_event_type api_type api_detail shootout =
    if str_eq api_type "goal"
    then (if shootout
        then none
        else if one_of api_detail ("normal goal" ∷ "penalty" ∷ "own goal" ∷ [])
        then some goal
        else if str_eq api_detail "missed penalty"
        then some missed_penalty
        else none)
    else if str_eq api_type "card"
    then (if str_eq api_detail "red card" then some card else none)
    else none

-- `RemovalReason`
pub data RemovalReason : Type 0 where
  var policy asset_gone : RemovalReason
  unknown : String → RemovalReason

-- `RemovalReason.Valid`
abbrev pub reason_valid : RemovalReason → Bool
reason_valid (RemovalReason.unknown s) = false
reason_valid _ = true

-- Go's `==` on removal reasons
unfoldable pub reason_eq : RemovalReason → RemovalReason → Bool
reason_eq RemovalReason.var RemovalReason.var = true
reason_eq policy policy = true
reason_eq asset_gone asset_gone = true
reason_eq (RemovalReason.unknown s) (RemovalReason.unknown t) = str_eq s t
reason_eq _ _ = false

pub record Team : Type 0 where
  pub id : ℕ
  pub name : String

pub record Player : Type 0 where
  pub id : Option ℕ
  pub name : Option String

-- `Player.Known`
abbrev pub known : Player → Bool
known p = is_some p.id && is_some p.name

-- The telemetry map is opaque to the operations modelled here and has no field.
pub record Event : Type 0 where
  pub id : ℕ
  pub fixture_id : ℕ
  pub natural_key : String
  pub event_type : EventType
  pub detail : String
  pub team : Team
  pub player : Player
  pub assist : Player
  pub minute : ℤ
  pub extra : Option ℤ
  pub first_seen_at : Time
  pub debounce_count : ℕ
  pub downstream_triggered : Bool
  pub monitor_complete : Bool
  pub download_complete : Bool
  pub removed : Bool
  pub removed_reason : Option RemovalReason
  pub removed_at : Option Time
  pub created_at : Time
  pub updated_at : Time

-- `Phase`
pub data Phase : Type 0 where
  detected searching complete removed : Phase

-- `DerivePhase`
unfoldable pub derive_phase : (removed downstream_triggered discovery_complete : Bool) → Phase
derive_phase gone triggered done =
    if gone
    then Phase.removed
    else if done
    then complete
    else if triggered
    then searching
    else detected

-- `MutableFieldsChanged`
unfoldable pub mutable_fields_changed : Event → Event → Bool
mutable_fields_changed e fresh =
    not (option_eq ◌==◌ e.assist.id fresh.assist.id)
    || (not (option_eq str_eq e.assist.name fresh.assist.name)
        || (not (eqb_ℤ e.minute fresh.minute)
            || (not (option_eq eqb_ℤ e.extra fresh.extra) || not (str_eq e.detail fresh.detail))))

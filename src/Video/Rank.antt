-- ===== src/Video/Rank.antt =====
-- internal/domain/video/rank.go: which of two shares of an event comes first.
pub mod Order
use Prim.Native.String.{compare as compare_text}
use found_footy.Common.{Bool, Ordering, not, if◌then◌else◌, bool_eq, before, after, String}
use found_footy.Common.Int.{eqb_ℤ, ltb_ℤ}
use found_footy.Video.{Share, Asset}

-- Go's `<` on strings, which compares their bytes
abbrev pub text_before : String → String → Bool
text_before s t = elim (compare_text s t) [ Ordering.lt ↦ Bool.true | _ ↦ Bool.false ]

-- `CompareShares`; `lt` is its -1, `eq` its 0 and `gt` its +1
unfoldable pub compare_shares : (a b : Share) → (a_asset b_asset : Asset) → Ordering
compare_shares a b a_asset b_asset =
    if not (bool_eq a.timestamp_verified b.timestamp_verified)
    then (if a.timestamp_verified then Ordering.lt else Ordering.gt)
    else if not (eqb_ℤ a_asset.popularity b_asset.popularity)
    then (if ltb_ℤ b_asset.popularity a_asset.popularity then Ordering.lt else Ordering.gt)
    else if not (eqb_ℤ a_asset.file_size_bytes b_asset.file_size_bytes)
    then (if ltb_ℤ b_asset.file_size_bytes a_asset.file_size_bytes
        then Ordering.lt
        else Ordering.gt)
    else if before a.created_at b.created_at
    then Ordering.lt
    else if after a.created_at b.created_at
    then Ordering.gt
    else if text_before a.id b.id
    then Ordering.lt
    else if text_before b.id a.id
    then Ordering.gt
    else Ordering.eq

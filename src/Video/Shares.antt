-- ===== src/Video/Shares.antt =====
-- internal/domain/video/video.go: how a share is made, removed and checked.
pub mod Removal
use found_footy.Common.{
  ℕ, String, Bool, true, false, Option, none, some, Time, is_some, is_none, ◌||◌, not,
  if◌then◌else◌,
}
use found_footy.Common.Int.{ℤ, pos, ltb_ℤ}
use found_footy.Video.{
  Share, ShareState, active, removed, superseded, unknown, RemovalReason, reason_valid, reason_eq,
}

-- `nil_dereference` is the run-time panic of reading through a nil pointer.
pub data Error : Type 0 where
  no_randomness rank_below_one unknown_reason already_removed nil_dereference : Error
  state_mismatch invalid_state : Error

-- `NewShare`; `generated` is the result of `generateShareID`, none where the reader fails
unfoldable pub new_share :
    (generated : Option String)
    → (asset_id event_id : ℕ) → Bool
    → (extracted_minute : Option ℤ) → (rank : ℤ) → Time
    → Option Share × Option Error
new_share none asset_id event_id verified extracted rank at = (none, some no_randomness)
new_share (some id) asset_id event_id verified extracted rank at =
    if ltb_ℤ rank (pos 1) then (none, some rank_below_one) else (
      some (record {
        id = id;
        asset_id = asset_id;
        event_id = event_id;
        timestamp_verified = verified;
        extracted_minute = extracted;
        state = active;
        removed_reason = none;
        removed_at = none;
        rank = rank;
        created_at = at;
      }),
      none,
    )

abbrev pub is_removed : ShareState → Bool
is_removed removed = true
is_removed _ = false

-- the second removal: the same reason is idempotent, a missing one is read through nil
abbrev again : Option RemovalReason → RemovalReason → Option Error
again none reason = some nil_dereference
again (some stored) reason = if reason_eq stored reason then none else some already_removed

-- `Remove`
unfoldable pub remove : Share → RemovalReason → Time → Share × Option Error
remove s reason at =
    if not (reason_valid reason)
    then (s, some unknown_reason)
    else if is_removed s.state
    then (s, again s.removed_reason reason)
    else (record s { state = removed; removed_reason = some reason; removed_at = some at }, none)

-- the `switch` of `ValidateInvariants`
unfoldable pub validate_state : ShareState → Option RemovalReason → Option Time → Option Error
validate_state active reason at = if is_some reason || is_some at then some state_mismatch else none
validate_state superseded reason at =
    if is_some reason || is_some at then some state_mismatch else none
validate_state removed reason at =
    if is_none reason || is_none at then some state_mismatch else none
validate_state (unknown s) reason at = some invalid_state

-- `ValidateInvariants`
unfoldable pub validate_invariants : Share → Option Error
unfolding validate_state
validate_invariants s =
    if ltb_ℤ s.rank (pos 1)
    then some rank_below_one
    else validate_state s.state s.removed_reason s.removed_at

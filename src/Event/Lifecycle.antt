-- ===== src/Event/Lifecycle.antt =====
-- internal/domain/event/state.go: the event's state transitions. A method that mutates `*Event`
-- returns the new record beside its error.
pub mod Invariant
use found_footy.Common.{
  Bool, true, false, Option, none, some, Time, is_some, is_none, ◌||◌, not, if◌then◌else◌,
}
use found_footy.Common.Int.{ℤ}
use found_footy.Event.{Event, Player, RemovalReason, reason_valid, reason_eq, type_valid}

pub data Error : Type 0 where
  removed_event already_removed invalid_removal_reason state_timestamp_mismatch : Error
  invalid_type : Error

-- `MarkMonitorComplete`
unfoldable pub mark_monitor_complete : Event → Time → Event × Option Error
mark_monitor_complete e at =
    if e.removed
    then (e, some removed_event)
    else if e.monitor_complete
    then (e, none)
    else (record e { monitor_complete = true; updated_at = at }, none)

-- `MarkDownloadComplete`
unfoldable pub mark_download_complete : Event → Time → Event × Option Error
mark_download_complete e at =
    if e.removed
    then (e, some removed_event)
    else if e.download_complete
    then (e, none)
    else (record e { download_complete = true; updated_at = at }, none)

-- is the stored reason present and equal to the given one?
abbrev same_reason : Option RemovalReason → RemovalReason → Bool
same_reason none r = false
same_reason (some q) r = reason_eq q r

-- `Remove`
unfoldable pub remove : Event → RemovalReason → Time → Event × Option Error
remove e reason at =
    if not (reason_valid reason)
    then (e, some invalid_removal_reason)
    else if e.removed
    then (if same_reason e.removed_reason reason then (e, none) else (e, some already_removed))
    else (
      record e {
        removed = true;
        removed_reason = some reason;
        removed_at = some at;
        updated_at = at;
      },
      none,
    )

-- `UpdatePlayer`
unfoldable pub update_player : Event → Player → Time → Event
update_player e player at = record e { player = player; updated_at = at }

-- `UpdateMinute`
unfoldable pub update_minute : Event → ℤ → Option ℤ → Time → Event
update_minute e minute extra at = record e { minute = minute; extra = extra; updated_at = at }

-- `ValidateInvariants`
unfoldable pub validate_invariants : Event → Option Error
validate_invariants e =
    if e.removed
    then (if is_none e.removed_reason
        then some state_timestamp_mismatch
        else if is_none e.removed_at
        then some state_timestamp_mismatch
        else if type_valid e.event_type
        then none
        else some invalid_type)
    else if is_some e.removed_reason || is_some e.removed_at
    then some state_timestamp_mismatch
    else if type_valid e.event_type
    then none
    else some invalid_type

-- ===== src/Examples/EventRuns.antt =====
-- Votes on a goal, and the removal of an event (internal/domain/event and
-- internal/infra/pg/event_repo_debounce.go).
use found_footy.Common.{
  ◌≤◌, true, false, none, some, List, [], ◌∷◌, ◌≡◌, refl, arith, one_of, str_eq,
}
use found_footy.Common.Int.{pos}
use found_footy.Event.{Event, goal, var}
use found_footy.Event.Lifecycle.{remove, update_minute, validate_invariants}
use found_footy.Event.Lifecycle.Invariant.{
  overturned, reclocked, Reach, here, next, Reach-validate_invariants,
}
use found_footy.Event.Debounce.{Store, pending, register_presence, register_absence}
use found_footy.Event.Debounce.Votes.{IsValid}
use found_footy.Event.Debounce.Trace.{
  Vote, presence, absence, cast, cast_all, triggers, removals, flag, cast_all-IsValid,
  reports_exactly_once,
}

abbrev opener : Event
opener = record {
  id = 1;
  fixture_id = 7;
  natural_key = "42_9_goal_1";
  event_type = goal;
  detail = "normal goal";
  team = record { id = 42; name = "Arsenal" };
  player = record { id = some 9; name = some "Striker" };
  assist = record { id = none; name = none };
  minute = pos 12;
  extra = none;
  first_seen_at = 500;
  debounce_count = 1;
  downstream_triggered = false;
  monitor_complete = false;
  download_complete = false;
  removed = false;
  removed_reason = none;
  removed_at = none;
  created_at = 500;
  updated_at = 500;
}

abbrev disallowed : Event
disallowed = (remove opener var 520).0

abbrev overturn : Reach opener disallowed
overturn = next here (overturned var 520)

Reach-validate_invariants_example : validate_invariants disallowed ≡ none
unfolding validate_invariants
Reach-validate_invariants_example = Reach-validate_invariants overturn refl

abbrev later_minute : Reach disallowed (update_minute disallowed (pos 13) none 530)
later_minute = next here (reclocked (pos 13) none 530)

abbrev seen : Store
seen = record {
  fixture_id = 7;
  debounce_count = 1;
  downstream_triggered = false;
  removed = false;
  removed_reason = none;
  removed_at = none;
  presence_votes = "poll-1" ∷ [];
  absence_votes = [];
  candidates =
      record {
        tweet_url = "t/1";
        outcome = pending;
        reject_reason = none;
        outcome_at = none;
        credited_asset = none;
      }
      ∷ [];
  downstream = record { workflow_id = "w"; completed_at = none; outcome = none } ∷ [];
  audit_log = [];
}

abbrev ballots : List Vote
ballots =
    presence "poll-2" (some 7)
    ∷ presence "poll-2" none
    ∷ presence "poll-3" none
    ∷ absence "poll-4" none 600
    ∷ []

abbrev drops : List Vote
drops = absence "poll-5" none 610 ∷ absence "poll-6" none 620 ∷ []

ballots_run :
    ((cast_all seen ballots).downstream_triggered ≡ true)
    × ((cast_all (cast_all seen ballots) drops).removed ≡ true)
unfolding cast_all cast register_presence register_absence one_of str_eq
ballots_run = (refl, refl)

cast_all-IsValid_example : IsValid (cast_all seen ballots)
cast_all-IsValid_example = cast_all-IsValid seen ballots (record {
  capped = omega arith;
  live = λ _. (refl, refl);
  gone = λ e. absurd (ground arith);
  settled = λ e. absurd (ground arith);
  closed = λ e. absurd (ground arith);
})

reports_exactly_once_example :
    let t = cast_all seen ballots in
    (triggers seen ballots ≡ flag t.downstream_triggered)
    × (removals seen ballots ≡ flag t.removed)
    × (flag t.downstream_triggered ≤ flag (cast_all t drops).downstream_triggered)
    × (flag t.removed ≤ flag (cast_all t drops).removed)
reports_exactly_once_example = reports_exactly_once seen ballots drops refl refl

-- ===== src/Examples/MonitorRuns.antt =====
-- The events of a response and the stored events (internal/activity/monitor/event_identity.go).
use found_footy.Common.{
  true, false, ◌↔◌, count, any, none, some, List, [], ◌∷◌, ◌≡◌, refl, All, arith,
}
use found_footy.Common.Int.{pos}
use found_footy.Event.{Event, goal}
use found_footy.Event.Key.{compose_natural_key, itoa, decimal, type_text}
use found_footy.Monitor.Identity.Groups.RoundTrip.{sequence_from_natural_key-compose_natural_key}
use found_footy.Monitor.Provider.{ApiEvent, ApiFixture}
use found_footy.Monitor.Score.{new_score_event_inventory, score_event_parity}
use found_footy.Monitor.Score.Parity.{scores_for, scores_for_other, score_event_parity_iff}
use found_footy.Monitor.Identity.{Provided, StoredSequence, best, event_clock_minute}
use found_footy.Monitor.Identity.Matching.{Alignment, plan_of, IsPlan, NoBetter, best_lem}
use found_footy.Monitor.Identity.Groups.{
  SequenceGroup, assign_group, add_stored_events, add_api_events, sequence_from_natural_key,
  after_last, scan_digits, atoi_positive, add_stored, add_sequence, update_group,
}
use found_footy.Monitor.Identity.Groups.Sequences.{IsSound, Assigns, assign_group-Assigns}
use found_footy.Monitor.Identity.Groups.Tombstones.{IsKept}
use found_footy.Monitor.Identity.Groups.Reserved.{groups-IsSound}

abbrev early : Provided
early = record { index = 0; clock = pos 11; detail = "normal goal" }

abbrev late : Provided
late = record { index = 1; clock = pos 44; detail = "normal goal" }

abbrev first_goal : StoredSequence
first_goal = record { clock = pos 12; detail = "normal goal"; sequence = 1 }

best_lem_example :
    IsPlan 5 (early ∷ late ∷ []) (first_goal ∷ []) (best 5 (early ∷ late ∷ []) (first_goal ∷ []))
    × ((a : Alignment 5 (early ∷ late ∷ []) (first_goal ∷ []))
        → NoBetter (best 5 (early ∷ late ∷ []) (first_goal ∷ [])) (plan_of 5 a))
best_lem_example = best_lem 5 (early ∷ late ∷ []) (first_goal ∷ [])

abbrev goals : SequenceGroup
goals = record {
  key = record { team = 42; player = some 9; event_type = goal };
  providers = early ∷ late ∷ [];
  active = first_goal ∷ [];
  max_sequence = 2;
  sequences = 2 ∷ 1 ∷ [];
}

goals-IsSound : IsSound goals
goals-IsSound = record { distinct = (tt, tt); bounded = (omega arith, tt) }

assign_group-Assigns_example : Assigns goals [] (assign_group (λ _. false) goals [])
assign_group-Assigns_example = assign_group-Assigns (λ _. false) goals [] goals-IsSound

abbrev stored_goal : Event
stored_goal = record {
  id = 1;
  fixture_id = 7;
  natural_key = "7_42_9_Goal_3";
  event_type = goal;
  detail = "normal goal";
  team = record { id = 42; name = "Arsenal" };
  player = record { id = some 9; name = some "Striker" };
  assist = record { id = none; name = none };
  minute = pos 12;
  extra = none;
  first_seen_at = 500;
  debounce_count = 1;
  downstream_triggered = false;
  monitor_complete = false;
  download_complete = false;
  removed = false;
  removed_reason = none;
  removed_at = none;
  created_at = 500;
  updated_at = 500;
}

abbrev second_goal : ApiEvent
second_goal = record {
  elapsed = pos 44;
  extra = none;
  team = record { id = 42; name = "Arsenal"; winner = none };
  player = record { id = some 9; name = some "Striker" };
  assist = record { id = none; name = none };
  api_type = "Goal";
  detail = "Normal Goal";
  comments = none;
}

abbrev stored_groups : List SequenceGroup
stored_groups =
    record {
      key = record { team = 42; player = some 9; event_type = goal };
      providers = [];
      active = record { clock = pos 12; detail = "normal goal"; sequence = 3 } ∷ [];
      max_sequence = 3;
      sequences = 3 ∷ [];
    }
    ∷ []

stored_groups_run : add_stored_events (stored_goal ∷ []) [] ≡ some stored_groups
unfolding add_stored_events add_stored sequence_from_natural_key after_last atoi_positive
    scan_digits update_group add_sequence event_clock_minute
stored_groups_run = refl

groups-IsSound_example :
    let gs = add_api_events 0 (second_goal ∷ []) stored_groups in
    All IsSound gs × All (IsKept gs) (stored_goal ∷ [])
groups-IsSound_example =
    groups-IsSound (second_goal ∷ []) (stored_goal ∷ []) stored_groups stored_groups_run

composed_run : compose_natural_key 42 (some 9) goal 12 ≡ "42_9_goal_12"
unfolding compose_natural_key itoa decimal type_text
composed_run = refl

sequence_from_natural_key-compose_natural_key_example :
    sequence_from_natural_key (compose_natural_key 42 (some 9) goal 12) ≡ some 12
sequence_from_natural_key-compose_natural_key_example =
    sequence_from_natural_key-compose_natural_key 42 (some 9) goal 12 (omega arith) (omega arith)

abbrev one_nil : ApiFixture
one_nil = record {
  status = "ft";
  home = record { id = 42; name = "Arsenal"; winner = some true };
  away = record { id = 49; name = "Chelsea"; winner = some false };
  home_goals = some (pos 1);
  away_goals = some (pos 0);
  events = second_goal ∷ [];
}

score_event_parity_iff_example :
    (score_event_parity (new_score_event_inventory one_nil) 42 49 ≡ true) ↔ (
      (some (pos 1) ≡ some (pos (count (scores_for 42) (second_goal ∷ []))))
      × (some (pos 0) ≡ some (pos (count (scores_for 49) (second_goal ∷ []))))
      × (any (scores_for_other 42 49) (second_goal ∷ []) ≡ false))
score_event_parity_iff_example = score_event_parity_iff one_nil (ground arith)

-- ===== src/Examples/PresentationRuns.antt =====
-- The goals of one fixture as public readers see them (internal/contract/eventpresentation).
use found_footy.Common.{
  All, ℕ, true, false, none, some, Option, List, [], ◌∷◌, ◌≡◌, refl, inl, arith,
}
use found_footy.Common.Int.{pos}
use found_footy.Fixture.{Fixture, new}
use found_footy.Event.{Event, EventType}
use found_footy.Presentation.{
  Score, Projection, searching, complete, build, sort_events, insert, cut, join, put_all, play_all,
  mark_goals, advance, derive_state,
}
use found_footy.Presentation.Tracking.{IsOne}
use found_footy.Presentation.Boundary.{IsKeyed, expected, build-expected}

abbrev derby : Fixture
derby =
    new 100 7 (record { short = "ns"; long = "Not Started" }) 400
      (record { id = 42; name = "Arsenal" }) (record { id = 49; name = "Chelsea" })
      (record { id = 39; name = "Premier League"; season = 2026; country = "England"; round = "1" })

-- a goal of a team in a minute
abbrev goal_by : (id team_id minute : ℕ) → Event
goal_by id team_id minute = record {
  id = id;
  fixture_id = 7;
  natural_key = "";
  event_type = EventType.goal;
  detail = "normal goal";
  team = record { id = team_id; name = "" };
  player = record { id = some 9; name = some "Striker" };
  assist = record { id = none; name = none };
  minute = pos minute;
  extra = none;
  first_seen_at = 500;
  debounce_count = 3;
  downstream_triggered = true;
  monitor_complete = false;
  download_complete = false;
  removed = false;
  removed_reason = none;
  removed_at = none;
  created_at = 500;
  updated_at = 500;
}

-- The equaliser arrives before the opener that it follows.
abbrev late_goal : Event
late_goal = goal_by 2 49 60

abbrev opener : Event
opener = goal_by 1 42 12

abbrev goals : List Event
goals = late_goal ∷ opener ∷ []

abbrev score_shown_after : Option Projection → Option Score
score_shown_after none = none
score_shown_after (some p) = p.presentation.score_after

equaliser_run : score_shown_after (build derby goals 2) ≡ some (record { home = 1; away = 1 })
unfolding build sort_events insert cut join put_all play_all mark_goals advance new
equaliser_run = refl

state_run : (derive_state opener false ≡ searching) × (derive_state opener true ≡ complete)
unfolding derive_state
state_run = (refl, refl)

goals-IsKeyed : IsKeyed goals
goals-IsKeyed =
    let late_one : All (IsOne late_goal) (opener ∷ []) = (λ h. absurd (ground (arith, h)), tt) in
    let early_one : All (IsOne opener) (opener ∷ []) = (λ h. refl, tt) in
    let last : All (λ e. All (IsOne e) goals) (opener ∷ []) =
      ((λ h. absurd (ground (arith, h)), early_one), tt) in
    ((λ h. refl, late_one), last)

build-expected_example : build derby goals 2 ≡ some (expected derby goals late_goal)
build-expected_example = build-expected derby goals late_goal goals-IsKeyed (inl refl)

-- ===== src/Monitor/Score.antt =====
-- internal/activity/monitor/score_consistency.go: the score of a response against its goals.
pub mod Parity
use found_footy.Common.{
  ℕ, suc, ◌+◌, String, Bool, true, false, Option, none, some, List, [], ◌∷◌, ◌==◌, ◌&&◌,
  if◌then◌else◌, one_of,
}
use found_footy.Common.Int.{ℤ, pos, ltb_ℤ, eqb_ℤ, ◌+ℤ◌}
use found_footy.Event.{EventType, goal}
use found_footy.Monitor.Provider.{ApiFixture, ApiEvent}
use found_footy.Monitor.Identity.{trackable_type}

-- `scoreEventInventory`: the two reported scores by team, and the goals of each team that has some
pub record ScoreEventInventory : Type 0 where
  pub home_id : ℕ
  pub away_id : ℕ
  pub home_score : Option ℤ
  pub away_score : Option ℤ
  pub present_goals : List (ℕ × ℕ)

abbrev is_goal : Option EventType → Bool
is_goal (some goal) = true
is_goal _ = false

abbrev pub scores : ApiEvent → Bool
scores e = is_goal (trackable_type e)

-- `presentGoals[team]++`
unfoldable pub add_goal : (team : ℕ) → List (ℕ × ℕ) → List (ℕ × ℕ)
add_goal team [] = (team, 1) ∷ []
add_goal team (entry ∷ rest) =
    let more = add_goal team rest in
    if entry.0 == team then (entry.0, suc entry.1) ∷ rest else entry ∷ more

-- the loop over the events
unfoldable pub count_goals : List ApiEvent → List (ℕ × ℕ) → List (ℕ × ℕ)
count_goals [] present = present
count_goals (e ∷ es) present =
    count_goals es (if scores e then add_goal e.team.id present else present)

-- `newScoreEventInventory`
unfoldable pub new_score_event_inventory : ApiFixture → ScoreEventInventory
new_score_event_inventory f = record {
  home_id = f.home.id;
  away_id = f.away.id;
  home_score = f.home_goals;
  away_score = f.away_goals;
  present_goals = count_goals f.events [];
}

-- `reportedScore[team]`, none where the team is unknown or its score is nil; of two entries of one
-- team the later stays
abbrev pub reported_score : ScoreEventInventory → ℕ → Option ℤ
reported_score i team =
    if i.away_id == team then i.away_score else if i.home_id == team then i.home_score else none

-- `presentGoals[team]`
unfoldable pub goals_of : List (ℕ × ℕ) → ℕ → ℕ
goals_of [] team = 0
goals_of (entry ∷ rest) team =
    let more = goals_of rest team in if entry.0 == team then entry.1 else more

-- the sum over the map
unfoldable pub total_goals : List (ℕ × ℕ) → ℕ
total_goals [] = 0
total_goals (entry ∷ rest) = entry.1 + total_goals rest

abbrev exceeds : Option ℤ → ℕ → Bool
exceeds none n = false
exceeds (some reported) n = ltb_ℤ (pos n) reported

-- `scoreRequiresMissingGoal`
unfoldable pub score_requires_missing_goal : ScoreEventInventory → ℕ → Bool
score_requires_missing_goal i team = exceeds (reported_score i team) (goals_of i.present_goals team)

abbrev pub parity_of : (home away : Option ℤ) → (home_goals away_goals total : ℕ) → Bool
parity_of (some h) (some a) home_goals away_goals total =
    eqb_ℤ h (pos home_goals) && (eqb_ℤ a (pos away_goals) && eqb_ℤ (pos total) (h +ℤ a))
parity_of (some h) none home_goals away_goals total = false
parity_of none a home_goals away_goals total = false

-- `scoreEventParity`
unfoldable pub score_event_parity : ScoreEventInventory → (home away : ℕ) → Bool
score_event_parity i home away =
    parity_of (reported_score i home) (reported_score i away) (goals_of i.present_goals home)
      (goals_of i.present_goals away) (total_goals i.present_goals)

-- `terminalProviderScoreEventParity`
unfoldable pub terminal_provider_score_event_parity :
    ScoreEventInventory → (status : String) → (home away : ℕ) → Option Bool
terminal_provider_score_event_parity i status home away =
    if one_of status ("ft" ∷ "aet" ∷ "pen" ∷ [])
    then some (score_event_parity i home away)
    else none

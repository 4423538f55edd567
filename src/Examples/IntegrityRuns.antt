-- ===== src/Examples/IntegrityRuns.antt =====
-- Provider observations of one match (internal/domain/providerintegrity, evaluate.go, enforcement.go
-- and health_scope.go).
use found_footy.Common.{
  ℕ, ◌≤◌, String, true, false, none, some, List, [], ◌∷◌, ◌≡◌, refl, ◌≢◌, ◌↔◌, ◌⊎◌, one_of, str_eq,
  count, leb, ◌++◌, ◌&&◌, ◌==◌, length,
}
use found_footy.Common.Int.{pos, ◌-ℤ◌, ◌+ℤ◌}
use found_footy.Integrity.Policy.{policy_valid, severity, trusted, positive_only, rejected}
use found_footy.Integrity.Facts.{
  FixtureFacts, EventFact, FixtureComparison, FixtureVerdict, confirmed_events_missing, anomalous,
}
use found_footy.Integrity.Clock.{
  provider_phase_regressed, material_clock_regressed, fixture_clock, event_clock, phase_rank,
  swaps_break,
}
use found_footy.Integrity.Assess.{
  provider_field_cleared, has_key, missing_events, identity_changed, assess_fixture,
  aggregate_fixture_verdicts, assess_batch, sum_missing, supported_goal_correction,
  supported_event_replacement, other_regression, provider_score_decreased,
}
use found_footy.Integrity.Assess.Verdict.{
  IsExplained, assess_fixture-policy, trusted_loses_at_most_one,
}
use found_footy.Integrity.Assess.Batch.{aggregate_fixture_verdicts-append, assess_batch_lem}
use found_footy.Integrity.Correlate.{
  HealthEpisode, integrity_conflict, correlate_health, is_recent, correlate_loop, note_if,
  sorted_fixture_ids,
}
use found_footy.Integrity.Correlate.Distinct.{in_conflict, correlate_health-policy}

abbrev match : ℕ → FixtureFacts
match home = record {
  fixture_id = 7;
  home_id = 42;
  away_id = 49;
  league_id = 39;
  home_name = "Arsenal";
  away_name = "Chelsea";
  league_name = "Premier League";
  status = "2h";
  terminal = false;
  elapsed = some (pos 60);
  extra = none;
  home_score = some (pos home);
  away_score = some (pos 0);
  has_events = true;
}

abbrev goal_at : String → ℕ → EventFact
goal_at key minute = record {
  key = key;
  team_id = 42;
  player_id = some 9;
  event_type = "goal";
  detail = "normal goal";
  minute = pos minute;
  extra = none;
  debounce_count = 3;
}

abbrev goals : List EventFact
goals = goal_at "a" 10 ∷ goal_at "b" 55 ∷ []

-- nothing has changed
abbrev steady : FixtureComparison
steady = record {
  stored = match 2;
  observed = match 2;
  stored_events = goals;
  confirmed_events = goals;
  observed_events = goals;
}

-- the goal of minute 55 is taken back, with the score
abbrev overturned : FixtureComparison
overturned = record steady { observed = match 1; observed_events = goal_at "a" 10 ∷ [] }

-- both goals are gone and the score is not
abbrev outage : FixtureComparison
outage = record steady { observed_events = [] }

overturned_run :
    ((assess_fixture overturned).policy ≡ trusted)
    × ((assess_fixture outage).policy ≡ positive_only)
    × ((assess_fixture outage).reasons ≡ confirmed_events_missing ∷ [])
unfolding assess_fixture supported_goal_correction supported_event_replacement other_regression
    identity_changed missing_events has_key provider_phase_regressed material_clock_regressed
    provider_field_cleared provider_score_decreased fixture_clock event_clock phase_rank str_eq
    one_of ◌-ℤ◌ ◌+ℤ◌ swaps_break
overturned_run = (refl, refl, refl)

assess_fixture-policy_example :
    let v = assess_fixture outage in
    ((v.policy ≡ trusted) ↔ (v.reasons ≡ []))
    × ((v.policy ≡ trusted) ↔ IsExplained outage)
    × ((v.policy ≡ rejected) ↔ (identity_changed outage ≡ true))
    × ((v.policy ≡ positive_only) ↔ ((v.policy ≢ trusted) × (identity_changed outage ≡ false)))
assess_fixture-policy_example = assess_fixture-policy outage

trusted_loses_at_most_one_example : (assess_fixture overturned).missing_confirmed_events ≤ 1
trusted_loses_at_most_one_example =
    trusted_loses_at_most_one overturned (λ e. leb 3 e.debounce_count) refl overturned_run.0

abbrev verdicts : List FixtureVerdict
verdicts = assess_fixture outage ∷ assess_fixture steady ∷ []

aggregate_fixture_verdicts-append_example :
    let b = aggregate_fixture_verdicts (verdicts ++ verdicts) in
    (count (λ v. v.fixture_id == 7) b.fixtures
      ≡ count
          (λ v. (policy_valid v.policy && anomalous v.policy) && (v.fixture_id == 7))
          (verdicts ++ verdicts))
    × (b.fixtures
        ≡ (aggregate_fixture_verdicts verdicts).fixtures
          ++ (aggregate_fixture_verdicts verdicts).fixtures)
    × (b.policy ≡ (aggregate_fixture_verdicts (verdicts ++ verdicts)).policy)
    × (severity (aggregate_fixture_verdicts verdicts).policy ≤ severity b.policy)
    × ((b.policy ≡ positive_only) ↔ ((2 ≤ length b.fixtures) ⊎ (3 ≤ sum_missing b.fixtures)))
aggregate_fixture_verdicts-append_example =
    aggregate_fixture_verdicts-append (λ v. v.fixture_id == 7) verdicts verdicts

assess_batch_lem_example :
    (2 ≤ count (λ c. anomalous (assess_fixture c).policy) (outage ∷ outage ∷ [])
      → (assess_batch (outage ∷ outage ∷ [])).policy ≡ positive_only)
    × (count (λ c. anomalous (assess_fixture c).policy) (outage ∷ outage ∷ []) ≡ 0
        → ((assess_batch (outage ∷ outage ∷ [])).policy ≡ trusted)
          × ((assess_batch (outage ∷ outage ∷ [])).fixtures ≡ []))
assess_batch_lem_example = assess_batch_lem (outage ∷ outage ∷ [])

abbrev conflict_of : ℕ → HealthEpisode
conflict_of id = record {
  fixture_id = id;
  cause = integrity_conflict;
  started_at = 900;
  resolved_at = 0;
}

abbrev episodes : List HealthEpisode
episodes = conflict_of 9 ∷ conflict_of 7 ∷ conflict_of 9 ∷ []

episodes_run :
    ((correlate_health 1000 episodes).policy ≡ positive_only)
    × ((correlate_health 1000 episodes).conflict_fixtures ≡ 7 ∷ 9 ∷ [])
unfolding correlate_health correlate_loop note_if is_recent sorted_fixture_ids
episodes_run = (refl, refl)

correlate_health-policy_example : ((correlate_health 1000 episodes).policy ≡ positive_only) ↔ (
    (a : ℕ) × (b : ℕ) × (a ≢ b)
    × (in_conflict 1000 a episodes ≡ true)
    × (in_conflict 1000 b episodes ≡ true))
correlate_health-policy_example = correlate_health-policy 1000 episodes

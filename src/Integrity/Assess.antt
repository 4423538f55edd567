-- ===== src/Integrity/Assess.antt =====
-- internal/domain/providerintegrity/evaluate.go: the verdict on one fixture observation and on a
-- batch of them.

mod Evidence
pub mod Verdict
pub mod Batch
unfoldable pub use Evidence.*
use found_footy.Common.{
  ℕ, ◌+◌, Bool, not, List, [], ◌∷◌, leb, ltb, ◌&&◌, ◌||◌, if◌then◌else◌, select, length, map,
}
use found_footy.Integrity.Policy.{MutationPolicy, trusted, positive_only, rejected, policy_valid}
use found_footy.Integrity.Facts.{
  Reason, fixture_identity_changed, phase_regressed, terminal_regressed, clock_regressed,
  score_decreased, populated_field_cleared, confirmed_events_missing, multiple_fixture_regressions,
  multiple_event_disappearances, FixtureComparison, FixtureVerdict, BatchVerdict, anomalous,
}
use found_footy.Integrity.Clock.{provider_phase_regressed, material_clock_regressed}

-- `if test { reasons = append(reasons, reason) }`, with the later appends as `rest`
abbrev pub reason_if : Bool → Reason → List Reason → List Reason
reason_if test reason rest = if test then reason ∷ rest else rest

abbrev policy_of : (reasons : List Reason) → (identity : Bool) → MutationPolicy
policy_of [] identity = trusted
policy_of (r ∷ rs) identity = if identity then rejected else positive_only

-- the reasons of `AssessFixture` in the order of its appends
fixture_reasons : FixtureComparison → (corrected replaced : Bool) → List Reason
fixture_reasons c corrected replaced = reason_if (identity_changed c) fixture_identity_changed (
    reason_if (provider_phase_regressed c.stored.status c.observed.status) phase_regressed (
      reason_if (c.stored.terminal && not c.observed.terminal) terminal_regressed (
        reason_if (material_clock_regressed c.stored c.observed) clock_regressed (
          reason_if (provider_field_cleared c) populated_field_cleared (
            reason_if (provider_score_decreased c.stored c.observed && not corrected)
              score_decreased
              (reason_if
                (ltb 0 (length (missing_events c.confirmed_events c.observed_events))
                  && (not corrected && not replaced))
                confirmed_events_missing []))))))

-- `AssessFixture`
unfoldable pub assess_fixture : FixtureComparison → FixtureVerdict
unfolding fixture_reasons
assess_fixture c =
    let missing = missing_events c.confirmed_events c.observed_events in
    let missing_stored = missing_events c.stored_events c.observed_events in
    let corrected = supported_goal_correction c missing_stored (other_regression c) in
    let replaced = supported_event_replacement c missing (other_regression c) in
    let reasons = fixture_reasons c corrected replaced in
    record {
      fixture_id = c.stored.fixture_id;
      policy = policy_of reasons (identity_changed c);
      reasons = reasons;
      missing_confirmed_events = length missing;
      supported_goal_correction = corrected;
      supported_replacement = replaced;
    }

abbrev pub counted : FixtureVerdict → Bool
counted v = policy_valid v.policy && anomalous v.policy

abbrev pub sum_missing : List FixtureVerdict → ℕ
sum_missing [] = 0
sum_missing (v ∷ vs) = v.missing_confirmed_events + sum_missing vs

-- `AggregateFixtureVerdicts`
unfoldable pub aggregate_fixture_verdicts : List FixtureVerdict → BatchVerdict
aggregate_fixture_verdicts verdicts =
    let fixtures = select counted verdicts in
    let many_fixtures = leb 2 (length fixtures) in
    let many_missing = leb 3 (sum_missing fixtures) in
    record {
      policy = if many_fixtures || many_missing then positive_only else trusted;
      reasons =
          reason_if many_fixtures multiple_fixture_regressions
            (reason_if many_missing multiple_event_disappearances []);
      fixtures = fixtures;
      regressed_fixtures = length fixtures;
      missing_confirmed_events = sum_missing fixtures;
    }

-- `AssessBatch`
unfoldable pub assess_batch : List FixtureComparison → BatchVerdict
assess_batch comparisons = aggregate_fixture_verdicts (map assess_fixture comparisons)

-- ===== src/Integrity/Collector.antt =====
-- internal/domain/providerintegrity/collector_types.go and collector_fixture.go: the incidents of one
-- fixture, over the polls that observe it.
pub mod Observe
pub mod Incidents
pub mod Provider
pub mod Poll
use found_footy.Common.{
  ℕ, String, Bool, true, false, not, Option, none, List, str_eq, ltb, ◌==◌, ◌&&◌, ◌||◌,
  if◌then◌else◌, is_some, is_none, Time, since, is_zero,
}
use found_footy.Common.Int.{ℤ}
use found_footy.Integrity.Policy.{MutationPolicy}
use found_footy.Integrity.Facts.{
  Reason, fixture_identity_changed, phase_regressed, terminal_regressed, clock_regressed,
  score_decreased, populated_field_cleared, confirmed_events_missing, multiple_fixture_regressions,
  multiple_event_disappearances, FixtureFacts, EventFact, FixtureComparison,
}
use found_footy.Integrity.Clock.{phase_rank}
use found_footy.Integrity.Freshness.{
  Freshness, boundary_warning, observation_gap_limit, clock_progressed,
}
use found_footy.Integrity.Correlate.{
  HealthCause, clock_stalled, integrity_conflict, unavailable, integrity,
}
use found_footy.Integrity.Recovery.{FixtureHealthProbe}

-- `Availability`; a text that is none of the four constants is `unknown`
pub data Availability : Type 0 where
  usable transport contract unobserved : Availability
  unknown : String → Availability

abbrev pub is_usable : Availability → Bool
is_usable usable = true
is_usable _ = false

-- `HealthObservation`
pub record HealthObservation : Type 0 where
  pub fixture_id : ℕ
  pub availability : Availability
  pub failure_reason : String
  pub interrupted : Bool
  pub baseline_last_polled : Option Time
  pub comparison : FixtureComparison

-- `HealthPoll`
pub record HealthPoll : Type 0 where
  pub id : String
  pub at : Time
  pub observations : List HealthObservation

-- `HealthIncident`
pub record HealthIncident : Type 0 where
  pub cause : HealthCause
  pub started_at : Time
  pub last_credible_at : Time
  pub policy : MutationPolicy
  pub baseline : FixtureFacts
  pub stored_events : List EventFact
  pub confirmed_events : List EventFact
  pub probes : List FixtureHealthProbe

-- `FixtureHealthEvidence`
pub record FixtureHealthEvidence : Type 0 where
  pub version : ℕ
  pub availability : Availability
  pub failure_reason : String
  pub freshness : Freshness
  pub incidents : List HealthIncident

-- `FixtureHealth`
pub record FixtureHealth : Type 0 where
  pub fixture_id : ℕ
  pub last_poll_id : String
  pub last_observed_at : Time
  pub last_usable_at : Time
  pub continuous_since : Time
  pub clock_progress_at : Time
  pub phase_since : Time
  pub observed_status : String
  pub clock_status : String
  pub clock_elapsed : Option ℤ
  pub clock_extra : Option ℤ
  pub evidence : FixtureHealthEvidence

-- `HealthTransition`
pub record HealthTransition : Type 0 where
  pub fixture_id : ℕ
  pub cause : HealthCause
  pub started_at : Time
  pub resolved : Bool
  pub last_credible_at : Time
  pub availability : Option Availability
  pub missing_event_keys : List String
  pub baseline : Option FixtureFacts
  pub observed : Option FixtureFacts
  pub failure_reason : String

-- Go's `==` on causes, which are different texts: by a number for each
abbrev reason_code : Reason → ℕ
reason_code fixture_identity_changed = 4
reason_code phase_regressed = 5
reason_code terminal_regressed = 6
reason_code clock_regressed = 7
reason_code score_decreased = 8
reason_code populated_field_cleared = 9
reason_code confirmed_events_missing = 10
reason_code multiple_fixture_regressions = 11
reason_code multiple_event_disappearances = 12

unfoldable pub cause_code : HealthCause → ℕ
cause_code clock_stalled = 0
cause_code HealthCause.boundary_warning = 1
cause_code integrity_conflict = 2
cause_code unavailable = 3
cause_code (integrity reason) = reason_code reason

abbrev pub same_cause : HealthCause → HealthCause → Bool
same_cause a b = cause_code a == cause_code b

-- the zero value `FixtureFacts{}` but for the fixture and its clock
abbrev pub bare_facts : ℕ → String → (elapsed extra : Option ℤ) → FixtureFacts
bare_facts id status elapsed extra = record {
  fixture_id = id;
  home_id = 0;
  away_id = 0;
  league_id = 0;
  home_name = "";
  away_name = "";
  league_name = "";
  status = status;
  terminal = false;
  elapsed = elapsed;
  extra = extra;
  home_score = none;
  away_score = none;
  has_events = false;
}

-- `clockFacts`
abbrev pub clock_facts : FixtureHealth → FixtureFacts
clock_facts s = bare_facts s.fixture_id s.clock_status s.clock_elapsed s.clock_extra

abbrev restart_if : Bool → Time → FixtureHealth → FixtureHealth
restart_if test at s = if test then record s { continuous_since = at } else s

-- the tests of `advanceClock` for a clock that stands further, or is the first
unfoldable pub clock_moved : FixtureHealth → FixtureFacts → Bool
clock_moved s facts =
    str_eq s.clock_status ""
    || ((is_none (phase_rank s.clock_status) && is_some (phase_rank facts.status))
        || ((str_eq s.clock_status facts.status
              && (is_none s.clock_elapsed && is_some facts.elapsed))
            || clock_progressed (clock_facts s) facts))

-- `advanceClock`
unfoldable pub advance_clock : FixtureHealth → Time → HealthObservation → FixtureHealth
unfolding clock_moved
advance_clock s at o =
    let facts = o.comparison.observed in
    let a =
      if str_eq s.observed_status facts.status
      then s
      else record s { observed_status = facts.status; continuous_since = at; phase_since = at } in
    let b =
      restart_if
        (is_zero a.last_usable_at
          || (is_zero a.continuous_since
              || (ltb observation_gap_limit (since at a.last_usable_at) || o.interrupted)))
        at a in
    let c =
      if clock_moved b facts
      then record (restart_if (not (str_eq b.clock_status facts.status)) at b) {
        clock_status = facts.status;
        clock_elapsed = facts.elapsed;
        clock_extra = facts.extra;
        clock_progress_at = at;
      }
      else b in
    restart_if (not (str_eq facts.status c.clock_status) || is_none facts.elapsed) at c

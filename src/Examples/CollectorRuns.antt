-- ===== src/Examples/CollectorRuns.antt =====
-- A stalled clock and a failed poll (internal/domain/providerintegrity, collector_fixture.go).
use Prim.Native.String.{len}
use found_footy.Common.{
  ◌↔◌, ◌≢◌, ◌<◌, All, true, ℕ, List, inl, zero_time, ◌*◌, ◌≤◌, false, none, some, [], ◌∷◌, ◌≡◌,
  refl, minute, map, str_eq, one_of,
}
use found_footy.Common.Int.{pos}
use found_footy.Integrity.Policy.{positive_only, trusted, rejected, severity, restrict_policies}
use found_footy.Integrity.Facts.{FixtureFacts}
use found_footy.Integrity.Freshness.{stalled}
use found_footy.Integrity.Correlate.{
  clock_stalled, unavailable, integrity_conflict, correlate_health, correlate_loop, is_recent,
  sorted_fixture_ids, add_id, note_if,
}
use found_footy.Integrity.Recovery.{
  freshness_recovered, clock_loop, clock_turn, reset_streak, clock_settled, accepts,
  provider_integrity_recovered, provider_loop, provider_turn,
}
use found_footy.Integrity.Collector.{
  HealthIncident, HealthObservation, HealthPoll, FixtureHealth, HealthTransition, usable, transport,
  bare_facts, cause_code,
}
use found_footy.Integrity.Collector.Observe.{
  observe_fixture, record_coverage, resolve_by, resolve_incidents, open_incident, open_incidents,
  fixture_health_policy, combine_policies,
}
use found_footy.Integrity.Collector.Poll.{IsFit, AreApart, poll_valid, poll_valid_iff}
use found_footy.Integrity.Collector.Provider.{
  ProviderHealth, observe_provider, initial_policy, noted_by, is_systemic, last_three, poll_probe,
  noted_state, note_transitions, raise_restriction, probe_provider, cause_family,
  fixture_has_family,
}
use found_footy.Integrity.Collector.Provider.Generation.{Outcome, observe_provider_policy}
use found_footy.Integrity.Collector.Incidents.{unresolved_restricts}

abbrev second_half : FixtureFacts
second_half = bare_facts 7 "2h" (some (pos 60)) none

abbrev stall : HealthIncident
stall = record {
  cause = clock_stalled;
  started_at = 10 * minute;
  last_credible_at = 6 * minute;
  policy = positive_only;
  baseline = second_half;
  stored_events = [];
  confirmed_events = [];
  probes = [];
}

abbrev stalled_fixture : FixtureHealth
stalled_fixture = record {
  fixture_id = 7;
  last_poll_id = "poll-1";
  last_observed_at = 10 * minute;
  last_usable_at = 10 * minute;
  continuous_since = 2 * minute;
  clock_progress_at = 6 * minute;
  phase_since = 2 * minute;
  observed_status = "2h";
  clock_status = "2h";
  clock_elapsed = some (pos 60);
  clock_extra = none;
  evidence = record {
    version = 1;
    availability = usable;
    failure_reason = "";
    freshness = stalled;
    incidents = stall ∷ [];
  };
}

abbrev failed_observation : HealthObservation
failed_observation = record {
  fixture_id = 7;
  availability = transport;
  failure_reason = "timeout";
  interrupted = false;
  baseline_last_polled = none;
  comparison = record {
    stored = second_half;
    observed = bare_facts 7 "" none none;
    stored_events = [];
    confirmed_events = [];
    observed_events = [];
  };
}

abbrev next_poll : HealthPoll
next_poll = record { id = "poll-2"; at = 11 * minute; observations = failed_observation ∷ [] }

-- The failed poll leaves the stalled clock and opens its own incident.
failed_poll_run :
    map
      (λ i. i.cause)
      (observe_fixture stalled_fixture next_poll failed_observation).0.evidence.incidents
    ≡ clock_stalled ∷ unavailable ∷ []
unfolding observe_fixture record_coverage resolve_incidents resolve_by open_incidents open_incident
    freshness_recovered clock_loop clock_turn reset_streak clock_settled accepts str_eq one_of
    cause_code
failed_poll_run = refl

failed_poll_policy :
    fixture_health_policy (observe_fixture stalled_fixture next_poll failed_observation).0
    ≡ rejected
unfolding fixture_health_policy combine_policies restrict_policies observe_fixture record_coverage
    resolve_incidents resolve_by open_incidents open_incident freshness_recovered clock_loop
    clock_turn reset_streak clock_settled accepts str_eq one_of cause_code
failed_poll_policy = refl

unresolved_restricts_example :
    severity positive_only
    ≤ severity
        (fixture_health_policy (observe_fixture stalled_fixture next_poll failed_observation).0)
unfolding resolve_by freshness_recovered clock_loop clock_turn reset_streak clock_settled accepts
    str_eq one_of
unresolved_restricts_example =
    unresolved_restricts stalled_fixture next_poll failed_observation [] [] stall refl refl

-- a conflict of a fixture from the time of `next_poll`
abbrev conflict_of : ℕ → HealthTransition
conflict_of fixture = record {
  fixture_id = fixture;
  cause = integrity_conflict;
  started_at = 11 * minute;
  resolved = false;
  last_credible_at = 10 * minute;
  availability = none;
  missing_event_keys = [];
  baseline = none;
  observed = none;
  failure_reason = "";
}

abbrev calm : ProviderHealth
calm = record {
  last_observed_at = 10 * minute;
  generation = 4;
  policy = trusted;
  evidence = record { version = 1; recent = []; incident_at = zero_time; probes = [] };
}

-- two fixtures in conflict since this poll
abbrev two_conflicts : List HealthTransition
two_conflicts = conflict_of 7 ∷ conflict_of 8 ∷ []

-- The two conflicts restrict the provider and open its next generation.
systemic_run :
    let t = (observe_provider calm next_poll [] two_conflicts).0 in
    (t.policy ≡ positive_only) × (t.generation ≡ 5)
unfolding observe_provider note_transitions raise_restriction probe_provider initial_policy
    correlate_health correlate_loop is_recent sorted_fixture_ids add_id note_if
    provider_integrity_recovered provider_loop provider_turn accepts str_eq cause_family
    fixture_has_family cause_code one_of
systemic_run = (refl, refl)

observe_provider_policy_example :
    let noted = noted_by calm next_poll [] two_conflicts in
    let systemic = is_systemic next_poll noted in
    let probes = last_three (poll_probe next_poll systemic noted.1 ∷ []) in
    Outcome systemic
      (provider_integrity_recovered probes)
      (noted_state calm noted.0)
      (observe_provider calm next_poll [] two_conflicts).0
unfolding initial_policy
observe_provider_policy_example = observe_provider_policy calm next_poll [] two_conflicts (inl refl)

poll_valid_iff_example : (poll_valid next_poll ≡ true) ↔ (
    (str_eq "poll-2" "" ≡ false)
    × (len "poll-2" ≤ 200)
    × (11 * minute ≢ zero_time)
    × (0 < 1)
    × (1 ≤ 1024)
    × All IsFit (failed_observation ∷ [])
    × AreApart (failed_observation ∷ []))
poll_valid_iff_example = poll_valid_iff next_poll

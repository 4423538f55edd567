-- ===== src/Integrity/Collector/Observe.antt =====
-- internal/domain/providerintegrity/collector_fixture.go: one poll of one fixture.
use found_footy.Common.{
  ℕ, ◌-◌, Bool, true, false, not, none, some, List, [], ◌∷◌, ◌++◌, map, any, length, drop, str_eq,
  ltb, ◌==◌, ◌&&◌, ◌||◌, if◌then◌else◌, Time, after, zero_time,
}
use found_footy.Integrity.Policy.{
  MutationPolicy, trusted, positive_only, rejected, restrict_policies,
}
use found_footy.Integrity.Facts.{
  Reason, fixture_identity_changed, confirmed_events_missing, FixtureFacts, EventFact,
}
use found_footy.Integrity.Assess.{assess_fixture, missing_events}
use found_footy.Integrity.Freshness.{
  Freshness, unassessed, stalled, boundary_warning, assess_freshness,
}
use found_footy.Integrity.Correlate.{HealthCause, clock_stalled, unavailable, integrity}
use found_footy.Integrity.Recovery.{FixtureHealthProbe, freshness_recovered}
use found_footy.Integrity.Collector.{
  HealthPoll, HealthObservation, HealthIncident, FixtureHealth, HealthTransition, is_usable,
  same_cause, bare_facts, clock_facts, advance_clock,
}

-- the part of `ObserveFixture` that records coverage, clock and freshness
unfoldable pub record_coverage : FixtureHealth → HealthPoll → HealthObservation → FixtureHealth
record_coverage s poll o =
    let version = if s.evidence.version == 0 then 1 else s.evidence.version in
    let moved = advance_clock s poll.at o in
    let fresh =
      (assess_freshness (record {
        facts = o.comparison.observed;
        observed_at = poll.at;
        previous_usable_at = s.last_usable_at;
        continuous_since = moved.continuous_since;
        clock_progress_at = moved.clock_progress_at;
        usable = true;
      })).state in
    let seen =
      if is_usable o.availability
      then record moved { last_usable_at = poll.at }
      else record s { continuous_since = zero_time } in
    record seen {
      last_poll_id = poll.id;
      last_observed_at = poll.at;
      evidence = record {
        version = version;
        availability = o.availability;
        failure_reason = o.failure_reason;
        freshness = if is_usable o.availability then fresh else unassessed;
        incidents = s.evidence.incidents;
      };
    }

-- the last 32 probes
abbrev last_probes : List FixtureHealthProbe → List FixtureHealthProbe
last_probes probes = if ltb 32 (length probes) then drop (length probes - 32) probes else probes

abbrev clock_probe : HealthPoll → HealthObservation → FixtureHealthProbe
clock_probe poll o = record {
  id = poll.id;
  at = poll.at;
  usable = is_usable o.availability && not o.interrupted;
  facts =
      bare_facts o.fixture_id o.comparison.observed.status o.comparison.observed.elapsed
        o.comparison.observed.extra;
}

-- the incident with the poll's probe, and whether its clock has recovered
abbrev probe_clock : HealthPoll → HealthObservation → HealthIncident → HealthIncident × Bool
probe_clock poll o i =
    let probes = last_probes (i.probes ++ clock_probe poll o ∷ []) in
    (record i { probes = probes }, freshness_recovered i.baseline probes)

-- is the observation, against the incident's own baseline, without the incident's reason?
abbrev reason_gone : HealthObservation → HealthIncident → Bool
reason_gone o i =
    let against = record o.comparison {
      stored = i.baseline;
      confirmed_events = i.confirmed_events;
      stored_events = i.stored_events;
    } in
    is_usable o.availability
    && not (any (λ r. same_cause (integrity r) i.cause) (assess_fixture against).reasons)

-- the `switch` on an incident's cause: the incident after the poll, and whether it is resolved
unfoldable pub resolve_by :
    HealthCause → HealthPoll → HealthObservation → HealthIncident → HealthIncident × Bool
resolve_by unavailable poll o i = (i, is_usable o.availability)
resolve_by clock_stalled poll o i = probe_clock poll o i
resolve_by HealthCause.boundary_warning poll o i = probe_clock poll o i
resolve_by HealthCause.integrity_conflict poll o i = (i, reason_gone o i)
resolve_by (integrity r) poll o i = (i, reason_gone o i)

abbrev pub resolve_one : HealthPoll → HealthObservation → HealthIncident → HealthIncident × Bool
resolve_one poll o i = resolve_by i.cause poll o i

abbrev resolved_transition : ℕ → HealthIncident → HealthTransition
resolved_transition id i = record {
  fixture_id = id;
  cause = i.cause;
  started_at = i.started_at;
  resolved = true;
  last_credible_at = i.last_credible_at;
  availability = none;
  missing_event_keys = [];
  baseline = none;
  observed = none;
  failure_reason = "";
}

-- the loop over the incidents: those retained, and the transitions of the others
unfoldable pub resolve_incidents :
    ℕ
    → HealthPoll
    → HealthObservation
    → List HealthIncident
    → List HealthIncident × List HealthTransition
resolve_incidents id poll o [] = ([], [])
resolve_incidents id poll o (i ∷ is) =
    let rest = resolve_incidents id poll o is in
    let one = resolve_one poll o i in
    if one.1 then (rest.0, resolved_transition id one.0 ∷ rest.1) else (one.0 ∷ rest.0, rest.1)

abbrev pub Ledger : Type 0
Ledger = List HealthIncident × List HealthTransition

-- What the closure `open` reads: the state after coverage, the previous usable time, the poll and
-- the observation.
module _ (s : FixtureHealth) (previous_usable : Time) (poll : HealthPoll)
    (o : HealthObservation) where
  abbrev credible_at : HealthCause → Time
  credible_at cause =
      if same_cause cause clock_stalled || same_cause cause HealthCause.boundary_warning
      then s.clock_progress_at
      else if same_cause cause unavailable
      then previous_usable
      else zero_time

  abbrev opened : HealthCause → MutationPolicy → FixtureFacts → List EventFact → HealthIncident
  opened cause policy baseline events = record {
    cause = cause;
    started_at = poll.at;
    last_credible_at = credible_at cause;
    policy = policy;
    baseline = baseline;
    stored_events = o.comparison.stored_events;
    confirmed_events = events;
    probes = [];
  }

  abbrev opened_transition : HealthCause → FixtureFacts → List EventFact → HealthTransition
  opened_transition cause baseline events = record {
    fixture_id = s.fixture_id;
    cause = cause;
    started_at = poll.at;
    resolved = false;
    last_credible_at = credible_at cause;
    availability = some o.availability;
    missing_event_keys =
        if same_cause cause (integrity confirmed_events_missing)
        then map (λ e. e.key) (missing_events events o.comparison.observed_events)
        else [];
    baseline = if is_usable o.availability then some baseline else none;
    observed = if is_usable o.availability then some o.comparison.observed else none;
    failure_reason = o.failure_reason;
  }

  -- `open`: nothing where an incident of the cause is unresolved
  unfoldable pub open_incident :
      HealthCause → MutationPolicy → FixtureFacts → List EventFact → Ledger → Ledger
  open_incident cause policy baseline events (incidents, transitions) =
      if any (λ i. same_cause i.cause cause) incidents then (incidents, transitions) else (
        incidents ++ opened cause policy baseline events ∷ [],
        transitions ++ opened_transition cause baseline events ∷ [],
      )

  -- the `switch` on the freshness
  unfoldable pub open_clock : Freshness → Ledger → Ledger
  unfolding open_incident
  open_clock stalled ledger = open_incident clock_stalled positive_only (clock_facts s) [] ledger
  open_clock boundary_warning ledger =
      open_incident HealthCause.boundary_warning trusted (clock_facts s) [] ledger
  open_clock _ ledger = ledger

  abbrev pub reason_policy : Reason → MutationPolicy
  reason_policy fixture_identity_changed = rejected
  reason_policy _ = positive_only

  -- the loop over the verdict's reasons
  unfoldable pub open_reasons : List Reason → Ledger → Ledger
  open_reasons [] ledger = ledger
  open_reasons (r ∷ rs) ledger = open_reasons rs (
      open_incident (integrity r) (reason_policy r) o.comparison.stored
        o.comparison.confirmed_events ledger)

  -- everything that the poll opens
  unfoldable pub open_incidents : Ledger → Ledger
  open_incidents ledger =
      if not (is_usable o.availability)
      then open_incident unavailable rejected (bare_facts 0 "" none none) [] ledger
      else open_reasons (assess_fixture o.comparison).reasons
          (open_clock s.evidence.freshness ledger)

-- `ObserveFixture`
unfoldable pub observe_fixture :
    FixtureHealth → HealthPoll → HealthObservation → FixtureHealth × List HealthTransition
observe_fixture s poll o =
    if not (after poll.at s.last_observed_at) || str_eq poll.id s.last_poll_id
    then (s, [])
    else (let t = record_coverage s poll o in
        let ledger =
          open_incidents t s.last_usable_at poll o
            (resolve_incidents t.fixture_id poll o t.evidence.incidents) in
        (record t { evidence = record t.evidence { incidents = ledger.0 } }, ledger.1))

-- the loop of `FixtureHealthPolicy`
unfoldable pub combine_policies : MutationPolicy → List HealthIncident → MutationPolicy
combine_policies policy [] = policy
combine_policies policy (i ∷ is) = combine_policies (restrict_policies (policy ∷ i.policy ∷ [])) is

-- `FixtureHealthPolicy`
unfoldable pub fixture_health_policy : FixtureHealth → MutationPolicy
fixture_health_policy s = combine_policies trusted s.evidence.incidents

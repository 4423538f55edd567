-- ===== src/Integrity/Collector/Provider.antt =====
-- internal/domain/providerintegrity/collector_provider.go: the restriction of the whole provider.
pub mod Generation
use found_footy.Common.{
  ℕ, suc, ◌-◌, Bool, true, false, not, none, List, [], ◌∷◌, ◌++◌, map, any, select, length, drop,
  str_eq, ltb, leb, ◌==◌, ◌&&◌, ◌||◌, if◌then◌else◌, Time, since, before, zero_time,
}
use found_footy.Integrity.Policy.{MutationPolicy, trusted, positive_only, unknown}
use found_footy.Integrity.Correlate.{
  HealthCause, clock_stalled, integrity_conflict, unavailable, integrity, HealthEpisode,
  HealthCorrelation, correlation_window, correlate_health, sorted_fixture_ids,
}
use found_footy.Integrity.Recovery.{ProviderHealthProbe, provider_integrity_recovered}
use found_footy.Integrity.Collector.{
  HealthPoll, HealthIncident, FixtureHealth, HealthTransition, is_usable, same_cause,
}
use found_footy.Integrity.Collector.Observe.{fixture_health_policy}

-- `ProviderHealthEvidence`
pub record ProviderHealthEvidence : Type 0 where
  pub version : ℕ
  pub recent : List HealthEpisode
  pub incident_at : Time
  pub probes : List ProviderHealthProbe

-- `ProviderHealth`
pub record ProviderHealth : Type 0 where
  pub last_observed_at : Time
  pub generation : ℕ
  pub policy : MutationPolicy
  pub evidence : ProviderHealthEvidence

-- `HealthResult`, without the attempts and the mark of an ignored poll, which the store sets
pub record HealthResult : Type 0 where
  pub observed_at : Time
  pub generation : ℕ
  pub provider_policy : MutationPolicy
  pub requested : ℕ
  pub usable : ℕ
  pub unavailable_ids : List ℕ
  pub restricted_ids : List ℕ
  pub stalled_ids : List ℕ
  pub boundary_ids : List ℕ
  pub correlation : HealthCorrelation
  pub transitions : List HealthTransition

-- Go's `==` on policies, with one of the constants
abbrev pub is_trusted : MutationPolicy → Bool
is_trusted trusted = true
is_trusted _ = false

abbrev pub is_positive_only : MutationPolicy → Bool
is_positive_only positive_only = true
is_positive_only _ = false

-- `if s.Policy == "" { s.Policy = PolicyTrusted }`
unfoldable pub initial_policy : MutationPolicy → MutationPolicy
initial_policy (unknown s) = if str_eq s "" then trusted else unknown s
initial_policy p = p

-- `causeFamily`
unfoldable pub cause_family : HealthCause → HealthCause
cause_family unavailable = unavailable
cause_family clock_stalled = clock_stalled
cause_family HealthCause.boundary_warning = HealthCause.boundary_warning
cause_family integrity_conflict = integrity_conflict
cause_family (integrity r) = integrity_conflict

abbrev in_family : HealthCause → HealthIncident → Bool
in_family family i = same_cause (cause_family i.cause) family

-- `fixtureHasFamily`
unfoldable pub fixture_has_family : List FixtureHealth → ℕ → HealthCause → Bool
fixture_has_family fixtures id family =
    any (λ f. (f.fixture_id == id) && any (in_family family) f.evidence.incidents) fixtures

-- the fixtures with an incident of the cause, once for each
caused_ids : HealthCause → List FixtureHealth → List ℕ
caused_ids cause [] = []
caused_ids cause (f ∷ fs) =
    map (λ _. f.fixture_id) (select (λ i. same_cause i.cause cause) f.evidence.incidents)
    ++ caused_ids cause fs

abbrev keep_recent : Time → List HealthEpisode → List HealthEpisode
keep_recent at = select (λ e. leb (since at e.started_at) correlation_window)

-- the earliest start of the family's incidents of the fixture, if that is before the onset
earliest : HealthCause → Time → List HealthIncident → Time
earliest family onset [] = onset
earliest family onset (i ∷ is) =
    earliest family
      (if in_family family i && before i.started_at onset then i.started_at else onset) is

onset_of : ℕ → HealthCause → Time → List FixtureHealth → Time
unfolding earliest
onset_of id family onset [] = onset
onset_of id family onset (f ∷ fs) =
    let seen = earliest family onset f.evidence.incidents in
    onset_of id family (if f.fixture_id == id then seen else onset) fs

abbrev same_episode : HealthEpisode → HealthEpisode → Bool
same_episode a b =
    (a.fixture_id == b.fixture_id)
    && (same_cause a.cause b.cause
        && ((a.started_at == b.started_at) && (a.resolved_at == b.resolved_at)))

abbrev resolve_episodes : ℕ → HealthCause → Time → List HealthEpisode → List HealthEpisode
resolve_episodes id family at = map (λ e.
    if (e.fixture_id == id) && same_cause e.cause family then record e { resolved_at = at } else e)

abbrev add_episode : HealthEpisode → List HealthEpisode → List HealthEpisode
add_episode e recent = if any (λ r. same_episode r e) recent then recent else recent ++ e ∷ []

-- one round of the loop over the transitions: the recent episodes, and `newConflict`
note_transition :
    HealthPoll
    → List FixtureHealth
    → HealthTransition
    → List HealthEpisode × Bool
    → List HealthEpisode × Bool
unfolding onset_of
note_transition poll fixtures t (recent, conflict) =
    let family = cause_family t.cause in
    let onset = onset_of t.fixture_id family t.started_at fixtures in
    let episode : HealthEpisode = record {
      fixture_id = t.fixture_id;
      cause = family;
      started_at = onset;
      resolved_at = zero_time;
    } in
    if same_cause family unavailable || same_cause family HealthCause.boundary_warning
    then (recent, conflict)
    else if t.resolved
    then (if fixture_has_family fixtures t.fixture_id family
        then (recent, conflict)
        else (resolve_episodes t.fixture_id family poll.at recent, conflict))
    else if not (onset == poll.at)
    then (recent, conflict)
    else (add_episode episode recent, same_cause family integrity_conflict || conflict)

unfoldable pub note_transitions :
    HealthPoll
    → List FixtureHealth
    → List HealthTransition
    → List HealthEpisode × Bool
    → List HealthEpisode × Bool
unfolding note_transition
note_transitions poll fixtures [] noted = noted
note_transitions poll fixtures (t ∷ ts) noted =
    note_transitions poll fixtures ts (note_transition poll fixtures t noted)

-- an integrity conflict of the provider; its fixture is zero
abbrev provider_transition : Time → Bool → HealthTransition
provider_transition started resolved = record {
  fixture_id = 0;
  cause = integrity_conflict;
  started_at = started;
  resolved = resolved;
  last_credible_at = zero_time;
  availability = none;
  missing_event_keys = [];
  baseline = none;
  observed = none;
  failure_reason = "";
}

-- `if newSystemic { … }`: the state, and the transition it reports
unfoldable pub raise_restriction :
    Bool → Time → ProviderHealth → ProviderHealth × List HealthTransition
raise_restriction new_systemic at s =
    if not new_systemic
    then (s, [])
    else if is_positive_only s.policy
    then (record s { evidence = record s.evidence { probes = [] } }, [])
    else (
      record s {
        generation = suc s.generation;
        policy = positive_only;
        evidence = record s.evidence { incident_at = at; probes = [] };
      },
      provider_transition at false ∷ [],
    )

abbrev pub last_three : List ProviderHealthProbe → List ProviderHealthProbe
last_three probes = if ltb 3 (length probes) then drop (length probes - 3) probes else probes

-- `if s.Policy == PolicyPositiveOnly { … }`
unfoldable pub probe_provider :
    ProviderHealthProbe
    → List HealthEpisode
    → ProviderHealth
    → ProviderHealth × List HealthTransition
probe_provider probe recent s =
    let probes = last_three (s.evidence.probes ++ probe ∷ []) in
    if not (is_positive_only s.policy)
    then (s, [])
    else if provider_integrity_recovered probes
    then (
      record s {
        generation = suc s.generation;
        policy = trusted;
        evidence = record { version = 1; recent = recent; incident_at = zero_time; probes = [] };
      },
      provider_transition s.evidence.incident_at true ∷ [],
    )
    else (record s { evidence = record s.evidence { probes = probes } }, [])

-- does every observation of the poll count as complete?
abbrev poll_complete : HealthPoll → Bool
poll_complete poll =
    not (any (λ o. not (is_usable o.availability)) poll.observations)
    && not (any (λ o. o.interrupted) poll.observations)

-- the provider's conflict as the poll leaves it: the recent episodes, `newConflict`, the correlation
abbrev pub noted_by :
    ProviderHealth
    → HealthPoll
    → List FixtureHealth
    → List HealthTransition
    → List HealthEpisode × Bool
noted_by s poll fixtures transitions =
    note_transitions poll fixtures transitions (keep_recent poll.at s.evidence.recent, false)

abbrev pub is_systemic : HealthPoll → List HealthEpisode × Bool → Bool
is_systemic poll noted = noted.1 && is_positive_only (correlate_health poll.at noted.0).policy

-- the state with the policy set and the episodes noted
abbrev pub noted_state : ProviderHealth → List HealthEpisode → ProviderHealth
noted_state s recent = record s {
  policy = initial_policy s.policy;
  evidence = record s.evidence { version = 1; recent = recent };
}

abbrev pub poll_probe : HealthPoll → (new_systemic new_conflict : Bool) → ProviderHealthProbe
poll_probe poll new_systemic new_conflict = record {
  id = poll.id;
  at = poll.at;
  complete = poll_complete poll;
  new_systemic_anomaly = new_systemic;
  new_affected_fixture = new_conflict;
}

-- `ObserveProvider`
unfoldable pub observe_provider :
    ProviderHealth
    → HealthPoll
    → List FixtureHealth
    → List HealthTransition
    → ProviderHealth × HealthResult
unfolding caused_ids
observe_provider s poll fixtures transitions =
    let noted = noted_by s poll fixtures transitions in
    let new_systemic = is_systemic poll noted in
    let raised = raise_restriction new_systemic poll.at (noted_state s noted.0) in
    let probed = probe_provider (poll_probe poll new_systemic noted.1) noted.0 raised.0 in
    let t = record probed.0 { last_observed_at = poll.at } in
    (
      t,
      record {
        observed_at = poll.at;
        generation = t.generation;
        provider_policy = t.policy;
        requested = length poll.observations;
        usable = length (select (λ o. is_usable o.availability) poll.observations);
        unavailable_ids = sorted_fixture_ids (
            map (λ o. o.fixture_id)
              (select (λ o. not (is_usable o.availability)) poll.observations));
        restricted_ids = sorted_fixture_ids (
            map (λ f. f.fixture_id)
              (select (λ f. not (is_trusted (fixture_health_policy f))) fixtures));
        stalled_ids = sorted_fixture_ids (caused_ids clock_stalled fixtures);
        boundary_ids = sorted_fixture_ids (caused_ids HealthCause.boundary_warning fixtures);
        correlation = correlate_health poll.at noted.0;
        transitions = transitions ++ (raised.1 ++ probed.1);
      },
    )

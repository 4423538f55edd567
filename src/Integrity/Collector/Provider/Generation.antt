-- ===== src/Integrity/Collector/Provider/Generation.antt =====
-- The policy of the provider and its generation (internal/domain/providerintegrity,
-- collector_provider.go).
use found_footy.Common.{
  suc, ◌≤◌, ◌≡◌, ◌⊎◌, Bool, false, not, ◌&&◌, List, [], ◌++◌, ◌∷◌, length, length-drop, arith, ◌-◌,
  ◌||◌, bool_eq, if◌then◌else◌,
}
use found_footy.Integrity.Policy.{trusted, positive_only}
use found_footy.Integrity.Correlate.{HealthEpisode}
use found_footy.Integrity.Recovery.{ProviderHealthProbe, provider_integrity_recovered}
use found_footy.Integrity.Recovery.Provider.{recovered_needs_three}
use found_footy.Integrity.Collector.{HealthPoll, FixtureHealth, HealthTransition}
use found_footy.Integrity.Collector.Provider.{
  ProviderHealth, initial_policy, raise_restriction, probe_provider, last_three, observe_provider,
  noted_by, is_systemic, noted_state, poll_probe, is_positive_only,
}

abbrev raised_probed :
    Bool → ProviderHealthProbe → List HealthEpisode → ProviderHealth → ProviderHealth
raised_probed systemic probe recent s =
    (probe_provider probe recent (raise_restriction systemic probe.at s).0).0

length-last_three : (ps : List ProviderHealthProbe) → length (last_three ps) ≤ 3
length-last_three ps = ground (arith, length-drop (length ps - 3) ps)

single_probe : (p : ProviderHealthProbe) → provider_integrity_recovered (p ∷ []) ≡ false
single_probe p = ground (arith, recovered_needs_three (p ∷ []))

-- What the two steps make of a state, where `recovered` judges the probes so far and the new one.
abbrev pub Outcome : (systemic recovered : Bool) → (s t : ProviderHealth) → Type 0
Outcome systemic recovered s t =
    (is_positive_only t.policy ≡ (systemic || (is_positive_only s.policy && not recovered)))
    × ((t.policy ≡ trusted) ⊎ (t.policy ≡ positive_only))
    × (t.generation ≡ (
        if bool_eq (is_positive_only t.policy) (is_positive_only s.policy)
        then s.generation
        else suc s.generation))

raised_probed-Outcome :
    (systemic : Bool) (probe : ProviderHealthProbe) (recent : List HealthEpisode)
    (s : ProviderHealth)
    → (s.policy ≡ trusted) ⊎ (s.policy ≡ positive_only)
    → Outcome systemic
        (provider_integrity_recovered (last_three (s.evidence.probes ++ probe ∷ [])))
        s
        (raised_probed systemic probe recent s)
unfolding raise_restriction probe_provider
raised_probed-Outcome systemic probe recent s h = (
  ground (arith, single_probe probe),
  ground (arith, single_probe probe),
  ground (arith, single_probe probe),
)

-- From a trusted or a restricted provider, a poll leaves it restricted exactly when the poll is
-- systemic, or when it was restricted and the last three probes with the poll's own do not show
-- recovery; and the generation grows by one exactly when the policy changes.
pub observe_provider_policy :
    (s : ProviderHealth) (poll : HealthPoll) (fixtures : List FixtureHealth)
    (transitions : List HealthTransition)
    → (initial_policy s.policy ≡ trusted) ⊎ (initial_policy s.policy ≡ positive_only)
    → let t = (observe_provider s poll fixtures transitions).0 in
      let noted = noted_by s poll fixtures transitions in
      let systemic = is_systemic poll noted in
      let probes = last_three (s.evidence.probes ++ poll_probe poll systemic noted.1 ∷ []) in
      Outcome systemic (provider_integrity_recovered probes) (noted_state s noted.0) t
unfolding observe_provider
observe_provider_policy s poll fixtures transitions h =
    let noted = noted_by s poll fixtures transitions in
    let systemic = is_systemic poll noted in
    raised_probed-Outcome systemic (poll_probe poll systemic noted.1) noted.0
      (noted_state s noted.0) h

raised_probed-length :
    (systemic : Bool) (probe : ProviderHealthProbe) (recent : List HealthEpisode)
    (s : ProviderHealth)
    → length s.evidence.probes ≤ 3
    → length (raised_probed systemic probe recent s).evidence.probes ≤ 3
unfolding raise_restriction probe_provider
raised_probed-length systemic probe recent s h =
    ground (arith, length-last_three (s.evidence.probes ++ probe ∷ []))

-- The provider keeps at most three recovery probes.
observe_provider_probes :
    (s : ProviderHealth) (poll : HealthPoll) (fixtures : List FixtureHealth)
    (transitions : List HealthTransition)
    → length s.evidence.probes ≤ 3
    → length (observe_provider s poll fixtures transitions).0.evidence.probes ≤ 3
unfolding observe_provider
observe_provider_probes s poll fixtures transitions h =
    let noted = noted_by s poll fixtures transitions in
    let systemic = is_systemic poll noted in
    raised_probed-length systemic (poll_probe poll systemic noted.1) noted.0 (noted_state s noted.0)
      h

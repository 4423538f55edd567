-- ===== src/Integrity/Collector/Incidents.antt =====
-- What a poll leaves of a fixture's incidents (internal/domain/providerintegrity,
-- collector_fixture.go).
use found_footy.Common.{
  ℕ, ◌≤◌, max, Bool, false, List, [], ◌∷◌, ◌++◌, any, any-append, ◌≡◌, refl, ap, ◌||◌, none, arith,
  Bool-cases, inl, inr, not, Time, after, str_eq,
}
use found_footy.Integrity.Policy.{
  MutationPolicy, trusted, positive_only, rejected, restrict_policies, severity,
  severity-restrict_policies,
}
use found_footy.Integrity.Facts.{Reason, FixtureFacts, EventFact}
use found_footy.Integrity.Freshness.{
  Freshness, unassessed, within_window, not_clocked, stalled, boundary_warning, unset,
}
use found_footy.Integrity.Correlate.{
  HealthCause, clock_stalled, integrity_conflict, unavailable, integrity,
}
use found_footy.Integrity.Collector.{
  HealthPoll, HealthObservation, HealthIncident, FixtureHealth, is_usable, same_cause, clock_facts,
  bare_facts,
}
use found_footy.Integrity.Collector.Observe.{
  record_coverage, resolve_by, resolve_one, resolve_incidents, open_incident, open_clock,
  open_reasons, open_incidents, observe_fixture, combine_policies, fixture_health_policy, Ledger,
  reason_policy,
}

abbrev pub has_cause : HealthCause → List HealthIncident → Bool
has_cause cause incidents = any (λ i. same_cause i.cause cause) incidents

-- the early return of `ObserveFixture`
abbrev ignored : FixtureHealth → HealthPoll → Bool
ignored s poll = not (after poll.at s.last_observed_at) || str_eq poll.id s.last_poll_id

-- Every cause has at most one incident.
abbrev pub IsDistinct : List HealthIncident → Type 0
IsDistinct [] = Unit
IsDistinct (i ∷ is) = (has_cause i.cause is ≡ false) × IsDistinct is

abbrev pub max_policy : List HealthIncident → ℕ
max_policy [] = 0
max_policy (i ∷ is) = max (severity i.policy) (max_policy is)

abbrev IsKept : HealthIncident → HealthIncident → Type 0
IsKept i j = (j.cause ≡ i.cause) × (j.policy ≡ i.policy)

resolve_by-IsKept :
    (cause : HealthCause) (poll : HealthPoll) (o : HealthObservation) (i : HealthIncident)
    → IsKept i (resolve_by cause poll o i).0
unfolding resolve_by
resolve_by-IsKept unavailable poll o i = (refl, refl)
resolve_by-IsKept clock_stalled poll o i = (refl, refl)
resolve_by-IsKept HealthCause.boundary_warning poll o i = (refl, refl)
resolve_by-IsKept integrity_conflict poll o i = (refl, refl)
resolve_by-IsKept (integrity r) poll o i = (refl, refl)

resolve-has_cause :
    (id : ℕ) (poll : HealthPoll) (o : HealthObservation) (cause : HealthCause)
    (is : List HealthIncident)
    → has_cause cause is ≡ false
    → has_cause cause (resolve_incidents id poll o is).0 ≡ false
unfolding resolve_incidents
resolve-has_cause id poll o cause [] h = refl
resolve-has_cause id poll o cause (i ∷ is) h =
    let rest = resolve-has_cause id poll o cause is (ground arith) in
    elim (Bool-cases (resolve_one poll o i).1) [
      | inl done ↦ rw done rest
      | inr stands ↦ rw stands (rw (rest, (resolve_by-IsKept i.cause poll o i).0) (ground arith))
    ]

resolve-IsDistinct :
    (id : ℕ) (poll : HealthPoll) (o : HealthObservation) (is : List HealthIncident)
    → IsDistinct is
    → IsDistinct (resolve_incidents id poll o is).0
unfolding resolve_incidents
resolve-IsDistinct id poll o [] h = tt
resolve-IsDistinct id poll o (i ∷ is) (fresh, h) =
    let rest = resolve-IsDistinct id poll o is h in
    elim (Bool-cases (resolve_one poll o i).1) [
      | inl done ↦ rw done rest
      | inr stands ↦ rw stands (
        rw (resolve_by-IsKept i.cause poll o i).0 (resolve-has_cause id poll o i.cause is fresh),
        rest,
      )
    ]

resolve-max_policy :
    (id : ℕ) (poll : HealthPoll) (o : HealthObservation) (before after : List HealthIncident)
    (i : HealthIncident)
    → (resolve_one poll o i).1 ≡ false
    → severity i.policy ≤ max_policy (resolve_incidents id poll o (before ++ i ∷ after)).0
unfolding resolve_incidents
resolve-max_policy id poll o [] after i h =
    rw h (omega (arith, ap severity (resolve_by-IsKept i.cause poll o i).1))
resolve-max_policy id poll o (j ∷ before) after i h =
    let rest = resolve-max_policy id poll o before after i h in
    elim (Bool-cases (resolve_one poll o j).1) [
      | inl done ↦ rw done rest
      | inr stands ↦ rw stands (omega (arith, rest))
    ]

module _ {ℓ} (P : List HealthIncident → Type ℓ)
    (grows : (is : List HealthIncident) (i : HealthIncident)
      → has_cause i.cause is ≡ false
      → P is
      → P (is ++ i ∷ []))
    (s : FixtureHealth) (previous_usable : Time) (poll : HealthPoll) (o : HealthObservation) where
  open_incident-keeps :
      (cause : HealthCause) (policy : MutationPolicy) (baseline : FixtureFacts)
      (events : List EventFact) (ledger : Ledger)
      → P ledger.0
      → P (open_incident s previous_usable poll o cause policy baseline events ledger).0
  unfolding open_incident
  open_incident-keeps cause policy baseline events (is, ts) h =
      elim (Bool-cases (has_cause cause is)) [
        | inl old ↦ rw old h
        | inr fresh ↦ rw fresh (grows is _ fresh h)
      ]

  open_reasons-keeps :
      (rs : List Reason) (ledger : Ledger)
      → P ledger.0
      → P (open_reasons s previous_usable poll o rs ledger).0
  unfolding open_reasons
  open_reasons-keeps [] ledger h = h
  open_reasons-keeps (r ∷ rs) ledger h = open_reasons-keeps rs _ (
      open_incident-keeps (integrity r) (reason_policy s previous_usable poll o r)
        o.comparison.stored o.comparison.confirmed_events ledger h)

  open_clock-keeps :
      (freshness : Freshness) (ledger : Ledger)
      → P ledger.0
      → P (open_clock s previous_usable poll o freshness ledger).0
  unfolding open_clock
  open_clock-keeps stalled ledger h =
      open_incident-keeps clock_stalled positive_only (clock_facts s) [] ledger h
  open_clock-keeps boundary_warning ledger h =
      open_incident-keeps HealthCause.boundary_warning trusted (clock_facts s) [] ledger h
  open_clock-keeps unassessed ledger h = h
  open_clock-keeps within_window ledger h = h
  open_clock-keeps not_clocked ledger h = h
  open_clock-keeps unset ledger h = h

  open_incidents-keeps :
      (ledger : Ledger) → P ledger.0 → P (open_incidents s previous_usable poll o ledger).0
  unfolding open_incidents
  open_incidents-keeps ledger h = elim (Bool-cases (is_usable o.availability)) [
    | inl seen ↦ rw seen (open_reasons-keeps _ _ (open_clock-keeps _ ledger h))
    | inr unseen ↦
        rw unseen (open_incident-keeps unavailable rejected (bare_facts 0 "" none none) [] ledger h)
  ]

IsDistinct-append :
    (is : List HealthIncident) (i : HealthIncident)
    → has_cause i.cause is ≡ false
    → IsDistinct is
    → IsDistinct (is ++ i ∷ [])
IsDistinct-append [] i fresh h = (refl, tt)
IsDistinct-append (j ∷ is) i fresh (other, h) = (
  ground (arith, any-append (λ k. same_cause k.cause j.cause) is (i ∷ [])),
  IsDistinct-append is i (ground arith) h,
)

-- Where every cause has at most one incident, it has at most one after any observation.
observe_fixture-IsDistinct :
    (s : FixtureHealth) (poll : HealthPoll) (o : HealthObservation)
    → IsDistinct s.evidence.incidents
    → IsDistinct (observe_fixture s poll o).0.evidence.incidents
unfolding observe_fixture record_coverage
observe_fixture-IsDistinct s poll o h = elim (Bool-cases (ignored s poll)) [
  | inl old ↦ rw old h
  | inr new ↦ rw new (
      open_incidents-keeps IsDistinct IsDistinct-append _ s.last_usable_at poll o _
        (resolve-IsDistinct _ poll o s.evidence.incidents h))
]

max_policy-append :
    (is : List HealthIncident) (i : HealthIncident) → max_policy is ≤ max_policy (is ++ i ∷ [])
max_policy-append [] i = omega arith
max_policy-append (j ∷ is) i = omega (arith, max_policy-append is i)

max_policy-part :
    (before after : List HealthIncident) (i : HealthIncident)
    → severity i.policy ≤ max_policy (before ++ i ∷ after)
max_policy-part [] after i = omega arith
max_policy-part (j ∷ before) after i = omega (arith, max_policy-part before after i)

severity-combine_policies :
    (policy : MutationPolicy) (is : List HealthIncident)
    → severity (combine_policies policy is) ≡ max (severity policy) (max_policy is)
unfolding combine_policies
severity-combine_policies policy [] = omega arith
severity-combine_policies policy (i ∷ is) = omega (
  arith,
  severity-combine_policies (restrict_policies (policy ∷ i.policy ∷ [])) is,
  severity-restrict_policies (policy ∷ i.policy ∷ []),
)

observe_fixture-max_policy :
    (s : FixtureHealth) (poll : HealthPoll) (o : HealthObservation)
    (before after : List HealthIncident) (i : HealthIncident)
    → s.evidence.incidents ≡ before ++ i ∷ after
    → (resolve_one poll o i).1 ≡ false
    → severity i.policy ≤ max_policy (observe_fixture s poll o).0.evidence.incidents
unfolding observe_fixture record_coverage
observe_fixture-max_policy s poll o before after i split stands =
    elim (Bool-cases (ignored s poll)) [
      | inl old ↦ rw (old, split) (max_policy-part before after i)
      | inr new ↦ rw new (
          open_incidents-keeps (λ is. severity i.policy ≤ max_policy is)
            (λ is j fresh h. omega (arith, h, max_policy-append is j)) _ s.last_usable_at poll o _
            (rw split (resolve-max_policy _ poll o before after i stands)))
    ]

-- While the rule of its cause does not resolve an incident, the policy of the fixture after the
-- observation is at least as strict as that of the incident.
pub unresolved_restricts :
    (s : FixtureHealth) (poll : HealthPoll) (o : HealthObservation)
    (before after : List HealthIncident) (i : HealthIncident)
    → s.evidence.incidents ≡ before ++ i ∷ after
    → (resolve_one poll o i).1 ≡ false
    → severity i.policy ≤ severity (fixture_health_policy (observe_fixture s poll o).0)
unfolding fixture_health_policy
unresolved_restricts s poll o before after i split stands = omega (
  arith,
  severity-combine_policies trusted (observe_fixture s poll o).0.evidence.incidents,
  observe_fixture-max_policy s poll o before after i split stands,
)

-- ===== src/Integrity/Assess/Verdict.antt =====
-- What the verdict on one fixture observation says
-- (internal/domain/providerintegrity/evaluate.go, `AssessFixture`).
use found_footy.Common.{
  ℕ, ◌≤◌, String, Bool, true, false, Option, none, some, List, [], ◌∷◌, ◌≡◌, ◌≢◌, refl, ap, ◌⊎◌,
  inl, inr, ◌↔◌, arith, select, length, All,
}
use found_footy.Common.Int.{pos, +ℤ_parts}
use found_footy.Integrity.Policy.{trusted, positive_only, rejected}
use found_footy.Integrity.Facts.{FixtureFacts, EventFact, FixtureComparison}
use found_footy.Integrity.Clock.{
  phase_rank, rank_lt, provider_phase_regressed, material_clock_regressed, fixture_clock,
}
use found_footy.Integrity.Assess.{
  has_key, missing_events, provider_score_decreased, supported_goal_correction,
  supported_event_replacement, provider_field_cleared, identity_changed, other_regression,
  assess_fixture,
}

-- how many confirmed events the observation lacks
abbrev missing_confirmed : FixtureComparison → List EventFact
missing_confirmed c = missing_events c.confirmed_events c.observed_events

-- What `AssessFixture` accepts as trusted.
pub record IsExplained (c : FixtureComparison) : Type 0 where
  pub no_other_regression : other_regression c ≡ false
  pub scores :
      (provider_score_decreased c.stored c.observed ≡ false)
      ⊎ ((assess_fixture c).supported_goal_correction ≡ true)
  pub events :
      (length (missing_confirmed c) ≡ 0)
      ⊎ (((assess_fixture c).supported_goal_correction ≡ true)
          ⊎ ((assess_fixture c).supported_replacement ≡ true))

-- An observation is trusted exactly when it has no reason against it, which is when nothing but
-- the score and the confirmed events regressed and what is lost of these is explained by a
-- supported correction or replacement. It is rejected exactly when it is of another fixture, and
-- it is positive-only otherwise.
pub assess_fixture-policy :
    (c : FixtureComparison)
    → let v = assess_fixture c in
      ((v.policy ≡ trusted) ↔ (v.reasons ≡ []))
      × ((v.policy ≡ trusted) ↔ IsExplained c)
      × ((v.policy ≡ rejected) ↔ (identity_changed c ≡ true))
      × ((v.policy ≡ positive_only) ↔ ((v.policy ≢ trusted) × (identity_changed c ≡ false)))
unfolding assess_fixture other_regression
assess_fixture-policy c = (
  (λ h. ground arith, λ h. ground arith),
  (
    λ h. record {
      no_other_regression = ground arith;
      scores = ground arith;
      events = ground arith;
    },
    λ e. ground arith,
  ),
  (λ h. ground arith, λ h. ground arith),
  (λ h. ((λ e. ground arith), ground arith), λ h. ground arith),
)

-- No regression shows between equal facts.
same_rank : (r : Option ℕ) → rank_lt r r ≡ false
same_rank none = refl
same_rank (some n) = ground arith

identity_same : (c : FixtureComparison) → c.stored ≡ c.observed → identity_changed c ≡ false
unfolding identity_changed
identity_same c e = rw e (ground arith)

phase_same : (status : String) → provider_phase_regressed status status ≡ false
unfolding provider_phase_regressed
phase_same status = same_rank (phase_rank status)

clock_same : (f : FixtureFacts) → material_clock_regressed f f ≡ false
unfolding material_clock_regressed
clock_same f = ground (arith, same_rank (phase_rank f.status), +ℤ_parts (fixture_clock f) (pos 2))

field_same : (c : FixtureComparison) → c.stored ≡ c.observed → provider_field_cleared c ≡ false
unfolding provider_field_cleared
field_same c e = rw e (ground arith)

regression_same : (c : FixtureComparison) → c.stored ≡ c.observed → other_regression c ≡ false
unfolding other_regression
regression_same c e =
    rw (identity_same c e, field_same c e, e, phase_same c.observed.status, clock_same c.observed)
      (ground arith)

score_refl : (f : FixtureFacts) → provider_score_decreased f f ≡ false
unfolding provider_score_decreased
score_refl f = ground arith

none_missing :
    (events observed : List EventFact)
    → All (λ e. has_key e.key observed ≡ true) events
    → missing_events events observed ≡ []
unfolding missing_events
none_missing [] observed h = refl
none_missing (e ∷ es) observed h = ground (arith, none_missing es observed h.1)

-- An observation that repeats the stored facts and still reports every confirmed event is trusted,
-- with no reason and no event missing.
assess_fixture-unchanged :
    (c : FixtureComparison)
    → c.stored ≡ c.observed
    → All (λ e. has_key e.key c.observed_events ≡ true) c.confirmed_events
    → let v = assess_fixture c in
      (v.policy ≡ trusted) × (v.reasons ≡ []) × (v.missing_confirmed_events ≡ 0)
unfolding assess_fixture missing_events
assess_fixture-unchanged c same present =
    let explained : IsExplained c = record {
      no_other_regression = regression_same c same;
      scores = inl (rw same (score_refl c.observed));
      events = inl (ap length gone);
    } in
    let laws = assess_fixture-policy c in
    let quiet = laws.1.1 explained in (quiet, laws.0.0 quiet, ap length gone)
  where
    gone : missing_confirmed c ≡ []
    gone = none_missing c.confirmed_events c.observed_events present

-- a supported correction is of the one stored event that the observation lacks
correction_single :
    (c : FixtureComparison) (missing : List EventFact) (other : Bool)
    → supported_goal_correction c missing other ≡ true
    → length missing ≡ 1
unfolding supported_goal_correction
correction_single c [] other h = absurd (ground arith)
correction_single c (goal ∷ []) other h = refl
correction_single c (goal ∷ next ∷ rest) other h = absurd (ground arith)

replacement_single :
    (c : FixtureComparison) (missing : List EventFact) (other : Bool)
    → supported_event_replacement c missing other ≡ true
    → length missing ≡ 1
unfolding supported_event_replacement
replacement_single c [] other h = absurd (ground arith)
replacement_single c (old ∷ []) other h = refl
replacement_single c (old ∷ next ∷ rest) other h = absurd (ground arith)

missing_select :
    (stable : EventFact → Bool) (events observed : List EventFact)
    → length (missing_events (select stable events) observed)
      ≤ length (missing_events events observed)
unfolding missing_events
missing_select stable [] observed = omega arith
missing_select stable (e ∷ es) observed = ground (arith, missing_select stable es observed)

-- Where the confirmed events are some of the stored ones, a trusted observation lacks at most one
-- of them, so an observation that drops two confirmed events at once is never trusted.
pub trusted_loses_at_most_one :
    (c : FixtureComparison) (stable : EventFact → Bool)
    → c.confirmed_events ≡ select stable c.stored_events
    → (assess_fixture c).policy ≡ trusted
    → (assess_fixture c).missing_confirmed_events ≤ 1
unfolding assess_fixture
trusted_loses_at_most_one c stable subset quiet =
    elim ((assess_fixture-policy c).1.0 quiet).events [
      | inl none_lost ↦ omega arith
      | inr (inl corrected) ↦
          let one =
            correction_single c (missing_events c.stored_events c.observed_events)
              (other_regression c) corrected in
          rw subset (omega (arith, missing_select stable c.stored_events c.observed_events))
      | inr (inr replaced) ↦
          let one = replacement_single c (missing_confirmed c) (other_regression c) replaced in
          omega arith
    ]

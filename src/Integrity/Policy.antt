-- ===== src/Integrity/Policy.antt =====
-- internal/domain/providerintegrity/types.go, health.go and enforcement.go: mutation policies, how
-- they compose, and what a rollout mode applies.
use found_footy.Common.{
  ℕ, ◌≤◌, max, String, Bool, true, false, List, [], ◌∷◌, ◌++◌, ◌≡◌, refl, sym, ◌∙◌, ◌↔◌, arith, ◌≢◌,
}

-- `MutationPolicy`: a text that is none of the constants is `unknown`.
pub data MutationPolicy : Type 0 where
  trusted positive_only rejected : MutationPolicy
  unknown : String → MutationPolicy

-- `MutationPolicy.Valid`
abbrev pub policy_valid : MutationPolicy → Bool
policy_valid (unknown s) = false
policy_valid _ = true

-- one turn of the loop of `RestrictPolicies`: the result so far, and whether it has returned
restrict_from : MutationPolicy → List MutationPolicy → MutationPolicy
restrict_from result [] = result
restrict_from result (trusted ∷ ps) = restrict_from result ps
restrict_from result (positive_only ∷ ps) = restrict_from positive_only ps
restrict_from result (rejected ∷ ps) = rejected
restrict_from result (unknown s ∷ ps) = rejected

-- `RestrictPolicies`
unfoldable pub restrict_policies : List MutationPolicy → MutationPolicy
unfolding restrict_from
restrict_policies ps = restrict_from trusted ps

-- `EnforcementMode`
pub data EnforcementMode : Type 0 where
  shadow enforce : EnforcementMode
  unknown : String → EnforcementMode

-- `EnforcementMode.Valid`
abbrev pub mode_valid : EnforcementMode → Bool
mode_valid (EnforcementMode.unknown s) = false
mode_valid _ = true

-- `MutationDecision`, without the writer and the list of restricted operations, which
-- `DecideMutation` leaves unset.
pub record MutationDecision : Type 0 where
  pub mode : EnforcementMode
  pub recommended_policy : MutationPolicy
  pub provider_policy : MutationPolicy
  pub fixture_policy : MutationPolicy
  pub local_policy : MutationPolicy

-- `DecideMutation`: the decision and the policy that is applied
unfoldable pub decide_mutation :
    EnforcementMode → (provider fixture local : MutationPolicy) → MutationDecision × MutationPolicy
unfolding restrict_policies
decide_mutation mode provider fixture local =
    let d : MutationDecision = record {
      mode = mode;
      recommended_policy = restrict_policies (provider ∷ fixture ∷ local ∷ []);
      provider_policy = provider;
      fixture_policy = fixture;
      local_policy = local;
    } in
    elim mode [
      | shadow ↦ (d, trusted)
      | enforce ↦ (d, d.recommended_policy)
      | EnforcementMode.unknown s ↦ (d, d.recommended_policy)
    ]

-- How much a policy forbids. A policy that is not known forbids as much as a rejection.
abbrev pub severity : MutationPolicy → ℕ
severity trusted = 0
severity positive_only = 1
severity rejected = 2
severity (unknown s) = 2

abbrev pub max_severity : List MutationPolicy → ℕ
max_severity [] = 0
max_severity (p ∷ ps) = max (severity p) (max_severity ps)

max_severity-le : (ps : List MutationPolicy) → max_severity ps ≤ 2
max_severity-le [] = omega arith
max_severity-le (trusted ∷ ps) = omega (arith, max_severity-le ps)
max_severity-le (positive_only ∷ ps) = omega (arith, max_severity-le ps)
max_severity-le (rejected ∷ ps) = omega (arith, max_severity-le ps)
max_severity-le (unknown s ∷ ps) = omega (arith, max_severity-le ps)

severity-restrict_from :
    (p : MutationPolicy) (ps : List MutationPolicy)
    → severity p ≤ 1
    → (severity (restrict_from p ps) ≡ max (severity p) (max_severity ps))
      × (policy_valid (restrict_from p ps) ≡ true)
unfolding restrict_from
severity-restrict_from trusted [] v = (omega arith, refl)
severity-restrict_from positive_only [] v = (omega arith, refl)
severity-restrict_from rejected [] v = absurd (omega arith)
severity-restrict_from (unknown s) [] v = absurd (omega arith)
severity-restrict_from p (trusted ∷ ps) v =
    let (most, valid) = severity-restrict_from p ps v in (omega arith, valid)
severity-restrict_from p (positive_only ∷ ps) v =
    let (most, valid) = severity-restrict_from positive_only ps (omega arith) in
    (omega arith, valid)
severity-restrict_from p (rejected ∷ ps) v = (omega (arith, max_severity-le ps), refl)
severity-restrict_from p (unknown s ∷ ps) v = (omega (arith, max_severity-le ps), refl)

severity_injective :
    (p q : MutationPolicy)
    → policy_valid p ≡ true
    → policy_valid q ≡ true
    → severity p ≡ severity q
    → p ≡ q
severity_injective p q v w h = ground arith

-- The composed policy is a known one and exactly as strict as the strictest of its parts, where an
-- unknown policy counts as a rejection.
pub severity-restrict_policies :
    (ps : List MutationPolicy)
    → (severity (restrict_policies ps) ≡ max_severity ps)
      × (policy_valid (restrict_policies ps) ≡ true)
unfolding restrict_policies
severity-restrict_policies ps =
    let (most, valid) = severity-restrict_from trusted ps (omega arith) in (omega arith, valid)

pub max_severity-append :
    (ps qs : List MutationPolicy)
    → max_severity (ps ++ qs) ≡ max (max_severity ps) (max_severity qs)
max_severity-append [] qs = omega arith
max_severity-append (p ∷ ps) qs = omega (arith, max_severity-append ps qs)

-- Composing in parts, or in another order, composes the same policy: no cause can clear another.
restrict_policies-append :
    (ps qs : List MutationPolicy)
    → (restrict_policies (ps ++ qs) ≡ restrict_policies (qs ++ ps))
      × (restrict_policies (ps ++ qs)
          ≡ restrict_policies (restrict_policies ps ∷ restrict_policies qs ∷ []))
restrict_policies-append ps qs =
    let (whole, valid) = severity-restrict_policies (ps ++ qs) in
    let (swapped, valid') = severity-restrict_policies (qs ++ ps) in
    let (first, _) = severity-restrict_policies ps in
    let (second, _) = severity-restrict_policies qs in
    let (joined, valid'') =
      severity-restrict_policies (restrict_policies ps ∷ restrict_policies qs ∷ []) in
    (
      severity_injective _ _ valid valid'
          (omega (arith, max_severity-append ps qs, max_severity-append qs ps)),
      severity_injective _ _ valid valid'' (omega (arith, max_severity-append ps qs)),
    )

recommended :
    (mode : EnforcementMode) (provider fixture local : MutationPolicy)
    → (decide_mutation mode provider fixture local).0.recommended_policy
      ≡ restrict_policies (provider ∷ fixture ∷ local ∷ [])
unfolding decide_mutation
recommended shadow provider fixture local = refl
recommended enforce provider fixture local = refl
recommended (EnforcementMode.unknown s) provider fixture local = refl

all_trusted :
    (provider fixture local : MutationPolicy)
    → (restrict_policies (provider ∷ fixture ∷ local ∷ []) ≡ trusted)
      ↔ ((provider ≡ trusted) × (fixture ≡ trusted) × (local ≡ trusted))
unfolding restrict_policies
all_trusted provider fixture local =
    (λ h. (ground arith, ground arith, ground arith), λ h. ground arith)

-- The recommendation is the same in every rollout mode. Shadow mode applies no restriction; every
-- other mode applies the recommendation, which is trusted only if all three scopes are.
decide_mutation_lem :
    (mode other : EnforcementMode) (provider fixture local : MutationPolicy)
    → let (d, applied) = decide_mutation mode provider fixture local in
      (d.recommended_policy ≡ (decide_mutation other provider fixture local).0.recommended_policy)
      × (mode ≡ shadow → applied ≡ trusted)
      × (mode ≢ shadow → applied ≡ d.recommended_policy)
      × (d.recommended_policy ≡ trusted
          ↔ ((provider ≡ trusted) × (fixture ≡ trusted) × (local ≡ trusted)))
unfolding decide_mutation
decide_mutation_lem mode other provider fixture local = (
  recommended mode provider fixture local ∙ sym (recommended other provider fixture local),
  (λ e. unfold decide_mutation in ground arith),
  (λ ne. applies mode ne),
  rw (recommended mode provider fixture local) (all_trusted provider fixture local),
)
  where
    applies :
        (m : EnforcementMode)
        → m ≢ shadow
        → (decide_mutation m provider fixture local).1
          ≡ (decide_mutation m provider fixture local).0.recommended_policy
    applies shadow ne = absurd (ne refl)
    applies enforce ne = refl
    applies (EnforcementMode.unknown s) ne = refl

-- ===== src/Integrity/Assess/Batch.antt =====
-- What the aggregate verdict on a batch says
-- (internal/domain/providerintegrity/evaluate.go, `AggregateFixtureVerdicts`).
use found_footy.Common.{
  Bool, ◌&&◌, ℕ, ◌+◌, ◌≤◌, List, [], ◌∷◌, ◌++◌, ◌≡◌, refl, ◌∙◌, ◌⊎◌, ◌↔◌, arith, select, count,
  count-append, length, length-select, leb, ◌||◌, map, if◌then◌else◌,
}
use found_footy.Integrity.Policy.{policy_valid, trusted, positive_only, severity}
use found_footy.Integrity.Facts.{FixtureComparison, FixtureVerdict, anomalous}
use found_footy.Integrity.Assess.{
  assess_fixture, aggregate_fixture_verdicts, assess_batch, counted, sum_missing,
}

sum_missing-append :
    (vs ws : List FixtureVerdict) → sum_missing (vs ++ ws) ≡ sum_missing vs + sum_missing ws
sum_missing-append [] ws = omega arith
sum_missing-append (v ∷ vs) ws = omega (arith, sum_missing-append vs ws)

select-append :
    (vs ws : List FixtureVerdict)
    → select counted (vs ++ ws) ≡ select counted vs ++ select counted ws
select-append [] ws = refl
select-append (v ∷ vs) ws = ground (arith, select-append vs ws)

-- how many events the anomalous fixtures of a batch lack
abbrev missing_in : List FixtureVerdict → ℕ
missing_in vs = sum_missing (select counted vs)

listed-count :
    (q : FixtureVerdict → Bool) (vs : List FixtureVerdict)
    → count q (select counted vs)
      ≡ count (λ v. (policy_valid v.policy && anomalous v.policy) && q v) vs
listed-count q [] = refl
listed-count q (v ∷ vs) = ground (arith, listed-count q vs)

-- For every test, the aggregate of a batch lists as many verdicts that pass it as the batch has
-- anomalous ones of a known policy that do. Two batches together list what they list in turn; their
-- order does not matter to the policy, which is at least as strict as that of the first alone, and
-- restricts exactly when two verdicts are listed or the listed ones lack three confirmed events.
pub aggregate_fixture_verdicts-append :
    (q : FixtureVerdict → Bool) (vs ws : List FixtureVerdict)
    → let b = aggregate_fixture_verdicts (vs ++ ws) in
      (count q b.fixtures
        ≡ count (λ v. (policy_valid v.policy && anomalous v.policy) && q v) (vs ++ ws))
      × (b.fixtures
          ≡ (aggregate_fixture_verdicts vs).fixtures ++ (aggregate_fixture_verdicts ws).fixtures)
      × (b.policy ≡ (aggregate_fixture_verdicts (ws ++ vs)).policy)
      × (severity (aggregate_fixture_verdicts vs).policy ≤ severity b.policy)
      × ((b.policy ≡ positive_only) ↔ ((2 ≤ length b.fixtures) ⊎ (3 ≤ sum_missing b.fixtures)))
unfolding aggregate_fixture_verdicts
aggregate_fixture_verdicts-append q vs ws =
    let total : length (select counted (vs ++ ws)) ≡ count counted vs + count counted ws =
      length-select counted (vs ++ ws) ∙ count-append counted vs ws in
    let total' : length (select counted (ws ++ vs)) ≡ count counted ws + count counted vs =
      length-select counted (ws ++ vs) ∙ count-append counted ws vs in
    let sums : missing_in (vs ++ ws) ≡ missing_in vs + missing_in ws =
      rw (select-append vs ws) (sum_missing-append (select counted vs) (select counted ws)) in
    let sums' : missing_in (ws ++ vs) ≡ missing_in ws + missing_in vs =
      rw (select-append ws vs) (sum_missing-append (select counted ws) (select counted vs)) in
    (
      listed-count q (vs ++ ws),
      select-append vs ws,
      ground arith,
      ground (arith, length-select counted vs),
      (λ h. ground arith, λ h. ground arith),
    )

-- In the verdict on a batch of comparisons, the anomalous fixtures are those with some reason.
count_reasons :
    (cs : List FixtureComparison)
    → count counted (map assess_fixture cs) ≡ count (λ c. anomalous (assess_fixture c).policy) cs
count_reasons [] = refl
count_reasons (c ∷ cs) = ground (arith, count_reasons cs)

-- A batch of fixtures is restricted as soon as two of its comparisons are not trusted, and a batch
-- with no anomalous comparison is trusted, with no fixture listed.
pub assess_batch_lem :
    (cs : List FixtureComparison)
    → (2 ≤ count (λ c. anomalous (assess_fixture c).policy) cs
        → (assess_batch cs).policy ≡ positive_only)
      × (count (λ c. anomalous (assess_fixture c).policy) cs ≡ 0
          → ((assess_batch cs).policy ≡ trusted) × ((assess_batch cs).fixtures ≡ []))
unfolding assess_batch aggregate_fixture_verdicts
assess_batch_lem cs =
    let listed : length (select counted (map assess_fixture cs))
        ≡ count (λ c. anomalous (assess_fixture c).policy) cs =
      length-select counted (map assess_fixture cs) ∙ count_reasons cs in
    (λ h. ground arith, λ h. none_listed (select counted (map assess_fixture cs)) (omega arith))
  where
    none_listed :
        (vs : List FixtureVerdict)
        → length vs ≡ 0
        → ((if (leb 2 (length vs) || leb 3 (sum_missing vs)) then positive_only else trusted)
            ≡ trusted)
          × (vs ≡ [])
    none_listed [] e = (refl, refl)
    none_listed (v ∷ vs) e = absurd (omega arith)

-- ===== src/Video/Selection/Votes.antt =====
-- The sources of a clip (internal/domain/video/selection.go, the last loops of `PlanSelection`).
use found_footy.Common.{
  ℕ, zero, suc, ◌+◌, ◌≤◌, ◌<◌, ◌≡◌, refl, ap, Bool, false, Option, none, some, List, [], ◌∷◌,
  length, count, ◌==◌, arith, Bool-cases, inl, inr,
}
use found_footy.Video.Match.{bit}
use found_footy.Video.Selection.{
  SelectionPolicy, SelectionSource, SelectionGraph, Row, index_of, indexed, exact,
}
use found_footy.Video.Selection.Plan.{ClipQuality, matches, tally}
use found_footy.Video.Selection.Roots.{index_of-inside}

module _ (is_upgrade : ClipQuality → ClipQuality → Bool) (p : SelectionPolicy)
    (rows : List Row) where
  -- Does the observed asset of a source match a keeper directly?
  abbrev pub votes_for : Option ℕ → (keeper : ℕ) → Bool
  votes_for none k = false
  votes_for (some i) k = matches is_upgrade p rows i k

  tally-add :
      (f g h : ℕ → ℕ) (k rounds i : ℕ)
      → ((m : ℕ) → f m ≡ g m + h m)
      → tally is_upgrade p rows f k rounds i
        ≡ tally is_upgrade p rows g k rounds i + tally is_upgrade p rows h k rounds i
  unfolding tally
  tally-add f g h k zero i same = refl
  tally-add f g h k (suc rounds) i same = elim (Bool-cases (matches is_upgrade p rows i k)) [
    | inl voted ↦ rw voted (omega (arith, same i, tally-add f g h k rounds (suc i) same))
    | inr other ↦ rw other (omega (arith, tally-add f g h k rounds (suc i) same))
  ]

  tally-zero : (k rounds i : ℕ) → tally is_upgrade p rows (λ m. 0) k rounds i ≡ 0
  unfolding tally
  tally-zero k zero i = refl
  tally-zero k (suc rounds) i = ground (arith, tally-zero k rounds (suc i))

  tally-before :
      (j k rounds i : ℕ) → j < i → tally is_upgrade p rows (λ m. bit (j == m)) k rounds i ≡ 0
  unfolding tally
  tally-before j k zero i h = refl
  tally-before j k (suc rounds) i h = ground (arith, tally-before j k rounds (suc i) (omega arith))

  tally-one :
      (j k rounds i : ℕ)
      → i ≤ j
      → j < i + rounds
      → tally is_upgrade p rows (λ m. bit (j == m)) k rounds i ≡ bit (matches is_upgrade p rows j k)
  unfolding tally
  tally-one j k zero i low high = absurd (omega arith)
  tally-one j k (suc rounds) i low high = elim (Bool-cases (j == i)) [
    | inl at ↦
        let same : i ≡ j = ground (arith, at) in
        let there = ap (λ m. bit (matches is_upgrade p rows m k)) same in
        ground (arith, at, there, tally-before j k rounds (suc i) (omega (arith, same)))
    | inr later ↦
        ground (arith, later, tally-one j k rounds (suc i) (ground (arith, later)) (omega arith))
  ]

  tally-indexed :
      (j : Option ℕ) (k rounds : ℕ)
      → ((i : ℕ) → j ≡ some i → i < rounds)
      → tally is_upgrade p rows (λ m. bit (indexed j m)) k rounds 0 ≡ bit (votes_for j k)
  tally-indexed none k rounds inside = tally-zero k rounds 0
  tally-indexed (some j) k rounds inside =
      tally-one j k rounds 0 (omega arith) (omega (arith, inside j refl))

  -- The tally of a keeper counts each source once, namely those whose observed asset matches it.
  pub tally-count :
      (g : SelectionGraph) (sources : List SelectionSource) (k : ℕ)
      → tally is_upgrade p rows (exact g sources) k (length g.nodes) 0
        ≡ count (λ s. votes_for (index_of g.nodes s.observed_asset_id) k) sources
  unfolding exact
  tally-count g [] k = tally-zero k (length g.nodes) 0
  tally-count g (s ∷ ss) k =
      let split =
        tally-add (exact g (s ∷ ss)) (λ m. bit (indexed (index_of g.nodes s.observed_asset_id) m))
          (exact g ss) k (length g.nodes) 0 (λ m. ground arith) in
      let one =
        tally-indexed (index_of g.nodes s.observed_asset_id) k (length g.nodes)
          (λ i found. index_of-inside g.nodes s.observed_asset_id i found) in
      ground (arith, split, one, tally-count g ss k)

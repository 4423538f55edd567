-- ===== src/Video/Selection/Cover.antt =====
-- Every eligible asset is kept or has a keeper that it matches
-- (internal/domain/video/selection.go, `PlanSelection`).
use found_footy.Common.{
  All-weaken, ℕ, suc, ◌≡◌, refl, sym, ◌∙◌, subst, Bool, true, false, Option, none, some, List, [],
  ◌∷◌, ◌++◌, any, any-append, All, OnSome, is_some, ◌||◌, ◌&&◌, arith, Bool-cases, inl, inr,
}
use found_footy.Video.Selection.{SelectionPolicy, Row}
use found_footy.Video.Selection.Plan.{
  ClipQuality, Progress, matches, supported, restore_one, restore, best_owner, owner_of, takes_over,
  holds,
}

module _ (is_upgrade : ClipQuality → ClipQuality → Bool) (p : SelectionPolicy)
    (rows : List Row) where
  abbrev Matches : (i j : ℕ) → Type 0
  Matches i j = matches is_upgrade p rows i j ≡ true

  -- Each row of those from an index on that is eligible has a direct match among the selected.
  abbrev pub AllCovered : List Row → (i : ℕ) → (selected : List ℕ) → Type 0
  AllCovered [] i selected = Unit
  AllCovered (r ∷ rs) i selected =
      (r.eligible ≡ true → supported is_upgrade p rows i selected ≡ true)
      × AllCovered rs (suc i) selected

  any-grows : (q : ℕ → Bool) (xs ys : List ℕ) → any q xs ≡ true → any q (xs ++ ys) ≡ true
  any-grows q xs ys h = ground (arith, any-append q xs ys)

  restore_one-grows :
      (q : ℕ → Bool) (r : Row) (i : ℕ) (s : Progress)
      → any q s.selected ≡ true
      → any q (restore_one is_upgrade p rows r i s).selected ≡ true
  unfolding restore_one
  restore_one-grows q r i s h = ground (arith, any-append q s.selected (i ∷ []))

  restore-grows :
      (q : ℕ → Bool) (rs : List Row) (i : ℕ) (s : Progress)
      → any q s.selected ≡ true
      → any q (restore is_upgrade p rows rs i s).selected ≡ true
  unfolding restore
  restore-grows q [] i s h = h
  restore-grows q (r ∷ rs) i s h =
      restore-grows q rs (suc i) (restore_one is_upgrade p rows r i s) (restore_one-grows q r i s h)

  pub self_match : (i : ℕ) → Matches i i
  unfolding matches
  self_match i = ground arith

  restore_one-covers :
      (r : Row) (i : ℕ) (s : Progress)
      → r.eligible ≡ true
      → supported is_upgrade p rows i (restore_one is_upgrade p rows r i s).selected ≡ true
  unfolding restore_one supported
  restore_one-covers r i s fit =
      ground
        (arith, self_match i, any-append (λ k. matches is_upgrade p rows i k) s.selected (i ∷ []))

  still_supported :
      (i : ℕ) (rs : List Row) (j : ℕ) (s : Progress)
      → supported is_upgrade p rows i s.selected ≡ true
      → supported is_upgrade p rows i (restore is_upgrade p rows rs j s).selected ≡ true
  unfolding supported
  still_supported i rs j s h = restore-grows (λ k. matches is_upgrade p rows i k) rs j s h

  pub restore-covers :
      (rs : List Row) (i : ℕ) (s : Progress)
      → AllCovered rs i (restore is_upgrade p rows rs i s).selected
  unfolding restore
  restore-covers [] i s = tt
  restore-covers (r ∷ rs) i s = (
    λ fit.
        still_supported i rs (suc i) (restore_one is_upgrade p rows r i s)
          (restore_one-covers r i s fit),
    restore-covers rs (suc i) (restore_one is_upgrade p rows r i s),
  )

  restore_one-settled :
      (r : Row) (i : ℕ) (s : Progress)
      → (r.eligible ≡ true → supported is_upgrade p rows i s.selected ≡ true)
      → ((restore_one is_upgrade p rows r i s).selected ≡ s.selected)
        × ((restore_one is_upgrade p rows r i s).restored ≡ s.restored)
  unfolding restore_one
  restore_one-settled r i s h = elim (Bool-cases r.eligible) [
    | inl fit ↦ rw fit (rw (h fit) (refl, refl))
    | inr unfit ↦ rw unfit (refl, refl)
  ]

  restore-settled :
      (rs : List Row) (i : ℕ) (s : Progress)
      → AllCovered rs i s.selected
      → ((restore is_upgrade p rows rs i s).selected ≡ s.selected)
        × ((restore is_upgrade p rows rs i s).restored ≡ s.restored)
  unfolding restore
  restore-settled [] i s h = (refl, refl)
  restore-settled (r ∷ rs) i s h =
      let (kept, none_more) = restore_one-settled r i s h.0 in
      let (kept', none_more') =
        restore-settled rs (suc i) (restore_one is_upgrade p rows r i s)
          (subst (AllCovered rs (suc i)) (sym kept) h.1) in
      (kept' ∙ kept, none_more' ∙ none_more)

  -- After the first loop every eligible asset is matched directly by a selected one, and a further
  -- run of the loop selects nothing more.
  pub restore-AllCovered :
      (rs : List Row) (i : ℕ) (s : Progress)
      → let t = restore is_upgrade p rows rs i s in
        AllCovered rs i t.selected × ((restore is_upgrade p rows rs i t).selected ≡ t.selected)
  restore-AllCovered rs i s =
      let covered = restore-covers rs i s in
      (covered, (restore-settled rs i (restore is_upgrade p rows rs i s) covered).0)

  left_over :
      (i c : ℕ) (cs : List ℕ) (owner : Option ℕ)
      → (matches is_upgrade p rows i c && takes_over is_upgrade p rows c owner) ≡ false
      → (is_some owner || any (λ k. matches is_upgrade p rows i k) (c ∷ cs)) ≡ true
      → (is_some owner || any (λ k. matches is_upgrade p rows i k) cs) ≡ true
  unfolding takes_over
  left_over i c cs none kept one = ground (arith, kept, one)
  left_over i c cs (some k) kept one = refl

  -- The inner loop finds a keeper that matches.
  best_owner-found :
      (i : ℕ) (selected cs : List ℕ) (owner : Option ℕ)
      → All (λ c. holds selected c ≡ true) cs
      → OnSome (λ k. (holds selected k ≡ true) × Matches i k) owner
      → (is_some owner || any (λ c. matches is_upgrade p rows i c) cs) ≡ true
      → (k : ℕ) × (best_owner is_upgrade p rows i cs owner ≡ some k)
        × (holds selected k ≡ true)
        × Matches i k
  unfolding best_owner
  best_owner-found i selected [] none among fits one = absurd (ground (arith, one))
  best_owner-found i selected [] (some k) among fits one = (k, refl, fits.0, fits.1)
  best_owner-found i selected (c ∷ cs) owner among fits one =
      elim (Bool-cases (matches is_upgrade p rows i c && takes_over is_upgrade p rows c owner)) [
        | inl taken ↦
            rw taken (
              best_owner-found i selected cs (some c) among.1 (among.0, ground (arith, taken)) refl)
        | inr kept ↦
            rw kept
              (best_owner-found i selected cs owner among.1 fits (left_over i c cs owner kept one))
      ]

  All-holds : (xs : List ℕ) → All (λ c. holds xs c ≡ true) xs
  All-holds [] = tt
  All-holds (x ∷ xs) = (ground arith, All-weaken xs (λ c h. ground arith) (All-holds xs))

  -- The owner of an eligible asset that a selected one matches is selected and matches it.
  pub owner_of-found :
      (selected : List ℕ) (r : Row) (i : ℕ)
      → r.eligible ≡ true
      → supported is_upgrade p rows i selected ≡ true
      → (k : ℕ) × (owner_of is_upgrade p rows selected r i ≡ some k)
        × (holds selected k ≡ true)
        × Matches i k
  unfolding owner_of supported
  owner_of-found selected r i fit backed = elim (Bool-cases (holds selected i)) [
    | inl kept ↦ rw kept (i, refl, kept, self_match i)
    | inr other ↦ rw other (
        rw fit (elim (Bool-cases (holds selected r.root && matches is_upgrade p rows i r.root)) [
          | inl rooted ↦ rw rooted (r.root, refl, ground (arith, rooted), ground (arith, rooted))
          | inr elsewhere ↦
              rw elsewhere
                (best_owner-found i selected selected none (All-holds selected) tt backed)
        ]))
  ]

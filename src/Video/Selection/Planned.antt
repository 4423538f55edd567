-- ===== src/Video/Selection/Planned.antt =====
-- The plan of a validated graph exists (internal/domain/video/selection.go, `PlanSelection`).
use found_footy.Common.{
  ℕ, zero, suc, ◌+◌, ◌≤◌, ◌<◌, ◌≡◌, refl, sym, ap, ◌∙◌, subst, Bool, true, false, some, List, [],
  ◌∷◌, length, get_elem?, All, ltb, ◌==◌, arith, Bool-cases, ◌⊎◌, inl, inr,
}
use found_footy.Video.Selection.{SelectionPolicy, Row}
use found_footy.Video.Selection.Plan.{
  supported, ClipQuality, SelectionOwner, SelectedClip, matches, owner_of, holds, find_owners,
  find_clips, owned, id_at, tally,
}
use found_footy.Video.Selection.Cover.{AllCovered, owner_of-found, self_match}

get_elem?-inside :
    {A : Type 0} (xs : List A) (k : ℕ) → k < length xs → (a : A) × (get_elem? xs k ≡ some a)
get_elem?-inside [] k h = absurd (omega arith)
get_elem?-inside (x ∷ xs) zero h = (x, refl)
get_elem?-inside (x ∷ xs) (suc k) h = get_elem?-inside xs k (omega arith)

module _ (is_upgrade : ClipQuality → ClipQuality → Bool) (p : SelectionPolicy)
    (rows : List Row) where
  -- An eligible asset is kept, or its owner is a kept one that it matches directly.
  pub record IsKept (selected : List ℕ) (r : Row) (i : ℕ) (o : SelectionOwner) : Type 0 where
    pub same_asset : o.asset_id ≡ r.node.asset.id
    pub kept :
        r.eligible ≡ true
        → (k : ℕ) × (holds selected k ≡ true)
          × (matches is_upgrade p rows i k ≡ true)
          × (o.keeper_id ≡ id_at (get_elem? rows k))
          × ((i ≡ k) ⊎ (o.direct ≡ true))

  -- The owners of the rows from an index on, in order.
  pub data AreKept (selected : List ℕ) : List Row → ℕ → List SelectionOwner → Type 0 where
    nil : {i : ℕ} → AreKept selected [] i []
    cons :
        {r : Row} {rs : List Row} {i : ℕ} {o : SelectionOwner} {os : List SelectionOwner}
        → IsKept selected r i o
        → AreKept selected rs (suc i) os
        → AreKept selected (r ∷ rs) i (o ∷ os)

  owner_of-unfit :
      (selected : List ℕ) (r : Row) (i : ℕ)
      → r.eligible ≡ false
      → (k : ℕ) × (owner_of is_upgrade p rows selected r i ≡ some k)
  unfolding owner_of
  owner_of-unfit selected r i unfit = elim (Bool-cases (holds selected i)) [
    | inl kept ↦ rw kept (i, refl)
    | inr other ↦ rw other (rw unfit (r.root, refl))
  ]

  owned-found :
      (selected : List ℕ) (r : Row) (i : ℕ)
      → (r.eligible ≡ true → supported is_upgrade p rows i selected ≡ true)
      → (o : SelectionOwner) × (owned is_upgrade p rows r i
            (owner_of is_upgrade p rows selected r i)
          ≡ inr o)
        × IsKept selected r i o
  owned-found selected r i backed = elim (Bool-cases r.eligible) [
    | inl fit ↦
        let (k, found, held, same) =
          owner_of-found is_upgrade p rows selected r i fit (backed fit) in
        rw found (
          _,
          refl,
          record {
            same_asset = refl;
            kept = λ f. (k, held, same, refl, ground (arith, fit, same));
          },
        )
    | inr unfit ↦
        let (k, found) = owner_of-unfit selected r i unfit in
        rw found
          (_, refl, record { same_asset = refl; kept = λ fit. absurd (ground (arith, fit, unfit)) })
  ]

  pub find_owners-found :
      (selected : List ℕ) (rs : List Row) (i : ℕ)
      → AllCovered is_upgrade p rows rs i selected
      → (os : List SelectionOwner) × (find_owners is_upgrade p rows selected rs i ≡ inr os)
        × AreKept selected rs i os
  unfolding find_owners
  find_owners-found selected [] i covered = ([], refl, nil)
  find_owners-found selected (r ∷ rs) i covered =
      let (o, found, fits) = owned-found selected r i covered.0 in
      let (os, found', fits') = find_owners-found selected rs (suc i) covered.1 in
      rw found (rw found' (o ∷ os, refl, cons fits fits'))

  -- The clips of the kept indexes, in order, with the votes of each.
  pub data AreCounted (votes : ℕ → ℕ) : List ℕ → List SelectedClip → Type 0 where
    nil : AreCounted votes [] []
    cons :
        {k : ℕ} {ks : List ℕ} {c : SelectedClip} {cs : List SelectedClip}
        → c.asset_id ≡ id_at (get_elem? rows k)
        → c.popularity ≡ votes k
        → AreCounted votes ks cs
        → AreCounted votes (k ∷ ks) (c ∷ cs)

  pub AreCounted-same :
      (f g : ℕ → ℕ) (ks : List ℕ) (cs : List SelectedClip)
      → ((k : ℕ) → f k ≡ g k)
      → AreCounted f ks cs
      → AreCounted g ks cs
  AreCounted-same f g ks cs same nil = nil
  AreCounted-same f g ks cs same (cons {k = k} asset votes rest) =
      cons asset (votes ∙ same k) (AreCounted-same f g _ _ same rest)

  tally-above :
      (exact_at : ℕ → ℕ) (k rounds i : ℕ)
      → i ≤ k
      → k < i + rounds
      → exact_at k ≤ tally is_upgrade p rows exact_at k rounds i
  unfolding tally
  tally-above exact_at k zero i low high = absurd (omega arith)
  tally-above exact_at k (suc rounds) i low high = elim (Bool-cases (i == k)) [
    | inl at ↦
        let same : i ≡ k = ground (arith, at) in
        let self : matches is_upgrade p rows i k ≡ true =
          subst (λ j. matches is_upgrade p rows i j ≡ true) same (self_match is_upgrade p rows i) in
        rw self (omega (arith, ap exact_at same))
    | inr below ↦ omega (arith, tally-above exact_at k rounds (suc i) (ground arith) (omega arith))
  ]

  pub find_clips-found :
      (exact_at : ℕ → ℕ) (ks : List ℕ)
      → All (λ k. (k < length rows) × (0 < exact_at k)) ks
      → (cs : List SelectedClip) × (find_clips is_upgrade p rows exact_at ks ≡ inr cs)
        × AreCounted (λ k. tally is_upgrade p rows exact_at k (length rows) 0) ks cs
  unfolding find_clips
  find_clips-found exact_at [] h = ([], refl, nil)
  find_clips-found exact_at (k ∷ ks) h =
      let (r, at) = get_elem?-inside rows k h.0.0 in
      let (cs, found, counted) = find_clips-found exact_at ks h.1 in
      let enough : ltb (tally is_upgrade p rows exact_at k (length rows) 0) 1 ≡ false =
        ground
          (arith, tally-above exact_at k (length rows) 0 (omega arith) (omega (arith, h.0)), h.0) in
      rw at (rw enough (rw found (_, refl, cons (sym (ap id_at at)) refl counted)))

-- ===== src/Monitor/Identity/Matching.antt =====
-- The plan that `best` finds (internal/activity/monitor/event_identity.go, `matchEventSequences`).
use found_footy.Common.{
  ℕ, suc, ◌+◌, ◌≡◌, ◌≢◌, refl, sym, ap, ◌∙◌, Bool, true, false, List, [], ◌∷◌, length, compare,
  Ordering, arith, Bool-cases, inl, inr, if◌then◌else◌, str_eq, subst,
}
use found_footy.Common.Orders.{
  flip, Fits, IsComparison, settle-flip, settle-Fits, Fits-same_left, Fits-same_right, Fits-least,
  Fits-between, Fits-greatest, Fits-round, compare_ℕ-IsComparison,
}
use found_footy.Monitor.Identity.{
  Provided, StoredSequence, MatchPlan, no_matches, compare_matches, compare_plans, better_plan,
  within, distance, is_gt, pair_up, best_row, best,
}

compare_matches-flip : (l r : List (ℕ × ℕ)) → compare_matches r l ≡ flip (compare_matches l r)
unfolding compare_matches
compare_matches-flip [] [] = refl
compare_matches-flip [] (n ∷ r) = refl
compare_matches-flip (m ∷ l) [] = refl
compare_matches-flip (m ∷ l) (n ∷ r) =
    rw
      (
        compare_ℕ-IsComparison.flips m.0 n.0,
        compare_ℕ-IsComparison.flips m.1 n.1,
        compare_matches-flip l r,
      )
      (simp settle-flip)

compare_matches-Fits :
    (l r t : List (ℕ × ℕ)) → Fits (compare_matches l r) (compare_matches r t) (compare_matches l t)
unfolding compare_matches
compare_matches-Fits [] [] t = Fits-same_left (compare_matches [] t)
compare_matches-Fits [] (n ∷ r) [] = Fits-round
compare_matches-Fits [] (n ∷ r) (o ∷ t) = Fits-least (compare_matches (n ∷ r) (o ∷ t))
compare_matches-Fits (m ∷ l) [] [] = Fits-same_right Ordering.gt
compare_matches-Fits (m ∷ l) [] (o ∷ t) = Fits-between (compare_matches (m ∷ l) (o ∷ t))
compare_matches-Fits (m ∷ l) (n ∷ r) [] = Fits-greatest (compare_matches (m ∷ l) (n ∷ r))
compare_matches-Fits (m ∷ l) (n ∷ r) (o ∷ t) =
    settle-Fits (compare_ℕ-IsComparison.fits m.0 n.0 o.0)
      (settle-Fits (compare_ℕ-IsComparison.fits m.1 n.1 o.1) (compare_matches-Fits l r t))

more_first-Fits : (a b c : ℕ) → Fits (compare b a) (compare c b) (compare c a)
more_first-Fits a b c = record {
  chained = ground arith;
  same_left = ground arith;
  same_right = ground arith;
}

compare_plans-IsComparison : IsComparison compare_plans
unfolding compare_plans
compare_plans-IsComparison = record {
  flips = λ a b.
      rw
        (
          compare_ℕ-IsComparison.flips (length b.matches) (length a.matches),
          compare_ℕ-IsComparison.flips a.total_distance b.total_distance,
          compare_ℕ-IsComparison.flips a.detail_mismatches b.detail_mismatches,
          compare_matches-flip a.matches b.matches,
        )
        (simp settle-flip);
  fits = λ a b c.
      settle-Fits (more_first-Fits (length a.matches) (length b.matches) (length c.matches)) (
        settle-Fits (compare_ℕ-IsComparison.fits a.total_distance b.total_distance c.total_distance)
          (settle-Fits
            (compare_ℕ-IsComparison.fits a.detail_mismatches b.detail_mismatches
              c.detail_mismatches)
            (compare_matches-Fits a.matches b.matches c.matches)));
}

-- the second plan is not better than the first
abbrev pub NoBetter : MatchPlan → MatchPlan → Type 0
NoBetter b m = compare_plans m b ≢ Ordering.lt

compare_plans_refl : (m : MatchPlan) → compare_plans m m ≡ Ordering.eq
compare_plans_refl m = ground (arith, compare_plans-IsComparison.flips m m)

NoBetter-refl : (m : MatchPlan) → NoBetter m m
NoBetter-refl m h = ground (arith, compare_plans_refl m)

NoBetter-trans : (a b c : MatchPlan) → NoBetter b a → NoBetter c b → NoBetter c a
NoBetter-trans a b c h k l = ground (
  arith,
  compare_plans-IsComparison.flips a b,
  compare_plans-IsComparison.flips b c,
  compare_plans-IsComparison.flips a c,
  (compare_plans-IsComparison.fits a b c).chained,
  (compare_plans-IsComparison.fits a b c).same_left,
  (compare_plans-IsComparison.fits a b c).same_right,
  (compare_plans-IsComparison.fits c b a).chained,
)

better_plan_left : (l r : MatchPlan) → NoBetter (better_plan l r) l
unfolding better_plan
better_plan_left l r = elim (Bool-cases (is_gt (compare_plans l r))) [
  | inl worse ↦ rw worse (λ h. ground arith)
  | inr first ↦ rw first (NoBetter-refl l)
]

better_plan_right : (l r : MatchPlan) → NoBetter (better_plan l r) r
unfolding better_plan
better_plan_right l r = elim (Bool-cases (is_gt (compare_plans l r))) [
  | inl worse ↦ rw worse (NoBetter-refl r)
  | inr first ↦ rw first (λ h. ground (arith, compare_plans-IsComparison.flips l r))
]

keeps_plan :
    (test : Bool) (plan other m : MatchPlan)
    → NoBetter plan m
    → NoBetter (if test then better_plan plan other else plan) m
keeps_plan true plan other m h = NoBetter-trans m plan _ h (better_plan_left plan other)
keeps_plan false plan other m h = h

compare_shift : (d a b : ℕ) → compare (d + a) (d + b) ≡ compare a b
compare_shift d a b = ground arith

compare-suc : (a b : ℕ) → compare (suc a) (suc b) ≡ compare a b
compare-suc a b = ground arith

compare_details :
    (same : Bool) (a b : ℕ)
    → compare (if same then a else suc a) (if same then b else suc b) ≡ compare a b
compare_details same a b = ground arith

compare_refl : (a : ℕ) → compare a a ≡ Ordering.eq
compare_refl a = ground arith

module _ (tolerance : ℕ) where
  -- The order-preserving matchings: each element is skipped, or paired with one within tolerance.
  pub data Alignment : List Provided → List StoredSequence → Type 0 where
    ended : Alignment [] []
    skip_provided :
        {p : Provided} {ps : List Provided} {ss : List StoredSequence}
        → Alignment ps ss
        → Alignment (p ∷ ps) ss
    skip_stored :
        {ps : List Provided} {s : StoredSequence} {ss : List StoredSequence}
        → Alignment ps ss
        → Alignment ps (s ∷ ss)
    paired :
        {p : Provided} {ps : List Provided} {s : StoredSequence} {ss : List StoredSequence}
        → within tolerance p s ≡ true
        → Alignment ps ss
        → Alignment (p ∷ ps) (s ∷ ss)

  unfoldable pub plan_of :
      {ps : List Provided} {ss : List StoredSequence} → Alignment ps ss → MatchPlan
  plan_of ended = no_matches
  plan_of (skip_provided a) = plan_of a
  plan_of (skip_stored a) = plan_of a
  plan_of (paired {p} {ps} {s} {ss} near a) = pair_up p s (plan_of a)

  best_empty : (ss : List StoredSequence) → best tolerance [] ss ≡ no_matches
  unfolding best
  best_empty ss = refl

  best_nil : (ps : List Provided) → best tolerance ps [] ≡ no_matches
  unfolding best best_row
  best_nil [] = refl
  best_nil (p ∷ ps) = refl

  pair_up_mono :
      (p : Provided) (s : StoredSequence) (m n : MatchPlan)
      → compare_plans (pair_up p s m) (pair_up p s n) ≡ compare_plans m n
  unfolding compare_plans compare_matches
  pair_up_mono p s m n =
      rw
        (
          compare-suc (length n.matches) (length m.matches),
          compare_shift (distance p s) m.total_distance n.total_distance,
          compare_details (str_eq p.detail s.detail) m.detail_mismatches n.detail_mismatches,
          compare_refl p.index,
          compare_refl s.sequence,
        )
        refl

  -- one cell of the table is no worse than the cells below it, and than a pair in front
  cell_left :
      (p : Provided) (ps : List Provided) (s : StoredSequence) (ss : List StoredSequence)
      → NoBetter (best tolerance (p ∷ ps) (s ∷ ss)) (best tolerance ps (s ∷ ss))
  unfolding best best_row
  cell_left p ps s ss =
      let rest = best_row tolerance p (best tolerance ps) ss in
      keeps_plan (within tolerance p s) _ _ _ (better_plan_left (best tolerance ps (s ∷ ss)) rest)

  cell_right :
      (p : Provided) (ps : List Provided) (s : StoredSequence) (ss : List StoredSequence)
      → NoBetter (best tolerance (p ∷ ps) (s ∷ ss)) (best tolerance (p ∷ ps) ss)
  unfolding best best_row
  cell_right p ps s ss =
      let rest = best_row tolerance p (best tolerance ps) ss in
      keeps_plan (within tolerance p s) _ _ _ (better_plan_right (best tolerance ps (s ∷ ss)) rest)

  cell_paired :
      (p : Provided) (ps : List Provided) (s : StoredSequence) (ss : List StoredSequence)
      → within tolerance p s ≡ true
      → NoBetter (best tolerance (p ∷ ps) (s ∷ ss)) (pair_up p s (best tolerance ps ss))
  unfolding best best_row
  cell_paired p ps s ss near = rw near (better_plan_right _ (pair_up p s (best tolerance ps ss)))

  best_optimal :
      (ps : List Provided) (ss : List StoredSequence) (a : Alignment ps ss)
      → NoBetter (best tolerance ps ss) (plan_of a)
  unfolding plan_of
  best_optimal [] [] ended = rw best_nil (NoBetter-refl no_matches)
  best_optimal (p ∷ ps) [] (skip_provided a) =
      rw best_nil (subst (λ b. NoBetter b (plan_of a)) (best_nil ps) (best_optimal ps [] a))
  best_optimal (p ∷ ps) (s ∷ ss) (skip_provided a) =
      NoBetter-trans (plan_of a) _ _ (best_optimal ps (s ∷ ss) a) (cell_left p ps s ss)
  best_optimal [] (s ∷ ss) (skip_stored a) =
      subst (λ b. NoBetter b (plan_of a)) (best_empty ss ∙ sym (best_empty (s ∷ ss)))
        (best_optimal [] ss a)
  best_optimal (p ∷ ps) (s ∷ ss) (skip_stored a) =
      NoBetter-trans (plan_of a) _ _ (best_optimal (p ∷ ps) ss a) (cell_right p ps s ss)
  best_optimal (p ∷ ps) (s ∷ ss) (paired near a) =
      NoBetter-trans (pair_up p s (plan_of a)) _ _
        (rw (pair_up_mono p s (plan_of a) (best tolerance ps ss)) (best_optimal ps ss a))
        (cell_paired p ps s ss near)

  skip_rest : (ps : List Provided) (ss : List StoredSequence) → Alignment ps ss
  skip_rest [] [] = ended
  skip_rest [] (s ∷ ss) = skip_stored (skip_rest [] ss)
  skip_rest (p ∷ ps) ss = skip_provided (skip_rest ps ss)

  skip_rest-plan_of :
      (ps : List Provided) (ss : List StoredSequence) → plan_of (skip_rest ps ss) ≡ no_matches
  unfolding plan_of skip_rest
  skip_rest-plan_of [] [] = refl
  skip_rest-plan_of [] (s ∷ ss) = skip_rest-plan_of [] ss
  skip_rest-plan_of (p ∷ ps) ss = skip_rest-plan_of ps ss

  abbrev pub IsPlan : List Provided → List StoredSequence → MatchPlan → Type 0
  IsPlan ps ss m = (a : Alignment ps ss) × (plan_of a ≡ m)

  better_plan-IsPlan :
      {ps : List Provided} {ss : List StoredSequence} (m n : MatchPlan)
      → IsPlan ps ss m
      → IsPlan ps ss n
      → IsPlan ps ss (better_plan m n)
  unfolding better_plan
  better_plan-IsPlan m n h k = elim (Bool-cases (is_gt (compare_plans m n))) [
    | inl worse ↦ rw worse k
    | inr first ↦ rw first h
  ]

  pub best-IsPlan :
      (ps : List Provided) (ss : List StoredSequence) → IsPlan ps ss (best tolerance ps ss)
  unfolding best best_row plan_of
  best-IsPlan [] ss = (skip_rest [] ss, skip_rest-plan_of [] ss)
  best-IsPlan (p ∷ ps) [] = (skip_rest (p ∷ ps) [], skip_rest-plan_of (p ∷ ps) [])
  best-IsPlan (p ∷ ps) (s ∷ ss) =
      let (a, e) = best-IsPlan ps (s ∷ ss) in
      let (b, f) = best-IsPlan (p ∷ ps) ss in
      let (c, g) = best-IsPlan ps ss in
      let plan = better_plan-IsPlan _ _ (skip_provided a, e) (skip_stored b, f) in
      elim (Bool-cases (within tolerance p s)) [
        | inl near ↦ rw near (better_plan-IsPlan _ _ plan (paired near c, ap (pair_up p s) g))
        | inr far ↦ rw far plan
      ]

  -- The plan that `best` finds is that of an order-preserving matching within the tolerance, and no
  -- such matching has a better plan.
  pub best_lem :
      (ps : List Provided) (ss : List StoredSequence)
      → IsPlan ps ss (best tolerance ps ss)
        × ((a : Alignment ps ss) → NoBetter (best tolerance ps ss) (plan_of a))
  best_lem ps ss = (best-IsPlan ps ss, best_optimal ps ss)

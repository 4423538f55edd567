-- ===== src/Presentation/Tracking.antt =====
-- What the loop over the runs shows of one event (presentation.go, Build).
use found_footy.Common.{
  ℕ, ◌+◌, Bool, true, false, some, List, [], ◌∷◌, ◌≡◌, refl, sym, ap, ◌∙◌, inl, inr, All,
  All-weaken, any, count, ◌==◌, ◌&&◌, if◌then◌else◌, Bool-cases, arith,
}
use found_footy.Fixture.{Fixture}
use found_footy.Event.{Event}
use found_footy.Presentation.{
  Projection, Projections, Board, Group, members, sided, is_goal, survives, scored, score_shown,
  is_ordered, play, play_all,
}
use found_footy.Presentation.Clock.{earlier, level, earlier-level, level_refl, earlier_asym}
use found_footy.Presentation.Timeline.{AllIn, count_all}
use found_footy.Presentation.Runs.{
  IsIn, IsTrack, IsEarly, IsLevel, IsLate, late_not_level, early_not_level,
}
use found_footy.Presentation.Scores.{
  is_home, is_away, is_unsided, goal_for, board, IsSided, marked, play-board, marked-IsSided,
  marked_at, is_due, play-shown,
}

-- how many events pass a test and another one
count_zero :
    (q t : Event → Bool) (xs : List Event)
    → All (λ d. t d ≡ false) xs
    → count (λ d. q d && t d) xs ≡ 0
count_zero q t [] h = refl
count_zero q t (x ∷ xs) h = ground (arith, h.0, count_zero q t xs h.1)

count_both :
    (q t : Event → Bool) (xs : List Event)
    → All (λ d. t d ≡ true) xs
    → count (λ d. q d && t d) xs ≡ count q xs
count_both q t [] h = refl
count_both q t (x ∷ xs) h = ground (arith, h.0, count_both q t xs h.1)

count_all_zero :
    (q t : Event → Bool) (gs : List Group)
    → AllIn (λ d. t d ≡ false) gs
    → count_all (λ d. q d && t d) gs ≡ 0
count_all_zero q t [] h = refl
count_all_zero q t (g ∷ gs) h =
    omega (arith, count_zero q t (members g) h.0, count_all_zero q t gs h.1)

module _ (e : Event) where
  abbrev pub IsOne : Event → Type 0
  IsOne d = d.id ≡ e.id → d ≡ e

  any_only :
      (q : Event → Bool) (xs : List Event)
      → q e ≡ false
      → All IsOne xs
      → any (λ d. q d && (d.id == e.id)) xs ≡ false
  any_only q [] h k = refl
  any_only q (x ∷ xs) h k = elim (Bool-cases (x.id == e.id)) [
    | inl t ↦ rw (any_only q xs h k.1) (ground (arith, ap q (k.0 (ground arith)), h))
    | inr t ↦ rw (any_only q xs h k.1) (ground (arith, t))
  ]

  any_here :
      (q : Event → Bool) (xs : List Event)
      → q e ≡ true
      → IsIn e xs
      → any (λ d. q d && (d.id == e.id)) xs ≡ true
  any_here q [] h nowhere = elim nowhere [ ]
  any_here q (x ∷ xs) h (inl here) = ground (arith, h, ap (λ (d : Event). d.id) here, ap q here)
  any_here q (x ∷ xs) h (inr there) = ground (arith, any_here q xs h there)

  -- A test on the events with one identifier is the test of the event that has it.
  any_at :
      (q : Event → Bool) (xs : List Event)
      → IsIn e xs
      → All IsOne xs
      → any (λ d. q d && (d.id == e.id)) xs ≡ q e
  any_at q xs here one = elim (Bool-cases (q e)) [
    | inl t ↦ any_here q xs t here ∙ sym t
    | inr t ↦ any_only q xs t one ∙ sym t
  ]

  -- An event of another clock has another identifier.
  apart : (d : Event) → level d e ≡ false → IsOne d → (d.id == e.id) ≡ false
  apart d h one = elim (Bool-cases (d.id == e.id)) [
    | inl t ↦ absurd (ground (arith, h, ap (λ x. level x e) (one (ground arith)), level_refl e))
    | inr t ↦ t
  ]

  all_apart :
      (xs : List Event)
      → All (λ d. level d e ≡ false) xs
      → All IsOne xs
      → All (λ d. (d.id == e.id) ≡ false) xs
  all_apart [] h k = tt
  all_apart (x ∷ xs) h k = (apart x h.0 k.0, all_apart xs h.1 k.1)

-- Runs that no event of the identifier is in leave it alone.
play_all-shown :
    (gs : List Group) (b : Board) (i : ℕ)
    → AllIn (λ d. (d.id == i) ≡ false) gs
    → (play_all gs b).shown i ≡ b.shown i
unfolding play_all
play_all-shown [] b i h = refl
play_all-shown (g ∷ gs) b i h = play_all-shown gs (play g b) i h.1 ∙ play-shown g b i h.0

module _ (f : Fixture) (e : Event) where
  -- What the map shows of the event, by the goals before it and the goals of its clock.
  abbrev pub found : (h a u goals surviving : ℕ) → Projection
  found h a u goals surviving =
      if is_goal e && ((u == 0) && is_ordered goals surviving e)
      then scored (record { home = h; away = a }) (sided f e)
      else sided f e

  abbrev goals_level : List Group → ℕ
  goals_level = count_all (λ d. is_goal d && level d e)

  abbrev surviving_level : List Group → ℕ
  surviving_level = count_all (λ d. (is_goal d && survives d) && level d e)

  abbrev pub goals_before : (Event → Bool) → List Group → ℕ
  goals_before q = count_all (λ d. q d && earlier d e)

  found_shown :
      (h a : ℕ) (due : Bool)
      → (if due
          then score_shown (record { home = h; away = a }) (some (sided f e))
          else some (sided f e))
        ≡ some (if due then scored (record { home = h; away = a }) (sided f e) else sided f e)
  found_shown h a true = refl
  found_shown h a false = refl

  pub found_same :
      {h a u n v h' a' u' n' v' : ℕ}
      → h ≡ h'
      → a ≡ a'
      → u ≡ u'
      → n ≡ n'
      → v ≡ v'
      → found h a u n v ≡ found h' a' u' n' v'
  found_same p q r s t = λ i. found (p i) (q i) (r i) (s i) (t i)

  -- An earlier run adds its goals and shows nothing new of the event.
  early_goals :
      (q : Event → Bool) (g : Group) (gs : List Group) (k : ℕ)
      → All (IsEarly e) (members g)
      → k + count q (members g) + goals_before q gs ≡ k + goals_before q (g ∷ gs)
  early_goals q g gs k h = omega (arith, count_both q (λ d. earlier d e) (members g) h)

  -- The run of the event and those after it have no earlier goal.
  no_goals_before :
      (q : Event → Bool) (g : Group) (gs : List Group) (k : ℕ)
      → All (IsLevel e) (members g)
      → AllIn (IsLate e) gs
      → k ≡ k + goals_before q (g ∷ gs)
  no_goals_before q g gs k h late = omega (
    arith,
    count_zero q (λ d. earlier d e) (members g)
        (All-weaken (members g) (λ d j. earlier-level d e j) h),
    count_all_zero q (λ d. earlier d e) gs
        (All-weaken gs (λ r j. All-weaken (members r) (λ d l. earlier_asym e d l) j) late),
  )

  late_level : (gs : List Group) → AllIn (IsLate e) gs → AllIn (λ d. level d e ≡ false) gs
  late_level gs late =
      All-weaken gs (λ r j. All-weaken (members r) (λ d l. late_not_level e d l) j) late

  late_apart :
      (gs : List Group)
      → AllIn (IsLate e) gs
      → AllIn (IsOne e) gs
      → AllIn (λ d. (d.id == e.id) ≡ false) gs
  late_apart [] late one = tt
  late_apart (g ∷ gs) late one = (
    all_apart e (members g) (All-weaken (members g) (late_not_level e) late.0) one.0,
    late_apart gs late.1 one.1,
  )

  -- The goals of the clock of the event are those of its run.
  goals_here :
      (q : Event → Bool) (g : Group) (gs : List Group)
      → All (IsLevel e) (members g)
      → AllIn (IsLate e) gs
      → count q (members g) ≡ count_all (λ d. q d && level d e) (g ∷ gs)
  goals_here q g gs h late = omega (
    arith,
    count_both q (λ d. level d e) (members g) h,
    count_all_zero q (λ d. level d e) gs (late_level gs late),
  )

  goals_not_here :
      (q : Event → Bool) (g : Group) (gs : List Group)
      → All (IsEarly e) (members g)
      → count_all (λ d. q d && level d e) gs ≡ count_all (λ d. q d && level d e) (g ∷ gs)
  goals_not_here q g gs h = omega (
    arith,
    count_zero q (λ d. level d e) (members g)
        (All-weaken (members g) (λ d j. early_not_level e d j) h),
  )

  pub play_all-found :
      (gs : List Group) (h a u : ℕ) (shown : Projections)
      → IsTrack e gs
      → AllIn (IsOne e) gs
      → AllIn (IsSided f shown) gs
      → shown e.id ≡ some (sided f e)
      → (play_all gs (board f h a u shown)).shown e.id
        ≡ some (
            found
              (h + goals_before (goal_for f is_home) gs)
              (a + goals_before (goal_for f is_away) gs)
              (u + goals_before (goal_for f is_unsided) gs)
              (goals_level gs)
              (surviving_level gs))
  unfolding play_all
  play_all-found [] h a u shown nowhere one side here = elim nowhere [ ]
  play_all-found (g ∷ gs) h a u shown (inl (early, track)) one side here =
      let b = board f h a u shown in
      let away_from =
        all_apart e (members g) (All-weaken (members g) (early_not_level e) early) one.0 in
      let kept = λ (d : Event) (k : IsSided f shown d). marked-IsSided f g h a u shown d k in
      let round = play-board f g h a u shown side.0 in
      ap (λ (b : Board). (play_all gs b).shown e.id) round
      ∙ play_all-found gs _ _ _ (marked f g h a u shown) track one.1
          (All-weaken gs (λ r k. All-weaken (members r) kept k) side.1)
          (ap (λ (b : Board). b.shown e.id) (sym round) ∙ play-shown g b e.id away_from ∙ here)
      ∙ ap some (
          found_same (early_goals (goal_for f is_home) g gs h early)
            (early_goals (goal_for f is_away) g gs a early)
            (early_goals (goal_for f is_unsided) g gs u early) (goals_not_here is_goal g gs early)
            (goals_not_here (λ d. is_goal d && survives d) g gs early))
  play_all-found (g ∷ gs) h a u shown (inr (same, isin, late)) one side here =
      let b = board f h a u shown in
      let later : AllIn (λ d. (d.id == e.id) ≡ false) gs = late_apart gs late one.1 in
      play_all-shown gs (play g b) e.id later
      ∙ ap (λ (b : Board). b.shown e.id) (play-board f g h a u shown side.0)
      ∙ marked_at f g h a u shown e.id
      ∙ rw (any_at e (is_due f g u) (members g) isin one.0, here) (found_shown h a (is_due f g u e))
      ∙ ap some (
          found_same (no_goals_before (goal_for f is_home) g gs h same late)
            (no_goals_before (goal_for f is_away) g gs a same late)
            (no_goals_before (goal_for f is_unsided) g gs u same late)
            (goals_here is_goal g gs same late)
            (goals_here (λ d. is_goal d && survives d) g gs same late))

-- ===== src/Presentation/Runs.antt =====
-- Where the runs of a sorted timeline lie from one event (presentation.go, Build).
use found_footy.Common.{
  true, false, List, [], ◌∷◌, ◌≡◌, sym, ◌∙◌, subst, ◌⊎◌, inl, inr, All, All-weaken, both_branches,
  Bool-cases, arith,
}
use found_footy.Event.{Event}
use found_footy.Presentation.{same_clock, Group, members, join, cut}
use found_footy.Presentation.Clock.{
  earlier, level, same_clock_level, level_refl, earlier-level, neither_level, level_sym,
  level_trans, not_later, not_earlier,
}
use found_footy.Presentation.Timeline.{IsSorted, AllIn, AllIn-cut}

-- The event is in the list.
abbrev pub IsIn : Event → List Event → Type 0
IsIn e [] = ⊥
IsIn e (x ∷ xs) = (e ≡ x) ⊎ IsIn e xs

module _ (e : Event) where
  abbrev pub IsEarly : Event → Type 0
  IsEarly d = earlier d e ≡ true

  abbrev pub IsLevel : Event → Type 0
  IsLevel d = level d e ≡ true

  abbrev pub IsLate : Event → Type 0
  IsLate d = earlier e d ≡ true

  -- The runs before the one of the event are earlier, and those after it later.
  abbrev pub IsTrack : List Group → Type 0
  IsTrack [] = ⊥
  IsTrack (g ∷ gs) =
      (All IsEarly (members g) × IsTrack gs)
      ⊎ (All IsLevel (members g) × IsIn e (members g) × AllIn IsLate gs)

  -- The runs of events that are not earlier.
  abbrev IsTail : List Group → Type 0
  IsTail [] = Unit
  IsTail (g ∷ gs) = (All IsLevel (members g) ⊎ All IsLate (members g)) × AllIn IsLate gs

  pub late_not_level : (d : Event) → IsLate d → level d e ≡ false
  late_not_level d h = ground (arith, h, earlier-level e d, level_sym d e)

  pub early_not_level : (d : Event) → IsEarly d → level d e ≡ false
  early_not_level d h = ground (arith, h, earlier-level d e)

  level_pair : (x d : Event) → IsLevel x → IsLevel d → same_clock x d ≡ true
  level_pair x d h k = same_clock_level x d ∙ sym (level_trans x e d h) ∙ level_sym e d ∙ k

  level_late : (x d : Event) → IsLevel x → IsLate d → same_clock x d ≡ false
  level_late x d h k =
      same_clock_level x d ∙ sym (level_trans x e d h) ∙ level_sym e d ∙ late_not_level d k

  early_apart : (x d : Event) → IsEarly x → IsLevel d → same_clock x d ≡ false
  early_apart x d h k = elim (Bool-cases (same_clock x d)) [
    | inl one ↦ absurd (
        ground
          (arith, early_not_level x h, level_trans x d e (sym (same_clock_level x d) ∙ one), k))
    | inr two ↦ two
  ]

  -- The run that a level event joins, if it joins one, is level too.
  abbrev IsJoined : Event → Group → Type 0
  IsJoined x g =
      ((same_clock x g.0 ≡ true) × All IsLevel (members g))
      ⊎ ((same_clock x g.0 ≡ false) × All IsLate (members g))

  joined :
      (x : Event) (g : Group)
      → IsLevel x
      → All IsLevel (members g) ⊎ All IsLate (members g)
      → IsJoined x g
  joined x g h (inl same) = inl (level_pair x g.0 h same.0, same)
  joined x g h (inr late) = inr (level_late x g.0 h late.0, late)

  join-IsTail : (x : Event) (gs : List Group) → IsLevel x → IsTail gs → IsTail (join x gs)
  unfolding join
  join-IsTail x [] h k = (inl (h, tt), tt)
  join-IsTail x (g ∷ gs) h (either, rest) = elim (joined x g h either) [
    | inl (one, same) ↦ rw one (inl (h, same), rest)
    | inr (two, late) ↦ rw two (inl (h, tt), (late, rest))
  ]

  late-IsTail : (gs : List Group) → AllIn IsLate gs → IsTail gs
  late-IsTail [] h = tt
  late-IsTail (g ∷ gs) h = (inr h.0, h.1)

  cut-IsTail : (xs : List Event) → All (λ d. earlier d e ≡ false) xs → IsSorted xs → IsTail (cut xs)
  unfolding cut
  cut-IsTail [] h k = tt
  cut-IsTail (x ∷ xs) h k = elim (Bool-cases (earlier e x)) [
    | inl late ↦
        late-IsTail (join x (cut xs))
          (AllIn-cut IsLate (x ∷ xs) (late, All-weaken xs (λ y j. not_earlier x y e j late) k.0))
    | inr other ↦ join-IsTail x (cut xs) (neither_level x e h.0 other) (cut-IsTail xs h.1 k.1)
  ]

  pub All-at : (P : Event → Type 0) (xs : List Event) → All P xs → IsIn e xs → P e
  All-at P [] h nowhere = elim nowhere [ ]
  All-at P (x ∷ xs) h (inl here) = subst P (sym here) h.0
  All-at P (x ∷ xs) h (inr there) = All-at P xs h.1 there

  -- The event itself comes before runs that are not earlier.
  join-IsTrack_here : (x : Event) (gs : List Group) → e ≡ x → IsTail gs → IsTrack (join x gs)
  unfolding join
  join-IsTrack_here x gs here k =
      let same : IsLevel x = subst IsLevel here (level_refl e) in go gs same k
    where
      go : (gs : List Group) → IsLevel x → IsTail gs → IsTrack (join x gs)
      go [] h k = inr ((h, tt), inl here, tt)
      go (g ∷ gs) h (either, rest) = elim (joined x g h either) [
        | inl (one, same) ↦ rw one (inr ((h, same), inl here, rest))
        | inr (two, late) ↦ rw two (inr ((h, tt), inl here, (late, rest)))
      ]

  -- An event that is not later comes before the runs.
  join-IsTrack :
      (x : Event) (gs : List Group)
      → earlier e x ≡ false
      → AllIn (λ d. earlier d x ≡ false) gs
      → IsTrack gs
      → IsTrack (join x gs)
  unfolding join
  join-IsTrack x [] h k nowhere = elim nowhere [ ]
  join-IsTrack x (g ∷ gs) h k (inl (early, track)) =
      let first : IsEarly x = not_later x g.0 e k.0.0 early.0 in
      both_branches IsTrack (same_clock x g.0) (inl ((first, early), track))
        (inl ((first, tt), inl (early, track)))
  join-IsTrack x (g ∷ gs) h k (inr (same, here, rest)) = elim (Bool-cases (earlier x e)) [
    | inl first ↦ rw (early_apart x g.0 first same.0) (inl ((first, tt), inr (same, here, rest)))
    | inr other ↦
        rw (level_pair x g.0 (neither_level x e other h) same.0)
          (inr ((neither_level x e other h, same), inr here, rest))
  ]

  pub cut-IsTrack : (xs : List Event) → IsSorted xs → IsIn e xs → IsTrack (cut xs)
  unfolding cut
  cut-IsTrack [] h nowhere = elim nowhere [ ]
  cut-IsTrack (x ∷ xs) h (inl here) =
      join-IsTrack_here x (cut xs) here
        (cut-IsTail xs (subst (λ y. All (λ d. earlier d y ≡ false) xs) (sym here) h.0) h.1)
  cut-IsTrack (x ∷ xs) h (inr there) =
      join-IsTrack x (cut xs) (All-at (λ d. earlier d x ≡ false) xs h.0 there)
        (AllIn-cut (λ d. earlier d x ≡ false) xs h.0) (cut-IsTrack xs h.1 there)

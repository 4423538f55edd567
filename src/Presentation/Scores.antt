-- ===== src/Presentation/Scores.antt =====
-- The rounds of the loop over the runs (internal/contract/eventpresentation/presentation.go, Build).
use found_footy.Common.{
  ℕ, ◌+◌, Bool, true, false, not, Option, none, some, List, [], ◌∷◌, ◌≡◌, refl, ap, ◌∙◌, inl, inr,
  All, All-weaken, any, count, select, length, ◌==◌, ◌&&◌, if◌then◌else◌, Bool-cases, arith,
  length-select,
}
use found_footy.Fixture.{Fixture}
use found_footy.Event.{Event}
use found_footy.Presentation.{
  TeamSide, Score, Projection, Projections, Board, Group, members, team_side, is_goal, survives,
  score_shown, side_shown, is_ordered, mark_goals, advance_by, advance, goals_of, play,
}

-- A second boundary with the same score changes nothing.
score_twice :
    (s : Score) (p : Option Projection) → score_shown s (score_shown s p) ≡ score_shown s p
score_twice s none = refl
score_twice s (some p) = ground arith

score_side : (s : Score) (p : Option Projection) → side_shown (score_shown s p) ≡ side_shown p
score_side s none = refl
score_side s (some p) = ground arith

-- What marking does at one identifier.
pub mark_goals_at :
    (k : Bool) (s : Score) (n v : ℕ) (gs : List Event) (shown : Projections) (i : ℕ)
    → mark_goals k s n v gs shown i ≡ (
        if any (λ d. (k && is_ordered n v d) && (d.id == i)) gs
        then score_shown s (shown i)
        else shown i)
unfolding mark_goals
mark_goals_at k s n v [] shown i = refl
mark_goals_at k s n v (e ∷ es) shown i =
    elim (Bool-cases ((k && is_ordered n v e) && (e.id == i))) [
      | inl t ↦ mark_goals_at k s n v es _ i ∙ rw (t, score_twice s (shown i)) (ground arith)
      | inr t ↦ mark_goals_at k s n v es _ i ∙ rw t refl
    ]

mark_goals_side :
    (k : Bool) (s : Score) (n v : ℕ) (gs : List Event) (shown : Projections) (i : ℕ)
    → side_shown (mark_goals k s n v gs shown i) ≡ side_shown (shown i)
mark_goals_side k s n v gs shown i =
    ap side_shown (mark_goals_at k s n v gs shown i) ∙ ground (arith, score_side s (shown i))

advance-shown : (gs : List Event) (b : Board) → (advance gs b).shown ≡ b.shown
unfolding advance
advance-shown [] b = refl
advance-shown (e ∷ es) b = advance-shown es _ ∙ ground arith

-- An identifier that no event has is found by no test.
any_none :
    (q : Event → Bool) (i : ℕ) (xs : List Event)
    → All (λ d. (d.id == i) ≡ false) xs
    → any (λ d. q d && (d.id == i)) xs ≡ false
any_none q i [] h = refl
any_none q i (x ∷ xs) h = ground (arith, h.0, any_none q i xs h.1)

any-select : (p q : Event → Bool) (xs : List Event) → any p (select q xs) ≡ any (λ x. q x && p x) xs
any-select p q [] = refl
any-select p q (x ∷ xs) = ground (arith, any-select p q xs)

count-select :
    (p q : Event → Bool) (xs : List Event) → count p (select q xs) ≡ count (λ x. q x && p x) xs
count-select p q [] = refl
count-select p q (x ∷ xs) = ground (arith, count-select p q xs)

All-select :
    (P : Event → Type 0) (q : Event → Bool) (xs : List Event) → All P xs → All P (select q xs)
All-select P q [] h = tt
All-select P q (x ∷ xs) h = elim (Bool-cases (q x)) [
  | inl t ↦ rw t (h.0, All-select P q xs h.1)
  | inr t ↦ rw t (All-select P q xs h.1)
]

-- A round leaves an identifier alone that no event of the run has.
pub play-shown :
    (g : Group) (b : Board) (i : ℕ)
    → All (λ d. (d.id == i) ≡ false) (members g)
    → (play g b).shown i ≡ b.shown i
play-shown g b i h =
    let goals = goals_of g in
    let due =
      λ (d : Event). b.boundary_known && is_ordered (length goals) (count survives goals) d in
    ap (λ (m : Projections). m i) (advance-shown (goals_of g) _)
    ∙ mark_goals_at b.boundary_known b.score (length (goals_of g)) (count survives (goals_of g))
        (goals_of g) b.shown i
    ∙ rw (any_none due i goals (All-select _ is_goal (members g) h)) refl

abbrev pub is_home : Option TeamSide → Bool
is_home (some TeamSide.home) = true
is_home _ = false

abbrev pub is_away : Option TeamSide → Bool
is_away (some TeamSide.away) = true
is_away _ = false

abbrev pub is_unsided : Option TeamSide → Bool
is_unsided none = true
is_unsided _ = false

any_assoc :
    (a b c : Event → Bool) (xs : List Event)
    → any (λ x. a x && (b x && c x)) xs ≡ any (λ x. (a x && b x) && c x) xs
any_assoc a b c [] = refl
any_assoc a b c (x ∷ xs) = ground (arith, any_assoc a b c xs)

module _ (f : Fixture) where
  abbrev pub side_of : Event → Option TeamSide
  side_of e = team_side f e.team.id

  -- a goal that counts, by the test of its side
  abbrev pub counts_for : (Option TeamSide → Bool) → Event → Bool
  counts_for side e = survives e && side (side_of e)

  abbrev pub goal_for : (Option TeamSide → Bool) → Event → Bool
  goal_for side e = is_goal e && counts_for side e

  -- The board by the numbers of the goals counted for each side and for none.
  abbrev pub board : (h a u : ℕ) → Projections → Board
  board h a u shown = record {
    score = record { home = h; away = a };
    boundary_known = u == 0;
    shown = shown;
  }

  abbrev pub IsSided : Projections → Event → Type 0
  IsSided shown d = side_shown (shown d.id) ≡ side_of d

  board_same :
      {h a u h' a' u' : ℕ} (shown : Projections)
      → h ≡ h'
      → a ≡ a'
      → u ≡ u'
      → board h a u shown ≡ board h' a' u' shown
  board_same shown p q r = λ i. board (p i) (q i) (r i) shown

  abbrev one_if : Bool → ℕ
  one_if b = if b then 1 else 0

  -- One goal, by whether it is removed and by its side.
  advance_one :
      (h a u : ℕ) (shown : Projections) (gone : Bool) (side : Option TeamSide)
      → (if gone then board h a u shown else advance_by side (board h a u shown))
        ≡ board
            (h + one_if (not gone && is_home side))
            (a + one_if (not gone && is_away side))
            (u + one_if (not gone && is_unsided side))
            shown
  advance_one h a u shown true side = board_same shown (omega arith) (omega arith) (omega arith)
  advance_one h a u shown false none =
      let p : h ≡ h + 0 = omega arith in
      let q : a ≡ a + 0 = omega arith in
      let lost : false ≡ (u + 1 == 0) = ground arith in
      λ i. record {
        score = record { home = p i; away = q i };
        boundary_known = lost i;
        shown = shown;
      }
  advance_one h a u shown false (some TeamSide.home) =
      board_same shown (omega arith) (omega arith) (omega arith)
  advance_one h a u shown false (some TeamSide.away) =
      board_same shown (omega arith) (omega arith) (omega arith)

  advance-board :
      (gs : List Event) (h a u : ℕ) (shown : Projections)
      → All (IsSided shown) gs
      → advance gs (board h a u shown)
        ≡ board
            (h + count (counts_for is_home) gs)
            (a + count (counts_for is_away) gs)
            (u + count (counts_for is_unsided) gs)
            shown
  unfolding advance
  advance-board [] h a u shown k = board_same shown (omega arith) (omega arith) (omega arith)
  advance-board (e ∷ es) h a u shown k =
      ap
        (λ side.
          advance es (if e.removed then board h a u shown else advance_by side (board h a u shown)))
        k.0
      ∙ ap (advance es) (advance_one h a u shown e.removed (side_of e))
      ∙ advance-board es _ _ _ shown k.1
      ∙ board_same shown (ground arith) (ground arith) (ground arith)

  -- the map after a round
  abbrev pub marked : Group → (h a u : ℕ) → Projections → Projections
  marked g h a u shown =
      mark_goals (u == 0) (record { home = h; away = a }) (length (goals_of g))
        (count survives (goals_of g)) (goals_of g) shown

  -- A round adds the goals of the run to the score.
  pub play-board :
      (g : Group) (h a u : ℕ) (shown : Projections)
      → All (IsSided shown) (members g)
      → play g (board h a u shown)
        ≡ board
            (h + count (goal_for is_home) (members g))
            (a + count (goal_for is_away) (members g))
            (u + count (goal_for is_unsided) (members g))
            (marked g h a u shown)
  play-board g h a u shown k =
      let still = λ (d : Event) (s : IsSided shown d).
        mark_goals_side (u == 0) (record { home = h; away = a }) (length (goals_of g))
          (count survives (goals_of g)) (goals_of g) shown d.id
        ∙ s in
      advance-board (goals_of g) h a u (marked g h a u shown)
        (All-weaken (goals_of g) still (All-select (IsSided shown) is_goal (members g) k))
      ∙ board_same _ (ap (h +◌) (count-select (counts_for is_home) is_goal (members g)))
          (ap (a +◌) (count-select (counts_for is_away) is_goal (members g)))
          (ap (u +◌) (count-select (counts_for is_unsided) is_goal (members g)))

  pub marked-IsSided :
      (g : Group) (h a u : ℕ) (shown : Projections) (d : Event)
      → IsSided shown d
      → IsSided (marked g h a u shown) d
  marked-IsSided g h a u shown d s =
      mark_goals_side (u == 0) _ (length (goals_of g)) _ (goals_of g) shown d.id ∙ s

  -- Is the boundary of an event of the run shown, if it is a goal?
  abbrev pub is_allowed : Group → (u : ℕ) → Event → Bool
  is_allowed g u d =
      (u == 0)
      && is_ordered (count is_goal (members g)) (count (λ x. is_goal x && survives x) (members g)) d

  abbrev pub is_due : Group → (u : ℕ) → Event → Bool
  is_due g u d = is_goal d && is_allowed g u d

  -- What a round does at one identifier.
  pub marked_at :
      (g : Group) (h a u : ℕ) (shown : Projections) (i : ℕ)
      → marked g h a u shown i ≡ (
          if any (λ d. is_due g u d && (d.id == i)) (members g)
          then score_shown (record { home = h; away = a }) (shown i)
          else shown i)
  marked_at g h a u shown i =
      mark_goals_at (u == 0) _ (length (goals_of g)) _ (goals_of g) shown i
      ∙ rw (length-select is_goal (members g), count-select survives is_goal (members g))
          (ap (λ b. if b then score_shown (record { home = h; away = a }) (shown i) else shown i)
            (any-select _ is_goal (members g)
              ∙ any_assoc is_goal (is_allowed g u) (λ d. d.id == i) (members g)))

-- ===== src/Presentation/Boundary.antt =====
-- The score that is shown at a goal (internal/contract/eventpresentation/presentation.go, Build).
use found_footy.Common.{
  ℕ, ◌+◌, Bool, Option, none, some, List, [], ◌∷◌, ◌≡◌, refl, ap, ◌∙◌, ◌⊎◌, inl, inr, All,
  All-weaken, count, ◌==◌, ◌&&◌, if◌then◌else◌, Bool-cases, arith,
}
use found_footy.Fixture.{Fixture}
use found_footy.Event.{Event}
use found_footy.Presentation.{
  TeamSide, Score, Projection, Projections, sided, put, put_all, is_goal, survives, scored,
  side_shown, is_ordered, build, cut, insert, sort_events, sorts_before,
}
use found_footy.Presentation.Clock.{earlier, level}
use found_footy.Presentation.Timeline.{
  AllIn-cut, All-sort_events, count_all-runs, sort_events-IsSorted,
}
use found_footy.Presentation.Runs.{IsIn, All-at, cut-IsTrack}
use found_footy.Presentation.Scores.{is_home, is_away, is_unsided, goal_for, IsSided}
use found_footy.Presentation.Tracking.{IsOne, found_same, goals_before, play_all-found}

-- Two events of the list with one identifier are one event.
abbrev pub IsKeyed : List Event → Type 0
IsKeyed es = All (λ e. All (λ d. d.id ≡ e.id → d ≡ e) es) es

put_all-shown :
    (f : Fixture) (e : Event) (es : List Event) (shown : Projections)
    → All (IsOne e) es
    → IsIn e es ⊎ (shown e.id ≡ some (sided f e))
    → put_all f es shown e.id ≡ some (sided f e)
unfolding put_all
put_all-shown f e [] shown one (inr here) = here
put_all-shown f e [] shown one (inl nowhere) = elim nowhere [ ]
put_all-shown f e (x ∷ xs) shown one either =
    put_all-shown f e xs (put x.id (sided f x) shown) one.1 (elim (Bool-cases (x.id == e.id)) [
      | inl t ↦ inr (rw t (ap (λ y. some (sided f y)) (one.0 (ground arith))))
      | inr t ↦ elim either [
        | inl (inl same) ↦ absurd (ground (arith, t, ap (λ (d : Event). d.id) same))
        | inl (inr there) ↦ inl there
        | inr here ↦ inr (rw t here)
      ]
    ])

insert-IsIn : (e x : Event) (ds : List Event) → IsIn e (x ∷ ds) → IsIn e (insert x ds)
unfolding insert
insert-IsIn e x [] h = h
insert-IsIn e x (d ∷ ds) h = elim (Bool-cases (sorts_before d x)) [
  | inr t ↦ rw t h
  | inl t ↦ rw t (elim h [
    | inl same ↦ inr (insert-IsIn e x ds (inl same))
    | inr (inl same) ↦ inl same
    | inr (inr there) ↦ inr (insert-IsIn e x ds (inr there))
  ])
]

sort_events-IsIn : (e : Event) (es : List Event) → IsIn e es → IsIn e (sort_events es)
unfolding sort_events
sort_events-IsIn e [] nowhere = nowhere
sort_events-IsIn e (x ∷ xs) (inl same) = insert-IsIn e x (sort_events xs) (inl same)
sort_events-IsIn e (x ∷ xs) (inr there) =
    insert-IsIn e x (sort_events xs) (inr (sort_events-IsIn e xs there))

All-IsIn : (xs : List Event) → All (λ d. IsIn d xs) xs
All-IsIn [] = tt
All-IsIn (x ∷ xs) = (inl refl, All-weaken xs (λ d h. inr h) (All-IsIn xs))

module _ (f : Fixture) (es : List Event) where
  -- the surviving goals with an earlier clock that a side has
  abbrev pub goals_until : (Option TeamSide → Bool) → Event → ℕ
  goals_until side e = count (λ d. goal_for f side d && earlier d e) es

  abbrev pub score_until : Event → Score
  score_until e = record { home = goals_until is_home e; away = goals_until is_away e }

  -- Is the boundary of a goal known, and is it the only goal of its clock that counts for it?
  abbrev pub is_told : Event → Bool
  is_told e =
      is_goal e
      && ((goals_until is_unsided e == 0)
          && is_ordered (count (λ d. is_goal d && level d e) es)
              (count (λ d. (is_goal d && survives d) && level d e) es) e)

  -- what the map should show of an event, in terms of the events as a collection
  abbrev pub expected : Event → Projection
  expected e = if is_told e then scored (score_until e) (sided f e) else sided f e

  from_start :
      (side : Option TeamSide → Bool) (e : Event)
      → 0 + goals_before f e (goal_for f side) (cut (sort_events es)) ≡ goals_until side e
  from_start side e = omega (arith, count_all-runs (λ d. goal_for f side d && earlier d e) es)

  -- In events of which no two share an identifier, each is shown with its kind, its label, the side
  -- of its team and, if it is a goal of such a side, the score before and after it: the surviving
  -- goals of each side with an earlier clock. There is no score where a surviving goal with an
  -- earlier clock has no side, where another surviving goal has the clock of a surviving one, or
  -- where any other goal has the clock of a removed one.
  pub build-expected : (e : Event) → IsKeyed es → IsIn e es → build f es e.id ≡ some (expected e)
  unfolding build
  build-expected e keyed isin =
      let ordered = sort_events es in
      let one = λ (d : Event) (here : IsIn d es).
        All-sort_events (IsOne d) es (All-at d (λ x. All (IsOne x) es) es keyed here) in
      let start = λ (d : Event) (here : IsIn d es).
        put_all-shown f d ordered (λ i. none) (one d here) (inl (sort_events-IsIn d es here)) in
      let sides : All (λ d. IsSided f (put_all f ordered (λ i. none)) d) ordered =
        All-sort_events _ es
          (All-weaken es (λ d here. ap side_shown (start d here)) (All-IsIn es)) in
      play_all-found f e (cut ordered) 0 0 0 (put_all f ordered (λ i. none))
        (cut-IsTrack e ordered (sort_events-IsSorted es) (sort_events-IsIn e es isin))
        (AllIn-cut (IsOne e) ordered (one e isin)) (AllIn-cut _ ordered sides) (start e isin)
      ∙ ap some (
          found_same f e (from_start is_home e) (from_start is_away e) (from_start is_unsided e)
            (count_all-runs (λ d. is_goal d && level d e) es)
            (count_all-runs (λ d. (is_goal d && survives d) && level d e) es))

-- ===== src/Presentation/Timeline.antt =====
-- The sorted events and their runs (internal/contract/eventpresentation/presentation.go, Build).
use found_footy.Common.{
  ℕ, ◌+◌, Bool, false, List, [], ◌∷◌, ◌≡◌, refl, ◌∙◌, inl, inr, All, All-weaken, count,
  both_branches, Bool-cases, arith,
}
use found_footy.Event.{Event}
use found_footy.Presentation.{
  same_clock, sorts_before, insert, sort_events, Group, members, join, cut,
}
use found_footy.Presentation.Clock.{
  earlier, not_earlier_trans, sorts_before-earlier, sorts_before_not,
}

-- No event comes before one with an earlier clock.
abbrev pub IsSorted : List Event → Type 0
IsSorted [] = Unit
IsSorted (x ∷ xs) = All (λ y. earlier y x ≡ false) xs × IsSorted xs

module _ {κ} (P : Event → Type κ) where
  All-insert : (e : Event) (ds : List Event) → P e → All P ds → All P (insert e ds)
  unfolding insert
  All-insert e [] h k = (h, tt)
  All-insert e (d ∷ ds) h k =
      both_branches (All P) (sorts_before d e) (k.0, All-insert e ds h k.1) (h, k)

  pub All-sort_events : (es : List Event) → All P es → All P (sort_events es)
  unfolding sort_events
  All-sort_events [] h = tt
  All-sort_events (e ∷ es) h = All-insert e (sort_events es) h.0 (All-sort_events es h.1)

insert-IsSorted : (e : Event) (ds : List Event) → IsSorted ds → IsSorted (insert e ds)
unfolding insert
insert-IsSorted e [] h = (tt, tt)
insert-IsSorted e (d ∷ ds) h = elim (Bool-cases (sorts_before d e)) [
  | inl first ↦ rw first (
    All-insert (λ y. earlier y d ≡ false) e ds (sorts_before-earlier d e first) h.0,
    insert-IsSorted e ds h.1,
  )
  | inr other ↦ rw other (
    (
      sorts_before_not d e other,
      All-weaken ds (λ y k. not_earlier_trans y d e k (sorts_before_not d e other)) h.0,
    ),
    h,
  )
]

pub sort_events-IsSorted : (es : List Event) → IsSorted (sort_events es)
unfolding sort_events
sort_events-IsSorted [] = tt
sort_events-IsSorted (e ∷ es) = insert-IsSorted e (sort_events es) (sort_events-IsSorted es)

-- How many events of the runs pass a test.
abbrev pub count_all : (Event → Bool) → List Group → ℕ
count_all p [] = 0
count_all p (g ∷ gs) = count p (members g) + count_all p gs

-- What holds of all events of the runs.
abbrev pub AllIn : (Event → Type 0) → List Group → Type 0
AllIn P = All (λ g. All P (members g))

count-insert :
    (p : Event → Bool) (e : Event) (ds : List Event) → count p (insert e ds) ≡ count p (e ∷ ds)
unfolding insert
count-insert p e [] = refl
count-insert p e (d ∷ ds) = ground (arith, count-insert p e ds)

count_all-join :
    (p : Event → Bool) (e : Event) (gs : List Group)
    → count_all p (join e gs) ≡ count p (e ∷ []) + count_all p gs
unfolding join
count_all-join p e [] = refl
count_all-join p e (g ∷ gs) = ground arith

count_all-cut : (p : Event → Bool) (es : List Event) → count_all p (cut es) ≡ count p es
unfolding cut
count_all-cut p [] = refl
count_all-cut p (e ∷ es) = ground (arith, count_all-join p e (cut es), count_all-cut p es)

pub count_all-runs :
    (p : Event → Bool) (es : List Event) → count_all p (cut (sort_events es)) ≡ count p es
unfolding sort_events
count_all-runs p [] = count_all-cut p []
count_all-runs p (e ∷ es) =
    count_all-cut p (insert e (sort_events es))
    ∙ ground (
      arith,
      count-insert p e (sort_events es),
      count_all-cut p (sort_events es),
      count_all-runs p es,
    )

AllIn-join :
    (P : Event → Type 0) (e : Event) (gs : List Group) → P e → AllIn P gs → AllIn P (join e gs)
unfolding join
AllIn-join P e [] h k = ((h, tt), tt)
AllIn-join P e (g ∷ gs) h k =
    both_branches (AllIn P) (same_clock e g.0) ((h, k.0), k.1) ((h, tt), k)

pub AllIn-cut : (P : Event → Type 0) (es : List Event) → All P es → AllIn P (cut es)
unfolding cut
AllIn-cut P [] h = tt
AllIn-cut P (e ∷ es) h = AllIn-join P e (cut es) h.0 (AllIn-cut P es h.1)

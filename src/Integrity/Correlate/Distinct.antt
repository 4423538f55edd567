-- ===== src/Integrity/Correlate/Distinct.antt =====
-- What a correlation says of the fixtures behind it
-- (internal/domain/providerintegrity/health_scope.go).
use found_footy.Common.{
  ℕ, ◌≤◌, ◌<◌, Bool, true, false, List, [], ◌∷◌, ◌≡◌, refl, subst, ◌∙◌, ◌≢◌, ◌↔◌, inl, inr, arith,
  leb, ◌==◌, ◌&&◌, ◌||◌, any, length, Time, Bool-cases, ==_iff,
}
use found_footy.Integrity.Policy.{trusted, positive_only}
use found_footy.Integrity.Correlate.{
  HealthEpisode, is_recent, is_stall, is_conflict, holds_id, note_if, correlate_loop, insert_sorted,
  sorted_fixture_ids, correlate_health,
}

-- no id occurs twice
abbrev Distinct : List ℕ → Type 0
Distinct [] = Unit
Distinct (i ∷ is) = (holds_id i is ≡ false) × Distinct is

-- does a recent conflict of this fixture stand among the episodes?
abbrev pub in_conflict : Time → ℕ → List HealthEpisode → Bool
in_conflict at id es = any (λ e. (is_recent at e && is_conflict e.cause) && (e.fixture_id == id)) es

note_if-Distinct :
    (test : Bool) (id : ℕ) (ids : List ℕ) → Distinct ids → Distinct (note_if test id ids)
unfolding note_if
note_if-Distinct false id ids d = d
note_if-Distinct true id ids d = elim (Bool-cases (holds_id id ids)) [
  | inl e ↦ rw e d
  | inr e ↦ rw e (e, d)
]

holds_id-note_if :
    (test : Bool) (id j : ℕ) (ids : List ℕ)
    → holds_id j (note_if test id ids) ≡ ((test && (id == j)) || holds_id j ids)
unfolding note_if
holds_id-note_if false id j ids = refl
holds_id-note_if true id j ids = elim (Bool-cases (holds_id id ids)) [
  | inl e ↦ rw e (elim (Bool-cases (id == j)) [
    | inl same ↦ rw same (subst (λ k. holds_id k ids ≡ true) ((==_iff id j).0 same) e)
    | inr differ ↦ rw differ
  ])
  | inr e ↦ rw e
]

loop-Distinct :
    (at : Time) (es : List HealthEpisode) (stalled conflicts : List ℕ)
    → Distinct stalled
    → Distinct conflicts
    → Distinct (correlate_loop at stalled conflicts es).0
      × Distinct (correlate_loop at stalled conflicts es).1
unfolding correlate_loop
loop-Distinct at [] stalled conflicts d d' = (d, d')
loop-Distinct at (e ∷ es) stalled conflicts d d' =
    loop-Distinct at es _ _ (note_if-Distinct _ e.fixture_id stalled d)
      (note_if-Distinct _ e.fixture_id conflicts d')

loop-holds :
    (at : Time) (es : List HealthEpisode) (stalled conflicts : List ℕ) (id : ℕ)
    → holds_id id (correlate_loop at stalled conflicts es).1
      ≡ (in_conflict at id es || holds_id id conflicts)
unfolding correlate_loop
loop-holds at [] stalled conflicts id = refl
loop-holds at (e ∷ es) stalled conflicts id = grind (
  arith,
  loop-holds at es (note_if (is_recent at e && is_stall e.cause) e.fixture_id stalled)
      (note_if (is_recent at e && is_conflict e.cause) e.fixture_id conflicts) id,
  holds_id-note_if (is_recent at e && is_conflict e.cause) e.fixture_id id conflicts,
)

-- two different ids stand in a list without repetitions that is long enough, and only there
two_of :
    (ids : List ℕ)
    → Distinct ids
    → 2 ≤ length ids
    → (a : ℕ) × (b : ℕ) × (a ≢ b) × (holds_id a ids ≡ true) × (holds_id b ids ≡ true)
two_of [] d h = absurd (omega arith)
two_of (a ∷ []) d h = absurd (omega arith)
two_of (a ∷ b ∷ ids) d h = (a, b, (λ e. ground (arith, d.0)), ground arith, ground arith)

two_long :
    (ids : List ℕ) (a b : ℕ)
    → a ≢ b
    → holds_id a ids ≡ true
    → holds_id b ids ≡ true
    → 2 ≤ length ids
two_long [] a b ne h k = absurd (ground arith)
two_long (i ∷ []) a b ne h k = absurd (ne (ground arith))
two_long (i ∷ j ∷ ids) a b ne h k = omega arith

-- A batch of episodes restricts the provider exactly when two different fixtures each have an
-- unresolved integrity conflict that began in the last two minutes. Repeated episodes of one
-- fixture, stalled clocks and boundary warnings never do.
pub correlate_health-policy :
    (at : Time) (es : List HealthEpisode)
    → ((correlate_health at es).policy ≡ positive_only)
      ↔ ((a : ℕ) × (b : ℕ) × (a ≢ b) × (in_conflict at a es ≡ true) × (in_conflict at b es ≡ true))
unfolding correlate_health
correlate_health-policy at es = (forth, back)
  where
    conflicts : List ℕ
    conflicts = (correlate_loop at [] [] es).1

    member : (id : ℕ) → holds_id id conflicts ≡ (in_conflict at id es || false)
    member id = loop-holds at es [] [] id

    forth :
        (correlate_health at es).policy ≡ positive_only
        → (a : ℕ) × (b : ℕ) × (a ≢ b) × (in_conflict at a es ≡ true) × (in_conflict at b es ≡ true)
    forth h =
        let (a, b, ne, in_a, in_b) =
          two_of conflicts (loop-Distinct at es [] [] tt tt).1 (ground arith) in
        (a, b, ne, ground (arith, member a), ground (arith, member b))

    back :
        ((a : ℕ) × (b : ℕ) × (a ≢ b) × (in_conflict at a es ≡ true) × (in_conflict at b es ≡ true))
        → (correlate_health at es).policy ≡ positive_only
    back (a, b, ne, in_a, in_b) =
        ground
          (arith, two_long conflicts a b ne (ground (arith, member a)) (ground (arith, member b)))

-- ascending, with no repetition
abbrev pub Ascending : List ℕ → Type 0
Ascending [] = Unit
Ascending (i ∷ []) = Unit
Ascending (i ∷ j ∷ is) = (i < j) × Ascending (j ∷ is)

-- the head of an insertion is the inserted id or the old head
abbrev Below : ℕ → List ℕ → Type 0
Below k [] = Unit
Below k (i ∷ is) = k < i

Ascending-cons : (k : ℕ) (is : List ℕ) → Below k is → Ascending is → Ascending (k ∷ is)
Ascending-cons k [] b a = tt
Ascending-cons k (i ∷ is) b a = (b, a)

Below-insert : (k id : ℕ) (is : List ℕ) → k < id → Below k is → Below k (insert_sorted id is)
unfolding insert_sorted
Below-insert k id [] h b = h
Below-insert k id (i ∷ is) h b = ground arith

Ascending-tail : (i : ℕ) (is : List ℕ) → Ascending (i ∷ is) → Below i is × Ascending is
Ascending-tail i [] a = (tt, tt)
Ascending-tail i (j ∷ is) a = a

Ascending-insert :
    (id : ℕ) (is : List ℕ) → holds_id id is ≡ false → Ascending is → Ascending (insert_sorted id is)
unfolding insert_sorted
Ascending-insert id [] n a = tt
Ascending-insert id (i ∷ is) n a = elim (Bool-cases (leb id i)) [
  | inl e ↦ rw e (ground arith, a)
  | inr e ↦
      let (below, rest) = Ascending-tail i is a in
      rw e (
        Ascending-cons i (insert_sorted id is) (Below-insert i id is (ground arith) below)
          (Ascending-insert id is (ground arith) rest))
]

holds_id-insert :
    (id j : ℕ) (is : List ℕ) → holds_id j (insert_sorted id is) ≡ ((id == j) || holds_id j is)
unfolding insert_sorted
holds_id-insert id j [] = refl
holds_id-insert id j (i ∷ is) = ground (arith, holds_id-insert id j is)

holds_id-sorted : (j : ℕ) (is : List ℕ) → holds_id j (sorted_fixture_ids is) ≡ holds_id j is
unfolding sorted_fixture_ids
holds_id-sorted j [] = refl
holds_id-sorted j (i ∷ is) =
    ground (arith, holds_id-insert i j (sorted_fixture_ids is), holds_id-sorted j is)

sorted-Ascending : (is : List ℕ) → Distinct is → Ascending (sorted_fixture_ids is)
unfolding sorted_fixture_ids
sorted-Ascending [] d = tt
sorted-Ascending (i ∷ is) d =
    Ascending-insert i (sorted_fixture_ids is) (holds_id-sorted i is ∙ d.0)
      (sorted-Ascending is d.1)

-- The reported fixtures are in ascending order and each once; where the provider is restricted they
-- are exactly the fixtures in conflict, and where it is not there are none.
correlate_health-conflict_fixtures :
    (at : Time) (es : List HealthEpisode) (id : ℕ)
    → let c = correlate_health at es in
      Ascending c.conflict_fixtures
      × (c.policy ≡ positive_only → holds_id id c.conflict_fixtures ≡ in_conflict at id es)
      × (c.policy ≡ trusted → c.conflict_fixtures ≡ [])
unfolding correlate_health
correlate_health-conflict_fixtures at es id =
    elim (Bool-cases (leb 2 (length (correlate_loop at [] [] es).1))) [
      | inl e ↦ rw e (
        sorted-Ascending conflicts (loop-Distinct at es [] [] tt tt).1,
        λ _. ground (arith, holds_id-sorted id conflicts, loop-holds at es [] [] id),
        λ h. absurd (ground arith),
      )
      | inr e ↦ rw e (tt, (λ h. absurd (ground arith)), λ h. refl)
    ]
  where
    conflicts : List ℕ
    conflicts = (correlate_loop at [] [] es).1

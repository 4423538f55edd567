-- ===== src/Monitor/Identity/Groups/Sequences.antt =====
-- Which sequences a group gives out (internal/activity/monitor/event_identity.go,
-- `assignEventSequences`).
use mathlib.Core.List.{append_assoc, append-nil}
use found_footy.Common.{
  All-weaken, ℕ, suc, ◌≤◌, ◌<◌, ◌≡◌, ◌≢◌, ◌⊎◌, sym, ap, subst, ◌∙◌, Bool, true, not, List, [], ◌∷◌,
  ◌++◌, any, any-append, select, All, All-append, ◌==◌, arith, Bool-cases, inl, inr,
}
use found_footy.Monitor.Identity.{
  Provided, StoredSequence, Assigned, has_index, best, sort_by, insert_by, provided_before,
  stored_before, match_event_sequences, fresh_sequences, fresh_round,
}
use found_footy.Monitor.Identity.Matching.{
  Alignment, ended, skip_provided, skip_stored, paired, plan_of, best-IsPlan,
}
use found_footy.Monitor.Identity.Groups.{SequenceGroup, clock_tolerance, assign_group}

-- the sequences of the pairs are different
abbrev pub IsInjective : Assigned → Type 0
IsInjective [] = Unit
IsInjective (a ∷ rest) = All (λ b. b.1 ≢ a.1) rest × IsInjective rest

abbrev pub AreDistinct : List StoredSequence → Type 0
AreDistinct [] = Unit
AreDistinct (s ∷ ss) = All (λ t. t.sequence ≢ s.sequence) ss × AreDistinct ss

module _ {ℓ κ} {A : Type ℓ} (P : A → Type κ) (less : A → A → Bool) where
  insert_by-All : (x : A) (ys : List A) → P x → All P ys → All P (insert_by less x ys)
  unfolding insert_by
  insert_by-All x [] p h = (p, tt)
  insert_by-All x (y ∷ ys) p h = elim (Bool-cases (less x y)) [
    | inl first ↦ rw first (p, h)
    | inr later ↦ rw later (h.0, insert_by-All x ys p h.1)
  ]

  sort_by-All : (xs : List A) → All P xs → All P (sort_by less xs)
  unfolding sort_by
  sort_by-All [] h = tt
  sort_by-All (x ∷ xs) h = insert_by-All x (sort_by less xs) h.0 (sort_by-All xs h.1)

module _ (less : StoredSequence → StoredSequence → Bool) where
  insert_by-AreDistinct :
      (s : StoredSequence) (ss : List StoredSequence)
      → All (λ t. t.sequence ≢ s.sequence) ss
      → AreDistinct ss
      → AreDistinct (insert_by less s ss)
  unfolding insert_by
  insert_by-AreDistinct s [] new h = (tt, tt)
  insert_by-AreDistinct s (t ∷ ss) new h = elim (Bool-cases (less s t)) [
    | inl first ↦ rw first (new, h)
    | inr later ↦ rw later (
      insert_by-All (λ u. u.sequence ≢ t.sequence) less s ss (λ e. new.0 (sym e)) h.0,
      insert_by-AreDistinct s ss new.1 h.1,
    )
  ]

  sort_by-AreDistinct : (ss : List StoredSequence) → AreDistinct ss → AreDistinct (sort_by less ss)
  unfolding sort_by
  sort_by-AreDistinct [] h = tt
  sort_by-AreDistinct (s ∷ ss) h =
      insert_by-AreDistinct s (sort_by less ss)
        (sort_by-All (λ t. t.sequence ≢ s.sequence) less ss h.0) (sort_by-AreDistinct ss h.1)

module _ (tolerance : ℕ) where
  plan_of-All {κ} :
      (Q : ℕ → Type κ) {ps : List Provided} {ss : List StoredSequence}
      (a : Alignment tolerance ps ss)
      → All (λ s. Q s.sequence) ss
      → All (λ m. Q m.1) (plan_of tolerance a).matches
  unfolding plan_of
  plan_of-All Q ended h = tt
  plan_of-All Q (skip_provided a) h = plan_of-All Q a h
  plan_of-All Q (skip_stored a) h = plan_of-All Q a h.1
  plan_of-All Q (paired near a) h = (h.0, plan_of-All Q a h.1)

  plan_of-IsInjective :
      {ps : List Provided} {ss : List StoredSequence} (a : Alignment tolerance ps ss)
      → AreDistinct ss
      → IsInjective (plan_of tolerance a).matches
  unfolding plan_of
  plan_of-IsInjective ended h = tt
  plan_of-IsInjective (skip_provided a) h = plan_of-IsInjective a h
  plan_of-IsInjective (skip_stored a) h = plan_of-IsInjective a h.1
  plan_of-IsInjective (paired {s = s} near a) h =
      (plan_of-All (λ n. n ≢ s.sequence) a h.0, plan_of-IsInjective a h.1)

-- What a loop adds to a map: pairs with different sequences above a number.
record Adds (above : ℕ) (before after : Assigned) : Type 0 where
  added : Assigned
  split : after ≡ before ++ added
  higher : All (λ a. above < a.1) added
  injective : IsInjective added

round-Adds :
    (p : Provided) (max_sequence : ℕ) (assigned after : Assigned)
    → let next = fresh_round p (max_sequence, assigned) in
      Adds next.0 next.1 after → Adds max_sequence assigned after
round-Adds p max_sequence assigned after = elim (Bool-cases (has_index assigned p.index)) [
  | inl taken ↦ rw taken (λ h. h)
  | inr free ↦ rw free (λ h. record {
    added = (p.index, suc max_sequence) ∷ h.added;
    split = h.split ∙ append_assoc assigned ((p.index, suc max_sequence) ∷ []) h.added;
    higher = (omega arith, All-weaken h.added (λ a more. omega (arith, more)) h.higher);
    injective =
        (All-weaken h.added (λ a more same. omega (arith, more, same)) h.higher, h.injective);
  })
]

fresh-Adds :
    (ps : List Provided) (state : ℕ × Assigned) → Adds state.0 state.1 (fresh_sequences ps state).1
unfolding fresh_sequences
fresh-Adds [] state = record {
  added = [];
  split = sym (append-nil state.1);
  higher = tt;
  injective = tt;
}
fresh-Adds (p ∷ ps) (max_sequence, assigned) =
    round-Adds p max_sequence assigned _ (fresh-Adds ps (fresh_round p (max_sequence, assigned)))

Adds-has_index :
    {above : ℕ} {before after : Assigned} (i : ℕ)
    → Adds above before after
    → has_index before i ≡ true
    → has_index after i ≡ true
Adds-has_index {above} {before} i h old =
    ground (arith, any-append (λ a. a.0 == i) before h.added, ap (λ m. has_index m i) h.split)

round-has_index :
    (p : Provided) (state : ℕ × Assigned) → has_index (fresh_round p state).1 p.index ≡ true
round-has_index p (max_sequence, assigned) = elim (Bool-cases (has_index assigned p.index)) [
  | inl taken ↦ rw (taken) taken
  | inr free ↦
      rw free (
        ground
          (arith, any-append (λ a. a.0 == p.index) assigned ((p.index, suc max_sequence) ∷ [])))
]

fresh-has_index :
    (ps : List Provided) (state : ℕ × Assigned)
    → All (λ p. has_index (fresh_sequences ps state).1 p.index ≡ true) ps
unfolding fresh_sequences
fresh-has_index [] state = tt
fresh-has_index (p ∷ ps) state =
    let next = fresh_round p state in
    (Adds-has_index p.index (fresh-Adds ps next) (round-has_index p state), fresh-has_index ps next)

append-IsInjective :
    (pairs bs : Assigned) (bound : ℕ)
    → All (λ a. a.1 ≤ bound) pairs
    → All (λ b. bound < b.1) bs
    → IsInjective pairs
    → IsInjective bs
    → IsInjective (pairs ++ bs)
append-IsInjective [] bs bound low high h k = k
append-IsInjective (a ∷ pairs) bs bound low high h k = (
  All-append (λ b. b.1 ≢ a.1) pairs bs h.0
      (All-weaken bs (λ b more same. omega (arith, more, same, low.0)) high),
  append-IsInjective pairs bs bound low.1 high h.1 k,
)

-- is the sequence that of an active event of the group?
abbrev pub is_active : SequenceGroup → ℕ → Bool
is_active g sequence = any (λ s. s.sequence == sequence) g.active

-- The active events of a group have different sequences, none above its maximum.
pub record IsSound (g : SequenceGroup) : Type 0 where
  pub distinct : AreDistinct g.active
  pub bounded : All (λ s. s.sequence ≤ g.max_sequence) g.active

-- What a group adds to the map: pairs of different sequences, each that of an active event of the
-- group or above all that the group ever had.
pub record Assigns (g : SequenceGroup) (before after : Assigned) : Type 0 where
  pub added : Assigned
  pub split : after ≡ before ++ added
  pub injective : IsInjective added
  pub known : All (λ a. (is_active g a.1 ≡ true) ⊎ (g.max_sequence < a.1)) added
  pub complete : All (λ p. has_index after p.index ≡ true) g.providers

is_active-All :
    (ss : List StoredSequence) → All (λ s. any (λ t. t.sequence == s.sequence) ss ≡ true) ss
is_active-All [] = tt
is_active-All (s ∷ ss) = (ground arith, All-weaken ss (λ t h. ground arith) (is_active-All ss))

-- Every provided event of a group gets a sequence; those that the group gives out are different,
-- and each is that of an active event or above every sequence that the group has ever had.
pub assign_group-Assigns :
    (incomplete : ℕ → Bool) (g : SequenceGroup) (before : Assigned)
    → IsSound g
    → Assigns g before (assign_group incomplete g before)
unfolding assign_group match_event_sequences
assign_group-Assigns incomplete g before sound =
    let tolerance = clock_tolerance incomplete g in
    let free = sort_by provided_before (select (λ p. not (has_index before p.index)) g.providers) in
    let stored = sort_by stored_before g.active in
    let plan = best tolerance free stored in
    let (a, e) = best-IsPlan tolerance free stored in
    let low =
      subst (λ m. All (λ n. n.1 ≤ g.max_sequence) m.matches) e
        (plan_of-All tolerance (λ n. n ≤ g.max_sequence) a
          (sort_by-All (λ s. s.sequence ≤ g.max_sequence) stored_before g.active sound.bounded)) in
    let old =
      subst (λ m. All (λ n. is_active g n.1 ≡ true) m.matches) e
        (plan_of-All tolerance (λ n. is_active g n ≡ true) a
          (sort_by-All (λ s. is_active g s.sequence ≡ true) stored_before g.active
            (is_active-All g.active))) in
    let different =
      subst (λ m. IsInjective m.matches) e
        (plan_of-IsInjective tolerance a
          (sort_by-AreDistinct stored_before g.active sound.distinct)) in
    let fresh = fresh-Adds g.providers (g.max_sequence, before ++ plan.matches) in
    record {
      added = plan.matches ++ fresh.added;
      split = fresh.split ∙ append_assoc before plan.matches fresh.added;
      injective =
          append-IsInjective plan.matches fresh.added g.max_sequence low fresh.higher different
            fresh.injective;
      known =
          All-append (λ n. (is_active g n.1 ≡ true) ⊎ (g.max_sequence < n.1)) plan.matches
            fresh.added (All-weaken plan.matches (λ n h. inl h) old)
            (All-weaken fresh.added (λ n h. inr h) fresh.higher);
      complete = fresh-has_index g.providers (g.max_sequence, before ++ plan.matches);
    }

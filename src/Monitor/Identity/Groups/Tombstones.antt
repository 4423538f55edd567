-- ===== src/Monitor/Identity/Groups/Tombstones.antt =====
-- What a group reserves (internal/activity/monitor/event_identity.go, `assignEventSequences`).
use found_footy.Common.{
  ℕ, suc, ◌≤◌, ◌≡◌, subst, Bool, true, List, [], ◌∷◌, any, All, Option, none, some, ◌==◌, arith,
  Bool-cases, Option-cases, inl, inr, OnSome, OnSome-and_then, OnSome-map, both_branches, leb, ◌&&◌,
  ◌≤◌, refl, option_eq, str_eq_refl,
}
use found_footy.Event.{Event, EventType}
use found_footy.Event.Key.{type_text}
use found_footy.Monitor.Provider.{ApiEvent}
use found_footy.Monitor.Identity.{trackable_type}
use found_footy.Monitor.Identity.Groups.{
  GroupKey, SequenceGroup, same_key, new_group, update_group, add_sequence, add_stored_events,
  add_api_events, add_provider, add_stored, add_api_event, api_key, stored_key, or_same,
  add_tracked, sequence_from_natural_key, provided,
}

-- A group of the key has this sequence or a higher one as its highest.
abbrev pub reserves : GroupKey → ℕ → SequenceGroup → Bool
reserves key n g = same_key g.key key && leb n g.max_sequence

-- A change of a group keeps its key and lowers nothing.
record IsGrowth (g h : SequenceGroup) : Type 0 where
  same : h.key ≡ g.key
  higher : g.max_sequence ≤ h.max_sequence

reserves-grows :
    (key : GroupKey) (n : ℕ) (g h : SequenceGroup)
    → IsGrowth g h
    → reserves key n g ≡ true
    → reserves key n h ≡ true
reserves-grows key n g h grown r = rw grown.same (ground (arith, r, grown.higher))

add_sequence-IsGrowth :
    (e : Event) (n : ℕ) (g : SequenceGroup) → OnSome (IsGrowth g) (add_sequence e n g)
unfolding add_sequence
add_sequence-IsGrowth e n g =
    both_branches (OnSome (IsGrowth g)) (any (λ m. m == n) g.sequences) tt
      (record { same = refl; higher = omega arith })

-- A change of one group takes no reservation away.
update_group-reserves :
    (key : GroupKey) (n : ℕ) (at : GroupKey) (change : SequenceGroup → Option SequenceGroup)
    (gs : List SequenceGroup)
    → ((g : SequenceGroup) → OnSome (IsGrowth g) (change g))
    → any (reserves key n) gs ≡ true
    → OnSome (λ hs. any (reserves key n) hs ≡ true) (update_group at change gs)
unfolding update_group
update_group-reserves key n at change [] grows h = absurd (ground (arith, h))
update_group-reserves key n at change (g ∷ gs) grows h = elim (Bool-cases (same_key g.key at)) [
  | inl found ↦ rw found (elim (Option-cases (change g)) [
    | inl failed ↦ rw failed tt
    | inr (g', made) ↦ rw made (elim (Bool-cases (reserves key n g)) [
      | inl held ↦
          ground
            (arith, reserves-grows key n g g' (subst (OnSome (IsGrowth g)) made (grows g)) held)
      | inr other ↦ ground (arith, h, other)
    ])
  ])
  | inr other ↦ rw other (elim (Option-cases (update_group at change gs)) [
    | inl failed ↦ rw failed tt
    | inr (gs', made) ↦ rw made (elim (Bool-cases (reserves key n g)) [
      | inl held ↦ ground (arith, held)
      | inr not_here ↦
          let rest : OnSome (λ hs. any (reserves key n) hs ≡ true) (update_group at change gs) =
            update_group-reserves key n at change gs grows (ground (arith, h, not_here)) in
          ground (arith, subst (OnSome (λ hs. any (reserves key n) hs ≡ true)) made rest)
    ])
  ])
]

same_id : (o : Option ℕ) → option_eq ◌==◌ o o ≡ true
same_id none = refl
same_id (some n) = ground arith

same_key_refl : (key : GroupKey) → same_key key key ≡ true
same_key_refl key = ground (arith, same_id key.player, str_eq_refl (type_text key.event_type))

add_sequence-reserves :
    (e : Event) (n : ℕ) (key : GroupKey) (g : SequenceGroup)
    → same_key g.key key ≡ true
    → OnSome (λ h. reserves key n h ≡ true) (add_sequence e n g)
unfolding add_sequence
add_sequence-reserves e n key g h =
    both_branches (OnSome (λ k. reserves key n k ≡ true)) (any (λ m. m == n) g.sequences) tt
      (ground (arith, h))

-- A stored event, removed or not, has its sequence reserved.
update_group-added :
    (e : Event) (n : ℕ) (key : GroupKey) (gs : List SequenceGroup)
    → OnSome (λ hs. any (reserves key n) hs ≡ true) (update_group key (add_sequence e n) gs)
unfolding update_group
update_group-added e n key [] = elim (Option-cases (add_sequence e n (new_group key))) [
  | inl failed ↦ rw failed tt
  | inr (g, made) ↦
      let held = add_sequence-reserves e n key (new_group key) (same_key_refl key) in
      rw made (ground (arith, subst (OnSome (λ h. reserves key n h ≡ true)) made held))
]
update_group-added e n key (g ∷ gs) = elim (Bool-cases (same_key g.key key)) [
  | inl found ↦ rw found (elim (Option-cases (add_sequence e n g)) [
    | inl failed ↦ rw failed tt
    | inr (h, made) ↦
        let held = add_sequence-reserves e n key g found in
        rw made (ground (arith, subst (OnSome (λ h. reserves key n h ≡ true)) made held))
  ])
  | inr other ↦ rw other (elim (Option-cases (update_group key (add_sequence e n) gs)) [
    | inl failed ↦ rw failed tt
    | inr (hs, made) ↦
        let rest = update_group-added e n key gs in
        rw made (ground (arith, subst (OnSome (λ hs. any (reserves key n) hs ≡ true)) made rest))
  ])
]

-- The sequence of an event is at most the highest of a group of its key.
abbrev pub IsKept : List SequenceGroup → Event → Type 0
IsKept gs e =
    OnSome (λ n. any (reserves (stored_key e) n) gs ≡ true)
      (sequence_from_natural_key e.natural_key)

add_stored-added :
    (e : Event) (gs : List SequenceGroup) → OnSome (λ hs. IsKept hs e) (add_stored e gs)
unfolding add_stored
add_stored-added e gs = elim (Option-cases (sequence_from_natural_key e.natural_key)) [
  | inl failed ↦ rw failed tt
  | inr (n, read) ↦ rw read (update_group-added e n (stored_key e) gs)
]

add_stored-reserves :
    (key : GroupKey) (n : ℕ) (e : Event) (gs : List SequenceGroup)
    → any (reserves key n) gs ≡ true
    → OnSome (λ hs. any (reserves key n) hs ≡ true) (add_stored e gs)
unfolding add_stored
add_stored-reserves key n e gs h = elim (Option-cases (sequence_from_natural_key e.natural_key)) [
  | inl failed ↦ rw failed tt
  | inr (m, read) ↦ rw read (
      update_group-reserves key n (stored_key e) (add_sequence e m) gs (add_sequence-IsGrowth e m)
        h)
]

add_stored_events-reserves :
    (key : GroupKey) (n : ℕ) (es : List Event) (gs : List SequenceGroup)
    → any (reserves key n) gs ≡ true
    → OnSome (λ hs. any (reserves key n) hs ≡ true) (add_stored_events es gs)
unfolding add_stored_events
add_stored_events-reserves key n [] gs h = h
add_stored_events-reserves key n (e ∷ es) gs h =
    OnSome-and_then (λ hs. any (reserves key n) hs ≡ true) (λ hs. any (reserves key n) hs ≡ true)
      (add_stored e gs) (add_stored_events es) (add_stored-reserves key n e gs h)
      (add_stored_events-reserves key n es)

-- What is kept stays kept.
IsKept-grow :
    (e : Event) (gs : List SequenceGroup) (next : Option (List SequenceGroup))
    → ((n : ℕ)
        → any (reserves (stored_key e) n) gs ≡ true
        → OnSome (λ hs. any (reserves (stored_key e) n) hs ≡ true) next)
    → IsKept gs e
    → OnSome (λ hs. IsKept hs e) next
IsKept-grow e gs none keeps h = tt
IsKept-grow e gs (some hs) keeps h = OnSome-map (sequence_from_natural_key e.natural_key) keeps h

both_some :
    (P Q : List SequenceGroup → Type 0) (o : Option (List SequenceGroup))
    → OnSome P o
    → OnSome Q o
    → OnSome (λ hs. P hs × Q hs) o
both_some P Q none h k = tt
both_some P Q (some hs) h k = (h, k)

pub stored-AreKept :
    (es : List Event) (gs : List SequenceGroup)
    → OnSome (λ hs. All (IsKept hs) es) (add_stored_events es gs)
unfolding add_stored_events
stored-AreKept [] gs = tt
stored-AreKept (e ∷ es) gs =
    OnSome-and_then (λ hs. IsKept hs e) (λ hs. All (IsKept hs) (e ∷ es)) (add_stored e gs)
      (add_stored_events es) (add_stored-added e gs)
      (λ hs h.
        both_some (λ ks. IsKept ks e) (λ ks. All (IsKept ks) es) (add_stored_events es hs)
          (IsKept-grow e hs (add_stored_events es hs)
            (λ n. add_stored_events-reserves (stored_key e) n es hs) h)
          (stored-AreKept es hs))

or_same-reserves :
    (key : GroupKey) (n : ℕ) (gs : List SequenceGroup) (more : Option (List SequenceGroup))
    → any (reserves key n) gs ≡ true
    → OnSome (λ hs. any (reserves key n) hs ≡ true) more
    → any (reserves key n) (or_same more gs) ≡ true
or_same-reserves key n gs none h k = h
or_same-reserves key n gs (some hs) h k = k

tracked-reserves :
    (key : GroupKey) (n : ℕ) (t : Option EventType) (index : ℕ) (e : ApiEvent)
    (gs : List SequenceGroup)
    → any (reserves key n) gs ≡ true
    → any (reserves key n) (add_tracked t index e gs) ≡ true
tracked-reserves key n none index e gs h = h
tracked-reserves key n (some t) index e gs h = or_same-reserves key n gs _ h (
    update_group-reserves key n (api_key e t) (add_provider (provided index e)) gs
      (λ g. record { same = refl; higher = omega arith }) h)

pub api-reserves :
    (key : GroupKey) (n : ℕ) (index : ℕ) (es : List ApiEvent) (gs : List SequenceGroup)
    → any (reserves key n) gs ≡ true
    → any (reserves key n) (add_api_events index es gs) ≡ true
unfolding add_api_events add_api_event
api-reserves key n index [] gs h = h
api-reserves key n index (e ∷ es) gs h =
    api-reserves key n (suc index) es (add_api_event index e gs)
      (tracked-reserves key n (trackable_type e) index e gs h)

-- ===== src/Monitor/Identity/Groups/Reserved.antt =====
-- What the groups know of the stored events (internal/activity/monitor/event_identity.go,
-- `assignEventSequences`).
use found_footy.Common.{
  All-weaken, ℕ, suc, ◌≤◌, ◌≡◌, ◌≢◌, sym, ap, subst, Bool, true, false, List, [], ◌∷◌, ◌++◌, any,
  All, All-append, Option, none, some, ◌==◌, max, arith, Bool-cases, Option-cases, inl, inr, OnSome,
  OnSome-and_then, OnSome-any, OnSome-map,
}
use found_footy.Event.{Event, EventType}
use found_footy.Monitor.Provider.{ApiEvent}
use found_footy.Monitor.Identity.{Provided, StoredSequence, trackable_type}
use found_footy.Monitor.Identity.Groups.{
  GroupKey, SequenceGroup, same_key, new_group, update_group, add_sequence, add_stored_events,
  add_api_events, add_provider, add_stored, add_api_event, api_key, stored_key, or_same,
  add_tracked, sequence_from_natural_key, provided,
}
use found_footy.Monitor.Identity.Groups.Sequences.{AreDistinct, IsSound}
use found_footy.Monitor.Identity.Groups.Tombstones.{IsKept, stored-AreKept, api-reserves}

abbrev holds : ℕ → List ℕ → Bool
holds n ns = any (λ m. m == n) ns

-- A group keeps every sequence it has seen below its maximum, and its active events are among them.
record IsReserved (g : SequenceGroup) : Type 0 where
  distinct : AreDistinct g.active
  among : All (λ s. holds s.sequence g.sequences ≡ true) g.active
  below : All (λ n. n ≤ g.max_sequence) g.sequences

below-holds : (ns : List ℕ) (n top : ℕ) → All (λ m. m ≤ top) ns → holds n ns ≡ true → n ≤ top
below-holds [] n top h k = absurd (ground arith)
below-holds (m ∷ ns) n top h k = elim (Bool-cases (m == n)) [
  | inl same ↦ ground arith
  | inr other ↦ below-holds ns n top h.1 (ground arith)
]

IsReserved-IsSound : (g : SequenceGroup) → IsReserved g → IsSound g
IsReserved-IsSound g h = record {
  distinct = h.distinct;
  bounded =
      All-weaken g.active (λ s k. below-holds g.sequences s.sequence g.max_sequence h.below k)
        h.among;
}

append-AreDistinct :
    (ss : List StoredSequence) (s : StoredSequence)
    → All (λ t. t.sequence ≢ s.sequence) ss
    → AreDistinct ss
    → AreDistinct (ss ++ s ∷ [])
append-AreDistinct [] s new h = (tt, tt)
append-AreDistinct (t ∷ ss) s new h = (
  All-append (λ u. u.sequence ≢ t.sequence) ss (s ∷ []) h.0 ((λ e. new.0 (sym e)), tt),
  append-AreDistinct ss s new.1 h.1,
)

-- a sequence that the group has not seen is none of its active ones
unseen-active :
    (ss : List StoredSequence) (ns : List ℕ) (n : ℕ)
    → holds n ns ≡ false
    → All (λ s. holds s.sequence ns ≡ true) ss
    → All (λ s. s.sequence ≢ n) ss
unseen-active ss ns n new h = All-weaken ss (λ s k same. cc (new, k, ap (λ m. holds m ns) same)) h

add_sequence-IsReserved :
    (e : Event) (n : ℕ) (g : SequenceGroup) → IsReserved g → OnSome IsReserved (add_sequence e n g)
unfolding add_sequence
add_sequence-IsReserved e n g r = elim (Bool-cases (holds n g.sequences)) [
  | inl seen ↦ rw seen tt
  | inr new ↦
      let among : All (λ s. holds s.sequence (n ∷ g.sequences) ≡ true) g.active =
        All-weaken g.active (λ s k. ground arith) r.among in
      let below : All (λ m. m ≤ max g.max_sequence n) (n ∷ g.sequences) =
        (ground arith, All-weaken g.sequences (λ m k. omega (arith, k)) r.below) in
      rw new (elim (Bool-cases e.removed) [
        | inl gone ↦ rw gone (record { distinct = r.distinct; among = among; below = below })
        | inr live ↦ rw live (record {
          distinct =
              append-AreDistinct g.active _ (unseen-active g.active g.sequences n new r.among)
                r.distinct;
          among =
              All-append (λ s. holds s.sequence (n ∷ g.sequences) ≡ true) g.active _ among
                (ground arith, tt);
          below = below;
        })
      ])
]

update_group-All :
    (P : SequenceGroup → Type 0) (key : GroupKey) (change : SequenceGroup → Option SequenceGroup)
    (gs : List SequenceGroup)
    → ((g : SequenceGroup) → P g → OnSome P (change g))
    → P (new_group key)
    → All P gs
    → OnSome (All P) (update_group key change gs)
unfolding update_group
update_group-All P key change [] keeps blank h = elim (Option-cases (change (new_group key))) [
  | inl failed ↦ rw failed tt
  | inr (g, made) ↦ rw made (subst (OnSome P) made (keeps (new_group key) blank), tt)
]
update_group-All P key change (g ∷ gs) keeps blank h = elim (Bool-cases (same_key g.key key)) [
  | inl found ↦ rw found (elim (Option-cases (change g)) [
    | inl failed ↦ rw failed tt
    | inr (g', made) ↦ rw made (subst (OnSome P) made (keeps g h.0), h.1)
  ])
  | inr other ↦ rw other (elim (Option-cases (update_group key change gs)) [
    | inl failed ↦ rw failed tt
    | inr (gs', made) ↦
        rw made
          (h.0, subst (OnSome (All P)) made (update_group-All P key change gs keeps blank h.1))
  ])
]

IsReserved-new_group : (key : GroupKey) → IsReserved (new_group key)
IsReserved-new_group key = record { distinct = tt; among = tt; below = tt }

stored_one :
    (e : Event) (gs : List SequenceGroup)
    → All IsReserved gs
    → OnSome (All IsReserved) (add_stored e gs)
unfolding add_stored
stored_one e gs h =
    OnSome-and_then _ (All IsReserved) (sequence_from_natural_key e.natural_key) _ (OnSome-any _)
      (λ n made.
        update_group-All IsReserved (stored_key e) (add_sequence e n) gs
          (add_sequence-IsReserved e n) (IsReserved-new_group (stored_key e)) h)

stored-IsReserved :
    (es : List Event) (gs : List SequenceGroup)
    → All IsReserved gs
    → OnSome (All IsReserved) (add_stored_events es gs)
unfolding add_stored_events
stored-IsReserved [] gs h = h
stored-IsReserved (e ∷ es) gs h =
    OnSome-and_then (All IsReserved) (All IsReserved) (add_stored e gs) (add_stored_events es)
      (stored_one e gs h) (stored-IsReserved es)

provider-IsReserved :
    (p : Provided) (g : SequenceGroup) → IsReserved g → OnSome IsReserved (add_provider p g)
provider-IsReserved p g h = record { distinct = h.distinct; among = h.among; below = h.below }

or_same-All :
    (gs : List SequenceGroup) (more : Option (List SequenceGroup))
    → All IsReserved gs
    → OnSome (All IsReserved) more
    → All IsReserved (or_same more gs)
or_same-All gs none h k = h
or_same-All gs (some more) h k = k

tracked-IsReserved :
    (t : Option EventType) (index : ℕ) (e : ApiEvent) (gs : List SequenceGroup)
    → All IsReserved gs
    → All IsReserved (add_tracked t index e gs)
tracked-IsReserved none index e gs h = h
tracked-IsReserved (some event_type) index e gs h = or_same-All gs _ h (
    update_group-All IsReserved (api_key e event_type) (add_provider (provided index e)) gs
      (provider-IsReserved (provided index e)) (IsReserved-new_group (api_key e event_type)) h)

api_one :
    (index : ℕ) (e : ApiEvent) (gs : List SequenceGroup)
    → All IsReserved gs
    → All IsReserved (add_api_event index e gs)
unfolding add_api_event
api_one index e gs h = tracked-IsReserved (trackable_type e) index e gs h

api-IsReserved :
    (index : ℕ) (es : List ApiEvent) (gs : List SequenceGroup)
    → All IsReserved gs
    → All IsReserved (add_api_events index es gs)
unfolding add_api_events
api-IsReserved index [] gs h = h
api-IsReserved index (e ∷ es) gs h =
    api-IsReserved (suc index) es (add_api_event index e gs) (api_one index e gs h)

-- The groups that are made of a fixture's events and a response have active events of different
-- sequences, none above the highest of the group, and the sequence of every stored event, removed or
-- not, is at most the highest of a group of its team, player and type.
pub groups-IsSound :
    (api_events : List ApiEvent) (stored : List Event) (groups : List SequenceGroup)
    → add_stored_events stored [] ≡ some groups
    → let gs = add_api_events 0 api_events groups in All IsSound gs × All (IsKept gs) stored
groups-IsSound api_events stored groups made = (
  All-weaken _ IsReserved-IsSound (
      api-IsReserved 0 api_events groups
        (subst (OnSome (All IsReserved)) made (stored-IsReserved stored [] tt))),
  All-weaken stored
      (λ e.
        OnSome-map (sequence_from_natural_key e.natural_key)
          (λ n. api-reserves (stored_key e) n 0 api_events groups))
      (subst (OnSome (λ hs. All (IsKept hs) stored)) made (stored-AreKept stored [])),
)

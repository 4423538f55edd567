-- ===== src/Video/Selection/Roots.antt =====
-- The loop that follows recorded ownership (internal/domain/video/selection_graph.go, `root`).
use found_footy.Common.{
  ℕ, zero, suc, ◌+◌, ◌≤◌, ◌<◌, ◌≡◌, ◌≢◌, refl, sym, ap, ◌∙◌, subst, Bool, true, false, not, Option,
  none, some, List, [], ◌∷◌, length, get_elem?, any, ◌==◌, ◌||◌, arith, Bool-cases, Option-cases,
  All, ◌⊎◌, ◌↔◌, inl, inr,
}
use found_footy.Video.Match.{bit}
use found_footy.Video.Selection.{
  SelectionNode, SelectionError, Lineage, is_root, outside, follows, lineage_cycle, lineage_outside,
  out_of_fuel, found_at, index_of, lineage, root_round, root_from, root, node_lineage,
  owner_lineage,
}

abbrev seen_at : List ℕ → ℕ → Bool
seen_at seen i = any (λ j. j == i) seen

-- the number of the indexes below `n` that are not in the list
unseen : List ℕ → ℕ → ℕ
unseen seen zero = 0
unseen seen (suc n) = bit (not (seen_at seen n)) + unseen seen n

unseen-empty : (n : ℕ) → unseen [] n ≡ n
unfolding unseen
unseen-empty zero = refl
unseen-empty (suc n) = omega (arith, unseen-empty n)

bit_mono : (b c : Bool) → bit (not (b || c)) ≤ bit (not c)
bit_mono true true = omega arith
bit_mono true false = omega arith
bit_mono false c = omega arith

unseen-more : (seen : List ℕ) (i n : ℕ) → unseen (i ∷ seen) n ≤ unseen seen n
unfolding unseen
unseen-more seen i zero = omega arith
unseen-more seen i (suc n) = omega (arith, bit_mono (i == n) (seen_at seen n), unseen-more seen i n)

-- A new index makes fewer unseen.
unseen-fewer :
    (seen : List ℕ) (i n : ℕ) → i < n → seen_at seen i ≡ false → unseen (i ∷ seen) n < unseen seen n
unfolding unseen
unseen-fewer seen i zero inside new = omega arith
unseen-fewer seen i (suc n) inside new = elim (Bool-cases (i == n)) [
  | inl last ↦
      let same : i ≡ n = ground (arith, last) in
      let here : seen_at seen n ≡ false = ap (seen_at seen) (sym same) ∙ new in
      ground (arith, unseen-more seen i n, here)
  | inr earlier ↦
      let inside' : i < n = ground (arith, earlier) in
      omega (arith, bit_mono (i == n) (seen_at seen n), unseen-fewer seen i n inside' new)
]

pub index_of-inside :
    (nodes : List SelectionNode) (id i : ℕ) → index_of nodes id ≡ some i → i < length nodes
unfolding index_of
index_of-inside [] id i h = absurd (ground (arith, h))
index_of-inside (n ∷ ns) id i h = elim (Option-cases (index_of ns id)) [
  | inl missing ↦ ground (arith, missing)
  | inr (j, found) ↦ ground (arith, found, index_of-inside ns id j found)
]

found_at-inside :
    (nodes : List SelectionNode) (id j : ℕ)
    → found_at (index_of nodes id) ≡ follows j
    → j < length nodes
found_at-inside nodes id j h = elim (Option-cases (index_of nodes id)) [
  | inl missing ↦ absurd (ground (arith, h, missing))
  | inr (k, found) ↦ ground (arith, h, found, index_of-inside nodes id k found)
]

node_lineage-inside :
    (nodes : List SelectionNode) (owner : Option ℕ) (j : ℕ)
    → owner_lineage nodes owner ≡ follows j
    → j < length nodes
node_lineage-inside nodes none j h = absurd (ground (arith, h))
node_lineage-inside nodes (some id) j h = found_at-inside nodes id j h

lineage-inside :
    (nodes : List SelectionNode) (i j : ℕ) → lineage nodes i ≡ follows j → j < length nodes
unfolding lineage
lineage-inside nodes i j h = elim (Option-cases (get_elem? nodes i)) [
  | inl missing ↦ absurd (ground (arith, h, missing))
  | inr (n, there) ↦
      node_lineage-inside nodes n.asset.superseded_by j (sym (ap (node_lineage nodes) there) ∙ h)
]

-- What follows a round that is not the last.
root_round-cases :
    (l : Lineage) (seen : Bool) (i : ℕ) (next : ℕ → SelectionError ⊎ ℕ)
    → (Q : SelectionError ⊎ ℕ → Type 0) → Q (inl lineage_cycle)
    → Q (inl lineage_outside)
    → (l ≡ is_root → Q (inr i))
    → ((j : ℕ) → l ≡ follows j → seen ≡ false → Q (next j))
    → Q (root_round l seen i next)
root_round-cases is_root seen i next Q cycle away root_here on = root_here refl
root_round-cases outside true i next Q cycle away root_here on = cycle
root_round-cases outside false i next Q cycle away root_here on = away
root_round-cases (follows j) true i next Q cycle away root_here on = cycle
root_round-cases (follows j) false i next Q cycle away root_here on = on j refl refl

abbrev Ends : SelectionError ⊎ ℕ → Type 0
Ends r = r ≢ inl out_of_fuel

root_from-Ends :
    (nodes : List SelectionNode) (fuel : ℕ) (seen : List ℕ) (i : ℕ)
    → i < length nodes
    → unseen seen (length nodes) < fuel
    → Ends (root_from nodes fuel seen i)
unfolding root_from
root_from-Ends nodes zero seen i inside enough = absurd (omega arith)
root_from-Ends nodes (suc fuel) seen i inside enough =
    root_round-cases (lineage nodes i) (seen_at seen i) i (root_from nodes fuel (i ∷ seen)) Ends
      (ground arith) (ground arith) (λ at. ground arith)
      (λ j to new.
        root_from-Ends nodes fuel (i ∷ seen) j (lineage-inside nodes i j to)
          (omega (arith, unseen-fewer seen i (length nodes) inside new)))

-- Following the recorded owners of an event always ends: at a node that has no owner, at a cycle or
-- at an asset outside the event, before the fuel is used up.
pub root-ends :
    (nodes : List SelectionNode) (i : ℕ) → i < length nodes → root nodes i ≢ inl out_of_fuel
unfolding root
root-ends nodes i inside =
    root_from-Ends nodes (suc (length nodes)) [] i inside
      (omega (arith, unseen-empty (length nodes)))

-- The recorded owners lead from one node to another, in a number of steps.
pub data Leads (nodes : List SelectionNode) : (steps i j : ℕ) → Type 0 where
  here : {i : ℕ} → Leads nodes 0 i i
  on :
      {steps i j k : ℕ}
      → lineage nodes i ≡ follows j
      → Leads nodes steps j k
      → Leads nodes (suc steps) i k

-- What the loop answers with: a node without an owner that the owners lead to.
abbrev IsOwner : List SelectionNode → ℕ → SelectionError ⊎ ℕ → Type 0
IsOwner nodes i (inl e) = Unit
IsOwner nodes i (inr r) = ((steps : ℕ) × Leads nodes steps i r) × (lineage nodes r ≡ is_root)

IsOwner-on :
    (nodes : List SelectionNode) (i j : ℕ) (r : SelectionError ⊎ ℕ)
    → lineage nodes i ≡ follows j
    → IsOwner nodes j r
    → IsOwner nodes i r
IsOwner-on nodes i j (inl e) to h = tt
IsOwner-on nodes i j (inr r) to ((steps, walk), end) = ((suc steps, on to walk), end)

root_from-IsOwner :
    (nodes : List SelectionNode) (fuel : ℕ) (seen : List ℕ) (i : ℕ)
    → IsOwner nodes i (root_from nodes fuel seen i)
unfolding root_from
root_from-IsOwner nodes zero seen i = tt
root_from-IsOwner nodes (suc fuel) seen i =
    root_round-cases (lineage nodes i) (seen_at seen i) i (root_from nodes fuel (i ∷ seen))
      (IsOwner nodes i) tt tt (λ at. ((0, here), at))
      (λ j to new. IsOwner-on nodes i j _ to (root_from-IsOwner nodes fuel (i ∷ seen) j))

-- The number of steps to a node without an owner is settled.
steps_unique :
    (nodes : List SelectionNode) (r r' i i' k m : ℕ)
    → Leads nodes k i r
    → Leads nodes m i' r'
    → i ≡ i'
    → lineage nodes r ≡ is_root
    → lineage nodes r' ≡ is_root
    → k ≡ m
steps_unique nodes r r' i i' k m here here same end end' = refl
steps_unique nodes r r' i i' k m here (on to w) same end end' =
    absurd (ground (arith, end, to, ap (lineage nodes) same))
steps_unique nodes r r' i i' k m (on to w) here same end end' =
    absurd (ground (arith, end', to, ap (lineage nodes) same))
steps_unique nodes r r' i i' k m (on {j = j} to w) (on {j = j'} to' w') same end end' =
    let same' : j ≡ j' = ground (arith, to, to', ap (lineage nodes) same) in
    ap suc (steps_unique nodes r r' j j' _ _ w w' same' end end')

-- A list of nodes that are farther from a node than some number of steps.
abbrev AllFar : List SelectionNode → (r k : ℕ) → List ℕ → Type 0
AllFar nodes r k seen = All (λ s. (m : ℕ) → Leads nodes m s r → k < m) seen

far-unseen :
    (nodes : List SelectionNode) (r k i : ℕ) (seen : List ℕ)
    → Leads nodes k i r
    → AllFar nodes r k seen
    → seen_at seen i ≡ false
far-unseen nodes r k i [] walk far = refl
far-unseen nodes r k i (s ∷ seen) walk far = elim (Bool-cases (s == i)) [
  | inl again ↦
      let same : i ≡ s = ground (arith, again) in
      absurd (omega (arith, far.0 k (subst (λ x. Leads nodes k x r) same walk)))
  | inr other ↦ ground (arith, other, far-unseen nodes r k i seen walk far.1)
]

far-nearer :
    (nodes : List SelectionNode) (r k : ℕ) (seen : List ℕ)
    → AllFar nodes r (suc k) seen
    → AllFar nodes r k seen
far-nearer nodes r k [] far = tt
far-nearer nodes r k (s ∷ seen) far =
    ((λ m walk. omega (arith, far.0 m walk)), far-nearer nodes r k seen far.1)

root_from-finds :
    (nodes : List SelectionNode) (r k fuel : ℕ) (seen : List ℕ) (i : ℕ)
    → lineage nodes r ≡ is_root
    → Leads nodes k i r
    → AllFar nodes r k seen
    → i < length nodes
    → unseen seen (length nodes) < fuel
    → root_from nodes fuel seen i ≡ inr r
unfolding root_from
root_from-finds nodes r k zero seen i end walk far inside enough = absurd (omega arith)
root_from-finds nodes r k (suc fuel) seen i end here far inside enough = rw end refl
root_from-finds nodes r k (suc fuel) seen i end (on {j = j} to walk) far inside enough =
    let new = far-unseen nodes r _ i seen (on to walk) far in
    rw to (
      rw new (
        root_from-finds nodes r _ fuel (i ∷ seen) j end walk
          (
            (λ m back.
                omega (arith, steps_unique nodes r r i i _ m (on to walk) back refl end end)),
            far-nearer nodes r _ seen far,
          )
          (lineage-inside nodes i j to)
          (omega (arith, unseen-fewer seen i (length nodes) inside new))))

-- The root of a node is the node without an owner that its recorded owners lead to, if they lead to
-- one.
pub root_iff :
    (nodes : List SelectionNode) (i r : ℕ)
    → i < length nodes
    → (root nodes i ≡ inr r) ↔ (((steps : ℕ) × Leads nodes steps i r) × (lineage nodes r ≡ is_root))
unfolding root
root_iff nodes i r inside = (
  λ found. subst (IsOwner nodes i) found (root_from-IsOwner nodes (suc (length nodes)) [] i),
  λ ((k, walk), end).
      root_from-finds nodes r k (suc (length nodes)) [] i end walk tt inside
        (omega (arith, unseen-empty (length nodes))),
)

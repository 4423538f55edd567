-- ===== src/Monitor/Identity.antt =====
-- internal/activity/monitor/event_identity.go: which stored sequence each event of a response takes.
pub mod Matching
pub mod Groups
use Prim.Native.String.{then as settle}
use found_footy.Common.{
  ℕ, suc, ◌+◌, String, Bool, true, false, not, Option, none, some, List, [], ◌∷◌, ◌++◌, map, any,
  select, length, codes, lower, contains, str_eq, compare, Ordering, ltb, ◌==◌, if◌then◌else◌,
}
use found_footy.Common.Int.{ℤ, pos, negsuc, ◌+ℤ◌, ◌-ℤ◌, ltb_ℤ, eqb_ℤ}
use found_footy.Event.{EventType, trackable_event_type}
use found_footy.Monitor.Provider.{ApiEvent}

-- `HasPenaltyShootoutComment`. No letter outside A to Z has its lower case in the constant, so these
-- are the letters to lower.
unfoldable pub has_penalty_shootout_comment : String → Bool
has_penalty_shootout_comment comments =
    contains (map lower (codes comments)) (codes "penalty shootout")

abbrev text_or_empty : Option String → String
text_or_empty none = ""
text_or_empty (some s) = s

-- `trackableType`
unfoldable pub trackable_type : ApiEvent → Option EventType
trackable_type e =
    trackable_event_type e.api_type e.detail
      (has_penalty_shootout_comment (text_or_empty e.comments))

-- `eventClockMinute`
unfoldable pub event_clock_minute : ℤ → Option ℤ → ℤ
event_clock_minute minute none = minute
event_clock_minute minute (some extra) = minute +ℤ extra

-- `absInt`, whose answer is not negative
abbrev pub abs_int : ℤ → ℕ
abs_int (pos n) = n
abs_int (negsuc n) = suc n

-- an element of the response with its index
pub record Provided : Type 0 where
  pub index : ℕ
  pub clock : ℤ
  pub detail : String

-- `storedEventSequence`, with the clock and the detail of its event
pub record StoredSequence : Type 0 where
  pub clock : ℤ
  pub detail : String
  pub sequence : ℕ

-- `eventSequenceMatchPlan`; a match is the provider's index and the stored sequence
pub record MatchPlan : Type 0 where
  pub matches : List (ℕ × ℕ)
  pub total_distance : ℕ
  pub detail_mismatches : ℕ

abbrev pub no_matches : MatchPlan
no_matches = record { matches = []; total_distance = 0; detail_mismatches = 0 }

-- the last loop of `betterEventSequencePlan`; it runs only over two lists of one length
unfoldable pub compare_matches : List (ℕ × ℕ) → List (ℕ × ℕ) → Ordering
compare_matches [] [] = Ordering.eq
compare_matches [] (n ∷ right) = Ordering.lt
compare_matches (m ∷ left) [] = Ordering.gt
compare_matches (m ∷ left) (n ∷ right) =
    settle (compare m.0 n.0) (settle (compare m.1 n.1) (compare_matches left right))

-- the tests of `betterEventSequencePlan` in their order: `lt` where the left plan is better
unfoldable pub compare_plans : MatchPlan → MatchPlan → Ordering
compare_plans left right = settle (compare (length right.matches) (length left.matches)) (
    settle (compare left.total_distance right.total_distance) (
      settle (compare left.detail_mismatches right.detail_mismatches)
        (compare_matches left.matches right.matches)))

abbrev pub is_gt : Ordering → Bool
is_gt Ordering.gt = true
is_gt _ = false

-- `betterEventSequencePlan`
unfoldable pub better_plan : MatchPlan → MatchPlan → MatchPlan
better_plan left right = if is_gt (compare_plans left right) then right else left

abbrev pub distance : Provided → StoredSequence → ℕ
distance p s = abs_int (p.clock -ℤ s.clock)

abbrev pub within : ℕ → Provided → StoredSequence → Bool
within tolerance p s = not (ltb tolerance (distance p s))

-- a pair in front of a plan
abbrev pub pair_up : Provided → StoredSequence → MatchPlan → MatchPlan
pair_up p s tail = record {
  matches = (p.index, s.sequence) ∷ tail.matches;
  total_distance = distance p s + tail.total_distance;
  detail_mismatches =
      if str_eq p.detail s.detail then tail.detail_mismatches else suc tail.detail_mismatches;
}

-- one row of the recursion `best`: `below` answers for the providers after `p`
unfoldable pub best_row :
    ℕ → Provided → (below : List StoredSequence → MatchPlan) → List StoredSequence → MatchPlan
best_row tolerance p below [] = no_matches
best_row tolerance p below (s ∷ ss) =
    let plan = better_plan (below (s ∷ ss)) (best_row tolerance p below ss) in
    if within tolerance p s then better_plan plan (pair_up p s (below ss)) else plan

-- `best`; its memo changes no answer
unfoldable pub best : ℕ → List Provided → List StoredSequence → MatchPlan
best tolerance [] ss = no_matches
best tolerance (p ∷ ps) ss = best_row tolerance p (best tolerance ps) ss

-- `sort.Slice` by a test that orders all distinct elements: insertion sort gives its only answer
module _ {ℓ} {A : Type ℓ} (less : A → A → Bool) where
  unfoldable pub insert_by : A → List A → List A
  insert_by x [] = x ∷ []
  insert_by x (y ∷ ys) = let rest = insert_by x ys in if less x y then x ∷ y ∷ ys else y ∷ rest

  unfoldable pub sort_by : List A → List A
  sort_by [] = []
  sort_by (x ∷ xs) = insert_by x (sort_by xs)

abbrev pub provided_before : Provided → Provided → Bool
provided_before a b =
    if not (eqb_ℤ a.clock b.clock) then ltb_ℤ a.clock b.clock else ltb a.index b.index

abbrev pub stored_before : StoredSequence → StoredSequence → Bool
stored_before a b =
    if not (eqb_ℤ a.clock b.clock) then ltb_ℤ a.clock b.clock else ltb a.sequence b.sequence

-- the map from index to sequence; a key is set once
abbrev pub Assigned : Type 0
Assigned = List (ℕ × ℕ)

abbrev pub has_index : Assigned → ℕ → Bool
has_index assigned i = any (λ a. a.0 == i) assigned

-- `matchEventSequences`
unfoldable pub match_event_sequences : ℕ → List Provided → List StoredSequence → Assigned → Assigned
match_event_sequences tolerance providers stored assigned =
    let free = select (λ p. not (has_index assigned p.index)) providers in
    assigned
    ++ (best tolerance (sort_by provided_before free) (sort_by stored_before stored)).matches

-- one round of the loop that gives a fresh sequence to every index that is left
abbrev pub fresh_round : Provided → ℕ × Assigned → ℕ × Assigned
fresh_round p (max_sequence, assigned) =
    if has_index assigned p.index
    then (max_sequence, assigned)
    else (suc max_sequence, assigned ++ (p.index, suc max_sequence) ∷ [])

unfoldable pub fresh_sequences : List Provided → ℕ × Assigned → ℕ × Assigned
fresh_sequences [] state = state
fresh_sequences (p ∷ ps) state = fresh_sequences ps (fresh_round p state)

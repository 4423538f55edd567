-- ===== src/Monitor/Identity/Groups.antt =====
-- internal/activity/monitor/event_identity.go: the groups of one scorer and type, and
-- `assignEventSequences` over them.
pub mod Sequences
pub mod Tombstones
pub mod Reserved
pub mod RoundTrip
use found_footy.Common.{
  ℕ, suc, ◌+◌, ◌-◌, ◌*◌, ◌^◌, String, Bool, true, false, Option, none, some, List, [], ◌∷◌, ◌++◌,
  any, codes, str_eq, ltb, leb, ◌==◌, ◌&&◌, ◌||◌, if◌then◌else◌, max, option_eq, and_then,
}
use found_footy.Event.{Event, EventType, goal}
use found_footy.Event.Key.{type_text}
use found_footy.Monitor.Provider.{ApiEvent}
use found_footy.Monitor.Identity.{
  Provided, StoredSequence, Assigned, trackable_type, event_clock_minute, match_event_sequences,
  fresh_sequences,
}

-- `naturalKey[strings.LastIndexByte(naturalKey, '_')+1:]`, where there is such a byte
unfoldable pub after_last : ℕ → List ℕ → Option (List ℕ)
after_last b [] = none
after_last b (c ∷ s) = elim (after_last b s) [
  | some rest ↦ some rest
  | none ↦ if c == b then some s else none
]

-- the value of decimal digits after a value
unfoldable pub scan_digits : List ℕ → ℕ → Option ℕ
scan_digits [] n = some n
scan_digits (c ∷ s) n =
    let rest = scan_digits s (n * 10 + (c - b'0')) in
    if leb b'0' c && leb c b'9' then rest else none

-- a value that `strconv.Atoi` accepts and that is at least 1
abbrev positive : Option ℕ → Option ℕ
positive none = none
positive (some n) = if ltb n 1 || leb (2 ^ 63) n then none else some n

-- `strconv.Atoi`, where the answer is at least 1: a minus sign never gives one
unfoldable pub atoi_positive : List ℕ → Option ℕ
atoi_positive [] = none
atoi_positive (c ∷ s) =
    if c == b'+'
    then elim s [ [] ↦ none | d ∷ t ↦ positive (scan_digits (d ∷ t) 0) ]
    else positive (scan_digits (c ∷ s) 0)

abbrev sequence_part : Option (List ℕ) → Option ℕ
sequence_part none = none
sequence_part (some part) = atoi_positive part

-- `sequenceFromNaturalKey`
unfoldable pub sequence_from_natural_key : String → Option ℕ
sequence_from_natural_key key = sequence_part (after_last b'_' (codes key))

-- What `eventIdentityGroupKey` joins into a text: the numbers hold no underscore, so two keys have
-- one text exactly when they agree here.
pub record GroupKey : Type 0 where
  pub team : ℕ
  pub player : Option ℕ
  pub event_type : EventType

abbrev pub same_key : GroupKey → GroupKey → Bool
same_key a b =
    (a.team == b.team)
    && (option_eq ◌==◌ a.player b.player
        && str_eq (type_text a.event_type) (type_text b.event_type))

-- `eventSequenceGroup`, with its key
pub record SequenceGroup : Type 0 where
  pub key : GroupKey
  pub providers : List Provided
  pub active : List StoredSequence
  pub max_sequence : ℕ
  pub sequences : List ℕ

abbrev pub new_group : GroupKey → SequenceGroup
new_group key = record { key = key; providers = []; active = []; max_sequence = 0; sequences = [] }

abbrev prepend : SequenceGroup → Option (List SequenceGroup) → Option (List SequenceGroup)
prepend g none = none
prepend g (some gs) = some (g ∷ gs)

abbrev put_first : Option SequenceGroup → List SequenceGroup → Option (List SequenceGroup)
put_first none gs = none
put_first (some g) gs = some (g ∷ gs)

-- the group of a key, made where it is missing, is changed in place
unfoldable pub update_group :
    GroupKey
    → (SequenceGroup → Option SequenceGroup)
    → List SequenceGroup
    → Option (List SequenceGroup)
update_group key change [] = put_first (change (new_group key)) []
update_group key change (g ∷ gs) =
    let rest = update_group key change gs in
    if same_key g.key key then put_first (change g) gs else prepend g rest

-- a stored event of a group; none where the group has its sequence already
unfoldable pub add_sequence : Event → ℕ → SequenceGroup → Option SequenceGroup
add_sequence e sequence g =
    if any (λ s. s == sequence) g.sequences
    then none
    else some (record g {
      sequences = sequence ∷ g.sequences;
      max_sequence = max g.max_sequence sequence;
      active =
          if e.removed
          then g.active
          else g.active
            ++ record {
              clock = event_clock_minute e.minute e.extra;
              detail = e.detail;
              sequence = sequence;
            }
              ∷ [];
    })

abbrev pub stored_key : Event → GroupKey
stored_key e = record { team = e.team.id; player = e.player.id; event_type = e.event_type }

unfoldable pub add_stored : Event → List SequenceGroup → Option (List SequenceGroup)
add_stored e groups =
    and_then (sequence_from_natural_key e.natural_key)
      (λ sequence. update_group (stored_key e) (add_sequence e sequence) groups)

-- the loop over the stored events
unfoldable pub add_stored_events : List Event → List SequenceGroup → Option (List SequenceGroup)
add_stored_events [] groups = some groups
add_stored_events (e ∷ es) groups = and_then (add_stored e groups) (add_stored_events es)

abbrev pub add_provider : Provided → SequenceGroup → Option SequenceGroup
add_provider p g = some (record g { providers = g.providers ++ p ∷ [] })

abbrev pub provided : ℕ → ApiEvent → Provided
provided index e = record {
  index = index;
  clock = event_clock_minute e.elapsed e.extra;
  detail = e.detail;
}

abbrev pub or_same : Option (List SequenceGroup) → List SequenceGroup → List SequenceGroup
or_same none groups = groups
or_same (some more) groups = more

abbrev pub api_key : ApiEvent → EventType → GroupKey
api_key e event_type = record { team = e.team.id; player = e.player.id; event_type = event_type }

abbrev pub add_tracked :
    Option EventType → (index : ℕ) → ApiEvent → List SequenceGroup → List SequenceGroup
add_tracked none index e groups = groups
add_tracked (some event_type) index e groups =
    or_same (update_group (api_key e event_type) (add_provider (provided index e)) groups) groups

-- one element of the response; adding a provider never fails
unfoldable pub add_api_event : (index : ℕ) → ApiEvent → List SequenceGroup → List SequenceGroup
add_api_event index e groups = add_tracked (trackable_type e) index e groups

-- the loop over the response
unfoldable pub add_api_events :
    (index : ℕ) → List ApiEvent → List SequenceGroup → List SequenceGroup
add_api_events index [] groups = groups
add_api_events index (e ∷ es) groups = add_api_events (suc index) es (add_api_event index e groups)

abbrev is_goal : EventType → Bool
is_goal goal = true
is_goal _ = false

-- `clockTolerance` of a group
abbrev pub clock_tolerance : (incomplete : ℕ → Bool) → SequenceGroup → ℕ
clock_tolerance incomplete g = if is_goal g.key.event_type && incomplete g.key.team then 0 else 5

-- the last loop of `assignEventSequences`, for one group
unfoldable pub assign_group : (incomplete : ℕ → Bool) → SequenceGroup → Assigned → Assigned
assign_group incomplete g assigned =
    (fresh_sequences g.providers (
      g.max_sequence,
      match_event_sequences (clock_tolerance incomplete g) g.providers g.active assigned,
    )).1

unfoldable pub assign_groups : (incomplete : ℕ → Bool) → List SequenceGroup → Assigned → Assigned
assign_groups incomplete [] assigned = assigned
assign_groups incomplete (g ∷ gs) assigned =
    assign_groups incomplete gs (assign_group incomplete g assigned)

-- `assignEventSequences`; the groups are disjoint, so their order does not matter
unfoldable pub assign_event_sequences :
    List ApiEvent → List Event → (incomplete : ℕ → Bool) → Option Assigned
assign_event_sequences api_events stored incomplete =
    and_then (add_stored_events stored [])
      (λ groups. some (assign_groups incomplete (add_api_events 0 api_events groups) []))

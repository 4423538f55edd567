-- ===== src/Event/Debounce/Trace.antt =====
-- A sequence of votes on one event, in the order in which the transactions commit
-- (internal/infra/pg/event_repo_debounce.go).
use found_footy.Common.{
  ℕ, ◌+◌, ◌≤◌, String, Bool, true, false, Option, none, some, List, [], ◌∷◌, ◌≡◌, ap, Time, arith,
}
use found_footy.Event.Debounce.{Store, register_presence, register_absence, is_new}
use found_footy.Event.Debounce.Votes.{IsValid, register_presence-IsValid, register_absence-IsValid}

pub data Vote : Type 0 where
  presence : (workflow : String) (audit : Option ℕ) → Vote
  absence : (workflow : String) (audit : Option ℕ) (now : Time) → Vote

unfoldable pub cast : Store → Vote → Store × Option (ℕ × Bool)
cast s (presence workflow audit) = register_presence s workflow audit
cast s (absence workflow audit now) = register_absence s workflow audit now

unfoldable pub cast_all : Store → List Vote → Store
cast_all s [] = s
cast_all s (v ∷ vs) = cast_all (cast s v).0 vs

abbrev reported : Option (ℕ × Bool) → ℕ
reported none = 0
reported (some (n, false)) = 0
reported (some (n, true)) = 1

abbrev trigger_reported : Store → Vote → ℕ
trigger_reported s (presence workflow audit) = reported (register_presence s workflow audit).1
trigger_reported s (absence workflow audit now) = 0

abbrev removal_reported : Store → Vote → ℕ
removal_reported s (presence workflow audit) = 0
removal_reported s (absence workflow audit now) = reported (register_absence s workflow audit now).1

-- how often a caller is told that this vote triggered the downstream work
unfoldable pub triggers : Store → List Vote → ℕ
triggers s [] = 0
triggers s (v ∷ vs) = trigger_reported s v + triggers (cast s v).0 vs

-- how often a caller is told that this vote removed the event
unfoldable pub removals : Store → List Vote → ℕ
removals s [] = 0
removals s (v ∷ vs) = removal_reported s v + removals (cast s v).0 vs

abbrev pub flag : Bool → ℕ
flag true = 1
flag false = 0

cast-IsValid : (s : Store) (v : Vote) → IsValid s → IsValid (cast s v).0
unfolding cast
cast-IsValid s (presence workflow audit) h = register_presence-IsValid s workflow audit h
cast-IsValid s (absence workflow audit now) h = register_absence-IsValid s workflow audit now h

-- After any votes the counter is at most 3, an event is removed exactly when it has a reason and a
-- time, and a removed event has no candidate pending and no downstream row open.
pub cast_all-IsValid : (s : Store) (vs : List Vote) → IsValid s → IsValid (cast_all s vs)
unfolding cast_all
cast_all-IsValid s [] h = h
cast_all-IsValid s (v ∷ vs) h = cast_all-IsValid (cast s v).0 vs (cast-IsValid s v h)

step_trigger :
    (s : Store) (v : Vote)
    → flag s.downstream_triggered + trigger_reported s v ≡ flag (cast s v).0.downstream_triggered
unfolding cast register_presence register_absence
step_trigger s (presence workflow audit) = ground arith
step_trigger s (absence workflow audit now) = ground arith

step_removal :
    (s : Store) (v : Vote) → flag s.removed + removal_reported s v ≡ flag (cast s v).0.removed
unfolding cast register_presence register_absence
step_removal s (presence workflow audit) = ground arith
step_removal s (absence workflow audit now) = ground arith

trigger_count :
    (s : Store) (vs : List Vote)
    → flag s.downstream_triggered + triggers s vs ≡ flag (cast_all s vs).downstream_triggered
unfolding cast_all triggers
trigger_count s [] = omega arith
trigger_count s (v ∷ vs) = omega (arith, step_trigger s v, trigger_count (cast s v).0 vs)

removal_count :
    (s : Store) (vs : List Vote) → flag s.removed + removals s vs ≡ flag (cast_all s vs).removed
unfolding cast_all removals
removal_count s [] = omega arith
removal_count s (v ∷ vs) = omega (arith, step_removal s v, removal_count (cast s v).0 vs)

-- Over any votes on an event that is neither triggered nor removed, a trigger is reported once if
-- the event ends triggered and never otherwise, and so is a removal; neither flag is ever taken
-- back by the votes that follow.
pub reports_exactly_once :
    (s : Store) (vs ws : List Vote)
    → s.downstream_triggered ≡ false
    → s.removed ≡ false
    → let t = cast_all s vs in
      (triggers s vs ≡ flag t.downstream_triggered)
      × (removals s vs ≡ flag t.removed)
      × (flag t.downstream_triggered ≤ flag (cast_all t ws).downstream_triggered)
      × (flag t.removed ≤ flag (cast_all t ws).removed)
reports_exactly_once s vs ws h k =
    let fired = trigger_count s vs in
    let gone = removal_count s vs in
    let fired' = trigger_count (cast_all s vs) ws in
    let gone' = removal_count (cast_all s vs) ws in
    (omega (arith, ap flag h), omega (arith, ap flag k), omega arith, omega arith)

-- On an untriggered event whose counter is 1, as it is inserted, a presence vote by a new workflow
-- reports 2 and no trigger, and the next one, by another new workflow, reports 3 and the trigger.
presence_reaches_three :
    (s : Store) (a b : String)
    → s.debounce_count ≡ 1
    → s.downstream_triggered ≡ false
    → is_new a s.presence_votes ≡ true
    → is_new b (a ∷ s.presence_votes) ≡ true
    → let t = (register_presence s a none).0 in
      ((register_presence s a none).1 ≡ some (2, false))
      × ((register_presence t b none).1 ≡ some (3, true))
unfolding register_presence
presence_reaches_three s a b c h fresh fresh' = (ground arith, ground arith)

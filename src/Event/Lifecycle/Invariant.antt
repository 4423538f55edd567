-- ===== src/Event/Lifecycle/Invariant.antt =====
-- What the removal flag of an event says about its reason and its time
-- (internal/domain/event/state.go).
use found_footy.Common.{
  ◌∙◌, ap, str_eq_iff, str_eq_refl, Bool-cases, true, false, Option, none, some, ◌≡◌, refl, ◌≢◌,
  Time, arith, sym, inl, inr,
}
use found_footy.Common.Int.{ℤ}
use found_footy.Event.{
  Event, Player, RemovalReason, var, policy, asset_gone, unknown, reason_valid, reason_eq,
}
use found_footy.Event.Lifecycle.{
  mark_monitor_complete, mark_download_complete, remove, update_player, update_minute,
  validate_invariants, already_removed,
}

pub data Step (e : Event) : Event → Type 0 where
  monitored : (at : Time) → Step e (mark_monitor_complete e at).0
  downloaded : (at : Time) → Step e (mark_download_complete e at).0
  overturned : (reason : RemovalReason) (at : Time) → Step e (remove e reason at).0
  refined : (player : Player) (at : Time) → Step e (update_player e player at)
  reclocked : (minute : ℤ) (extra : Option ℤ) (at : Time) → Step e (update_minute e minute extra at)

pub data Reach (e : Event) : Event → Type 0 where
  here : Reach e e
  next : {f g : Event} → Reach e f → Step f g → Reach e g

Step-validate_invariants :
    {e f : Event} → Step e f → validate_invariants e ≡ none → validate_invariants f ≡ none
unfolding validate_invariants mark_monitor_complete mark_download_complete remove update_player
    update_minute
Step-validate_invariants {e} (monitored at) h = ground arith
Step-validate_invariants {e} (downloaded at) h = ground arith
Step-validate_invariants {e} (overturned reason at) h = ground arith
Step-validate_invariants {e} (refined player at) h = ground arith
Step-validate_invariants {e} (reclocked minute extra at) h = ground arith

-- Every sequence of operations keeps a valid event valid.
pub Reach-validate_invariants :
    {e f : Event} → Reach e f → validate_invariants e ≡ none → validate_invariants f ≡ none
Reach-validate_invariants here h = h
Reach-validate_invariants (next r s) h = Step-validate_invariants s (Reach-validate_invariants r h)

Step-removed :
    {e f : Event}
    → Step e f
    → e.removed ≡ true
    → (f.removed ≡ true) × (f.removed_reason ≡ e.removed_reason) × (f.removed_at ≡ e.removed_at)
unfolding mark_monitor_complete mark_download_complete remove update_player update_minute
Step-removed {e} (monitored at) h = ground arith
Step-removed {e} (downloaded at) h = ground arith
Step-removed {e} (overturned reason at) h = ground arith
Step-removed {e} (refined player at) h = (h, refl, refl)
Step-removed {e} (reclocked minute extra at) h = (h, refl, refl)

-- Removal is final: whatever follows, the event stays removed with its first reason and time.
Reach-removed :
    {e f : Event}
    → Reach e f
    → e.removed ≡ true
    → (f.removed ≡ true) × (f.removed_reason ≡ e.removed_reason) × (f.removed_at ≡ e.removed_at)
Reach-removed here h = (h, refl, refl)
Reach-removed (next r s) h =
    let (gone, same, when) = Reach-removed r h in
    let (gone', same', when') = Step-removed s gone in (gone', same' ∙ same, when' ∙ when)

reason_eq_refl : (r : RemovalReason) → reason_eq r r ≡ true
unfolding reason_eq
reason_eq_refl var = refl
reason_eq_refl policy = refl
reason_eq_refl asset_gone = refl
reason_eq_refl (unknown s) = str_eq_refl s

reason_eq→eq : (q r : RemovalReason) → reason_eq q r ≡ true → q ≡ r
unfolding reason_eq
reason_eq→eq (unknown s) (unknown t) h = ap unknown ((str_eq_iff s t).0 h)
reason_eq→eq q r h = ground arith

-- Removing with a known reason an event that is not removed succeeds, and doing it again with the
-- same reason changes nothing more; with another known reason it is refused and the event is kept.
remove_twice :
    (e : Event) (reason other : RemovalReason) (at later : Time)
    → reason_valid reason ≡ true
    → reason_valid other ≡ true
    → e.removed ≡ false
    → let f = (remove e reason at).0 in
      ((remove e reason at).1 ≡ none)
      × (remove f reason later ≡ (f, none))
      × (other ≢ reason → remove f other later ≡ (f, some already_removed))
unfolding remove
remove_twice e reason other at later v w h =
    (ground arith, ground (arith, reason_eq_refl reason), λ ne. differ ne)
  where
    differ :
        other ≢ reason
        → remove (remove e reason at).0 other later ≡ ((remove e reason at).0, some already_removed)
    differ ne = elim (Bool-cases (reason_eq reason other)) [
      | inl same ↦ absurd (ne (sym (reason_eq→eq reason other same)))
      | inr no_match ↦ ground arith
    ]

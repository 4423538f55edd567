-- ===== src/Event/Debounce/Votes.antt =====
-- One vote on a stored event (internal/infra/pg/event_repo_debounce.go).
use found_footy.Common.{
  ℕ, ◌≤◌, String, true, false, Option, none, some, List, [], ◌∷◌, ◌≡◌, ◌⊎◌, inl, inr, ◌≢◌, Time,
  arith, map, All, one_of, str_eq_refl, is_some,
}
use found_footy.Event.{RemovalReason}
use found_footy.Event.Debounce.{
  Store, Candidate, Downstream, is_pending, close_candidate, close_downstream, register_presence,
  register_absence, audit_fits,
}

-- The rows agree: the counter is in range, a removed event has its reason and its time, and
-- nothing waits on a removed event.
pub record IsValid (s : Store) : Type 0 where
  pub capped : s.debounce_count ≤ 3
  pub live : s.removed ≡ false → (s.removed_reason ≡ none) × (s.removed_at ≡ none)
  pub gone : s.removed ≡ true → (s.removed_reason ≢ none) × (s.removed_at ≢ none)
  pub settled : s.removed ≡ true → All (λ c. is_pending c.outcome ≡ false) s.candidates
  pub closed : s.removed ≡ true → All (λ d. is_some d.completed_at ≡ true) s.downstream

candidates_settled :
    (now : Time) (cs : List Candidate)
    → All (λ c. is_pending c.outcome ≡ false) (map (close_candidate now) cs)
candidates_settled now [] = tt
candidates_settled now (c ∷ cs) = (ground arith, candidates_settled now cs)

downstream_closed :
    (now : Time) (ds : List Downstream)
    → All (λ d. is_some d.completed_at ≡ true) (map (close_downstream now) ds)
downstream_closed now [] = tt
downstream_closed now (d ∷ ds) = (ground arith, downstream_closed now ds)

-- A presence vote touches only its votes, the counter, the trigger and the audit log.
presence_keeps :
    (s : Store) (workflow : String) (audit : Option ℕ)
    → let t = (register_presence s workflow audit).0 in
      (t.removed ≡ s.removed)
      × (t.removed_reason ≡ s.removed_reason)
      × (t.removed_at ≡ s.removed_at)
      × (t.candidates ≡ s.candidates)
      × (t.downstream ≡ s.downstream)
unfolding register_presence
presence_keeps s workflow audit =
    (ground arith, ground arith, ground arith, ground arith, ground arith)

pub register_presence-IsValid :
    (s : Store) (workflow : String) (audit : Option ℕ)
    → IsValid s
    → IsValid (register_presence s workflow audit).0
register_presence-IsValid s workflow audit v =
    let (same_flag, same_reason, same_time, same_candidates, same_downstream) =
      presence_keeps s workflow audit in
    record {
      capped = unfold register_presence in ground arith;
      live = rw (same_flag, same_reason, same_time) v.live;
      gone = rw (same_flag, same_reason, same_time) v.gone;
      settled = rw (same_flag, same_candidates) v.settled;
      closed = rw (same_flag, same_downstream) v.closed;
    }

-- What an absence vote commits: the removal, or the rows with at most the vote and the counter
-- changed.
absence_cases :
    (s : Store) (workflow : String) (audit : Option ℕ) (now : Time)
    → let t = (register_absence s workflow audit now).0 in
      ((t.removed ≡ true)
        × (t.removed_reason ≡ some RemovalReason.var)
        × (t.removed_at ≡ some now)
        × (t.candidates ≡ map (close_candidate now) s.candidates)
        × (t.downstream ≡ map (close_downstream now) s.downstream))
      ⊎ ((t.removed ≡ s.removed)
          × (t.removed_reason ≡ s.removed_reason)
          × (t.removed_at ≡ s.removed_at)
          × (t.candidates ≡ s.candidates)
          × (t.downstream ≡ s.downstream))
unfolding register_absence
absence_cases s workflow audit now = ground arith

pub register_absence-IsValid :
    (s : Store) (workflow : String) (audit : Option ℕ) (now : Time)
    → IsValid s
    → IsValid (register_absence s workflow audit now).0
register_absence-IsValid s workflow audit now v = record {
  capped = in_range;
  live = elim (absence_cases s workflow audit now) [
    | inl (flag, reason, time, cs, ds) ↦ λ e. (cc, cc)
    | inr (flag, reason, time, cs, ds) ↦ rw (flag, reason, time) v.live
  ];
  gone = elim (absence_cases s workflow audit now) [
    | inl (flag, reason, time, cs, ds) ↦ λ e. (λ n. cc, λ n. cc)
    | inr (flag, reason, time, cs, ds) ↦ rw (flag, reason, time) v.gone
  ];
  settled = elim (absence_cases s workflow audit now) [
    | inl (flag, reason, time, cs, ds) ↦ λ e. rw cs (candidates_settled now s.candidates)
    | inr (flag, reason, time, cs, ds) ↦ rw (flag, cs) v.settled
  ];
  closed = elim (absence_cases s workflow audit now) [
    | inl (flag, reason, time, cs, ds) ↦ λ e. rw ds (downstream_closed now s.downstream)
    | inr (flag, reason, time, cs, ds) ↦ rw (flag, ds) v.closed
  ];
}
  where
    in_range : (register_absence s workflow audit now).0.debounce_count ≤ 3
    in_range = unfold register_absence in ground arith

-- Repeating a vote under the same workflow id commits nothing new, and reports neither a second
-- trigger nor a second removal.
votes_idempotent :
    (s : Store) (workflow : String) (audit : Option ℕ) (now later : Time)
    → let p = (register_presence s workflow audit).0 in
      let a = (register_absence s workflow audit now).0 in
      audit_fits audit s.fixture_id ≡ true
      → (register_presence p workflow audit ≡ (p, some (p.debounce_count, false)))
        × (register_absence a workflow audit later ≡ (a, some (a.debounce_count, false)))
unfolding register_presence register_absence one_of
votes_idempotent s workflow audit now later fits =
    (ground (arith, str_eq_refl workflow), ground (arith, str_eq_refl workflow))

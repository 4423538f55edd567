-- ===== src/Fixture/Lifecycle/Invariant.antt =====
-- What the state of a fixture says about its timestamps (internal/domain/fixture), over every
-- sequence of the operations of state.go.
use found_footy.Common.{
  ◌∙◌, ℕ, ◌+◌, ◌≤◌, String, Bool, true, false, Option, none, ◌≡◌, refl, ◌↔◌, ◌≢◌, Time, Duration,
  arith,
}
use found_footy.Common.Int.{ℤ}
use found_footy.Fixture.{
  Fixture, State, staging, active, completed, unknown, ApiStatus, Team, League, new,
  validate_invariants, should_activate_now,
}
use found_footy.Fixture.Lifecycle.{
  activate, complete, reschedule, update_from_poll, update_result, update_penalty, update_metadata,
  record_staging_poll,
}

-- The rules of the comment above `ValidateInvariants`, read from the state to the timestamps.
pub record IsConsistent (f : Fixture) : Type 0 where
  pub known : (s : String) → f.state ≢ unknown s
  pub in_staging :
      f.state ≡ staging
      → (f.activated_at ≡ none) × (f.completed_at ≡ none) × (f.terminal_observed_at ≡ none)
  pub in_active : f.state ≡ active → (f.activated_at ≢ none) × (f.completed_at ≡ none)
  pub in_completed : f.state ≡ completed → (f.activated_at ≢ none) × (f.completed_at ≢ none)

sound : (f : Fixture) → validate_invariants f ≡ none → IsConsistent f
unfolding validate_invariants
sound f h = record {
  known = λ s e. ground arith;
  in_staging = λ e. (ground arith, ground arith, ground arith);
  in_active = λ e. (λ n. ground arith, ground arith);
  in_completed = λ e. (λ n. ground arith, λ n. ground arith);
}

complete_check : (f : Fixture) → IsConsistent f → validate_invariants f ≡ none
unfolding validate_invariants
complete_check f c = at_state f.state refl
  where
    at_state : (s : State) → f.state ≡ s → validate_invariants f ≡ none
    at_state staging e = ground (arith, c.in_staging e)
    at_state active e = ground (arith, c.in_active e)
    at_state completed e = ground (arith, c.in_completed e)
    at_state (unknown s) e = absurd (c.known s e)

-- `ValidateInvariants` returns no error exactly when the state is known and the timestamps obey
-- the documented rules of that state.
pub validate_invariants-iff_IsConsistent :
    (f : Fixture) → (validate_invariants f ≡ none) ↔ IsConsistent f
validate_invariants-iff_IsConsistent f = (sound f, complete_check f)

-- One operation of state.go, on a fixture in any state.
pub data Step (f : Fixture) : Fixture → Type 0 where
  activated : (at : Time) → Step f (activate f at).0
  finished : (at : Time) → Step f (complete f at).0
  rescheduled : (kickoff at : Time) → Step f (reschedule f kickoff at).0
  polled :
      (status : ApiStatus) (elapsed extra home away : Option ℤ) (at : Time)
      → Step f (update_from_poll f status elapsed extra home away at)
  decided : (home away : Option Bool) → Step f (update_result f home away)
  shot_out : (home away : Option ℤ) → Step f (update_penalty f home away)
  described :
      (kickoff : Time) (home away : Team) (league : League)
      → Step f (update_metadata f kickoff home away league)
  staged :
      (status : ApiStatus) (kickoff at : Time) → Step f (record_staging_poll f status kickoff at)

pub data Reach (f : Fixture) : Fixture → Type 0 where
  here : Reach f f
  next : {g h : Fixture} → Reach f g → Step g h → Reach f h

-- The comment of `UpdateFromPoll` reserves it for active fixtures, and the code does not check it: the
-- poll is recorded on a fixture that has left staging.
abbrev IsInPlay : {f g : Fixture} → Step f g → Type 0
IsInPlay {f} (polled status elapsed extra home away at) = f.state ≢ staging
IsInPlay _ = Unit

-- Every active poll of a run is of a fixture that has left staging.
abbrev pub PollsAreInPlay : {f g : Fixture} → Reach f g → Type 0
PollsAreInPlay here = Unit
PollsAreInPlay (next r s) = PollsAreInPlay r × IsInPlay s

Step-validate_invariants :
    {f g : Fixture} (s : Step f g)
    → IsInPlay s
    → validate_invariants f ≡ none
    → validate_invariants g ≡ none
unfolding validate_invariants activate complete reschedule update_from_poll update_result
    update_penalty update_metadata record_staging_poll
Step-validate_invariants {f} (activated at) p h = ground arith
Step-validate_invariants {f} (finished at) p h = ground arith
Step-validate_invariants {f} (rescheduled kickoff at) p h = ground arith
Step-validate_invariants {f} (polled status elapsed extra home away at) p h = ground arith
Step-validate_invariants {f} (decided home away) p h = ground arith
Step-validate_invariants {f} (shot_out home away) p h = ground arith
Step-validate_invariants {f} (described kickoff home away league) p h = ground arith
Step-validate_invariants {f} (staged status kickoff at) p h = ground arith

-- A fixture reached from a new one by any operations in any order passes `ValidateInvariants`, if
-- every `UpdateFromPoll` among them is of a fixture that has left staging.
pub Reach-new :
    (now : Time) (id : ℕ) (status : ApiStatus) (kickoff : Time) (home away : Team) (league : League)
    {g : Fixture} (r : Reach (new now id status kickoff home away league) g)
    → PollsAreInPlay r
    → validate_invariants g ≡ none
unfolding new validate_invariants
Reach-new now id status kickoff home away league here p = refl
Reach-new now id status kickoff home away league (next r s) (ps, p) =
    Step-validate_invariants s p (Reach-new now id status kickoff home away league r ps)

Step-completed :
    {f g : Fixture}
    → Step f g
    → f.state ≡ completed
    → (g.state ≡ completed) × (g.completed_at ≡ f.completed_at) × (g.activated_at ≡ f.activated_at)
unfolding activate complete reschedule update_from_poll update_result update_penalty update_metadata
    record_staging_poll
Step-completed {f} (activated at) h = ground arith
Step-completed {f} (finished at) h = ground arith
Step-completed {f} (rescheduled kickoff at) h = ground arith
Step-completed {f} (polled status elapsed extra home away at) h = (h, refl, refl)
Step-completed {f} (decided home away) h = (h, refl, refl)
Step-completed {f} (shot_out home away) h = (h, refl, refl)
Step-completed {f} (described kickoff home away league) h = (h, refl, refl)
Step-completed {f} (staged status kickoff at) h = (h, refl, refl)

-- A completed fixture stays completed under every sequence of operations, and keeps the times of
-- its activation and of its completion.
pub Reach-completed :
    {f g : Fixture}
    → Reach f g
    → f.state ≡ completed
    → (g.state ≡ completed) × (g.completed_at ≡ f.completed_at) × (g.activated_at ≡ f.activated_at)
Reach-completed here h = (h, refl, refl)
Reach-completed (next r s) h =
    let (done, kept, active_since) = Reach-completed r h in
    let (done', kept', active_since') = Step-completed s done in
    (done', kept' ∙ kept, active_since' ∙ active_since)

-- A fixture is due exactly when it is in staging and its kickoff is not after now + window; once
-- activated it is never due again while it is active.
should_activate_now_iff :
    (f : Fixture) (now : Time) (window : Duration)
    → ((should_activate_now f now window ≡ true)
        ↔ ((f.state ≡ staging) × (f.kickoff ≤ now + window)))
      × ((at later : Time)
          → (activate f at).1 ≡ none
          → should_activate_now (activate f at).0 later window ≡ false)
unfolding should_activate_now activate
should_activate_now_iff f now window =
    ((λ h. (ground arith, ground arith), λ h. ground arith), λ at later h. ground arith)

-- ===== src/Fixture/Lifecycle.antt =====
-- internal/domain/fixture/state.go: the lifecycle transitions. A method that mutates `*Fixture`
-- returns the new record beside its error.

pub mod Invariant
pub mod Result
use found_footy.Common.{
  String, Bool, true, false, Option, none, some, List, [], ◌∷◌, Time, str_eq, one_of, if◌then◌else◌,
  not,
}
use found_footy.Common.Int.{ℤ, ltb_ℤ, eqb_ℤ}
use found_footy.Fixture.{
  Fixture, State, staging, active, completed, unknown, ApiStatus, Team, League, Error,
  invalid_state_transition, terminal, is_active,
}

activate_from : State → Fixture → Time → Fixture × Option Error
activate_from active f at = (f, none)
activate_from staging f at =
    (record f { state = active; activated_at = some at; updated_at = at }, none)
activate_from completed f at = (f, some invalid_state_transition)
activate_from (unknown s) f at = (f, some invalid_state_transition)

-- `Activate`
unfoldable pub activate : Fixture → Time → Fixture × Option Error
unfolding activate_from
activate f at = activate_from f.state f at

complete_from : State → Fixture → Time → Fixture × Option Error
complete_from completed f at = (f, none)
complete_from active f at =
    (record f { state = completed; completed_at = some at; updated_at = at }, none)
complete_from staging f at = (f, some invalid_state_transition)
complete_from (unknown s) f at = (f, some invalid_state_transition)

-- `Complete`
unfoldable pub complete : Fixture → Time → Fixture × Option Error
unfolding complete_from
complete f at = complete_from f.state f at

-- `Reschedule`
unfoldable pub reschedule : Fixture → (new_kickoff at : Time) → Fixture × Option Error
reschedule f new_kickoff at =
    if not (is_active f.state) then (f, some invalid_state_transition) else (
      record f {
        state = staging;
        activated_at = none;
        terminal_observed_at = none;
        kickoff = new_kickoff;
        updated_at = at;
      },
      none,
    )

-- `if fresh != nil { stored = fresh }`
abbrev keep_unless {ℓ} : {A : Type ℓ} → Option A → Option A → Option A
keep_unless (some a) old = some a
keep_unless none old = old

-- the first terminal observation is kept; a non-terminal one clears it
terminal_mark : Bool → Option Time → Time → Option Time
terminal_mark true none at = some at
terminal_mark true (some t) at = some t
terminal_mark false old at = none

-- `UpdateFromPoll`
unfoldable pub update_from_poll :
    Fixture → ApiStatus → (elapsed extra home_score away_score : Option ℤ) → Time → Fixture
unfolding terminal_mark
update_from_poll f status elapsed extra home_score away_score at = record f {
  api_status = status;
  api_elapsed = elapsed;
  api_extra = extra;
  home_score = keep_unless home_score f.home_score;
  away_score = keep_unless away_score f.away_score;
  last_polled_at = some at;
  updated_at = at;
  terminal_observed_at = terminal_mark (terminal status) f.terminal_observed_at at;
}

-- `winnerFromScore`
unfoldable winner_from_score : Option ℤ → Option ℤ → Option Bool × Option Bool
winner_from_score none away = (none, none)
winner_from_score (some h) none = (none, none)
winner_from_score (some h) (some a) =
    if eqb_ℤ h a
    then (none, none)
    else (let home_won = ltb_ℤ a h in (some home_won, some (not home_won)))

-- the statuses whose score is not authoritative
abbrev exceptional_codes : List String
exceptional_codes = "canc" ∷ "abd" ∷ "awd" ∷ "wo" ∷ []

-- the pair that `UpdateResult` stores; `cloneBool` copies a value, so it is the value here
result_pair : Fixture → (provider_home provider_away : Option Bool) → Option Bool × Option Bool
unfolding winner_from_score one_of
result_pair f provider_home provider_away =
    if str_eq f.api_status.short "pen"
    then winner_from_score f.home_penalty f.away_penalty
    else if one_of f.api_status.short exceptional_codes
    then (provider_home, provider_away)
    else winner_from_score f.home_score f.away_score

-- `UpdateResult`
unfoldable pub update_result : Fixture → (provider_home provider_away : Option Bool) → Fixture
unfolding result_pair
update_result f provider_home provider_away =
    let winners = result_pair f provider_home provider_away in
    record f { home_winner = winners.0; away_winner = winners.1 }

-- `UpdatePenalty`; `cloneInt` copies a value
unfoldable pub update_penalty : Fixture → (home away : Option ℤ) → Fixture
update_penalty f home away = record f { home_penalty = home; away_penalty = away }

-- `UpdateMetadata`
unfoldable pub update_metadata : Fixture → Time → Team → Team → League → Fixture
update_metadata f kickoff home away league = record f {
  kickoff = kickoff;
  home = home;
  away = away;
  league = league;
}

-- `RecordStagingPoll`
unfoldable pub record_staging_poll : Fixture → ApiStatus → (kickoff at : Time) → Fixture
record_staging_poll f status kickoff at = record f {
  api_status = status;
  kickoff = kickoff;
  last_polled_at = some at;
  updated_at = at;
}

-- ===== src/Fixture.antt =====
-- internal/domain/fixture/fixture.go: the fixture, its state and the provider's status codes.
pub mod Lifecycle
use found_footy.Common.{
  ℕ, ◌+◌, String, Bool, Option, none, some, List, [], ◌∷◌, one_of, Time, Duration, after, is_some,
  is_none, ◌||◌, not, if◌then◌else◌,
}
use found_footy.Common.Int.{ℤ}

-- `State`. A text that is none of the three constants is `unknown`.
pub data State : Type 0 where
  staging active completed : State
  unknown : String → State

abbrev pub is_staging : State → Bool
is_staging staging = Bool.true
is_staging _ = Bool.false

abbrev pub is_active : State → Bool
is_active active = Bool.true
is_active _ = Bool.false

-- `State.Valid`
abbrev pub state_valid : State → Bool
state_valid staging = Bool.true
state_valid active = Bool.true
state_valid completed = Bool.true
state_valid (unknown s) = Bool.false

pub record ApiStatus : Type 0 where
  pub short : String  -- `apifootball.APIStatusCode`
  pub long : String

abbrev pub terminal_codes : List String
terminal_codes = "ft" ∷ "aet" ∷ "pen" ∷ "canc" ∷ "abd" ∷ "awd" ∷ "wo" ∷ []

-- `APIStatus.Terminal`
unfoldable pub terminal : ApiStatus → Bool
unfolding one_of
terminal a = one_of a.short terminal_codes

-- `APIStatus.Live`
unfoldable pub live : ApiStatus → Bool
unfolding one_of
live a =
    one_of a.short ("1h" ∷ "ht" ∷ "2h" ∷ "et" ∷ "bt" ∷ "p" ∷ "live" ∷ "susp" ∷ "int" ∷ "pst" ∷ [])

pub record Team : Type 0 where
  pub id : ℕ
  pub name : String

pub record League : Type 0 where
  pub id : ℕ
  pub name : String
  pub season : ℕ
  pub country : String
  pub round : String

pub record Fixture : Type 0 where
  pub id : ℕ
  pub state : State
  pub api_status : ApiStatus
  pub api_elapsed : Option ℤ
  pub api_extra : Option ℤ
  pub kickoff : Time
  pub home : Team
  pub away : Team
  pub league : League
  pub home_score : Option ℤ
  pub away_score : Option ℤ
  pub home_penalty : Option ℤ
  pub away_penalty : Option ℤ
  pub home_winner : Option Bool
  pub away_winner : Option Bool
  pub activated_at : Option Time
  pub completed_at : Option Time
  pub terminal_observed_at : Option Time
  pub last_activity_at : Option Time
  pub last_polled_at : Option Time
  pub created_at : Time
  pub updated_at : Time

pub data Error : Type 0 where
  invalid_state_transition state_timestamp_mismatch : Error

-- `New`; `now` is the wall clock that the constructor reads.
unfoldable pub new : (now : Time) → ℕ → ApiStatus → Time → Team → Team → League → Fixture
new now id status kickoff home away league = record {
  id = id;
  state = staging;
  api_status = status;
  api_elapsed = none;
  api_extra = none;
  kickoff = kickoff;
  home = home;
  away = away;
  league = league;
  home_score = none;
  away_score = none;
  home_penalty = none;
  away_penalty = none;
  home_winner = none;
  away_winner = none;
  activated_at = none;
  completed_at = none;
  terminal_observed_at = none;
  last_activity_at = none;
  last_polled_at = none;
  created_at = now;
  updated_at = now;
}

-- `ShouldActivateNow`
unfoldable pub should_activate_now : Fixture → (now : Time) → (window : Duration) → Bool
should_activate_now f now window =
    if not (is_staging f.state) then Bool.false else not (after f.kickoff (now + window))

-- the `switch` of `ValidateInvariants`
validate_state : State → Fixture → Option Error
validate_state staging f =
    if is_some f.activated_at || (is_some f.completed_at || is_some f.terminal_observed_at)
    then some state_timestamp_mismatch
    else none
validate_state active f =
    if is_none f.activated_at
    then some state_timestamp_mismatch
    else if is_some f.completed_at
    then some state_timestamp_mismatch
    else none
validate_state completed f =
    if is_none f.activated_at || is_none f.completed_at then some state_timestamp_mismatch else none
validate_state (unknown s) f = some invalid_state_transition

-- `ValidateInvariants`: `none` is Go's nil error.
unfoldable pub validate_invariants : Fixture → Option Error
unfolding validate_state
validate_invariants f = validate_state f.state f

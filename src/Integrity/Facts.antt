-- ===== src/Integrity/Facts.antt =====
-- internal/domain/providerintegrity/types.go: the facts of a fixture and of its events, and a
-- verdict. Identifiers and debounce counts are numbers; clock values and scores are integers,
-- since the code tests them for negative values. Statuses are the provider's texts.
use found_footy.Common.{ℕ, String, Bool, true, false, Option, List}
use found_footy.Common.Int.{ℤ}
use found_footy.Integrity.Policy.{MutationPolicy, trusted, positive_only, rejected, unknown}

-- `Reason`
pub data Reason : Type 0 where
  fixture_identity_changed phase_regressed terminal_regressed clock_regressed : Reason
  score_decreased populated_field_cleared confirmed_events_missing : Reason
  multiple_fixture_regressions multiple_event_disappearances : Reason

pub Reason-discrete : Discrete Reason
Reason-discrete = hlevel

pub record FixtureFacts : Type 0 where
  pub fixture_id : ℕ
  pub home_id : ℕ
  pub away_id : ℕ
  pub league_id : ℕ
  pub home_name : String
  pub away_name : String
  pub league_name : String
  pub status : String
  pub terminal : Bool
  pub elapsed : Option ℤ
  pub extra : Option ℤ
  pub home_score : Option ℤ
  pub away_score : Option ℤ
  pub has_events : Bool

pub record EventFact : Type 0 where
  pub key : String
  pub team_id : ℕ
  pub player_id : Option ℕ
  pub event_type : String
  pub detail : String
  pub minute : ℤ
  pub extra : Option ℤ
  pub debounce_count : ℕ

pub record FixtureComparison : Type 0 where
  pub stored : FixtureFacts
  pub observed : FixtureFacts
  pub stored_events : List EventFact
  pub confirmed_events : List EventFact
  pub observed_events : List EventFact

pub record FixtureVerdict : Type 0 where
  pub fixture_id : ℕ
  pub policy : MutationPolicy
  pub reasons : List Reason
  pub missing_confirmed_events : ℕ
  pub supported_goal_correction : Bool
  pub supported_replacement : Bool

-- `FixtureVerdict.Anomalous`
abbrev pub anomalous : MutationPolicy → Bool
anomalous trusted = false
anomalous positive_only = true
anomalous rejected = true
anomalous (unknown s) = false

pub record BatchVerdict : Type 0 where
  pub policy : MutationPolicy
  pub reasons : List Reason
  pub fixtures : List FixtureVerdict
  pub regressed_fixtures : ℕ
  pub missing_confirmed_events : ℕ

-- ===== src/Monitor/Provider.antt =====
-- internal/infra/apifootball/fixtures.go: the fixture response as the monitor reads it.
use found_footy.Common.{ℕ, String, Option, Bool, List}
use found_footy.Common.Int.{ℤ}

-- `APIFixtureTeam`
pub record ApiTeam : Type 0 where
  pub id : ℕ
  pub name : String
  pub winner : Option Bool

-- `APIFixturePlayerRef`
pub record ApiPlayer : Type 0 where
  pub id : Option ℕ
  pub name : Option String

-- `APIFixtureEvent`, with the two fields of `APIFixtureEventTime`
pub record ApiEvent : Type 0 where
  pub elapsed : ℤ
  pub extra : Option ℤ
  pub team : ApiTeam
  pub player : ApiPlayer
  pub assist : ApiPlayer
  pub api_type : String
  pub detail : String
  pub comments : Option String

-- `APIFixture`, with the teams, the goals, the status and the events that the monitor compares
pub record ApiFixture : Type 0 where
  pub status : String
  pub home : ApiTeam
  pub away : ApiTeam
  pub home_goals : Option ℤ
  pub away_goals : Option ℤ
  pub events : List ApiEvent

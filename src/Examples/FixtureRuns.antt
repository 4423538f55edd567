-- ===== src/Examples/FixtureRuns.antt =====
-- A fixture from its ingest to its completion (internal/domain/fixture).
use found_footy.Common.{arith, String, none, some, [], ◌∷◌, ◌≡◌, refl, ◌↔◌, Time, str_eq}
use found_footy.Common.Int.{pos}
use found_footy.Fixture.{
  Fixture, completed, ApiStatus, Team, League, invalid_state_transition, new, terminal,
  validate_invariants, state_timestamp_mismatch,
}
use found_footy.Fixture.Lifecycle.{activate, complete, update_result, update_from_poll}
use found_footy.Fixture.Lifecycle.Invariant.{
  IsConsistent, validate_invariants-iff_IsConsistent, activated, finished, polled, decided,
  PollsAreInPlay, Reach, here, next, Reach-new, Reach-completed,
}
use found_footy.Fixture.Lifecycle.Result.{Poll, poll_all, poll_all-terminal_run}

abbrev arsenal : Team
arsenal = record { id = 42; name = "Arsenal" }

abbrev chelsea : Team
chelsea = record { id = 49; name = "Chelsea" }

abbrev premier : League
premier = record {
  id = 39;
  name = "Premier League";
  season = 2026;
  country = "England";
  round = "1";
}

abbrev code : String → ApiStatus
code short = record { short = short; long = "" }

abbrev ingested : Fixture
ingested = new 100 7 (code "ns") 400 arsenal chelsea premier

abbrev kicked_off : Fixture
kicked_off = (activate ingested 410).0

abbrev scored : Fixture
scored = record kicked_off { home_score = some (pos 2); away_score = some (pos 1) }

abbrev played : Fixture
played = (complete kicked_off 900).0

activate_run : kicked_off.activated_at ≡ some 410
unfolding new activate
activate_run = refl

staging_cannot_complete : complete ingested 900 ≡ (ingested, some invalid_state_transition)
unfolding new complete
staging_cannot_complete = refl

abbrev in_second_half : Fixture
in_second_half = update_from_poll kicked_off (code "2h") (some (pos 60)) none none none 800

abbrev whole_life : Reach ingested (complete in_second_half 900).0
whole_life =
    next (next (next here (activated 410)) (polled (code "2h") (some (pos 60)) none none none 800))
      (finished 900)

whole_life-PollsAreInPlay : PollsAreInPlay whole_life
unfolding new activate
whole_life-PollsAreInPlay = (((tt, tt), λ e. absurd (ground (arith, e))), tt)

Reach-new_example : validate_invariants (complete in_second_half 900).0 ≡ none
Reach-new_example =
    Reach-new 100 7 (code "ns") 400 arsenal chelsea premier whole_life whole_life-PollsAreInPlay

-- An active poll of a staging fixture that reports a terminal status leaves it inconsistent.
staging_poll_run :
    validate_invariants (update_from_poll ingested (code "ft") none none none none 800)
    ≡ some state_timestamp_mismatch
unfolding validate_invariants update_from_poll new terminal str_eq
staging_poll_run = refl

abbrev afterwards : Reach played (update_result played none none)
afterwards = next here (decided none none)

Reach-completed_example :
    ((update_result played none none).state ≡ completed)
    × ((update_result played none none).completed_at ≡ played.completed_at)
    × ((update_result played none none).activated_at ≡ played.activated_at)
unfolding new activate complete
Reach-completed_example = Reach-completed afterwards refl

validate_invariants-iff_IsConsistent_example :
    (validate_invariants played ≡ none) ↔ IsConsistent played
validate_invariants-iff_IsConsistent_example = validate_invariants-iff_IsConsistent played

abbrev poll : String → Time → Poll
poll short at = record {
  status = code short;
  elapsed = some (pos 90);
  extra = none;
  home_score = none;
  away_score = none;
  at = at;
}

poll_all-terminal_run_example :
    ((poll_all kicked_off (poll "2h" 500 ∷ poll "ft" 510 ∷ poll "ft" 520 ∷ [])).terminal_observed_at
      ≡ some 510)
    × ((poll_all
          (poll_all kicked_off (poll "ft" 520 ∷ []))
          (poll "2h" 500 ∷ [])).terminal_observed_at
        ≡ none)
unfolding terminal str_eq
poll_all-terminal_run_example =
    poll_all-terminal_run kicked_off (poll "2h" 500) (poll "ft" 510) (poll "ft" 520 ∷ []) refl
      (refl, (refl, tt))

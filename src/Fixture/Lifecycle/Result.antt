-- ===== src/Fixture/Lifecycle/Result.antt =====
-- The terminal observation of a fixture (internal/domain/fixture/state.go, `UpdateFromPoll`).
use found_footy.Common.{
  All, true, false, Option, none, some, List, [], ◌∷◌, ◌≡◌, refl, Time, arith, str_eq, one_of-All,
}
use found_footy.Common.Int.{ℤ}
use found_footy.Fixture.{Fixture, ApiStatus, terminal, terminal_codes, live}
use found_footy.Fixture.Lifecycle.{update_from_poll}

-- No provider status is both terminal and live.
terminal-live : (a : ApiStatus) → terminal a ≡ true → live a ≡ false
unfolding terminal live str_eq
terminal-live a h =
    one_of-All (λ s. live (record { short = s; long = a.long }) ≡ false) a.short terminal_codes h
      (refl, (refl, (refl, (refl, (refl, (refl, (refl, tt)))))))

-- One poll of the provider, as `UpdateFromPoll` receives it.
pub record Poll : Type 0 where
  pub status : ApiStatus
  pub elapsed : Option ℤ
  pub extra : Option ℤ
  pub home_score : Option ℤ
  pub away_score : Option ℤ
  pub at : Time

abbrev poll_one : Fixture → Poll → Fixture
poll_one f p = update_from_poll f p.status p.elapsed p.extra p.home_score p.away_score p.at

unfoldable pub poll_all : Fixture → List Poll → Fixture
poll_all f [] = f
poll_all f (p ∷ ps) = poll_all (poll_one f p) ps

terminal_run_keeps :
    (f : Fixture) (t : Time) (run : List Poll)
    → f.terminal_observed_at ≡ some t
    → All (λ p. terminal p.status ≡ true) run
    → (poll_all f run).terminal_observed_at ≡ some t
unfolding poll_all update_from_poll
terminal_run_keeps f t [] h all = h
terminal_run_keeps f t (p ∷ ps) h all =
    terminal_run_keeps (poll_one f p) t ps (ground (arith, all.0)) all.1

-- After a poll that is not terminal, an uninterrupted run of terminal polls marks the fixture with
-- the time of the first of them; a poll that is not terminal clears the mark, whatever the
-- earlier polls were.
pub poll_all-terminal_run :
    (f : Fixture) (quiet first : Poll) (run : List Poll)
    → terminal quiet.status ≡ false
    → All (λ p. terminal p.status ≡ true) (first ∷ run)
    → ((poll_all f (quiet ∷ first ∷ run)).terminal_observed_at ≡ some first.at)
      × ((poll_all (poll_all f run) (quiet ∷ [])).terminal_observed_at ≡ none)
unfolding poll_all update_from_poll
poll_all-terminal_run f quiet first run h all =
    (terminal_run_keeps _ first.at run (ground (arith, all.0)) all.1, ground arith)

-- ===== src/Examples/RecoveryRuns.antt =====
-- Clock evidence and recovery probes of one match (internal/domain/providerintegrity, health.go and
-- health_recovery.go).
use found_footy.Common.{
  ℕ, ◌+◌, ◌*◌, ◌≤◌, String, true, false, none, some, List, [], ◌∷◌, ◌++◌, ◌≡◌, refl, ◌≢◌, ◌↔◌,
  arith, one_of, str_eq, str_eq_iff, minute,
}
use found_footy.Common.Int.{pos}
use found_footy.Integrity.Policy.{trusted, positive_only}
use found_footy.Integrity.Facts.{FixtureFacts}
use found_footy.Integrity.Clock.{forward_phase, phase_rank, swaps_break, fixture_clock, event_clock}
use found_footy.Integrity.Freshness.{
  FreshnessEvidence, stalled, assess_freshness, period_boundary, discontinuous, running,
  clock_progressed,
}
use found_footy.Integrity.Freshness.Verdict.{assess_freshness_restricts}
use found_footy.Integrity.Recovery.{
  FixtureHealthProbe, ProviderHealthProbe, ProviderStreak, empty_sequence, extend, accepts,
  provider_loop, provider_turn, provider_integrity_recovered, freshness_recovered,
}
use found_footy.Integrity.Recovery.Provider.{three_clean_recover}
use found_footy.Integrity.Recovery.Clock.{IsStuck, stuck_never_recovers, two_advances_recover}

abbrev at_minute : ℕ → FixtureFacts
at_minute n = record {
  fixture_id = 7;
  home_id = 42;
  away_id = 49;
  league_id = 39;
  home_name = "Arsenal";
  away_name = "Chelsea";
  league_name = "Premier League";
  status = "2h";
  terminal = false;
  elapsed = some (pos n);
  extra = none;
  home_score = some (pos 1);
  away_score = some (pos 0);
  has_events = true;
}

-- the clock stands at 60 since minute 1 of the evidence, and it is now minute 5
abbrev silent_clock : FreshnessEvidence
silent_clock = record {
  facts = at_minute 60;
  observed_at = 5 * minute;
  previous_usable_at = 4 * minute;
  continuous_since = 1 * minute;
  clock_progress_at = 1 * minute;
  usable = true;
}

silent_clock_run : (assess_freshness silent_clock).state ≡ stalled
unfolding assess_freshness discontinuous period_boundary one_of str_eq
silent_clock_run = refl

assess_freshness_restricts_example :
    let v = assess_freshness silent_clock in
    ((v.policy ≡ positive_only) ↔ (v.state ≡ stalled))
    × ((v.policy ≡ trusted) ↔ (v.state ≢ stalled))
    × (v.state ≡ stalled
        → (silent_clock.usable ≡ true)
          × (one_of silent_clock.facts.status running ≡ true)
          × (period_boundary silent_clock.facts ≡ false)
          × (discontinuous silent_clock ≡ false)
          × (silent_clock.clock_progress_at + 3 * minute ≤ silent_clock.observed_at)
          × (silent_clock.continuous_since + 3 * minute ≤ silent_clock.observed_at))
assess_freshness_restricts_example = assess_freshness_restricts silent_clock

abbrev clean_probe : String → ℕ → ProviderHealthProbe
clean_probe id n = record {
  id = id;
  at = n * minute;
  complete = true;
  new_systemic_anomaly = false;
  new_affected_fixture = false;
}

abbrev dirty_probe : String → ℕ → ProviderHealthProbe
dirty_probe id n = record (clean_probe id n) { complete = false }

abbrev history : List ProviderHealthProbe
history = dirty_probe "a" 1 ∷ []

-- the streak after the history
abbrev broken : ProviderStreak
broken = record { sequence = extend empty_sequence "a" minute; clean = 0 }

abbrev clean_run : List ProviderHealthProbe
clean_run = clean_probe "b" 2 ∷ clean_probe "c" 3 ∷ clean_probe "d" 4 ∷ []

history_run : provider_loop (record { sequence = empty_sequence; clean = 0 }) history ≡ some broken
unfolding provider_loop provider_turn accepts one_of str_eq
history_run = refl

three_clean_recover_example : provider_integrity_recovered (history ++ clean_run) ≡ true
unfolding str_eq
three_clean_recover_example =
    three_clean_recover history (clean_probe "b" 2) (clean_probe "c" 3) (clean_probe "d" 4)
      (record { identified = refl; older = omega arith; other = (refl, refl, refl) }, tt)
      (refl, refl, refl) (refl, refl, refl) (refl, refl, refl)
      (omega arith, omega arith, omega arith) (omega arith, omega arith)

abbrev clock_probe : String → ℕ → ℕ → FixtureHealthProbe
clock_probe id n m = record { id = id; at = n * minute; usable = true; facts = at_minute m }

clock_probe_behind : IsStuck (at_minute 60) (clock_probe "a" 1 60)
unfolding forward_phase swaps_break phase_rank clock_progressed fixture_clock event_clock one_of
    str_eq
clock_probe_behind = record { same_phase = refl; same_clock = refl }

stuck_never_recovers_example :
    freshness_recovered (at_minute 60) (clock_probe "a" 1 60 ∷ []) ≡ false
stuck_never_recovers_example =
    stuck_never_recovers (at_minute 60) (clock_probe "a" 1 60 ∷ []) (clock_probe_behind, tt)

b_ne_a : ◌≢◌ {A = String} "b" "a"
unfolding str_eq
b_ne_a e = cc ((str_eq_iff "b" "a").1 e)

two_advances_recover_example :
    freshness_recovered (at_minute 60) (clock_probe "a" 1 61 ∷ clock_probe "b" 2 62 ∷ []) ≡ true
unfolding forward_phase swaps_break phase_rank clock_progressed fixture_clock event_clock one_of
    str_eq
two_advances_recover_example =
    two_advances_recover (at_minute 60) (clock_probe "a" 1 61) (clock_probe "b" 2 62) (refl, refl)
      (b_ne_a, omega arith, omega arith) (refl, refl) (refl, refl) (refl, refl)
      ((λ e. absurd (omega arith)), refl)

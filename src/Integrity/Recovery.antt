-- ===== src/Integrity/Recovery.antt =====
-- internal/domain/providerintegrity/health_recovery.go: the evidence that ends a restriction.
pub mod Provider
pub mod Clock
use found_footy.Common.{
  ℕ, suc, String, Bool, true, false, not, Option, none, some, List, [], ◌∷◌, one_of, str_eq, ltb,
  leb, ◌==◌, ◌&&◌, ◌||◌, if◌then◌else◌, is_some, is_none, Time, after, since, is_zero, zero_time,
}
use found_footy.Integrity.Facts.{FixtureFacts}
use found_footy.Integrity.Clock.{forward_phase, material_clock_regressed}
use found_footy.Integrity.Freshness.{
  interior_stale_after, boundary_stale_after, observation_gap_limit, running, period_boundary,
  clock_values_valid, clock_progressed,
}

-- `FixtureHealthProbe`
pub record FixtureHealthProbe : Type 0 where
  pub id : String
  pub at : Time
  pub usable : Bool
  pub facts : FixtureFacts

-- `ProviderHealthProbe`
pub record ProviderHealthProbe : Type 0 where
  pub id : String
  pub at : Time
  pub complete : Bool
  pub new_systemic_anomaly : Bool
  pub new_affected_fixture : Bool

-- `observationSequence`
pub record ObservationSequence : Type 0 where
  pub at : Time
  pub ids : List String

abbrev pub empty_sequence : ObservationSequence
empty_sequence = record { at = zero_time; ids = [] }

-- `observationSequence.accept`, as a test; the receiver of an accepted probe is `extend`
unfoldable pub accepts : ObservationSequence → String → Time → Bool
accepts s id at =
    if str_eq id "" || (is_zero at || not (after at s.at)) then false else not (one_of id s.ids)

abbrev pub extend : ObservationSequence → String → Time → ObservationSequence
extend s id at = record { at = at; ids = id ∷ s.ids }

-- `probe.ID == "" || probe.At.IsZero()`
abbrev pub unidentified : String → Time → Bool
unidentified id at = str_eq id "" || is_zero at

-- the loop variables of `ProviderIntegrityRecovered`
pub record ProviderStreak : Type 0 where
  pub sequence : ObservationSequence
  pub clean : ℕ

abbrev pub is_clean : ProviderHealthProbe → Bool
is_clean p = not (not p.complete || (p.new_systemic_anomaly || p.new_affected_fixture))

-- more time passed since the last accepted probe than the gap limit
abbrev pub gap_after : Time → Time → Bool
gap_after previous at = not (is_zero previous) && ltb observation_gap_limit (since at previous)

-- one round of the loop, for an identified probe
unfoldable pub provider_turn : ProviderStreak → ProviderHealthProbe → ProviderStreak
provider_turn s p = if not (accepts s.sequence p.id p.at) then s else record {
  sequence = extend s.sequence p.id p.at;
  clean = if is_clean p then (if gap_after s.sequence.at p.at then 1 else suc s.clean) else 0;
}

-- the loop; `none` is its early `return false`
unfoldable pub provider_loop : ProviderStreak → List ProviderHealthProbe → Option ProviderStreak
provider_loop s [] = some s
provider_loop s (p ∷ ps) =
    let rest = provider_loop (provider_turn s p) ps in if unidentified p.id p.at then none else rest

abbrev pub long_enough : Option ProviderStreak → Bool
long_enough none = false
long_enough (some s) = leb 3 s.clean

-- `ProviderIntegrityRecovered`
unfoldable pub provider_integrity_recovered : List ProviderHealthProbe → Bool
provider_integrity_recovered ps =
    long_enough (provider_loop (record { sequence = empty_sequence; clean = 0 }) ps)

-- the loop variables of `FreshnessRecovered`
pub record ClockStreak : Type 0 where
  pub sequence : ObservationSequence
  pub last_advance : Time
  pub advances : ℕ
  pub phase_samples : ℕ
  pub phase : String
  pub high : FixtureFacts

-- is the probe usable evidence on the baseline's fixture?
abbrev pub clock_usable : (baseline : FixtureFacts) → FixtureHealthProbe → Bool
clock_usable baseline p =
    (p.usable && ((p.facts.fixture_id == baseline.fixture_id) && clock_values_valid p.facts))
    && (not (one_of p.facts.status running) || is_some p.facts.elapsed)

-- what an unusable probe or a gap resets
unfoldable pub reset_streak : (baseline : FixtureFacts) → ClockStreak → ClockStreak
reset_streak baseline s = record s {
  last_advance = zero_time;
  advances = 0;
  phase_samples = 0;
  phase = "";
  high = baseline;
}

-- the samples of the phase, counted before the clock is compared
unfoldable pub sample_phase : ClockStreak → FixtureHealthProbe → ClockStreak
sample_phase s p =
    if not (str_eq s.phase "") && str_eq s.phase p.facts.status
    then record s { phase_samples = suc s.phase_samples }
    else s

-- the end of a round, where the probe is usable and the sequence has taken it
unfoldable pub clock_advance : ClockStreak → FixtureHealthProbe → ClockStreak
clock_advance s p =
    if forward_phase s.high.status p.facts.status
    then record s {
      phase = p.facts.status;
      phase_samples = 1;
      advances = 0;
      high = p.facts;
      last_advance = p.at;
    }
    else if not (str_eq p.facts.status s.high.status) || material_clock_regressed s.high p.facts
    then record s { advances = 0; phase_samples = 0; phase = "" }
    else (let t = sample_phase s p in
        if clock_progressed t.high p.facts
        then record t {
          advances =
              if ltb 0 t.advances && leb (since p.at t.last_advance) interior_stale_after
              then 2
              else 1;
          last_advance = p.at;
          high = p.facts;
        }
        else t)

-- one round of the loop, for an identified probe
unfoldable pub clock_turn :
    (baseline : FixtureFacts) → ClockStreak → FixtureHealthProbe → ClockStreak
clock_turn baseline s p =
    if not (accepts s.sequence p.id p.at)
    then s
    else (let t = record s { sequence = extend s.sequence p.id p.at } in
        if not (clock_usable baseline p)
        then reset_streak baseline t
        else clock_advance (if gap_after s.sequence.at p.at then reset_streak baseline t else t) p)

-- the loop; `none` is its early `return false`
unfoldable pub clock_loop :
    (baseline : FixtureFacts) → ClockStreak → List FixtureHealthProbe → Option ClockStreak
clock_loop baseline s [] = some s
clock_loop baseline s (p ∷ ps) =
    let rest = clock_loop baseline (clock_turn baseline s p) ps in
    if unidentified p.id p.at then none else rest

-- the tests after the loop
unfoldable pub clock_settled : Option ClockStreak → Bool
clock_settled none = false
clock_settled (some s) =
    if leb 3 s.phase_samples
    then (if one_of s.high.status running
        then (if is_none s.high.elapsed
            then false
            else ltb (since s.sequence.at s.last_advance)
                (if period_boundary s.high then boundary_stale_after else interior_stale_after))
        else true)
    else leb 2 s.advances
      && (not (is_zero s.last_advance)
          && ltb (since s.sequence.at s.last_advance) interior_stale_after)

abbrev pub first_streak : FixtureFacts → ClockStreak
first_streak baseline = record {
  sequence = empty_sequence;
  last_advance = zero_time;
  advances = 0;
  phase_samples = 0;
  phase = "";
  high = baseline;
}

-- `FreshnessRecovered`
unfoldable pub freshness_recovered : FixtureFacts → List FixtureHealthProbe → Bool
freshness_recovered baseline ps =
    if (baseline.fixture_id == 0) || not (clock_values_valid baseline)
    then false
    else clock_settled (clock_loop baseline (first_streak baseline) ps)

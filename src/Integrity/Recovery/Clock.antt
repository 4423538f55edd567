-- ===== src/Integrity/Recovery/Clock.antt =====
-- When the restriction of a stalled clock ends
-- (internal/domain/providerintegrity/health_recovery.go, `FreshnessRecovered`).
use found_footy.Common.{
  ◌+◌, ◌≤◌, ◌<◌, true, false, not, List, [], ◌∷◌, ◌≡◌, refl, ap, sym, ◌∙◌, if◌then◌else◌, ltb, leb,
  since, ◌≢◌, ◌||◌, inl, inr, Bool-cases, arith, one_of, str_eq, str_eq_refl, str_eq_ne, ◌==◌, All,
  ◌&&◌,
}
use found_footy.Common.Int.{pos, +ℤ_parts}
use found_footy.Integrity.Freshness.Verdict.{forward_irrefl, progress_cases}
use found_footy.Integrity.Facts.{FixtureFacts}
use found_footy.Integrity.Clock.{forward_phase, material_clock_regressed, fixture_clock}
use found_footy.Integrity.Freshness.{
  interior_stale_after, observation_gap_limit, clock_values_valid, clock_progressed,
}
use found_footy.Integrity.Recovery.{
  FixtureHealthProbe, ClockStreak, empty_sequence, accepts, extend, unidentified, clock_usable,
  sample_phase, clock_advance, clock_turn, clock_loop, clock_settled, first_streak,
  freshness_recovered, gap_after, reset_streak,
}

-- the evidence of a streak that has seen no progress
record IsFrozen (baseline : FixtureFacts) (s : ClockStreak) : Type 0 where
  at_baseline : s.high ≡ baseline
  no_advance : s.advances ≡ 0
  no_sample : s.phase_samples ≡ 0
  no_phase : s.phase ≡ ""

-- is the probe ahead of the baseline, by its phase or by its clock?
pub record IsStuck (baseline : FixtureFacts) (p : FixtureHealthProbe) : Type 0 where
  pub same_phase : forward_phase baseline.status p.facts.status ≡ false
  pub same_clock : clock_progressed baseline p.facts ≡ false

sample_frozen : (s : ClockStreak) (p : FixtureHealthProbe) → s.phase ≡ "" → sample_phase s p ≡ s
unfolding sample_phase
sample_frozen s p e = ground (arith, ap (λ t. str_eq t "") e, str_eq_refl "")

advance-IsFrozen :
    (baseline : FixtureFacts) (s : ClockStreak) (p : FixtureHealthProbe)
    → IsStuck baseline p
    → IsFrozen baseline s
    → IsFrozen baseline (clock_advance s p)
unfolding clock_advance
advance-IsFrozen baseline s p stuck frozen =
    let behind : forward_phase s.high.status p.facts.status ≡ false =
      rw frozen.at_baseline stuck.same_phase in
    let slow : clock_progressed s.high p.facts ≡ false = rw frozen.at_baseline stuck.same_clock in
    rw (behind, sample_frozen s p frozen.no_phase, slow)
      (elim (Bool-cases
        (not (str_eq p.facts.status s.high.status) || material_clock_regressed s.high p.facts)) [
          | inl e ↦ rw e (record {
            at_baseline = frozen.at_baseline;
            no_advance = refl;
            no_sample = refl;
            no_phase = refl;
          })
          | inr e ↦ rw e frozen
        ])

reset-IsFrozen :
    (baseline : FixtureFacts) (s : ClockStreak) → IsFrozen baseline (reset_streak baseline s)
unfolding reset_streak
reset-IsFrozen baseline s = record {
  at_baseline = refl;
  no_advance = refl;
  no_sample = refl;
  no_phase = refl;
}

turn-IsFrozen :
    (baseline : FixtureFacts) (s : ClockStreak) (p : FixtureHealthProbe)
    → IsStuck baseline p
    → IsFrozen baseline s
    → IsFrozen baseline (clock_turn baseline s p)
unfolding clock_turn
turn-IsFrozen baseline s p stuck frozen = elim (Bool-cases (accepts s.sequence p.id p.at)) [
  | inr e ↦ rw e frozen
  | inl e ↦ rw e (elim (Bool-cases (clock_usable baseline p)) [
    | inr u ↦ rw u (reset-IsFrozen baseline t)
    | inl u ↦ rw u (elim (Bool-cases (gap_after s.sequence.at p.at)) [
      | inl g ↦ rw g (advance-IsFrozen baseline _ p stuck (reset-IsFrozen baseline t))
      | inr g ↦ rw g (advance-IsFrozen baseline t p stuck frozen')
    ])
  ])
]
  where
    t : ClockStreak
    t = record s { sequence = extend s.sequence p.id p.at }

    frozen' : IsFrozen baseline t
    frozen' = record {
      at_baseline = frozen.at_baseline;
      no_advance = frozen.no_advance;
      no_sample = frozen.no_sample;
      no_phase = frozen.no_phase;
    }

loop-settled :
    (baseline : FixtureFacts) (s : ClockStreak) (ps : List FixtureHealthProbe)
    → All (IsStuck baseline) ps
    → IsFrozen baseline s
    → clock_settled (clock_loop baseline s ps) ≡ false
unfolding clock_loop clock_settled
loop-settled baseline s [] stuck frozen = ground arith
loop-settled baseline s (p ∷ ps) stuck frozen = ground (
  arith,
  loop-settled baseline (clock_turn baseline s p) ps stuck.1
      (turn-IsFrozen baseline s p stuck.0 frozen),
)

-- A clock that no probe shows ahead of the baseline is never taken for recovered, however many
-- probes there are and whatever they report.
pub stuck_never_recovers :
    (baseline : FixtureFacts) (ps : List FixtureHealthProbe)
    → All (IsStuck baseline) ps
    → freshness_recovered baseline ps ≡ false
unfolding freshness_recovered
stuck_never_recovers baseline ps stuck = ground (
  arith,
  loop-settled baseline (first_streak baseline) ps stuck
      (record { at_baseline = refl; no_advance = refl; no_sample = refl; no_phase = refl }),
)

progressed_lem :
    (f g : FixtureFacts)
    → g.status ≡ f.status
    → clock_progressed f g ≡ true
    → (forward_phase f.status g.status ≡ false) × (material_clock_regressed f g ≡ false)
unfolding material_clock_regressed
progressed_lem f g same ahead =
    let still : forward_phase f.status g.status ≡ false = rw same (forward_irrefl f.status) in
    (still, ground (arith, still, progress_cases f g ahead, +ℤ_parts (fixture_clock g) (pos 2)))

-- what a probe with a later clock in the same phase makes of a streak outside any phase sampling
advance_lem :
    (s : ClockStreak) (p : FixtureHealthProbe)
    → s.phase ≡ ""
    → p.facts.status ≡ s.high.status
    → clock_progressed s.high p.facts ≡ true
    → clock_advance s p ≡ record s {
      advances =
          if ltb 0 s.advances && leb (since p.at s.last_advance) interior_stale_after then 2 else 1;
      last_advance = p.at;
      high = p.facts;
    }
unfolding clock_advance
advance_lem s p quiet same ahead =
    let (still, steady) = progressed_lem s.high p.facts same ahead in
    let equal : str_eq p.facts.status s.high.status ≡ true = rw same (str_eq_refl s.high.status) in
    rw (still, equal, steady, sample_frozen s p quiet, ahead)

turn_lem :
    (baseline : FixtureFacts) (s : ClockStreak) (p : FixtureHealthProbe)
    → accepts s.sequence p.id p.at ≡ true
    → clock_usable baseline p ≡ true
    → gap_after s.sequence.at p.at ≡ false
    → clock_turn baseline s p
      ≡ clock_advance (record s { sequence = extend s.sequence p.id p.at }) p
unfolding clock_turn
turn_lem baseline s p new usable near = rw (new, usable, near)

-- Two usable probes of the baseline's phase, the first with a later clock than the baseline and the
-- second with a later clock than the first, at most the gap limit apart, end the restriction.
pub two_advances_recover :
    (baseline : FixtureFacts) (p q : FixtureHealthProbe)
    → (unidentified p.id p.at ≡ false) × (unidentified q.id q.at ≡ false)
    → (q.id ≢ p.id) × (p.at < q.at) × (q.at ≤ p.at + observation_gap_limit)
    → (clock_usable baseline p ≡ true) × (clock_usable baseline q ≡ true)
    → (p.facts.status ≡ baseline.status) × (q.facts.status ≡ baseline.status)
    → (clock_progressed baseline p.facts ≡ true) × (clock_progressed p.facts q.facts ≡ true)
    → (baseline.fixture_id ≢ 0) × (clock_values_valid baseline ≡ true)
    → freshness_recovered baseline (p ∷ q ∷ []) ≡ true
unfolding freshness_recovered clock_loop clock_settled
two_advances_recover baseline p q named (differ, later, near) usable same ahead (id, valid) =
    let start = first_streak baseline in
    let new_p : accepts empty_sequence p.id p.at ≡ true = unfold accepts one_of in ground arith in
    let first =
      turn_lem baseline start p new_p usable.0 refl
      ∙ advance_lem (record start { sequence = extend empty_sequence p.id p.at }) p refl same.0
          ahead.0 in
    let one : ClockStreak = record start {
      sequence = extend empty_sequence p.id p.at;
      advances = 1;
      last_advance = p.at;
      high = p.facts;
    } in
    let new_q : accepts one.sequence q.id q.at ≡ true =
      unfold accepts one_of in ground (arith, str_eq_ne differ) in
    let second =
      turn_lem baseline one q new_q usable.1 (ground arith)
      ∙ advance_lem (record one { sequence = extend one.sequence q.id q.at }) q refl
          (same.1 ∙ sym same.0) ahead.1 in
    let sound : ((baseline.fixture_id == 0) || not (clock_values_valid baseline)) ≡ false =
      ground arith in
    rw (sound, named.0, named.1, first, second) (ground arith)

-- ===== src/Integrity/Freshness/Verdict.antt =====
-- What a freshness verdict says (internal/domain/providerintegrity/health.go).
use found_footy.Common.{
  ℕ, ◌+◌, ◌*◌, ◌≤◌, String, true, false, Option, ◌≡◌, refl, subst, ◌≢◌, ◌↔◌, ◌⊎◌, inl, inr, arith,
  one_of, str_eq, sym, str_eq_iff, Bool-cases, minute,
}
use found_footy.Common.Int.{◌<ℤ◌}
use found_footy.Integrity.Policy.{trusted, positive_only}
use found_footy.Integrity.Facts.{FixtureFacts}
use found_footy.Integrity.Clock.{phase_rank, rank_lt, swaps_break, forward_phase, fixture_clock}
use found_footy.Integrity.Freshness.{
  FreshnessEvidence, stalled, assess_freshness, period_boundary, discontinuous, running,
  clock_progressed,
}

-- A verdict restricts exactly when the clock is stalled. A stalled clock runs in a first half,
-- second half or extra time, away from a period's end, over usable and gapless observations, and
-- neither the clock nor the continuity of the evidence has advanced for three minutes.
pub assess_freshness_restricts :
    (e : FreshnessEvidence)
    → let v = assess_freshness e in
      ((v.policy ≡ positive_only) ↔ (v.state ≡ stalled))
      × ((v.policy ≡ trusted) ↔ (v.state ≢ stalled))
      × (v.state ≡ stalled
          → (e.usable ≡ true)
            × (one_of e.facts.status running ≡ true)
            × (period_boundary e.facts ≡ false)
            × (discontinuous e ≡ false)
            × (e.clock_progress_at + 3 * minute ≤ e.observed_at)
            × (e.continuous_since + 3 * minute ≤ e.observed_at))
unfolding assess_freshness
assess_freshness_restricts e = (
  (λ h. ground arith, λ h. ground arith),
  (λ h. (λ s. ground arith), λ n. ground arith),
  λ h. (ground arith, ground arith, ground arith, ground arith, quiet_clock h, quiet_evidence h),
)
  where
    quiet_clock :
        (assess_freshness e).state ≡ stalled → e.clock_progress_at + 3 * minute ≤ e.observed_at
    quiet_clock h = unfold discontinuous in ground arith

    quiet_evidence :
        (assess_freshness e).state ≡ stalled → e.continuous_since + 3 * minute ≤ e.observed_at
    quiet_evidence h = unfold discontinuous in ground arith

not_both : (s : String) → str_eq s "et" ≡ true → str_eq s "bt" ≡ false
unfolding str_eq
not_both s h = subst (λ t. str_eq t "bt" ≡ false) (sym ((str_eq_iff s "et").0 h)) refl

rank_asym : (a b : Option ℕ) → rank_lt a b ≡ true → rank_lt b a ≡ false
rank_asym a b h = ground arith

swaps_irrefl : (s : String) → swaps_break s s ≡ false
unfolding swaps_break
swaps_irrefl s = ground (arith, not_both s)

swaps_sym : (s t : String) → swaps_break s t ≡ true → swaps_break t s ≡ true
unfolding swaps_break
swaps_sym s t h = ground arith

pub forward_irrefl : (s : String) → forward_phase s s ≡ false
unfolding forward_phase
forward_irrefl s = ground (arith, swaps_irrefl s, rank_asym (phase_rank s) (phase_rank s))

forward_asym :
    (s t : String)
    → forward_phase s t ≡ true
    → (swaps_break s t ≡ true) ⊎ (forward_phase t s ≡ false)
unfolding forward_phase
forward_asym s t h =
    ground (arith, rank_asym (phase_rank s) (phase_rank t), swaps_sym s t, swaps_sym t s)

pub progress_cases :
    (f g : FixtureFacts)
    → clock_progressed f g ≡ true
    → (forward_phase f.status g.status ≡ true)
      ⊎ ((f.status ≡ g.status) × (fixture_clock f <ℤ fixture_clock g))
unfolding clock_progressed
progress_cases f g h = ground (arith, str_eq_iff f.status g.status)

-- Progress has a direction: where one observation is ahead of another, the other is not ahead of
-- it, except between extra time and its break, which may follow one another. No observation is
-- ahead of itself.
clock_progressed_asym :
    (f g : FixtureFacts)
    → (clock_progressed f g ≡ true
        → (clock_progressed g f ≡ false) ⊎ (swaps_break f.status g.status ≡ true))
      × (clock_progressed f f ≡ false)
clock_progressed_asym f g = (λ h. direct h (Bool-cases (clock_progressed g f)), irrefl)
  where
    both :
        clock_progressed f g ≡ true
        → clock_progressed g f ≡ true
        → swaps_break f.status g.status ≡ true
    both h k = grind (
      arith,
      progress_cases f g h,
      progress_cases g f k,
      forward_asym f.status g.status,
      forward_asym g.status f.status,
      forward_irrefl f.status,
      forward_irrefl g.status,
      swaps_sym g.status f.status,
    )

    direct :
        clock_progressed f g ≡ true
        → ((clock_progressed g f ≡ true) ⊎ (clock_progressed g f ≡ false))
        → (clock_progressed g f ≡ false) ⊎ (swaps_break f.status g.status ≡ true)
    direct h (inl k) = inr (both h k)
    direct h (inr k) = inl k

    irrefl : clock_progressed f f ≡ false
    irrefl = elim (Bool-cases (clock_progressed f f)) [
      | inl k ↦ ground (arith, progress_cases f f k, forward_irrefl f.status)
      | inr k ↦ k
    ]

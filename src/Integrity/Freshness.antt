-- ===== src/Integrity/Freshness.antt =====
-- internal/domain/providerintegrity/health.go: how fresh a running clock is, and when it advances.
pub mod Verdict
use found_footy.Common.{
  String, Bool, true, false, not, Option, none, some, List, [], ◌∷◌, one_of, str_eq, ltb, ◌==◌,
  ◌&&◌, ◌||◌, if◌then◌else◌, Time, Duration, after, before, since, is_zero, minute, second, ◌*◌,
}
use found_footy.Common.Int.{ℤ, pos, ltb_ℤ, leb_ℤ, eqb_ℤ}
use found_footy.Integrity.Policy.{MutationPolicy, trusted, positive_only}
use found_footy.Integrity.Facts.{FixtureFacts}
use found_footy.Integrity.Clock.{forward_phase, fixture_clock}

-- `InteriorStaleAfter`
abbrev pub interior_stale_after : Duration
interior_stale_after = 3 * minute

-- `BoundaryStaleAfter`
abbrev pub boundary_stale_after : Duration
boundary_stale_after = 10 * minute

-- `ObservationGapLimit`
abbrev pub observation_gap_limit : Duration
observation_gap_limit = 90 * second

-- `Freshness`. The text constant "unknown" is `unassessed`, and `unset` is Go's empty text.
pub data Freshness : Type 0 where
  unassessed within_window not_clocked stalled boundary_warning unset : Freshness

-- `FreshnessEvidence`
pub record FreshnessEvidence : Type 0 where
  pub facts : FixtureFacts
  pub observed_at : Time
  pub previous_usable_at : Time
  pub continuous_since : Time
  pub clock_progress_at : Time
  pub usable : Bool

-- `FreshnessVerdict`
pub record FreshnessVerdict : Type 0 where
  pub state : Freshness
  pub policy : MutationPolicy
  pub evidence_age : Duration

-- the value of a nullable clock that the caller has found present
abbrev elapsed_or : Option ℤ → ℤ
elapsed_or none = pos 0
elapsed_or (some n) = n

-- `periodBoundary`; the callers have found `elapsed` present
unfoldable pub period_boundary : FixtureFacts → Bool
period_boundary f =
    let elapsed = elapsed_or f.elapsed in
    if str_eq f.status "1h"
    then leb_ℤ (pos 45) elapsed
    else if str_eq f.status "2h"
    then leb_ℤ (pos 90) elapsed
    else if str_eq f.status "et"
    then eqb_ℤ elapsed (pos 105) || leb_ℤ (pos 120) elapsed
    else false

-- the statuses without a running clock, and those with one
abbrev pub pauses : List String
pauses =
    "ht" ∷ "bt" ∷ "p" ∷ "int" ∷ "susp" ∷ "ns" ∷ "pst" ∷ "tbd" ∷ "ft" ∷ "aet" ∷ "pen" ∷ "canc"
    ∷ "abd" ∷ "awd" ∷ "wo" ∷ []

abbrev pub running : List String
running = "1h" ∷ "2h" ∷ "et" ∷ []

-- present and negative
abbrev pub negative : Option ℤ → Bool
negative none = false
negative (some n) = ltb_ℤ n (pos 0)

-- the elapsed minute is missing or a clock value is negative
abbrev clock_invalid : FixtureFacts → Bool
clock_invalid f = elim f.elapsed [ none ↦ true | some n ↦ ltb_ℤ n (pos 0) ] || negative f.extra

-- the evidence does not show two ordered observations without a gap
unfoldable pub discontinuous : FreshnessEvidence → Bool
discontinuous e =
    is_zero e.previous_usable_at
    || (not (before e.previous_usable_at e.observed_at)
        || (ltb observation_gap_limit (since e.observed_at e.previous_usable_at)
            || (is_zero e.continuous_since
                || (after e.continuous_since e.previous_usable_at
                    || (is_zero e.clock_progress_at || after e.clock_progress_at e.observed_at)))))

-- the verdict on a running clock whose evidence is continuous
aged : FreshnessEvidence → FreshnessVerdict
aged e =
    let start =
      if after e.continuous_since e.clock_progress_at
      then e.continuous_since
      else e.clock_progress_at in
    let age = since e.observed_at start in
    let boundary = period_boundary e.facts in
    let threshold = if boundary then boundary_stale_after else interior_stale_after in
    if ltb age threshold
    then record { state = within_window; policy = trusted; evidence_age = age }
    else if boundary
    then record { state = boundary_warning; policy = trusted; evidence_age = age }
    else record { state = stalled; policy = positive_only; evidence_age = age }

-- a verdict that restricts nothing and measures nothing
abbrev silent : Freshness → FreshnessVerdict
silent state = record { state = state; policy = trusted; evidence_age = 0 }

-- `AssessFreshness`
unfoldable pub assess_freshness : FreshnessEvidence → FreshnessVerdict
unfolding aged
assess_freshness e =
    if not e.usable || is_zero e.observed_at
    then silent unassessed
    else if one_of e.facts.status pauses
    then silent not_clocked
    else if not (one_of e.facts.status running)
    then silent unassessed
    else if clock_invalid e.facts
    then silent unassessed
    else if discontinuous e
    then silent unassessed
    else aged e

-- `clockValuesValid`
abbrev pub clock_values_valid : FixtureFacts → Bool
clock_values_valid f = not (negative f.elapsed) && not (negative f.extra)

abbrev some_both {ℓ} : {A : Type ℓ} → Option A → Option A → Bool
some_both (some a) (some b) = true
some_both none b = false
some_both (some a) none = false

-- `ClockProgressed`
unfoldable pub clock_progressed : (baseline observed : FixtureFacts) → Bool
clock_progressed baseline observed =
    if not (baseline.fixture_id == observed.fixture_id)
      || ((baseline.fixture_id == 0)
          || (not (clock_values_valid baseline) || not (clock_values_valid observed)))
    then false
    else if forward_phase baseline.status observed.status
    then true
    else if not (str_eq baseline.status observed.status)
        || not (some_both baseline.elapsed observed.elapsed)
    then false
    else if one_of observed.status running
    then ltb_ℤ (fixture_clock baseline) (fixture_clock observed)
    else false

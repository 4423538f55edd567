-- ===== src/Integrity/Clock.antt =====
-- internal/domain/providerintegrity/evaluate.go: the phase order and the clock of a fixture.
use found_footy.Common.{
  ℕ, String, Bool, true, false, Option, none, some, [], ◌∷◌, one_of, str_eq, ltb, ◌&&◌, ◌||◌,
  if◌then◌else◌,
}
use found_footy.Common.Int.{ℤ, pos, ◌+ℤ◌, ltb_ℤ}
use found_footy.Integrity.Facts.{FixtureFacts}

-- `phaseRank`
unfoldable pub phase_rank : String → Option ℕ
phase_rank status =
    if one_of status ("ns" ∷ "tbd" ∷ [])
    then some 0
    else if str_eq status "1h"
    then some 1
    else if str_eq status "ht"
    then some 2
    else if str_eq status "2h"
    then some 3
    else if one_of status ("et" ∷ "bt" ∷ [])
    then some 4
    else if str_eq status "p"
    then some 5
    else if one_of status ("ft" ∷ "aet" ∷ "pen" ∷ "canc" ∷ "abd" ∷ "awd" ∷ "wo" ∷ [])
    then some 6
    else none

-- both ranks are known and the first is below the second
abbrev pub rank_lt : Option ℕ → Option ℕ → Bool
rank_lt (some a) (some b) = ltb a b
rank_lt none b = false
rank_lt (some a) none = false

-- `providerPhaseRegressed`
unfoldable pub provider_phase_regressed : (stored observed : String) → Bool
provider_phase_regressed stored observed = rank_lt (phase_rank observed) (phase_rank stored)

-- the break and the extra-time periods share a rank and may alternate
unfoldable pub swaps_break : String → String → Bool
swaps_break a b = (str_eq a "et" && str_eq b "bt") || (str_eq a "bt" && str_eq b "et")

-- `forwardPhase` (health.go)
unfoldable pub forward_phase : (before after : String) → Bool
unfolding swaps_break
forward_phase earlier later =
    rank_lt (phase_rank earlier) (phase_rank later) || swaps_break earlier later

-- `eventClock`
unfoldable pub event_clock : ℤ → Option ℤ → ℤ
event_clock minute (some extra) = minute +ℤ extra
event_clock minute none = minute

-- `fixtureClock`
unfoldable pub fixture_clock : FixtureFacts → ℤ
unfolding event_clock
fixture_clock f = elim f.elapsed [ none ↦ pos 0 | some m ↦ event_clock m f.extra ]

abbrev pub material_clock_rollback_minutes : ℤ
material_clock_rollback_minutes = pos 2

abbrev pub both_known {ℓ} : {A : Type ℓ} → Option A → Option A → Bool
both_known (some a) (some b) = true
both_known none b = false
both_known (some a) none = false

-- `materialClockRegressed`
unfoldable pub material_clock_regressed : (stored observed : FixtureFacts) → Bool
unfolding swaps_break
material_clock_regressed stored observed =
    if both_known stored.elapsed observed.elapsed
    then (if rank_lt (phase_rank stored.status) (phase_rank observed.status)
        then false
        else if swaps_break stored.status observed.status
        then false
        else ltb_ℤ (fixture_clock observed +ℤ material_clock_rollback_minutes)
            (fixture_clock stored))
    else false

-- ===== src/Vision.antt =====
-- internal/domain/vision: what the model reports of a frame, and the readings made of it.
pub mod Scan
pub mod Label
pub mod Clock
pub mod Frame
pub mod Evaluate
pub mod Verdict
pub mod Reading
pub mod Rules
pub mod Stoppage
use found_footy.Common.{
  ℕ, String, Bool, true, false, Option, List, str_eq, ◌==◌, ◌||◌, if◌then◌else◌,
}
use found_footy.Common.Int.{ℤ, pos, leb_ℤ}

-- `Period`; `PeriodUnknown` is the empty text
pub data Period : Type 0 where
  first_half second_half extra_first extra_second : Period
  unknown : String → Period

abbrev pub no_period : Period
no_period = unknown ""

-- Go's `==` on periods
unfoldable pub period_eq : Period → Period → Bool
period_eq first_half first_half = true
period_eq second_half second_half = true
period_eq extra_first extra_first = true
period_eq extra_second extra_second = true
period_eq (unknown s) (unknown t) = str_eq s t
period_eq _ _ = false

-- `Period.Valid`
abbrev pub period_valid : Period → Bool
period_valid (unknown s) = false
period_valid _ = true

-- `Period.String`
abbrev pub period_text : Period → String
period_text first_half = "1H"
period_text second_half = "2H"
period_text extra_first = "ET1"
period_text extra_second = "ET2"
period_text (unknown s) = "unknown"

-- `periodOf`
unfoldable pub period_of : ℤ → Period
period_of base_minute =
    if leb_ℤ base_minute (pos 45)
    then first_half
    else if leb_ℤ base_minute (pos 90)
    then second_half
    else if leb_ℤ base_minute (pos 105)
    then extra_first
    else extra_second

-- `isExtraTime`
abbrev pub is_extra_time : Period → Bool
is_extra_time extra_first = true
is_extra_time extra_second = true
is_extra_time _ = false

-- `isPeriodBoundary`
abbrev pub is_period_boundary : ℕ → Bool
is_period_boundary minute =
    (minute == 45) || ((minute == 90) || ((minute == 105) || (minute == 120)))

-- `ClockReading`
pub record ClockReading : Type 0 where
  pub frame_index : ℕ
  pub minute : ℕ
  pub alternative_minutes : List ℕ
  pub period : Period
  pub period_pinned : Bool
  pub stoppage : Bool
  pub exact_minute : Bool
  pub ambiguous : Bool

-- `parsedTimer`
pub record ParsedTimer : Type 0 where
  pub minute : ℕ
  pub second : ℕ
  pub seconds_known : Bool

-- `FrameObservation`
pub record FrameObservation : Type 0 where
  pub soccer : Bool
  pub screen : Bool
  pub clock : Option String
  pub period : Option Period
  pub period_label : Option String
  pub added : Option String
  pub stoppage_clock : Option String

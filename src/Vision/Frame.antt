-- ===== src/Vision/Frame.antt =====
-- internal/domain/vision/clock.go and running_stoppage.go: the reading of a whole frame.
use found_footy.Common.{
  ℕ, ◌+◌, String, Bool, true, false, not, Option, none, some, List, [], ◌∷◌, ltb, ◌==◌, ◌&&◌, ◌||◌,
  if◌then◌else◌,
}
use found_footy.Common.Int.{pos}
use found_footy.Vision.{
  Period, first_half, second_half, extra_first, extra_second, unknown, no_period, period_eq,
  period_of, ClockReading, ParsedTimer, FrameObservation,
}
use found_footy.Vision.Scan.{parse_added_field, parse_stoppage_clock_field}
use found_footy.Vision.Label.{PeriodEvidence, shown, not_shown, conflicting, frame_period_evidence}
use found_footy.Vision.Clock.{
  has_minute, possible_minutes, normalize_displayed_minute, boundary_alternatives,
  parse_clock_field,
}

-- the merge with the period that the frame shows
unfoldable pub with_evidence : PeriodEvidence → ClockReading → ClockReading
with_evidence not_shown r = r
with_evidence conflicting r = record r { period = no_period; ambiguous = true }
with_evidence (shown hint) r =
    let normal = normalize_displayed_minute r.minute hint in
    if r.period_pinned
    then (if period_eq r.period hint then r else record r { period = no_period; ambiguous = true })
    else record r {
      minute = normal.0;
      alternative_minutes = boundary_alternatives r.minute hint normal.0;
      period = hint;
      period_pinned = true;
      ambiguous = if normal.1 then r.ambiguous else true;
    }

abbrev pub past_end : ℕ → ℕ → Bool
past_end minute end = ltb end minute && ltb minute (end + 15)

abbrev pub stopped_at : ClockReading → ℕ → ClockReading
stopped_at r end = record r { period = period_of (pos end); period_pinned = true; stoppage = true }

-- the loop over the period ends
unfoldable pub relabel_past : List ℕ → ClockReading → ClockReading
relabel_past [] r = r
relabel_past (end ∷ ends) r =
    let rest = relabel_past ends r in if past_end r.minute end then stopped_at r end else rest

abbrev pub period_ends : List ℕ
period_ends = 45 ∷ 90 ∷ 105 ∷ 120 ∷ []

abbrev pub allowance : Option String → Option ℕ
allowance none = none
allowance (some added) = parse_added_field added

abbrev pub positive : Option ℕ → Bool
positive none = false
positive (some n) = ltb 0 n

-- `withRunningStoppage`
unfoldable pub with_running_stoppage : ClockReading → Option String → ClockReading
with_running_stoppage r added =
    if r.period_pinned || (r.ambiguous || r.stoppage)
    then r
    else if positive (allowance added)
    then relabel_past period_ends r
    else r

-- the `switch` over the period
abbrev pub end_of : Period → Option ℕ
end_of first_half = some 45
end_of second_half = some 90
end_of extra_first = some 105
end_of extra_second = some 120
end_of (unknown s) = none

abbrev pub shown_end : List ℕ → Option ℕ → Option ℕ
shown_end minutes none = none
shown_end minutes (some end) = if has_minute minutes end then some end else none

-- `frozenBoundary`
unfoldable pub frozen_boundary : ClockReading → ParsedTimer → Option ℕ
frozen_boundary r timer =
    if r.ambiguous || (r.stoppage || (not timer.seconds_known || not (timer.second == 0)))
    then none
    else shown_end (possible_minutes r) (end_of r.period)

abbrev pub stoppage_minute : Option String → Option ℕ
stoppage_minute none = none
stoppage_minute (some text) = parse_stoppage_clock_field text

-- what a frozen clock takes from the stoppage fields
unfoldable pub compose_stoppage : Option ℕ → (stop added : Option ℕ) → ClockReading → ClockReading
compose_stoppage none stop added r = r
compose_stoppage (some boundary) (some stop) added r = record r {
  minute = boundary + stop;
  alternative_minutes = [];
  stoppage = true;
}
compose_stoppage (some boundary) none (some added) r = record r {
  minute = boundary;
  alternative_minutes = [];
  stoppage = true;
  exact_minute = false;
}
compose_stoppage (some boundary) none none r = r

abbrev pub framed : ℕ → ClockReading → ClockReading
framed index r = record r { frame_index = index }

abbrev pub frame_reading :
    ℕ → FrameObservation → Option (ClockReading × ParsedTimer) → Option ClockReading
frame_reading index f none = none
frame_reading index f (some (r, timer)) =
    let seen =
      with_running_stoppage (with_evidence (frame_period_evidence f) (framed index r)) f.added in
    some (
      compose_stoppage (frozen_boundary seen timer) (stoppage_minute f.stoppage_clock)
        (allowance f.added) seen)

abbrev pub clock_of : Option String → Option (ClockReading × ParsedTimer)
clock_of none = none
clock_of (some raw) = parse_clock_field raw

-- `parseFrameClock`
unfoldable pub parse_frame_clock : ℕ → FrameObservation → Option ClockReading
parse_frame_clock index f = frame_reading index f (clock_of f.clock)

-- ===== src/Vision/Clock.antt =====
-- internal/domain/vision/clock.go and running_stoppage.go: the reading of a frame's clock.
use found_footy.Common.{
  ℕ, ◌+◌, String, Bool, true, false, not, Option, none, some, List, [], ◌∷◌, ◌++◌, any, length, ltb,
  leb, ◌==◌, ◌&&◌, ◌||◌, if◌then◌else◌, codes,
}
use found_footy.Common.Int.{pos}
use found_footy.Vision.{
  Period, first_half, second_half, extra_first, extra_second, unknown, no_period, period_eq,
  period_valid, period_of, ClockReading, ParsedTimer,
}
use found_footy.Vision.Scan.{
  trim_space, to_upper, is_one_of, parse_timer, Compact, match_compact, HintShape, has_hint,
  remove_hints,
}

-- `candidate == existing` for some element
abbrev pub has_minute : List ℕ → ℕ → Bool
has_minute ms m = any (λ n. n == m) ms

unfoldable pub add_minutes : List ℕ → List ℕ → List ℕ
add_minutes ms [] = ms
add_minutes ms (m ∷ more) = add_minutes (if has_minute ms m then ms else ms ++ m ∷ []) more

-- `possibleMinutes`
unfoldable pub possible_minutes : ClockReading → List ℕ
possible_minutes r = add_minutes (r.minute ∷ []) r.alternative_minutes

-- `normalizeDisplayedMinute`: the minute, and whether the period shows such minutes
unfoldable pub normalize_displayed_minute : ℕ → Period → ℕ × Bool
normalize_displayed_minute m first_half = (m, true)
normalize_displayed_minute m second_half = if ltb m 45 then (45 + m, true) else (m, true)
normalize_displayed_minute m extra_first =
    if leb m 15 then (90 + m, true) else if leb 90 m then (m, true) else (m, false)
normalize_displayed_minute m extra_second =
    if leb m 15
    then (105 + m, true)
    else if leb m 30
    then (90 + m, true)
    else if leb 105 m
    then (m, true)
    else (m, false)
normalize_displayed_minute m (unknown s) = (m, false)

abbrev unless_primary : (candidate primary : ℕ) → List ℕ
unless_primary candidate primary = if candidate == primary then [] else candidate ∷ []

-- `boundaryAlternatives`
unfoldable pub boundary_alternatives : (displayed : ℕ) → Period → (primary : ℕ) → List ℕ
boundary_alternatives displayed second_half primary =
    if displayed == 45 then unless_primary 90 primary else []
boundary_alternatives displayed extra_second primary =
    if displayed == 15 then unless_primary 105 primary else []
boundary_alternatives displayed _ primary = []

-- `embeddedPeriod`
unfoldable pub embedded_period : (has_et has_2h has_1h : Bool) → ℕ → Period
embedded_period has_et has_2h has_1h minute =
    if has_2h
    then second_half
    else if has_1h
    then first_half
    else if has_et
    then period_of (pos minute)
    else no_period

abbrev word : String → HintShape
word head = record { head = head; tail = none }

abbrev words : String → String → HintShape
words head tail = record { head = head; tail = some tail }

-- `reETPeriod`, `reSecondHalf`, `reFirstHalf`, and `rePeriodHints`, which has their alternatives
abbrev pub et_hints : List HintShape
et_hints = word "ET" ∷ word "AET" ∷ words "EXTRA" "TIME" ∷ []

abbrev pub second_half_hints : List HintShape
second_half_hints = word "2H" ∷ words "2ND" "HALF" ∷ []

abbrev pub first_half_hints : List HintShape
first_half_hints = word "1H" ∷ words "1ST" "HALF" ∷ []

abbrev pub period_hints : List HintShape
period_hints = et_hints ++ (second_half_hints ++ first_half_hints)

-- `boolCount(…) > 1`
abbrev several : (a b c : Bool) → Bool
several a b c = (a && (b || c)) || (b && c)

-- the hints of a text
pub record Hints : Type 0 where
  pub et : Bool
  pub second : Bool
  pub first : Bool

abbrev pub several_hints : Hints → Bool
several_hints h = several h.et h.second h.first

abbrev pub disagrees : (hinted period : Period) → Bool
disagrees hinted period = period_valid hinted && not (period_eq hinted period)

-- the reading of a compact clock
abbrev pub compact_reading : Hints → Compact → ClockReading
compact_reading h c =
    let minute = c.base + c.extra in
    let period = period_of (pos c.base) in
    let split = disagrees (embedded_period h.et h.second h.first minute) period in
    record {
      frame_index = 0;
      minute = minute;
      alternative_minutes = [];
      period = if split then no_period else period;
      period_pinned = true;
      stoppage = true;
      exact_minute = true;
      ambiguous = several_hints h || split;
    }

abbrev pub no_timer : ParsedTimer
no_timer = record { minute = 0; second = 0; seconds_known = false }

abbrev pub timer_reading : Hints → (minute : ℕ) → List ℕ → Period → (pinned : Bool) → ClockReading
timer_reading h minute alternatives period pinned = record {
  frame_index = 0;
  minute = minute;
  alternative_minutes = alternatives;
  period = period;
  period_pinned = pinned;
  stoppage = false;
  exact_minute = true;
  ambiguous = several_hints h;
}

-- the reading of a timer, with the offsets of the hints
unfoldable pub relative_reading : Hints → ℕ → ClockReading
relative_reading h m =
    if h.et
    then (let minute = if leb m 30 then 90 + m else m in
        timer_reading h minute [] (period_of (pos minute)) true)
    else if h.second
    then timer_reading h (if ltb m 45 then 45 + m else m) (if m == 45 then 90 ∷ [] else [])
        second_half true
    else if h.first
    then timer_reading h m [] first_half true
    else timer_reading h m [] (period_of (pos m)) false

abbrev pub seconds_fit : Option ℕ → Bool
seconds_fit none = true
seconds_fit (some s) = ltb s 60

abbrev pub timer_field : Hints → Option ParsedTimer → Option (ClockReading × ParsedTimer)
timer_field h none = none
timer_field h (some timer) = some (relative_reading h timer.minute, timer)

abbrev pub clock_field :
    Hints → Option Compact → Option ParsedTimer → Option (ClockReading × ParsedTimer)
clock_field h none timer = timer_field h timer
clock_field h (some c) timer =
    if seconds_fit c.seconds then some (compact_reading h c, no_timer) else none

abbrev pub hints_of : List ℕ → Hints
hints_of text = record {
  et = has_hint et_hints false text;
  second = has_hint second_half_hints false text;
  first = has_hint first_half_hints false text;
}

-- the text without its hints
abbrev pub clean_text : List ℕ → List ℕ
clean_text text = trim_space (remove_hints period_hints (length text) false text)

abbrev pub clockless : List String
clockless = "" ∷ "NONE" ∷ "HT" ∷ "FT" ∷ "HALF TIME" ∷ "FULL TIME" ∷ []

-- the reading of a text in capitals
unfoldable pub parse_text : List ℕ → Option (ClockReading × ParsedTimer)
parse_text text =
    let clean = clean_text text in
    if is_one_of text clockless
    then none
    else clock_field (hints_of text) (match_compact clean) (parse_timer clean true)

-- `parseClockField`
unfoldable pub parse_clock_field : String → Option (ClockReading × ParsedTimer)
parse_clock_field raw = parse_text (to_upper (trim_space (codes raw)))

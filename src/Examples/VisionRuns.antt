-- ===== src/Examples/VisionRuns.antt =====
-- Frames of a clip and their clocks (internal/domain/vision).
use found_footy.Common.{
  ◌≢◌, ◌↔◌, ◌⊎◌, arith, String, true, false, none, some, List, [], ◌∷◌, ◌≡◌, refl, arith, OnSome,
  codes,
}
use found_footy.Common.Int.{pos, ◌+ℤ◌, ◌-ℤ◌, abs}
use found_footy.Vision.{
  period_eq, first_half, second_half, ClockReading, FrameObservation, period_of,
}
use found_footy.Vision.Scan.{
  trim_space, skip, skip_end, is_space, same, is_one_of, span_digits, atoi_from, match_added,
  after_prefix, match_hint, match_compact, parse_timer, has_hint, remove_hints, parse_added_field,
  parse_stoppage_clock_field,
}
use found_footy.Vision.Label.{frame_period_evidence, period_from_label, without_spaces}
use found_footy.Vision.Clock.{
  normalize_displayed_minute, parse_clock_field, parse_text, relative_reading, possible_minutes,
  add_minutes, boundary_alternatives, clean_text,
}
use found_footy.Vision.Frame.{
  parse_frame_clock, with_running_stoppage, relabel_past, with_evidence, frozen_boundary,
  compose_stoppage,
}
use found_footy.Vision.Evaluate.{
  Expected, Outcome, verified, unverified, rejected, evaluate, check_clock, judge, near, matched_by,
  find_near, note_reading, readings_from,
}
use found_footy.Vision.Verdict.{verdict, IsMatched, evaluate_outcome, evaluate-IsMatched}
use found_footy.Vision.Reading.{IsReading, parse_frame_clock-IsReading}
use found_footy.Vision.Rules.{IsSplit, evaluate-split}
use found_footy.Vision.Stoppage.{IsRunning, IsSameClock, with_running_stoppage_iff}

-- a frame of live footage with a main timer only
abbrev footage : String → FrameObservation
footage clock = record {
  soccer = true;
  screen = false;
  clock = some clock;
  period = none;
  period_label = none;
  added = none;
  stoppage_clock = none;
}

-- the end of the first half, with the board of the fourth official
abbrev frozen_frame : FrameObservation
frozen_frame = record (footage "45:00") { added = some "+3"; stoppage_clock = some "+1:48" }

-- the same frame without the second timer
abbrev unpinned_frame : FrameObservation
unpinned_frame = record (footage "45:00") { added = some "+3" }

-- a label that the reported period denies
abbrev split_frame : FrameObservation
split_frame = record (footage "29:40") { period_label = some "1st"; period = some second_half }

abbrev half_hour : Expected
half_hour = record { elapsed = pos 30; extra = pos 0 }

abbrev stoppage_goal : Expected
stoppage_goal = record { elapsed = pos 45; extra = pos 2 }

abbrev outcome_of : List FrameObservation → Expected → Outcome
outcome_of fs exp = (evaluate fs exp (pos 1)).outcome

added_run : (parse_added_field " +3' " ≡ some 3) × (parse_added_field "+123" ≡ none)
unfolding parse_added_field match_added trim_space skip skip_end is_space same is_one_of span_digits
    atoi_from
added_run = (refl, refl)

stoppage_clock_run :
    (parse_stoppage_clock_field "+1:48" ≡ some 1) × (parse_stoppage_clock_field "n/a" ≡ none)
unfolding parse_stoppage_clock_field parse_timer trim_space skip skip_end is_space same is_one_of
    span_digits atoi_from
stoppage_clock_run = (refl, refl)

label_run : (period_from_label "1ˢᵗ half" ≡ some first_half) × (period_from_label "3rd" ≡ none)
unfolding period_from_label without_spaces trim_space skip skip_end is_space same is_one_of
    span_digits atoi_from
label_run = (refl, refl)

hints_run : clean_text (codes "2ND  HALF 15:00") ≡ codes "15:00"
unfolding remove_hints match_hint after_prefix trim_space skip skip_end is_space same is_one_of
    span_digits atoi_from
hints_run = refl

clock_run :
    parse_frame_clock 0 frozen_frame
    ≡ some (record {
      frame_index = 0;
      minute = 46;
      alternative_minutes = [];
      period = first_half;
      period_pinned = false;
      stoppage = true;
      exact_minute = true;
      ambiguous = false;
    })
unfolding parse_frame_clock parse_clock_field parse_text relative_reading trim_space skip skip_end
    is_space same is_one_of span_digits atoi_from has_hint match_hint after_prefix remove_hints
    match_compact parse_timer parse_added_field match_added parse_stoppage_clock_field
    frame_period_evidence period_from_label without_spaces with_evidence normalize_displayed_minute
    boundary_alternatives with_running_stoppage relabel_past frozen_boundary possible_minutes
    add_minutes compose_stoppage period_of
clock_run = refl

outcome_run :
    (outcome_of (footage "29:40" ∷ footage "30:02" ∷ []) half_hour ≡ verified)
    × (outcome_of (unpinned_frame ∷ []) stoppage_goal ≡ unverified)
    × (outcome_of (footage "2H 29:40" ∷ []) half_hour ≡ rejected)
unfolding evaluate period_eq abs ◌+ℤ◌ ◌-ℤ◌ check_clock readings_from judge matched_by find_near near
    note_reading parse_frame_clock parse_clock_field parse_text relative_reading trim_space skip
    skip_end is_space same is_one_of span_digits atoi_from has_hint match_hint after_prefix
    remove_hints match_compact parse_timer parse_added_field match_added parse_stoppage_clock_field
    frame_period_evidence period_from_label without_spaces with_evidence normalize_displayed_minute
    boundary_alternatives with_running_stoppage relabel_past frozen_boundary possible_minutes
    add_minutes compose_stoppage period_of
outcome_run = (refl, refl, refl)

evaluate_outcome_example :
    let fs = frozen_frame ∷ split_frame ∷ [] in
    (evaluate fs stoppage_goal (pos 1)).outcome ≡ verdict stoppage_goal (pos 1) fs
evaluate_outcome_example = evaluate_outcome stoppage_goal (pos 1) (frozen_frame ∷ split_frame ∷ [])

evaluate-IsMatched_example :
    let ev = evaluate (frozen_frame ∷ split_frame ∷ []) stoppage_goal (pos 1) in
    IsMatched stoppage_goal (pos 1) ev.outcome ev.matched_minute
evaluate-IsMatched_example =
    evaluate-IsMatched stoppage_goal (pos 1) (frozen_frame ∷ split_frame ∷ [])

parse_frame_clock-IsReading_example : OnSome IsReading (parse_frame_clock 2 unpinned_frame)
parse_frame_clock-IsReading_example = parse_frame_clock-IsReading 2 unpinned_frame

split_frame-IsSplit : IsSplit split_frame
unfolding period_from_label without_spaces same is_one_of is_space
split_frame-IsSplit = record {
  label = "1st";
  period = second_half;
  labelled = refl;
  reported = refl;
  differ = λ e. ground (arith, e);
}

evaluate-split_example :
    (evaluate (split_frame ∷ split_frame ∷ []) half_hour (pos 1)).outcome ≢ verified
evaluate-split_example =
    evaluate-split half_hour (pos 1) (split_frame ∷ split_frame ∷ [])
      (split_frame-IsSplit, (split_frame-IsSplit, tt))

-- a running clock in the stoppage of the first half
abbrev running : ClockReading
running = record {
  frame_index = 0;
  minute = 46;
  alternative_minutes = [];
  period = second_half;
  period_pinned = false;
  stoppage = false;
  exact_minute = true;
  ambiguous = false;
}

with_running_stoppage_iff_example :
    let s = with_running_stoppage running (some "+4") in
    (((s.stoppage ≡ true) × (s.period ≡ first_half)) ↔ IsRunning running (some "+4") first_half)
    × IsSameClock running s
    × ((s ≡ running) ⊎ ((s.stoppage ≡ true) × (s.period_pinned ≡ true)))
with_running_stoppage_iff_example = with_running_stoppage_iff running (some "+4") first_half refl

-- A clock of 46 minutes beside an allowance is in the stoppage of the first half.
running_run : (with_running_stoppage running (some "+4")).period ≡ first_half
unfolding with_running_stoppage relabel_past period_of parse_added_field match_added trim_space skip
    skip_end is_space same is_one_of span_digits atoi_from
running_run = refl

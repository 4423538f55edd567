-- ===== src/Vision/Evaluate.antt =====
-- internal/domain/vision/evaluate.go: the verdict on the frames of a clip.
use found_footy.Common.{
  ℕ, suc, ◌+◌, ◌/◌, String, Bool, true, false, not, Option, none, some, List, [], ◌∷◌, any, count,
  length, ltb, leb, ◌==◌, ◌&&◌, ◌||◌, if◌then◌else◌, ◌⊎◌, inl, inr,
}
use found_footy.Common.Int.{ℤ, pos, ◌+ℤ◌, ◌-ℤ◌, abs, ltb_ℤ, leb_ℤ}
use found_footy.Vision.{
  Period, period_eq, period_text, period_of, is_extra_time, is_period_boundary, ClockReading,
  FrameObservation,
}
use found_footy.Vision.Clock.{possible_minutes}
use found_footy.Vision.Frame.{parse_frame_clock}

-- `Outcome`
pub data Outcome : Type 0 where
  verified unverified rejected : Outcome

-- the constants of `Evaluation.Reason`
pub data Reason : Type 0 where
  no_frames not_soccer screen_recording api_minute_unavailable : Reason
  clock_matches alternate_convention leading_digit_rebase : Reason
  no_clock boundary_later interpretation_ambiguous frozen_boundary_only mismatch : Reason

-- `Expected`
pub record Expected : Type 0 where
  pub elapsed : ℤ
  pub extra : ℤ

-- `Evaluation`
pub record Evaluation : Type 0 where
  pub outcome : Outcome
  pub matched_minute : Option ℤ
  pub reason : Reason
  pub soccer_votes : ℕ
  pub screen_votes : ℕ
  pub frame_count : ℕ
  pub detected_minute : Option ℕ
  pub detected_period : String
  pub expected_minute : ℤ
  pub expected_period : String
  pub clock_readings : List ClockReading

-- the four flags of the loop
pub record Flags : Type 0 where
  pub soft_keep : Bool
  pub unpinned : Bool
  pub boundary_contradiction : Bool
  pub has_exact : Bool

abbrev pub no_flags : Flags
no_flags = record {
  soft_keep = false;
  unpinned = false;
  boundary_contradiction = false;
  has_exact = false;
}

abbrev pub or_rest : Option (ℤ × Reason) → (ℤ × Reason) ⊎ Flags → (ℤ × Reason) ⊎ Flags
or_rest none rest = rest
or_rest (some m) rest = inl m

-- What the loop over the readings compares with.
module _ (exp : Expected) (tol : ℤ) where
  abbrev pub expected_minute : ℤ
  expected_minute = (exp.elapsed +ℤ exp.extra) -ℤ pos 1

  abbrev pub expected_period : Period
  expected_period = period_of exp.elapsed

  -- `abs(minute-expectedMinute) <= tol`
  unfoldable pub near : ℤ → Bool
  near minute = leb_ℤ (abs (minute -ℤ expected_minute)) tol

  abbrev pub of_period : ClockReading → Bool
  of_period r = period_eq r.period expected_period

  -- a lower bound of the minute only
  abbrev pub is_lower_bound : ClockReading → Bool
  is_lower_bound r = r.stoppage && (not r.exact_minute && of_period r)

  -- the first of the minutes that is near; `again` tells whether it is not the first of all
  unfoldable pub find_near : (again : Bool) → List ℕ → Option (ℤ × Reason)
  find_near again [] = none
  find_near again (m ∷ ms) =
      let rest = find_near true ms in
      if near (pos m)
      then some (pos m, if again then alternate_convention else clock_matches)
      else rest

  -- candidate 1
  abbrev pub direct_match : ClockReading → Option (ℤ × Reason)
  direct_match r =
      if r.exact_minute && of_period r then find_near false (possible_minutes r) else none

  abbrev pub rebased : ClockReading → ℤ
  rebased r = exp.elapsed +ℤ pos r.minute

  -- candidate 2
  abbrev pub rebases : ClockReading → Bool
  rebases r = ltb_ℤ (pos 0) exp.extra && (not r.period_pinned && near (rebased r))

  abbrev pub or_rebased : ClockReading → Option (ℤ × Reason) → Option (ℤ × Reason)
  or_rebased r (some m) = some m
  or_rebased r none = if rebases r then some (rebased r, leading_digit_rebase) else none

  -- what a reading verifies
  unfoldable pub matched_by : ClockReading → Option (ℤ × Reason)
  matched_by r = if r.ambiguous || is_lower_bound r then none else or_rebased r (direct_match r)

  -- the last loop over the possible minutes
  abbrev pub conflicts_softly : ClockReading → Bool
  conflicts_softly r =
      any
        (λ m.
          (near (pos m) && not (of_period r))
          && ((not (r.period_pinned || r.stoppage) && is_period_boundary m)
              || (is_extra_time expected_period || is_extra_time r.period)))
        (possible_minutes r)

  -- the flags after a reading that verifies nothing
  unfoldable pub note_reading : ClockReading → Flags → Flags
  note_reading r s =
      if r.ambiguous
      then record s { soft_keep = true }
      else if is_lower_bound r
      then record s {
        unpinned = true;
        boundary_contradiction =
            s.boundary_contradiction || ltb_ℤ (expected_minute +ℤ tol) (pos r.minute);
      }
      else record s {
        has_exact = s.has_exact || r.exact_minute;
        soft_keep = s.soft_keep || conflicts_softly r;
      }

  -- the loop over the readings, which returns at the first that verifies
  unfoldable pub judge : List ClockReading → Flags → (ℤ × Reason) ⊎ Flags
  judge [] s = inr s
  judge (r ∷ rs) s = or_rest (matched_by r) (judge rs (note_reading r s))

-- the last `switch`
abbrev pub settle_flags : (some_reading : Bool) → Flags → Outcome × Reason
settle_flags some_reading s =
    if not some_reading
    then (unverified, no_clock)
    else if s.boundary_contradiction
    then (rejected, boundary_later)
    else if s.soft_keep
    then (unverified, interpretation_ambiguous)
    else if s.unpinned && not s.has_exact
    then (unverified, frozen_boundary_only)
    else (rejected, mismatch)

abbrev pub concluded : (some_reading : Bool) → Evaluation → (ℤ × Reason) ⊎ Flags → Evaluation
concluded some_reading ev (inl (m, reason)) = record ev {
  outcome = verified;
  matched_minute = some m;
  reason = reason;
}
concluded some_reading ev (inr s) =
    let (outcome, reason) = settle_flags some_reading s in
    record ev { outcome = outcome; reason = reason }

abbrev pub add_reading : Option ClockReading → List ClockReading → List ClockReading
add_reading none rs = rs
add_reading (some r) rs = r ∷ rs

-- the readings of the frames, in order
unfoldable pub readings_from : ℕ → List FrameObservation → List ClockReading
readings_from index [] = []
readings_from index (f ∷ fs) =
    add_reading (parse_frame_clock index f) (readings_from (suc index) fs)

abbrev last_reading : Option ClockReading → List ClockReading → Option ClockReading
last_reading seen [] = seen
last_reading seen (r ∷ rs) = last_reading (some r) rs

abbrev minute_of : Option ClockReading → Option ℕ
minute_of none = none
minute_of (some r) = some r.minute

abbrev period_text_of : Option ClockReading → String
period_text_of none = ""
period_text_of (some r) = period_text r.period

abbrev pub has_reading : List ClockReading → Bool
has_reading [] = false
has_reading (r ∷ rs) = true

abbrev pub soccer_votes : List FrameObservation → ℕ
soccer_votes = count (λ f. f.soccer)

abbrev pub screen_votes : List FrameObservation → ℕ
screen_votes = count (λ f. f.screen)

abbrev pub majority : List FrameObservation → ℕ
majority fs = length fs / 2 + 1

-- an evaluation before the clock check
abbrev pub gated : Outcome → Reason → List FrameObservation → Evaluation
gated outcome reason fs = record {
  outcome = outcome;
  matched_minute = none;
  reason = reason;
  soccer_votes = soccer_votes fs;
  screen_votes = screen_votes fs;
  frame_count = length fs;
  detected_minute = none;
  detected_period = "";
  expected_minute = pos 0;
  expected_period = "";
  clock_readings = [];
}

-- what the clock check reports, before its verdict
abbrev pub clocked : List FrameObservation → Expected → (tol : ℤ) → Evaluation
clocked fs exp tol =
    let rs = readings_from 0 fs in
    let last = last_reading none rs in
    record (gated unverified no_clock fs) {
      detected_minute = minute_of last;
      detected_period = period_text_of last;
      expected_minute = expected_minute exp tol;
      expected_period = period_text (expected_period exp tol);
      clock_readings = rs;
    }

-- the clock check
unfoldable pub check_clock : List FrameObservation → Expected → (tol : ℤ) → Evaluation
check_clock fs exp tol =
    let rs = readings_from 0 fs in
    concluded (has_reading rs) (clocked fs exp tol) (judge exp tol rs no_flags)

-- `Evaluate`
unfoldable pub evaluate : List FrameObservation → Expected → (tol : ℤ) → Evaluation
evaluate fs exp tol =
    if length fs == 0
    then gated rejected no_frames fs
    else if ltb (soccer_votes fs) (majority fs)
    then gated rejected not_soccer fs
    else if leb (majority fs) (screen_votes fs)
    then gated rejected screen_recording fs
    else if leb_ℤ exp.elapsed (pos 0)
    then gated unverified api_minute_unavailable fs
    else check_clock fs exp tol

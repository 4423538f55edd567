-- ===== src/Vision/Reading.antt =====
-- What a reading of a frame's clock says (internal/domain/vision/clock.go, running_stoppage.go).
use found_footy.Common.{
  ℕ, ◌≡◌, refl, String, true, false, not, Option, none, some, List, [], ◌∷◌, ◌==◌, ◌||◌, arith,
  codes, both_branches, Bool-cases, OnSome, inl, inr,
}
use found_footy.Common.Int.{ℤ, pos}
use found_footy.Vision.{
  Period, period_eq, period_valid, period_of, ClockReading, ParsedTimer, FrameObservation,
}
use found_footy.Vision.Scan.{Compact, is_one_of, match_compact, parse_timer, trim_space, to_upper}
use found_footy.Vision.Label.{
  PeriodEvidence, shown, not_shown, conflicting, frame_period_evidence, evidence_of, label_of,
  literal_evidence, reported_evidence, compared, period_from_label, label_period,
}
use found_footy.Vision.Clock.{
  Hints, clock_field, compact_reading, seconds_fit, relative_reading, parse_clock_field, parse_text,
  hints_of, clean_text, clockless, has_minute, possible_minutes,
}
use found_footy.Vision.Frame.{
  with_evidence, with_running_stoppage, relabel_past, past_end, period_ends, positive, allowance,
  end_of, shown_end, frozen_boundary, compose_stoppage, framed, frame_reading, clock_of,
  stoppage_minute, parse_frame_clock,
}

period_of-valid : (m : ℤ) → period_valid (period_of m) ≡ true
unfolding period_of
period_of-valid m = ground arith

-- A reading that is not ambiguous has a period; one whose minute is not exact is in stoppage, and its
-- minute is the end of its period.
pub record IsReading (r : ClockReading) : Type 0 where
  pub timed : r.ambiguous ≡ false → period_valid r.period ≡ true
  pub bounded : r.exact_minute ≡ false → (r.stoppage ≡ true) × (end_of r.period ≡ some r.minute)

-- A reading whose minute is exact, as every reading is before the stoppage fields.
record IsMeasured (r : ClockReading) : Type 0 where
  timed : r.ambiguous ≡ false → period_valid r.period ≡ true
  measured : r.exact_minute ≡ true

relative_reading-IsMeasured : (h : Hints) (m : ℕ) → IsMeasured (relative_reading h m)
unfolding relative_reading
relative_reading-IsMeasured h m =
    both_branches IsMeasured h.et (record { timed = λ e. period_of-valid _; measured = refl })
      (both_branches IsMeasured h.second (record { timed = λ e. refl; measured = refl })
        (both_branches IsMeasured h.first (record { timed = λ e. refl; measured = refl })
          (record { timed = λ e. period_of-valid _; measured = refl })))

compact_reading-IsMeasured : (h : Hints) (c : Compact) → IsMeasured (compact_reading h c)
compact_reading-IsMeasured h c = record {
  timed = λ e. ground (arith, e, period_of-valid (pos c.base));
  measured = refl;
}

abbrev IsField : ClockReading × ParsedTimer → Type 0
IsField f = IsMeasured f.0

clock_field-IsMeasured :
    (h : Hints) (c : Option Compact) (timer : Option ParsedTimer)
    → OnSome IsField (clock_field h c timer)
clock_field-IsMeasured h none none = tt
clock_field-IsMeasured h none (some timer) = relative_reading-IsMeasured h timer.minute
clock_field-IsMeasured h (some c) timer =
    both_branches (OnSome IsField) (seconds_fit c.seconds) (compact_reading-IsMeasured h c) tt

abbrev IsValid : Period → Type 0
IsValid p = period_valid p ≡ true

label_period-IsValid : (s : List ℕ) → OnSome IsValid (label_period s)
label_period-IsValid s =
    let P = OnSome IsValid in
    both_branches P (is_one_of s _) refl (
      both_branches P (is_one_of s _) refl
        (both_branches P (is_one_of s _) refl (both_branches P (is_one_of s _) refl tt)))

-- shown evidence is a period
abbrev IsShown : PeriodEvidence → Type 0
IsShown (shown p) = period_valid p ≡ true
IsShown not_shown = Unit
IsShown conflicting = Unit

with_evidence-IsMeasured :
    (e : PeriodEvidence) (r : ClockReading)
    → IsShown e
    → IsMeasured r
    → IsMeasured (with_evidence e r)
unfolding with_evidence
with_evidence-IsMeasured not_shown r h k = k
with_evidence-IsMeasured conflicting r h k = record {
  timed = λ e. absurd (ground arith);
  measured = k.measured;
}
with_evidence-IsMeasured (shown p) r h k =
    both_branches IsMeasured r.period_pinned
      (both_branches IsMeasured (period_eq r.period p) k
        (record { timed = λ e. absurd (ground arith); measured = k.measured }))
      (record { timed = λ e. h; measured = k.measured })

relabel_past-IsMeasured :
    (ends : List ℕ) (r : ClockReading) → IsMeasured r → IsMeasured (relabel_past ends r)
unfolding relabel_past
relabel_past-IsMeasured [] r k = k
relabel_past-IsMeasured (end ∷ ends) r k =
    both_branches IsMeasured (past_end r.minute end)
      (record { timed = λ e. period_of-valid (pos end); measured = k.measured })
      (relabel_past-IsMeasured ends r k)

with_running_stoppage-IsMeasured :
    (r : ClockReading) (added : Option String)
    → IsMeasured r
    → IsMeasured (with_running_stoppage r added)
unfolding with_running_stoppage
with_running_stoppage-IsMeasured r added k =
    both_branches IsMeasured (r.period_pinned || (r.ambiguous || r.stoppage)) k (
      both_branches IsMeasured (positive (allowance added))
        (relabel_past-IsMeasured period_ends r k) k)

literal_evidence-IsShown : (o : Option Period) → OnSome IsValid o → IsShown (literal_evidence o)
literal_evidence-IsShown none h = tt
literal_evidence-IsShown (some p) h = h

compared-IsShown : (o : Option Period) (q : Period) → OnSome IsValid o → IsShown (compared o q)
compared-IsShown none q h = tt
compared-IsShown (some p) q h =
    both_branches IsShown (period_valid q) (both_branches IsShown (period_eq p q) h tt) tt

reported_evidence-IsShown : (o : Option Period) → IsShown (reported_evidence o)
reported_evidence-IsShown none = tt
reported_evidence-IsShown (some p) = elim (Bool-cases (period_valid p)) [
  | inl valid ↦ rw valid valid
  | inr other ↦ rw other tt
]

abbrev IsLabel : Option (Option Period) → Type 0
IsLabel none = Unit
IsLabel (some o) = OnSome IsValid o

label_of-IsLabel : (label : Option String) → IsLabel (label_of label)
unfolding period_from_label
label_of-IsLabel none = tt
label_of-IsLabel (some label) = label_period-IsValid _

evidence_of-IsShown :
    (literal : Option (Option Period)) (reported : Option Period)
    → IsLabel literal
    → IsShown (evidence_of literal reported)
evidence_of-IsShown none reported h = reported_evidence-IsShown reported
evidence_of-IsShown (some literal) none h = literal_evidence-IsShown literal h
evidence_of-IsShown (some literal) (some reported) h = compared-IsShown literal reported h

frame_period_evidence-IsShown : (f : FrameObservation) → IsShown (frame_period_evidence f)
unfolding frame_period_evidence
frame_period_evidence-IsShown f =
    evidence_of-IsShown (label_of f.period_label) f.period (label_of-IsLabel f.period_label)

-- A boundary that a clock freezes at is the end of its period.
shown_end-ends : (ms : List ℕ) (e : Option ℕ) → OnSome (λ b. e ≡ some b) (shown_end ms e)
shown_end-ends ms none = tt
shown_end-ends ms (some end) =
    both_branches (OnSome (λ b. some end ≡ some b)) (has_minute ms end) refl tt

frozen_boundary-ends :
    (r : ClockReading) (timer : ParsedTimer)
    → OnSome (λ b. end_of r.period ≡ some b) (frozen_boundary r timer)
unfolding frozen_boundary
frozen_boundary-ends r timer =
    both_branches (OnSome (λ b. end_of r.period ≡ some b))
      (r.ambiguous || (r.stoppage || (not timer.seconds_known || not (timer.second == 0))))
      {x = none} tt (shown_end-ends (possible_minutes r) (end_of r.period))

compose_stoppage-IsReading :
    (boundary stop added : Option ℕ) (r : ClockReading)
    → OnSome (λ b. end_of r.period ≡ some b) boundary
    → IsMeasured r
    → IsReading (compose_stoppage boundary stop added r)
unfolding compose_stoppage
compose_stoppage-IsReading none stop added r ends k = record {
  timed = k.timed;
  bounded = λ e. absurd (ground (arith, e, k.measured));
}
compose_stoppage-IsReading (some b) (some stop) added r ends k = record {
  timed = k.timed;
  bounded = λ e. absurd (ground (arith, e, k.measured));
}
compose_stoppage-IsReading (some b) none (some added) r ends k = record {
  timed = k.timed;
  bounded = λ e. (refl, ends);
}
compose_stoppage-IsReading (some b) none none r ends k = record {
  timed = k.timed;
  bounded = λ e. absurd (ground (arith, e, k.measured));
}

frame_reading-IsReading :
    (index : ℕ) (f : FrameObservation) (field : Option (ClockReading × ParsedTimer))
    → OnSome IsField field
    → OnSome IsReading (frame_reading index f field)
frame_reading-IsReading index f none h = tt
frame_reading-IsReading index f (some (r, timer)) h =
    let first : IsMeasured (framed index r) = record { timed = h.timed; measured = h.measured } in
    let merged = with_evidence (frame_period_evidence f) (framed index r) in
    let seen = with_running_stoppage merged f.added in
    compose_stoppage-IsReading (frozen_boundary seen timer) (stoppage_minute f.stoppage_clock)
      (allowance f.added) seen (frozen_boundary-ends seen timer)
      (with_running_stoppage-IsMeasured merged f.added (
        with_evidence-IsMeasured (frame_period_evidence f) (framed index r)
          (frame_period_evidence-IsShown f) first))

parse_text-IsMeasured : (text : List ℕ) → OnSome IsField (parse_text text)
unfolding parse_text
parse_text-IsMeasured text =
    both_branches (OnSome IsField) (is_one_of text clockless) {x = none} tt (
      clock_field-IsMeasured (hints_of text) (match_compact (clean_text text))
        (parse_timer (clean_text text) true))

clock_of-IsMeasured : (clock : Option String) → OnSome IsField (clock_of clock)
unfolding parse_clock_field
clock_of-IsMeasured none = tt
clock_of-IsMeasured (some raw) = parse_text-IsMeasured (to_upper (trim_space (codes raw)))

-- A reading of a frame that is not ambiguous has a period; one whose minute is not exact is in
-- stoppage, and its minute is the end of its period.
pub parse_frame_clock-IsReading :
    (index : ℕ) (f : FrameObservation) → OnSome IsReading (parse_frame_clock index f)
unfolding parse_frame_clock
parse_frame_clock-IsReading index f =
    frame_reading-IsReading index f (clock_of f.clock) (clock_of-IsMeasured f.clock)

-- ===== src/Vision/Rules.antt =====
-- What the shown label and period of a frame do to its clock (internal/domain/vision/clock.go,
-- period_label.go).
use found_footy.Common.{
  ℕ, suc, ◌≤◌, ◌≡◌, ◌≢◌, refl, sym, ap, ◌∙◌, String, true, false, Option, none, some, List, [], ◌∷◌,
  any, arith, All, OnSome, OnSome-map, inl, inr, Bool-cases,
}
use found_footy.Common.Int.{ℤ}
use found_footy.Vision.{
  Period, first_half, second_half, extra_first, extra_second, unknown, period_valid, period_eq,
  ClockReading, ParsedTimer, FrameObservation,
}
use found_footy.Vision.Label.{conflicting, compared, frame_period_evidence, period_from_label}
use found_footy.Vision.Clock.{normalize_displayed_minute}
use found_footy.Vision.Frame.{
  with_evidence, with_running_stoppage, frozen_boundary, compose_stoppage, framed, frame_reading,
  clock_of, parse_frame_clock,
}
use found_footy.Vision.Evaluate.{Expected, verified, evaluate, readings_from, add_reading}
use found_footy.Vision.Verdict.{verifies, evaluate_outcome}

with_running_stoppage-ambiguous :
    (r : ClockReading) (added : Option String)
    → r.ambiguous ≡ true
    → with_running_stoppage r added ≡ r
unfolding with_running_stoppage
with_running_stoppage-ambiguous r added h = ground (arith, h)

frozen_boundary-ambiguous :
    (r : ClockReading) (timer : ParsedTimer) → r.ambiguous ≡ true → frozen_boundary r timer ≡ none
unfolding frozen_boundary
frozen_boundary-ambiguous r timer h = ground (arith, h)

abbrev IsAmbiguous : ClockReading → Type 0
IsAmbiguous r = r.ambiguous ≡ true

frame_reading-IsAmbiguous :
    (index : ℕ) (f : FrameObservation) (field : Option (ClockReading × ParsedTimer))
    → frame_period_evidence f ≡ conflicting
    → OnSome IsAmbiguous (frame_reading index f field)
unfolding with_evidence compose_stoppage
frame_reading-IsAmbiguous index f none h = tt
frame_reading-IsAmbiguous index f (some (r, timer)) h =
    let merged = with_evidence conflicting (framed index r) in
    rw
      (
        h,
        with_running_stoppage-ambiguous merged f.added refl,
        frozen_boundary-ambiguous merged timer refl,
      )
      refl

-- A frame shows a label and a period that is not the one of the label.
pub record IsSplit (f : FrameObservation) : Type 0 where
  pub label : String
  pub period : Period
  pub labelled : f.period_label ≡ some label
  pub reported : f.period ≡ some period
  pub differ : period_from_label label ≢ some period

period_eq-path : (p r : Period) → period_valid r ≡ true → period_eq p r ≡ true → p ≡ r
unfolding period_eq
period_eq-path first_half first_half h k = refl
period_eq-path second_half second_half h k = refl
period_eq-path extra_first extra_first h k = refl
period_eq-path extra_second extra_second h k = refl
period_eq-path p r h k = ground (arith, h, k)

compared-split : (o : Option Period) (r : Period) → o ≢ some r → compared o r ≡ conflicting
compared-split none r h = refl
compared-split (some p) r h = elim (Bool-cases (period_valid r)) [
  | inr other ↦ rw other refl
  | inl valid ↦ elim (Bool-cases (period_eq p r)) [
    | inl same ↦ absurd (h (ap some (period_eq-path p r valid same)))
    | inr other ↦ rw (valid, other) refl
  ]
]

IsSplit-conflicting : (f : FrameObservation) → IsSplit f → frame_period_evidence f ≡ conflicting
unfolding frame_period_evidence
IsSplit-conflicting f h =
    rw (h.labelled, h.reported) (compared-split (period_from_label h.label) h.period h.differ)

module _ (exp : Expected) (tol : ℤ) where
  split-verifies :
      (index : ℕ) (f : FrameObservation)
      → IsSplit f
      → OnSome (λ r. verifies exp tol r ≡ false) (parse_frame_clock index f)
  unfolding parse_frame_clock
  split-verifies index f h =
      OnSome-map (frame_reading index f (clock_of f.clock)) (λ r gone. ground (arith, gone))
        (frame_reading-IsAmbiguous index f (clock_of f.clock) (IsSplit-conflicting f h))

  add-verify :
      (o : Option ClockReading) (rs : List ClockReading)
      → OnSome (λ r. verifies exp tol r ≡ false) o
      → any (verifies exp tol) rs ≡ false
      → any (verifies exp tol) (add_reading o rs) ≡ false
  add-verify none rs h k = k
  add-verify (some r) rs h k = ground (arith, h, k)

  readings-verify :
      (index : ℕ) (fs : List FrameObservation)
      → All IsSplit fs
      → any (verifies exp tol) (readings_from index fs) ≡ false
  unfolding readings_from
  readings-verify index [] h = refl
  readings-verify index (f ∷ fs) h =
      add-verify (parse_frame_clock index f) (readings_from (suc index) fs)
        (split-verifies index f h.0) (readings-verify (suc index) fs h.1)

  -- A clip whose every frame shows a label and reports a period that is not the one of the label is
  -- never verified, whatever the clocks, the expected minute and the tolerance.
  pub evaluate-split :
      (fs : List FrameObservation) → All IsSplit fs → (evaluate fs exp tol).outcome ≢ verified
  evaluate-split fs h is_verified =
      ground (arith, sym (evaluate_outcome exp tol fs) ∙ is_verified, readings-verify 0 fs h)

-- where the minutes of a period begin
abbrev pub period_start : Period → ℕ
period_start first_half = 0
period_start second_half = 45
period_start extra_first = 90
period_start extra_second = 105
period_start (unknown s) = 0

-- A displayed minute that a period shows is moved to one that is neither before the start of the
-- period nor before the minute itself.
normalize_displayed_minute-range :
    (m : ℕ) (p : Period)
    → (normalize_displayed_minute m p).1 ≡ true
    → (period_start p ≤ (normalize_displayed_minute m p).0)
      × (m ≤ (normalize_displayed_minute m p).0)
unfolding normalize_displayed_minute
normalize_displayed_minute-range m first_half h = ground arith
normalize_displayed_minute-range m second_half h = ground arith
normalize_displayed_minute-range m extra_first h = ground arith
normalize_displayed_minute-range m extra_second h = ground arith
normalize_displayed_minute-range m (unknown s) h = ground arith

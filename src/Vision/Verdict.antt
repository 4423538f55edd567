-- ===== src/Vision/Verdict.antt =====
-- The verdict as a decision on sets of readings (internal/domain/vision/evaluate.go).
use found_footy.Common.{
  ℕ, ◌≡◌, ◌≢◌, ◌⊎◌, inl, inr, refl, ap, Bool, true, false, not, Option, none, some, List, [], ◌∷◌,
  any, count_le, length, ltb, leb, ◌==◌, ◌&&◌, ◌||◌, if◌then◌else◌, arith, both_branches,
  Bool-cases, Option-cases, is_some, OnSome, ◌*◌,
}
use found_footy.Common.Int.{ℤ, pos, ◌+ℤ◌, ltb_ℤ, leb_ℤ}
use found_footy.Vision.{ClockReading, FrameObservation}
use found_footy.Vision.Clock.{possible_minutes}
use found_footy.Vision.Evaluate.{
  Outcome, verified, unverified, rejected, Reason, Expected, Evaluation, Flags, no_flags, or_rest,
  expected_minute, of_period, is_lower_bound, near, find_near, or_rebased, rebases, matched_by,
  direct_match, conflicts_softly, note_reading, judge, concluded, settle_flags, readings_from,
  has_reading, check_clock, clocked, evaluate, soccer_votes, screen_votes, majority,
}

module _ (exp : Expected) (tol : ℤ) where
  -- a reading that is compared with the expected minute
  abbrev pub is_measured : ClockReading → Bool
  is_measured r = not (r.ambiguous || is_lower_bound exp tol r)

  -- Does a reading verify the clip?
  abbrev pub verifies : ClockReading → Bool
  verifies r =
      is_measured r
      && ((r.exact_minute
            && (of_period exp tol r && any (λ m. near exp tol (pos m)) (possible_minutes r)))
          || rebases exp tol r)

  abbrev pub is_bound : ClockReading → Bool
  is_bound r = not r.ambiguous && is_lower_bound exp tol r

  abbrev pub contradicts : ClockReading → Bool
  contradicts r = is_bound r && ltb_ℤ (expected_minute exp tol +ℤ tol) (pos r.minute)

  abbrev pub keeps_softly : ClockReading → Bool
  keeps_softly r = r.ambiguous || (is_measured r && conflicts_softly exp tol r)

  abbrev pub is_exact : ClockReading → Bool
  is_exact r = is_measured r && r.exact_minute

  -- The verdict by what some reading is, whatever the order of the readings.
  abbrev pub clock_verdict : List ClockReading → Outcome
  clock_verdict rs =
      if any verifies rs
      then verified
      else if not (has_reading rs)
      then unverified
      else if any contradicts rs
      then rejected
      else if any keeps_softly rs
      then unverified
      else if any is_bound rs && not (any is_exact rs)
      then unverified
      else rejected

  find_near-any :
      (again : Bool) (ms : List ℕ)
      → is_some (find_near exp tol again ms) ≡ any (λ m. near exp tol (pos m)) ms
  unfolding find_near
  find_near-any again [] = refl
  find_near-any again (m ∷ ms) = ground (arith, find_near-any true ms)

  matched_by_iff : (r : ClockReading) → is_some (matched_by exp tol r) ≡ verifies r
  unfolding matched_by
  matched_by_iff r = ground (arith, find_near-any false (possible_minutes r))

  abbrev met : Flags → List ClockReading → Flags
  met s rs = record {
    soft_keep = s.soft_keep || any keeps_softly rs;
    unpinned = s.unpinned || any is_bound rs;
    boundary_contradiction = s.boundary_contradiction || any contradicts rs;
    has_exact = s.has_exact || any is_exact rs;
  }

  same_flags :
      (s t : Flags)
      → s.soft_keep ≡ t.soft_keep
      → s.unpinned ≡ t.unpinned
      → s.boundary_contradiction ≡ t.boundary_contradiction
      → s.has_exact ≡ t.has_exact
      → s ≡ t
  same_flags s t a b c d =
      λ i. record { soft_keep = a i; unpinned = b i; boundary_contradiction = c i; has_exact = d i }

  met-nil : (s : Flags) → s ≡ met s []
  met-nil s = same_flags s (met s []) (ground arith) (ground arith) (ground arith) (ground arith)

  met-cons :
      (r : ClockReading) (rs : List ClockReading) (s : Flags)
      → met (note_reading exp tol r s) rs ≡ met s (r ∷ rs)
  unfolding note_reading
  met-cons r rs s =
      same_flags (met (note_reading exp tol r s) rs) (met s (r ∷ rs)) (ground arith) (ground arith)
        (ground arith) (ground arith)

  -- Without a reading that verifies, each flag tells whether some reading raises it.
  judge-none :
      (rs : List ClockReading) (s : Flags)
      → any verifies rs ≡ false
      → judge exp tol rs s ≡ inr (met s rs)
  unfolding judge
  judge-none [] s h = ap inr (met-nil s)
  judge-none (r ∷ rs) s h =
      let missed : matched_by exp tol r ≡ none = ground (arith, matched_by_iff r, h) in
      rw (missed, judge-none rs (note_reading exp tol r s) (ground (arith, h)), met-cons r rs s)
        refl

  abbrev IsNear : ℤ × Reason → Type 0
  IsNear m = near exp tol m.0 ≡ true

  find_near-IsNear : (again : Bool) (ms : List ℕ) → OnSome IsNear (find_near exp tol again ms)
  unfolding find_near
  find_near-IsNear again [] = tt
  find_near-IsNear again (k ∷ ms) = elim (Bool-cases (near exp tol (pos k))) [
    | inl hit ↦ rw hit hit
    | inr miss ↦ rw miss (find_near-IsNear true ms)
  ]

  or_rebased-IsNear :
      (r : ClockReading) (o : Option (ℤ × Reason))
      → OnSome IsNear o
      → OnSome IsNear (or_rebased exp tol r o)
  or_rebased-IsNear r (some m) h = h
  or_rebased-IsNear r none h = elim (Bool-cases (rebases exp tol r)) [
    | inl hit ↦ rw hit (ground (arith, hit))
    | inr miss ↦ rw miss tt
  ]

  direct_match-IsNear : (r : ClockReading) → OnSome IsNear (direct_match exp tol r)
  direct_match-IsNear r = elim (Bool-cases (r.exact_minute && of_period exp tol r)) [
    | inl fits ↦ rw fits (find_near-IsNear false (possible_minutes r))
    | inr other ↦ rw other tt
  ]

  matched_by-IsNear : (r : ClockReading) → OnSome IsNear (matched_by exp tol r)
  unfolding matched_by
  matched_by-IsNear r =
      both_branches (OnSome IsNear) (r.ambiguous || is_lower_bound exp tol r) tt
        (or_rebased-IsNear r _ (direct_match-IsNear r))

  -- The loop ends with a match near the expected minute, or with flags.
  abbrev IsMatch : (ℤ × Reason) ⊎ Flags → Type 0
  IsMatch (inl m) = IsNear m
  IsMatch (inr s) = Unit

  or_rest-IsMatch :
      (o : Option (ℤ × Reason)) (rest : (ℤ × Reason) ⊎ Flags)
      → OnSome IsNear o
      → IsMatch rest
      → IsMatch (or_rest o rest)
  or_rest-IsMatch none rest h k = k
  or_rest-IsMatch (some m) rest h k = h

  judge-IsMatch : (rs : List ClockReading) (s : Flags) → IsMatch (judge exp tol rs s)
  unfolding judge
  judge-IsMatch [] s = tt
  judge-IsMatch (r ∷ rs) s =
      or_rest-IsMatch (matched_by exp tol r) _ (matched_by-IsNear r)
        (judge-IsMatch rs (note_reading exp tol r s))

  -- A reading that verifies ends the loop with a match.
  judge-some :
      (rs : List ClockReading) (s : Flags)
      → any verifies rs ≡ true
      → (m : ℤ × Reason) × (judge exp tol rs s ≡ inl m)
  unfolding judge
  judge-some [] s h = absurd (ground (arith, h))
  judge-some (r ∷ rs) s h = elim (Option-cases (matched_by exp tol r)) [
    | inl missed ↦
        let (m, found) =
          judge-some rs (note_reading exp tol r s) (ground (arith, matched_by_iff r, missed, h)) in
        (m, rw missed found)
    | inr (m, hit) ↦ (m, rw hit refl)
  ]

  check_clock_outcome :
      (fs : List FrameObservation)
      → (check_clock fs exp tol).outcome ≡ clock_verdict (readings_from 0 fs)
  unfolding check_clock
  check_clock_outcome fs =
      let rs = readings_from 0 fs in
      elim (Bool-cases (any verifies rs)) [
        | inl hit ↦ let (m, found) = judge-some rs no_flags hit in rw (found, hit) refl
        | inr miss ↦ rw (judge-none rs no_flags miss, miss) (ground arith)
      ]

  -- more than half of the frames show a match, and at most half show a screen
  abbrev pub is_footage : List FrameObservation → Bool
  is_footage fs = ltb (length fs) (2 * soccer_votes fs) && leb (2 * screen_votes fs) (length fs)

  -- The outcome, from the votes of the frames, the provider's minute and the set of the readings.
  abbrev pub verdict : List FrameObservation → Outcome
  verdict fs =
      if not (is_footage fs)
      then rejected
      else if leb_ℤ exp.elapsed (pos 0)
      then unverified
      else clock_verdict (readings_from 0 fs)

  -- Evaluate gives the outcome of `verdict`, which asks for majorities of the frames, for a minute of
  -- the provider, and of the readings only whether some one verifies, contradicts, keeps or bounds.
  pub evaluate_outcome : (fs : List FrameObservation) → (evaluate fs exp tol).outcome ≡ verdict fs
  unfolding evaluate
  evaluate_outcome fs =
      ground (arith, check_clock_outcome fs, count_le (λ (f : FrameObservation). f.soccer) fs)

  -- What the outcome says of the matched minute.
  abbrev pub IsMatched : Outcome → Option ℤ → Type 0
  IsMatched verified m = (k : ℤ) × (m ≡ some k) × (near exp tol k ≡ true)
  IsMatched unverified m = m ≡ none
  IsMatched rejected m = m ≡ none

  abbrev IsFine : Evaluation → Type 0
  IsFine ev = IsMatched ev.outcome ev.matched_minute

  unmatched-IsMatched : (o : Outcome) → o ≢ verified → IsMatched o none
  unmatched-IsMatched verified h = absurd (h refl)
  unmatched-IsMatched unverified h = refl
  unmatched-IsMatched rejected h = refl

  concluded-IsFine :
      (some_reading : Bool) (ev : Evaluation) (result : (ℤ × Reason) ⊎ Flags)
      → ev.matched_minute ≡ none
      → IsMatch result
      → IsFine (concluded some_reading ev result)
  concluded-IsFine some_reading ev (inl (m, reason)) h k = (m, refl, k)
  concluded-IsFine some_reading ev (inr s) h k =
      rw h (unmatched-IsMatched (settle_flags some_reading s).0 (λ e. ground arith))

  check_clock-IsFine : (fs : List FrameObservation) → IsFine (check_clock fs exp tol)
  unfolding check_clock
  check_clock-IsFine fs =
      concluded-IsFine (has_reading (readings_from 0 fs)) (clocked fs exp tol) _ refl
        (judge-IsMatch (readings_from 0 fs) no_flags)

  -- A matched minute is given exactly with the verified outcome, and it is within the tolerance of
  -- the expected minute.
  pub evaluate-IsMatched :
      (fs : List FrameObservation)
      → IsMatched (evaluate fs exp tol).outcome (evaluate fs exp tol).matched_minute
  unfolding evaluate
  evaluate-IsMatched fs = both_branches IsFine (length fs == 0) refl (
      both_branches IsFine (ltb (soccer_votes fs) (majority fs)) refl (
        both_branches IsFine (leb (majority fs) (screen_votes fs)) refl
          (both_branches IsFine (leb_ℤ exp.elapsed (pos 0)) refl (check_clock-IsFine fs))))

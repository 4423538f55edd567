-- ===== src/Video/Match/Best.antt =====
-- The window that `BestAlignment` returns, and what `Match` decides (internal/domain/video/match.go).
use found_footy.Common.{
  ℕ, ◌+◌, ◌-◌, ◌≤◌, ◌<◌, ◌≡◌, ◌↔◌, refl, subst, true, false, List, length, arith, ◌==◌, ◌||◌,
  Bool-cases, inl, inr, min,
}
use found_footy.Common.Int.{ℤ, pos_part, neg_part}
use found_footy.Video.Match.{
  AlignmentEvidence, no_evidence, stronger_alignment, offset, miss_at, scan_offsets, best_alignment,
  match_frames, run_length,
}
use found_footy.Video.Match.Diagonal.{prefix}
use found_footy.Video.Match.Longest.{
  IsWindow, gaps_between, gaps_between-prefix, offset_parts, scan_offsets-IsWindow,
  scan_offsets-keeps, scan_offsets-beats, diagonal_window,
}

evidence_eq :
    {w v : AlignmentEvidence}
    → w.left_start ≡ v.left_start
    → w.right_start ≡ v.right_start
    → w.frames ≡ v.frames
    → w.gaps ≡ v.gaps
    → w ≡ v
evidence_eq p q r s = λ i. record { left_start = p i; right_start = q i; frames = r i; gaps = s i }

module _ (a b : List ℕ) (max_hamming max_gaps : ℤ) where
  no_evidence-IsWindow : IsWindow a b max_hamming (pos_part max_gaps) no_evidence
  unfolding gaps_between
  no_evidence-IsWindow = record {
    left_inside = omega arith;
    right_inside = omega arith;
    counted = refl;
    allowed = omega arith;
  }

  -- The result is a window of both sequences with its gaps counted, no more of them than allowed.
  best_alignment-IsWindow :
      IsWindow a b max_hamming (pos_part max_gaps) (best_alignment a b max_hamming max_gaps)
  unfolding best_alignment
  best_alignment-IsWindow = elim (Bool-cases ((length a == 0) || (length b == 0))) [
    | inl empty ↦ rw empty no_evidence-IsWindow
    | inr full ↦ rw full (
        scan_offsets-IsWindow a b max_hamming (pos_part max_gaps) (length a + length b - 1) 0
          no_evidence (omega arith) no_evidence-IsWindow)
  ]

  -- the offset of a window, counted from the first offset
  abbrev round_of : AlignmentEvidence → ℕ
  round_of w = length a - 1 + w.right_start - w.left_start

  abbrev start_of : AlignmentEvidence → ℕ
  start_of w = min w.left_start w.right_start

  on_diagonal :
      (w : AlignmentEvidence)
      → IsWindow a b max_hamming (pos_part max_gaps) w
      → 0 < w.frames
      → let d = offset a (round_of w) in
        (neg_part d + start_of w ≡ w.left_start) × (pos_part d + start_of w ≡ w.right_start)
  on_diagonal w h some_frames =
      let parts = offset_parts a b max_hamming (pos_part max_gaps) (round_of w) in
      (omega (arith, parts, h.left_inside), omega (arith, parts, h.left_inside))

  gaps_between_eq :
      (l r l' r' frames : ℕ)
      → l ≡ l'
      → r ≡ r'
      → gaps_between a b max_hamming l r frames ≡ gaps_between a b max_hamming l' r' frames
  gaps_between_eq l r l' r' frames p q = cc

  -- The misses of a window, as those of its offset.
  window_prefix :
      (w : AlignmentEvidence)
      → IsWindow a b max_hamming (pos_part max_gaps) w
      → 0 < w.frames
      → let miss = miss_at a b max_hamming (offset a (round_of w)) in
        prefix miss (start_of w) + w.gaps ≡ prefix miss (start_of w + w.frames)
  window_prefix w h some_frames =
      let d = offset a (round_of w) in
      let (p, q) = on_diagonal w h some_frames in
      let same =
        gaps_between_eq (neg_part d + start_of w) (pos_part d + start_of w) w.left_start
          w.right_start w.frames p q in
      omega (arith, gaps_between-prefix a b max_hamming d (start_of w) w.frames, same, h.counted)

  window-diagonal :
      (w : AlignmentEvidence)
      → IsWindow a b max_hamming (pos_part max_gaps) w
      → 0 < w.frames
      → diagonal_window a b max_hamming
          (pos_part max_gaps)
          (offset a (round_of w))
          (start_of w)
          (start_of w + w.frames)
        ≡ w
  window-diagonal w h some_frames =
      let (p, q) = on_diagonal w h some_frames in
      evidence_eq p q (omega arith) (omega (arith, window_prefix w h some_frames))

  proper-best :
      (w : AlignmentEvidence)
      → IsWindow a b max_hamming (pos_part max_gaps) w
      → 0 < w.frames
      → stronger_alignment w
          (scan_offsets a b max_hamming (pos_part max_gaps) (length a + length b - 1) 0 no_evidence)
        ≡ false
  proper-best w h some_frames =
      let l = start_of w in
      let result =
        scan_offsets a b max_hamming (pos_part max_gaps) (length a + length b - 1) 0 no_evidence in
      let (p, q) = on_diagonal w h some_frames in
      subst (λ v. stronger_alignment v result ≡ false) (window-diagonal w h some_frames)
        (scan_offsets-beats a b max_hamming (pos_part max_gaps) (length a + length b - 1) 0
          (round_of w) no_evidence l (l + w.frames) (omega arith)
          (omega (arith, h.left_inside, h.right_inside)) (omega arith)
          (omega (arith, p, q, h.left_inside, h.right_inside))
          (omega (arith, window_prefix w h some_frames, h.allowed)))

  empty-weak : (w : AlignmentEvidence) → w.frames ≡ 0 → stronger_alignment w no_evidence ≡ false
  unfolding stronger_alignment
  empty-weak w h = ground arith

  no_room :
      (w : AlignmentEvidence)
      → IsWindow a b max_hamming (pos_part max_gaps) w
      → (length a == 0) || (length b == 0) ≡ true
      → w.frames ≡ 0
  no_room w h empty = ground (arith, h.left_inside, h.right_inside)

  -- No window with at most the allowed gaps is stronger than the result: none is longer, none as
  -- long has fewer gaps, and none as long with as many gaps comes earlier.
  pub best_alignment-strongest :
      (w : AlignmentEvidence)
      → IsWindow a b max_hamming (pos_part max_gaps) w
      → stronger_alignment w (best_alignment a b max_hamming max_gaps) ≡ false
  unfolding best_alignment
  best_alignment-strongest w h = elim (Bool-cases ((length a == 0) || (length b == 0))) [
    | inl empty ↦ rw empty (empty-weak w (no_room w h empty))
    | inr full ↦ rw full (elim (Bool-cases (w.frames == 0)) [
      | inl none ↦
          scan_offsets-keeps a b max_hamming (pos_part max_gaps) (length a + length b - 1) 0 w
            no_evidence (empty-weak w (ground arith))
      | inr some_frames ↦ proper-best w h (ground arith)
    ])
  ]

  no_longer :
      (w best : AlignmentEvidence) → stronger_alignment w best ≡ false → w.frames ≤ best.frames
  unfolding stronger_alignment
  no_longer w best h = ground arith

  matches :
      (min_run : ℤ) (w : AlignmentEvidence)
      → IsWindow a b max_hamming (pos_part max_gaps) w
      → run_length min_run ≤ w.frames
      → match_frames a b max_hamming min_run max_gaps ≡ true
  unfolding match_frames
  matches min_run w h long =
      let best = best_alignment a b max_hamming max_gaps in
      ground (arith, h.left_inside, h.right_inside, no_longer w best (best_alignment-strongest w h))

  -- `Match` answers yes exactly when some window of both sequences has at least the run length in
  -- frames and at most the allowed gaps.
  pub match_frames_iff :
      (min_run : ℤ)
      → (match_frames a b max_hamming min_run max_gaps ≡ true) ↔ (
          (w : AlignmentEvidence) × IsWindow a b max_hamming (pos_part max_gaps) w
          × (run_length min_run ≤ w.frames))
  unfolding match_frames
  match_frames_iff min_run = (
    λ yes. (best_alignment a b max_hamming max_gaps, best_alignment-IsWindow, ground arith),
    λ (w, h, long). matches min_run w h long,
  )

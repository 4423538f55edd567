-- ===== src/Video/Match/Longest.antt =====
-- The loop over the offsets of internal/domain/video/match.go: windows of both sequences.
use found_footy.Common.{
  ℕ, zero, suc, ◌+◌, ◌-◌, ◌≤◌, ◌<◌, ◌≡◌, subst, false, List, length, arith, ◌==◌, Bool-cases, inl,
  inr,
}
use found_footy.Common.Int.{ℤ, pos_part, neg_part}
use found_footy.Video.Match.{
  AlignmentEvidence, bit, frame_differs, stronger_alignment, scan, offset, overlap, miss_at,
  scan_offsets,
}
use found_footy.Video.Match.Diagonal.{prefix, prefix-suc, prefix_eq}
use found_footy.Video.Match.Diagonal.Scan.{window, scan-beats, scan-keeps, scan-sound, first_scan}

module _ (a b : List ℕ) (max_hamming : ℤ) where
  -- The frames of an aligned window that differ by more than the threshold.
  unfoldable pub gaps_between : (left right frames : ℕ) → ℕ
  gaps_between left right zero = 0
  gaps_between left right (suc frames) =
      gaps_between left right frames
      + bit (frame_differs a b max_hamming (left + frames) (right + frames))

  -- A window inside both sequences, with its gaps counted, and no more of them than allowed.
  pub record IsWindow (max_gaps : ℕ) (w : AlignmentEvidence) : Type 0 where
    pub left_inside : w.left_start + w.frames ≤ length a
    pub right_inside : w.right_start + w.frames ≤ length b
    pub counted : w.gaps ≡ gaps_between w.left_start w.right_start w.frames
    pub allowed : w.gaps ≤ max_gaps

  differs_eq :
      (l r l' r' : ℕ)
      → l ≡ l'
      → r ≡ r'
      → bit (frame_differs a b max_hamming l r) ≡ bit (frame_differs a b max_hamming l' r')
  differs_eq l r l' r' p q = cc

  pub gaps_between-prefix :
      (d : ℤ) (lo frames : ℕ)
      → prefix (miss_at a b max_hamming d) lo
          + gaps_between (neg_part d + lo) (pos_part d + lo) frames
        ≡ prefix (miss_at a b max_hamming d) (lo + frames)
  unfolding gaps_between
  gaps_between-prefix d lo zero =
      omega (arith, prefix_eq (miss_at a b max_hamming d) lo (lo + 0) (omega arith))
  gaps_between-prefix d lo (suc frames) =
      let miss = miss_at a b max_hamming d in
      let same =
        differs_eq (neg_part d + lo + frames) (pos_part d + lo + frames)
          (neg_part d + (lo + frames)) (pos_part d + (lo + frames)) (omega arith) (omega arith) in
      omega (
        arith,
        gaps_between-prefix d lo frames,
        prefix-suc miss (lo + frames),
        same,
        prefix_eq miss (lo + suc frames) (suc (lo + frames)) (omega arith),
      )

  pub frames_exist :
      (d : ℤ) (i : ℕ)
      → i < overlap a b d
      → (neg_part d + i < length a) × (pos_part d + i < length b)
  frames_exist d i h = ground arith

module _ (a b : List ℕ) (max_hamming : ℤ) (max_gaps : ℕ) where
  abbrev pub diagonal_window : ℤ → (lo end : ℕ) → AlignmentEvidence
  diagonal_window d lo end =
      window (miss_at a b max_hamming d) max_gaps (neg_part d) (pos_part d) lo end

  diagonal-IsWindow :
      (d : ℤ) (lo end : ℕ)
      → neg_part d ≤ length a
      → pos_part d ≤ length b
      → lo ≤ end
      → end ≤ overlap a b d
      → prefix (miss_at a b max_hamming d) end ≤ prefix (miss_at a b max_hamming d) lo + max_gaps
      → IsWindow a b max_hamming max_gaps (diagonal_window d lo end)
  diagonal-IsWindow d lo end left right low inside few =
      let miss = miss_at a b max_hamming d in
      let sum = gaps_between-prefix a b max_hamming d lo (end - lo) in
      let whole = prefix_eq miss (lo + (end - lo)) end (omega arith) in
      record {
        left_inside = ground arith;
        right_inside = ground arith;
        counted = omega (arith, sum, whole);
        allowed = omega (arith, few);
      }

  -- The two parts of the offsets.
  pub offset_parts :
      (n : ℕ)
      → (neg_part (offset a n) ≡ length a - 1 - n) × (pos_part (offset a n) ≡ n - (length a - 1))
  unfolding offset
  offset_parts n = ground arith

  pub scan_offsets-IsWindow :
      (rounds n : ℕ) (best : AlignmentEvidence)
      → n + rounds ≤ length a + length b
      → IsWindow a b max_hamming max_gaps best
      → IsWindow a b max_hamming max_gaps (scan_offsets a b max_hamming max_gaps rounds n best)
  unfolding scan_offsets
  scan_offsets-IsWindow zero n best range h = h
  scan_offsets-IsWindow (suc rounds) n best range h =
      let d = offset a n in
      scan_offsets-IsWindow rounds (suc n) _ (omega arith) (
        scan-sound (miss_at a b max_hamming d) max_gaps (neg_part d) (pos_part d)
          (IsWindow a b max_hamming max_gaps) (overlap a b d) 0 0 0 best
          (λ l end low to few.
            diagonal-IsWindow d l end (omega (arith, offset_parts n))
              (omega (arith, offset_parts n)) low (omega (arith, to)) few)
          (first_scan (miss_at a b max_hamming d) max_gaps (neg_part d) (pos_part d)) h)

  pub scan_offsets-keeps :
      (rounds n : ℕ) (w best : AlignmentEvidence)
      → stronger_alignment w best ≡ false
      → stronger_alignment w (scan_offsets a b max_hamming max_gaps rounds n best) ≡ false
  unfolding scan_offsets
  scan_offsets-keeps zero n w best h = h
  scan_offsets-keeps (suc rounds) n w best h =
      let d = offset a n in
      scan_offsets-keeps rounds (suc n) w _ (
        scan-keeps (miss_at a b max_hamming d) max_gaps (neg_part d) (pos_part d) (overlap a b d) 0
          0 0 w best h)

  abbrev scan_offset : ℕ → AlignmentEvidence → AlignmentEvidence
  scan_offset n best =
      let d = offset a n in
      scan (miss_at a b max_hamming d) max_gaps (neg_part d) (pos_part d) (overlap a b d) 0 0 0 best

  -- No allowed window of an offset is stronger than what the scan of the offset leaves.
  scan_offset-beats :
      (n k : ℕ) (best : AlignmentEvidence) (l end : ℕ)
      → k ≡ n
      → l < end
      → end ≤ overlap a b (offset a k)
      → prefix (miss_at a b max_hamming (offset a k)) end
        ≤ prefix (miss_at a b max_hamming (offset a k)) l + max_gaps
      → stronger_alignment (diagonal_window (offset a k) l end) (scan_offset n best) ≡ false
  scan_offset-beats n k best l end now low inside few =
      let d = offset a k in
      let miss = miss_at a b max_hamming d in
      subst (λ m. stronger_alignment (diagonal_window d l end) (scan_offset m best) ≡ false) now
        (scan-beats miss max_gaps (neg_part d) (pos_part d) (overlap a b d) 0 0 0 best l end
          (first_scan miss max_gaps (neg_part d) (pos_part d)) (omega arith) (omega (arith, inside))
          (omega arith) few)

  pub scan_offsets-beats :
      (rounds n k : ℕ) (best : AlignmentEvidence) (l end : ℕ)
      → n ≤ k
      → k < n + rounds
      → l < end
      → end ≤ overlap a b (offset a k)
      → prefix (miss_at a b max_hamming (offset a k)) end
        ≤ prefix (miss_at a b max_hamming (offset a k)) l + max_gaps
      → stronger_alignment
          (diagonal_window (offset a k) l end)
          (scan_offsets a b max_hamming max_gaps rounds n best)
        ≡ false
  unfolding scan_offsets
  scan_offsets-beats zero n k best l end from to low inside few = absurd (omega arith)
  scan_offsets-beats (suc rounds) n k best l end from to low inside few =
      let d = offset a n in
      elim (Bool-cases (n == k)) [
        | inl now ↦
            scan_offsets-keeps rounds (suc n) (diagonal_window (offset a k) l end) _
              (scan_offset-beats n k best l end (ground arith) low inside few)
        | inr later ↦
            scan_offsets-beats rounds (suc n) k _ l end (ground arith) (omega arith) low inside few
      ]

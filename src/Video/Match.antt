-- ===== src/Video/Match.antt =====
-- internal/domain/video/match.go: the longest aligned window of two frame-hash sequences.
pub mod Diagonal
pub mod Longest
pub mod Best
pub mod Symmetry
use found_footy.Common.{
  ℕ, zero, suc, ◌+◌, ◌-◌, ◌/◌, ◌%◌, min, Bool, true, false, not, Option, none, some, List, length,
  get_elem?, ltb, leb, ◌==◌, ◌||◌, if◌then◌else◌,
}
use found_footy.Common.Int.{ℤ, pos, pos_part, neg_part, sub_ℕ, ltb_ℤ, leb_ℤ}

-- `AlignmentEvidence`; all four are indexes or counts
pub record AlignmentEvidence : Type 0 where
  pub left_start : ℕ
  pub right_start : ℕ
  pub frames : ℕ
  pub gaps : ℕ

abbrev pub no_evidence : AlignmentEvidence
no_evidence = record { left_start = 0; right_start = 0; frames = 0; gaps = 0 }

abbrev pub bit : Bool → ℕ
bit true = 1
bit false = 0

-- the number of the low bits, up to `n`, in which two numbers differ
unfoldable pub differing_bits : (n a b : ℕ) → ℕ
differing_bits zero a b = 0
differing_bits (suc n) a b = bit (not (a % 2 == (b % 2))) + differing_bits n (a / 2) (b / 2)

-- `Hamming`: `bits.OnesCount64` of the exclusive or, on 64 bits
unfoldable pub hamming : ℕ → ℕ → ℕ
hamming a b = differing_bits 64 a b

-- `Hamming(x, y) > maxHamming`, on two frames that exist. The indexes are in range wherever the
-- code compares (`frames_exist` of Longest), so that no answer is given for a missing frame there.
abbrev pub frames_differ : ℤ → Option ℕ → Option ℕ → Bool
frames_differ max_hamming (some x) (some y) = ltb_ℤ max_hamming (pos (hamming x y))
frames_differ max_hamming (some x) none = true
frames_differ max_hamming none y = true

unfoldable pub frame_differs : (a b : List ℕ) → (max_hamming : ℤ) → (left right : ℕ) → Bool
frame_differs a b max_hamming left right =
    frames_differ max_hamming (get_elem? a left) (get_elem? b right)

-- `strongerAlignment`
unfoldable pub stronger_alignment : (candidate incumbent : AlignmentEvidence) → Bool
stronger_alignment c i =
    if not (c.frames == i.frames)
    then ltb i.frames c.frames
    else if not (c.gaps == i.gaps)
    then ltb c.gaps i.gaps
    else if not ((c.left_start + c.right_start) == (i.left_start + i.right_start))
    then ltb (c.left_start + c.right_start) (i.left_start + i.right_start)
    else if not (c.left_start == i.left_start)
    then ltb c.left_start i.left_start
    else ltb c.right_start i.right_start

-- `if strongerAlignment(candidate, best) { best = candidate }`
abbrev pub keep_stronger : (candidate best : AlignmentEvidence) → AlignmentEvidence
keep_stronger c best = if stronger_alignment c best then c else best

-- One offset. `miss` says of each frame of the overlap whether it is over the threshold.
module _ (miss : ℕ → Bool) (max_gaps : ℕ) where
  -- the inner `for misses > maxGaps`, with a round for each frame of the window as fuel
  unfoldable pub shrink : (fuel lo misses : ℕ) → ℕ × ℕ
  shrink zero lo misses = (lo, misses)
  shrink (suc fuel) lo misses =
      let rest = shrink fuel (suc lo) (misses - bit (miss lo)) in
      if ltb max_gaps misses then rest else (lo, misses)

  -- the loop over `hi`, with `rounds` frames to come
  unfoldable pub scan :
      (left right : ℕ) → (rounds hi lo misses : ℕ) → AlignmentEvidence → AlignmentEvidence
  scan left right zero hi lo misses best = best
  scan left right (suc rounds) hi lo misses best =
      let (lo', misses') = shrink (suc hi) lo (misses + bit (miss hi)) in
      scan left right rounds (suc hi) lo' misses' (
        keep_stronger
          (record {
            left_start = left + lo';
            right_start = right + lo';
            frames = suc hi - lo';
            gaps = misses';
          })
          best)

-- The loop over the offset `d`, whose `n`th is `n - (len(a) - 1)`. `max(0, -d)` is the negative
-- part of `d`, and that plus `d` its positive part.
unfoldable pub offset : (a : List ℕ) → ℕ → ℤ
offset a n = sub_ℕ n (length a - 1)

-- `leftEnd - leftStart`
abbrev pub overlap : (a b : List ℕ) → ℤ → ℕ
overlap a b d = min (length a) (length b + neg_part d - pos_part d) - neg_part d

module _ (a b : List ℕ) (max_hamming : ℤ) where
  abbrev pub miss_at : ℤ → ℕ → Bool
  miss_at d i = frame_differs a b max_hamming (neg_part d + i) (pos_part d + i)

  unfoldable pub scan_offsets : (max_gaps rounds n : ℕ) → AlignmentEvidence → AlignmentEvidence
  scan_offsets max_gaps zero n best = best
  scan_offsets max_gaps (suc rounds) n best =
      let d = offset a n in
      scan_offsets max_gaps rounds (suc n)
        (scan (miss_at d) max_gaps (neg_part d) (pos_part d) (overlap a b d) 0 0 0 best)

-- `BestAlignment`: the offsets run from `-(len(a) - 1)` to `len(b) - 1`
unfoldable pub best_alignment : (a b : List ℕ) → (max_hamming max_gaps : ℤ) → AlignmentEvidence
best_alignment a b max_hamming max_gaps =
    if (length a == 0) || (length b == 0)
    then no_evidence
    else scan_offsets a b max_hamming (pos_part max_gaps) (length a + length b - 1) 0 no_evidence

-- `if minRun <= 0 { minRun = 1 }`
abbrev pub run_length : ℤ → ℕ
run_length min_run = if leb_ℤ min_run (pos 0) then 1 else pos_part min_run

-- `Match`
unfoldable pub match_frames : (a b : List ℕ) → (max_hamming min_run max_gaps : ℤ) → Bool
match_frames a b max_hamming min_run max_gaps =
    if ltb (length a) (run_length min_run) || ltb (length b) (run_length min_run)
    then false
    else leb (run_length min_run) (best_alignment a b max_hamming max_gaps).frames

-- ===== src/Video/Match/Symmetry.antt =====
-- The order of two sequences does not matter to `Match` (internal/domain/video/match.go).
use found_footy.Common.{
  ℕ, zero, suc, ◌+◌, ◌≡◌, refl, true, List, get_elem?, arith, Option, some, none, not, ◌==◌, ◌%◌,
  ◌/◌,
}
use found_footy.Common.Int.{ℤ, pos_part}
use found_footy.Video.Match.{
  AlignmentEvidence, bit, differing_bits, hamming, frames_differ, frame_differs, match_frames,
}
use found_footy.Video.Match.Longest.{IsWindow, gaps_between}
use found_footy.Video.Match.Best.{match_frames_iff}

differs_comm : (x y : ℕ) → bit (not (x == y)) ≡ bit (not (y == x))
differs_comm x y = ground arith

differing_bits_comm : (n x y : ℕ) → differing_bits n x y ≡ differing_bits n y x
unfolding differing_bits
differing_bits_comm zero x y = refl
differing_bits_comm (suc n) x y =
    omega (arith, differs_comm (x % 2) (y % 2), differing_bits_comm n (x / 2) (y / 2))

frames_differ_comm :
    (max_hamming : ℤ) (x y : Option ℕ)
    → frames_differ max_hamming x y ≡ frames_differ max_hamming y x
unfolding hamming
frames_differ_comm max_hamming none none = refl
frames_differ_comm max_hamming none (some y) = refl
frames_differ_comm max_hamming (some x) none = refl
frames_differ_comm max_hamming (some x) (some y) = rw (differing_bits_comm 64 x y) refl

gaps_between_comm :
    (a b : List ℕ) (max_hamming : ℤ) (l r frames : ℕ)
    → gaps_between a b max_hamming l r frames ≡ gaps_between b a max_hamming r l frames
unfolding gaps_between frame_differs
gaps_between_comm a b max_hamming l r zero = refl
gaps_between_comm a b max_hamming l r (suc frames) =
    rw
      (
        gaps_between_comm a b max_hamming l r frames,
        frames_differ_comm max_hamming (get_elem? a (l + frames)) (get_elem? b (r + frames)),
      )
      refl

abbrev swapped : AlignmentEvidence → AlignmentEvidence
swapped w = record {
  left_start = w.right_start;
  right_start = w.left_start;
  frames = w.frames;
  gaps = w.gaps;
}

swapped-IsWindow :
    (a b : List ℕ) (max_hamming : ℤ) (max_gaps : ℕ) (w : AlignmentEvidence)
    → IsWindow a b max_hamming max_gaps w
    → IsWindow b a max_hamming max_gaps (swapped w)
swapped-IsWindow a b max_hamming max_gaps w h = record {
  left_inside = h.right_inside;
  right_inside = h.left_inside;
  counted =
      omega
        (arith, h.counted, gaps_between_comm a b max_hamming w.left_start w.right_start w.frames);
  allowed = h.allowed;
}

match_frames_swap :
    (a b : List ℕ) (max_hamming min_run max_gaps : ℤ)
    → match_frames a b max_hamming min_run max_gaps ≡ true
    → match_frames b a max_hamming min_run max_gaps ≡ true
match_frames_swap a b max_hamming min_run max_gaps h =
    let (w, fits, long) = (match_frames_iff a b max_hamming max_gaps min_run).0 h in
    (match_frames_iff b a max_hamming max_gaps min_run).1
      (swapped w, swapped-IsWindow a b max_hamming (pos_part max_gaps) w fits, long)

-- Match gives one answer for two sequences, in whichever order they come.
pub match_frames_comm :
    (a b : List ℕ) (max_hamming min_run max_gaps : ℤ)
    → match_frames a b max_hamming min_run max_gaps ≡ match_frames b a max_hamming min_run max_gaps
match_frames_comm a b max_hamming min_run max_gaps = ground (
  arith,
  match_frames_swap a b max_hamming min_run max_gaps,
  match_frames_swap b a max_hamming min_run max_gaps,
)

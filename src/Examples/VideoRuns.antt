-- ===== src/Examples/VideoRuns.antt =====
-- Two clips and their shares (internal/domain/video).
use found_footy.Common.{
  ℕ, true, false, none, some, List, [], ◌∷◌, ◌≡◌, refl, ◌↔◌, ◌≤◌, arith, Ordering,
}
use found_footy.Common.Int.{pos}
use found_footy.Video.{Asset, Share, active, removed, var}
use found_footy.Video.Shares.{remove}
use found_footy.Video.Shares.Removal.{Reach, here, next}
use found_footy.Video.Rank.{compare_shares}
use found_footy.Video.Match.{
  AlignmentEvidence, hamming, differing_bits, frame_differs, stronger_alignment, shrink, scan,
  scan_offsets, best_alignment, match_frames, run_length, offset,
}
use found_footy.Video.Match.Longest.{IsWindow, gaps_between}
use found_footy.Video.Match.Symmetry.{match_frames_comm}
use found_footy.Video.Match.Best.{best_alignment-strongest, match_frames_iff}

abbrev first_clip : List ℕ
first_clip = 0 ∷ 65535 ∷ 0 ∷ 65535 ∷ []

-- the same footage, from its second frame on
abbrev later_clip : List ℕ
later_clip = 65535 ∷ 1 ∷ 65535 ∷ []

hamming_run : hamming 65535 1 ≡ 15
unfolding hamming differing_bits
hamming_run = refl

abbrev shared_run : AlignmentEvidence
shared_run = record { left_start = 1; right_start = 0; frames = 3; gaps = 0 }

best_alignment_run : best_alignment first_clip later_clip (pos 8) (pos 1) ≡ shared_run
unfolding best_alignment scan_offsets scan shrink stronger_alignment frame_differs hamming
    differing_bits offset
best_alignment_run = refl

-- two frames at the other offset
abbrev short_run : AlignmentEvidence
short_run = record { left_start = 0; right_start = 1; frames = 2; gaps = 0 }

short_run-IsWindow : IsWindow first_clip later_clip (pos 8) 1 short_run
unfolding gaps_between frame_differs hamming differing_bits
short_run-IsWindow = record {
  left_inside = omega arith;
  right_inside = omega arith;
  counted = refl;
  allowed = omega arith;
}

best_alignment-strongest_example :
    stronger_alignment short_run (best_alignment first_clip later_clip (pos 8) (pos 1)) ≡ false
best_alignment-strongest_example =
    best_alignment-strongest first_clip later_clip (pos 8) (pos 1) short_run short_run-IsWindow

match_frames_iff_example : (match_frames first_clip later_clip (pos 8) (pos 3) (pos 1) ≡ true) ↔ (
    (w : AlignmentEvidence) × IsWindow first_clip later_clip (pos 8) 1 w
    × (run_length (pos 3) ≤ w.frames))
match_frames_iff_example = match_frames_iff first_clip later_clip (pos 8) (pos 1) (pos 3)

abbrev first_share : Share
first_share = record {
  id = "s_0123456789ab";
  asset_id = 1;
  event_id = 2;
  timestamp_verified = true;
  extracted_minute = some (pos 44);
  state = active;
  removed_reason = none;
  removed_at = none;
  rank = pos 1;
  created_at = 100;
}

overturned-Reach : Reach first_share (remove first_share var 200).0
overturned-Reach = next var 200 here

abbrev overturned_share : Share
overturned_share = record first_share {
  state = removed;
  removed_reason = some var;
  removed_at = some 200;
}

abbrev first_asset : Asset
first_asset = record {
  id = 1;
  event_id = 2;
  fixture_id = pos 7;
  s3_bucket = "clips";
  s3_key = "7/1.mp4";
  object_reclaimed_at = none;
  md5 = [];
  media_fingerprint = "";
  frame_hash_version = "dhash";
  frame_hashes = first_clip;
  width = pos 1280;
  height = pos 720;
  duration_ms = pos 4000;
  file_size_bytes = pos 900_000;
  bitrate = none;
  popularity = pos 2;
  superseded_by = none;
  first_seen_at = 90;
}

abbrev popular_asset : Asset
popular_asset = record first_asset { id = 3; popularity = pos 5 }

popular_first_run :
    compare_shares first_share (record first_share { id = "s_0" }) popular_asset first_asset
    ≡ Ordering.lt
unfolding compare_shares
popular_first_run = refl

abbrev same_keys : Share
same_keys = record first_share { rank = pos 2 }

match_frames_comm_example :
    match_frames first_clip later_clip (pos 8) (pos 3) (pos 1)
    ≡ match_frames later_clip first_clip (pos 8) (pos 3) (pos 1)
match_frames_comm_example = match_frames_comm first_clip later_clip (pos 8) (pos 3) (pos 1)

-- ===== src/Examples/WorkflowRuns.antt =====
-- One claim with two candidates (internal/workflow/event_pipeline_intake.go).
use found_footy.Common.{ℕ, String, Bool, true, none, some, [], ◌∷◌, ◌≡◌, refl, str_eq}
use found_footy.Workflow.{
  Clip, HashOutput, Pipeline, on_hash_done, resolve_claim, take_claim, reject_clips, follow_all,
}
use found_footy.Workflow.Ownership.{owned, on_hash_done-owned}

-- a downloaded candidate
abbrev download : String → Clip
download tweet_url = record {
  tweet_url = tweet_url;
  md5 = "abc";
  media_fingerprint = "";
  hash_version = "";
  frame_hashes = [];
  staging_key = tweet_url;
  popularity = 1;
  exact_followers = [];
}

-- A second candidate waits behind the claim of the first.
abbrev claiming : Pipeline
claiming = record {
  hashing = ("abc", record { primary = download "t/1"; waiting = download "t/2" ∷ [] }) ∷ [];
  pending = [];
  in_flight = 1;
  passed = 0;
  rejected_clips = 0;
  failed = 0;
  duplicates = 0;
  commands = [];
}

abbrev dense : HashOutput
dense = record {
  outcome = "passed";
  reject_reason = "";
  hash_version = "dhash-v2";
  frame_hashes = 1 ∷ 2 ∷ 3 ∷ [];
}

abbrev summary : Pipeline → ℕ × ℕ × ℕ
summary p = (p.in_flight, p.passed, p.rejected_clips)

on_hash_done_run :
    (summary (on_hash_done 3 true "abc" (some dense) claiming) ≡ (1, 1, 0))
    × (summary (on_hash_done 4 true "abc" (some dense) claiming) ≡ (0, 0, 2))
    × (summary (on_hash_done 3 true "abc" none claiming) ≡ (1, 0, 0))
unfolding on_hash_done resolve_claim take_claim reject_clips follow_all str_eq
on_hash_done_run = (refl, refl, refl)

abbrev is_second : String → Bool
is_second url = str_eq url "t/2"

on_hash_done-owned_example :
    owned is_second (on_hash_done 3 true "abc" (some dense) claiming) ≡ owned is_second claiming
unfolding str_eq
on_hash_done-owned_example =
    on_hash_done-owned is_second refl 3 true "abc" (some dense) claiming (refl, tt)

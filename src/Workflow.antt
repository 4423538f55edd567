-- ===== src/Workflow.antt =====
-- internal/workflow/event_pipeline.go and event_pipeline_intake.go: the claims on exact media.
pub mod Ownership
use found_footy.Common.{
  ℕ, suc, ◌+◌, ◌-◌, String, Bool, true, false, not, Option, none, some, List, [], ◌∷◌, ◌++◌, length,
  str_eq, ltb, ◌&&◌, if◌then◌else◌,
}
use found_footy.Event.Debounce.{CandidateOutcome, duplicate, rejected, failed}
use found_footy.Video.Selection.{normalize_frame_hash_version}

-- `clip`; the fields that no claim reads are left out
pub record Clip : Type 0 where
  pub tweet_url : String
  pub md5 : String
  pub media_fingerprint : String
  pub hash_version : String
  pub frame_hashes : List ℕ
  pub staging_key : String
  pub popularity : ℕ
  pub exact_followers : List String

-- `hashClaim`
pub record HashClaim : Type 0 where
  pub primary : Clip
  pub waiting : List Clip

-- `videoactivity.HashVideoOutput`
pub record HashOutput : Type 0 where
  pub outcome : String
  pub reject_reason : String
  pub hash_version : String
  pub frame_hashes : List ℕ

-- The activities that the workflow asks for: `recordOutcome`, `deleteStaging`, `HashVideo` and
-- `ValidateClip`.
pub data Command : Type 0 where
  record_outcome : (tweet_url : String) → CandidateOutcome → (reason : String) → Command
  delete_staging : (staging_key : String) → Command
  hash_video : (staging_key : String) → Command
  validate_clip : (staging_key : String) → Command

-- the state of `pipeline` that the claims change, with the commands so far, the last one first
pub record Pipeline : Type 0 where
  pub hashing : List (String × HashClaim)
  pub pending : List Clip
  pub in_flight : ℕ
  pub passed : ℕ
  pub rejected_clips : ℕ
  pub failed : ℕ
  pub duplicates : ℕ
  pub commands : List Command

-- `recordOutcome`, as the command: its first test; the candidate has evidence and is persisted
abbrev pub record_if : String → CandidateOutcome → (reason : String) → Pipeline → Pipeline
record_if tweet_url outcome reason p =
    if str_eq tweet_url ""
    then p
    else record p { commands = record_outcome tweet_url outcome reason ∷ p.commands }

-- `deleteStaging`
abbrev pub delete_if : String → Pipeline → Pipeline
delete_if key p =
    if str_eq key "" then p else record p { commands = delete_staging key ∷ p.commands }

-- `p.hashing[identity]` and the other claims; an identity has one claim
unfoldable pub take_claim :
    String → List (String × HashClaim) → Option (HashClaim × List (String × HashClaim))
take_claim identity [] = none
take_claim identity ((key, claim) ∷ claims) =
    let rest = take_claim identity claims in
    if str_eq key identity
    then some (claim, claims)
    else elim rest [ none ↦ none | some found ↦ some (found.0, (key, claim) ∷ found.1) ]

-- `fireHash` on a claim that is there
abbrev pub fire_hash : HashClaim → Pipeline → Pipeline
fire_hash claim p = record p {
  in_flight = suc p.in_flight;
  commands = hash_video claim.primary.staging_key ∷ p.commands;
}

-- `fireVision`
abbrev pub fire_vision : Clip → Pipeline → Pipeline
fire_vision c p = record p {
  in_flight = suc p.in_flight;
  commands = validate_clip c.staging_key ∷ p.commands;
}

abbrev pub clips_of : HashClaim → List Clip
clips_of claim = claim.primary ∷ claim.waiting

-- a round of `rejectHashClaim`, and one of `failHashClaim`
abbrev pub reject_clip : (reason : String) → Clip → Pipeline → Pipeline
reject_clip reason c p =
    delete_if c.staging_key
      (record_if c.tweet_url rejected reason (record p { rejected_clips = suc p.rejected_clips }))

abbrev pub fail_clip : (reason : String) → Clip → Pipeline → Pipeline
fail_clip reason c p =
    delete_if c.staging_key
      (record_if c.tweet_url CandidateOutcome.failed reason (record p { failed = suc p.failed }))

-- `rejectHashClaim`
unfoldable pub reject_clips : (reason : String) → List Clip → Pipeline → Pipeline
reject_clips reason [] p = p
reject_clips reason (c ∷ cs) p = reject_clips reason cs (reject_clip reason c p)

-- `failHashClaim`
unfoldable pub fail_clips : (reason : String) → List Clip → Pipeline → Pipeline
fail_clips reason [] p = p
fail_clips reason (c ∷ cs) p = fail_clips reason cs (fail_clip reason c p)

-- a waiting clip that the winner takes over
abbrev pub follow : (defer_outcomes : Bool) → Clip → Clip × Pipeline → Clip × Pipeline
follow true d (winner, p) = (
  record winner {
    popularity = winner.popularity + d.popularity;
    exact_followers = winner.exact_followers ++ d.tweet_url ∷ [];
  },
  delete_if d.staging_key p,
)
follow false d (winner, p) = (
  record winner { popularity = winner.popularity + d.popularity },
  delete_if d.staging_key
      (record_if d.tweet_url duplicate "" (record p { duplicates = suc p.duplicates })),
)

-- the loop over the waiting clips
unfoldable pub follow_all : (defer_outcomes : Bool) → List Clip → Clip × Pipeline → Clip × Pipeline
follow_all defer_outcomes [] s = s
follow_all defer_outcomes (d ∷ ds) s = follow_all defer_outcomes ds (follow defer_outcomes d s)

abbrev pub hashed : HashOutput → Clip → Clip
hashed out c = record c {
  hash_version = normalize_frame_hash_version out.hash_version;
  frame_hashes = out.frame_hashes;
}

-- the end of a claim whose hash passed
abbrev pub release : (defer_outcomes : Bool) → HashOutput → HashClaim → Pipeline → Pipeline
release defer_outcomes out claim p =
    let (winner, q) =
      follow_all defer_outcomes claim.waiting
        (hashed out claim.primary, record p { passed = suc p.passed }) in
    fire_vision winner (record q { pending = q.pending ++ winner ∷ [] })

-- the next clip takes over a claim whose hash failed
abbrev pub hand_over : (identity : String) → List Clip → Pipeline → Pipeline
hand_over identity [] p = p
hand_over identity (c ∷ cs) p =
    let claim : HashClaim = record { primary = c; waiting = cs } in
    fire_hash claim (record p { hashing = (identity, claim) ∷ p.hashing })

-- what the hash of a claim does to the pipeline without the claim; `none` is an activity error
unfoldable pub resolve_claim :
    (min_run : ℕ) (defer_outcomes : Bool) (identity : String)
    → Option HashOutput
    → HashClaim
    → Pipeline
    → Pipeline
resolve_claim min_run defer_outcomes identity none claim p =
    hand_over identity claim.waiting (fail_clip "hash_error" claim.primary p)
resolve_claim min_run defer_outcomes identity (some out) claim p =
    if str_eq out.outcome "rejected"
    then reject_clips out.reject_reason (clips_of claim) p
    else if not (str_eq out.outcome "") && not (str_eq out.outcome "passed")
    then fail_clips "video_workflow_invalid_outcome" (clips_of claim) p
    else if str_eq out.outcome "passed" && ltb (length out.frame_hashes) min_run
    then reject_clips "insufficient_hash_frames" (clips_of claim) p
    else release defer_outcomes out claim p

-- `onHashDone`, in a workflow that is not canceled
unfoldable pub on_hash_done :
    (min_run : ℕ) (defer_outcomes : Bool) (identity : String)
    → Option HashOutput
    → Pipeline
    → Pipeline
on_hash_done min_run defer_outcomes identity result p = elim (take_claim identity p.hashing) [
  | none ↦ record p { in_flight = p.in_flight - 1 }
  | some found ↦
      resolve_claim min_run defer_outcomes identity result found.0
        (record p { in_flight = p.in_flight - 1; hashing = found.1 })
]

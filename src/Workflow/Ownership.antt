-- ===== src/Workflow/Ownership.antt =====
-- Every candidate of a claim has one owner or an outcome (event_pipeline_intake.go, onHashDone).
use found_footy.Common.{
  ℕ, suc, ◌+◌, ◌-◌, String, Bool, true, false, not, Option, none, some, List, [], ◌∷◌, ◌++◌, ◌≡◌,
  refl, ap, ◌∙◌, inl, inr, count, count-append, All, OnSome, str_eq, str_eq_iff, ltb, length, ◌&&◌,
  if◌then◌else◌, both_branches, Bool-cases, arith,
}
use found_footy.Event.Debounce.{CandidateOutcome, duplicate, rejected}
use found_footy.Workflow.{
  Clip, HashClaim, HashOutput, Command, record_outcome, Pipeline, record_if, delete_if, take_claim,
  clips_of, reject_clip, fail_clip, reject_clips, fail_clips, follow, follow_all, hashed, release,
  hand_over, resolve_claim, on_hash_done,
}

-- How many candidates that pass a test are where.
module _ (q : String → Bool) where
  abbrev one_if : Bool → ℕ
  one_if b = if b then 1 else 0

  abbrev recorded_by : Command → ℕ
  recorded_by (record_outcome url outcome reason) = one_if (q url)
  recorded_by _ = 0

  -- with an outcome
  abbrev pub recorded : List Command → ℕ
  recorded [] = 0
  recorded (c ∷ cs) = recorded_by c + recorded cs

  -- in a claim
  abbrev pub waiting_in : List Clip → ℕ
  waiting_in [] = 0
  waiting_in (c ∷ cs) = one_if (q c.tweet_url) + waiting_in cs

  abbrev pub claimed : List (String × HashClaim) → ℕ
  claimed [] = 0
  claimed (c ∷ cs) = waiting_in (clips_of c.1) + claimed cs

  -- held by a clip on its way through vision, as itself or as a follower
  abbrev pub held_by : Clip → ℕ
  held_by c = one_if (q c.tweet_url) + count q c.exact_followers

  abbrev pub held : List Clip → ℕ
  held [] = 0
  held (c ∷ cs) = held_by c + held cs

  abbrev pub owned : Pipeline → ℕ
  owned p = claimed p.hashing + held p.pending + recorded p.commands

  tail_count : (url : String) → count q (url ∷ []) ≡ one_if (q url)
  tail_count url = ground arith

  held-append : (cs : List Clip) (c : Clip) → held (cs ++ c ∷ []) ≡ held cs + held_by c
  held-append [] c = omega arith
  held-append (d ∷ cs) c = omega (arith, held-append cs c)

  -- The first clip of the claim has no followers yet.
  abbrev pub IsFresh : String × HashClaim → Type 0
  IsFresh c = c.1.primary.exact_followers ≡ []

  -- A claim that is found is one of the claims, and the others are left.
  record IsTaken (cs : List (String × HashClaim)) (found : HashClaim × List (String × HashClaim))
      : Type 0 where
    split : claimed cs ≡ waiting_in (clips_of found.0) + claimed found.1
    fresh : All IsFresh cs → found.0.primary.exact_followers ≡ []

  behind :
      (key : String) (claim : HashClaim) (cs : List (String × HashClaim))
      (o : Option (HashClaim × List (String × HashClaim)))
      → OnSome (IsTaken cs) o
      → OnSome
          (IsTaken ((key, claim) ∷ cs))
          (elim o [ none ↦ none | some found ↦ some (found.0, (key, claim) ∷ found.1) ])
  behind key claim cs none h = tt
  behind key claim cs (some found) h = record {
    split = omega (arith, h.split);
    fresh = λ k. h.fresh k.1;
  }

  take_claim-IsTaken :
      (identity : String) (cs : List (String × HashClaim))
      → OnSome (IsTaken cs) (take_claim identity cs)
  unfolding take_claim
  take_claim-IsTaken identity [] = tt
  take_claim-IsTaken identity ((key, claim) ∷ cs) =
      both_branches (OnSome (IsTaken ((key, claim) ∷ cs))) (str_eq key identity)
        (record { split = refl; fresh = λ k. k.0 })
        (behind key claim cs (take_claim identity cs) (take_claim-IsTaken identity cs))

  -- What a step adds to the candidates that have an owner or an outcome.
  Adds : (Pipeline → Pipeline) → ℕ → Type 0
  Adds f n = (p : Pipeline) → owned (f p) ≡ n + owned p

  -- No candidate has the empty address.
  module _ (named : q "" ≡ false) where
    record_if-owned :
        (url : String) (o : CandidateOutcome) (reason : String) (p : Pipeline)
        → owned (record_if url o reason p) ≡ one_if (q url) + owned p
    record_if-owned url o reason p = elim (Bool-cases (str_eq url "")) [
      | inl t ↦ rw (t, ap q ((str_eq_iff url "").0 t), named) (omega arith)
      | inr t ↦ rw t (omega arith)
    ]

    delete_if-owned : (key : String) (p : Pipeline) → owned (delete_if key p) ≡ owned p
    delete_if-owned key p = ground arith

    reject_clip-owned :
        (reason : String) (c : Clip) (p : Pipeline)
        → owned (reject_clip reason c p) ≡ one_if (q c.tweet_url) + owned p
    reject_clip-owned reason c p =
        delete_if-owned c.staging_key _ ∙ record_if-owned c.tweet_url rejected reason _

    fail_clip-owned :
        (reason : String) (c : Clip) (p : Pipeline)
        → owned (fail_clip reason c p) ≡ one_if (q c.tweet_url) + owned p
    fail_clip-owned reason c p =
        delete_if-owned c.staging_key _
        ∙ record_if-owned c.tweet_url CandidateOutcome.failed reason _

    reject_clips-owned :
        (reason : String) (cs : List Clip) (p : Pipeline)
        → owned (reject_clips reason cs p) ≡ waiting_in cs + owned p
    unfolding reject_clips
    reject_clips-owned reason [] p = omega arith
    reject_clips-owned reason (c ∷ cs) p =
        omega (
          arith,
          reject_clips-owned reason cs (reject_clip reason c p),
          reject_clip-owned reason c p,
        )

    fail_clips-owned :
        (reason : String) (cs : List Clip) (p : Pipeline)
        → owned (fail_clips reason cs p) ≡ waiting_in cs + owned p
    unfolding fail_clips
    fail_clips-owned reason [] p = omega arith
    fail_clips-owned reason (c ∷ cs) p =
        omega (arith, fail_clips-owned reason cs (fail_clip reason c p), fail_clip-owned reason c p)

    -- the winner and the pipeline together
    abbrev both_own : Clip × Pipeline → ℕ
    both_own s = held_by s.0 + owned s.1

    follow-owned :
        (defer_outcomes : Bool) (d : Clip) (s : Clip × Pipeline)
        → both_own (follow defer_outcomes d s) ≡ one_if (q d.tweet_url) + both_own s
    follow-owned true d (winner, p) = omega (
      arith,
      delete_if-owned d.staging_key p,
      count-append q winner.exact_followers (d.tweet_url ∷ []),
      tail_count d.tweet_url,
    )
    follow-owned false d (winner, p) = omega (
      arith,
      delete_if-owned d.staging_key
          (record_if d.tweet_url duplicate "" (record p { duplicates = suc p.duplicates })),
      record_if-owned d.tweet_url duplicate "" (record p { duplicates = suc p.duplicates }),
    )

    follow_all-owned :
        (defer_outcomes : Bool) (ds : List Clip) (s : Clip × Pipeline)
        → both_own (follow_all defer_outcomes ds s) ≡ waiting_in ds + both_own s
    unfolding follow_all
    follow_all-owned defer_outcomes [] s = omega arith
    follow_all-owned defer_outcomes (d ∷ ds) s = omega (
      arith,
      follow_all-owned defer_outcomes ds (follow defer_outcomes d s),
      follow-owned defer_outcomes d s,
    )

    release-owned :
        (defer_outcomes : Bool) (out : HashOutput) (claim : HashClaim) (p : Pipeline)
        → claim.primary.exact_followers ≡ []
        → owned (release defer_outcomes out claim p) ≡ waiting_in (clips_of claim) + owned p
    release-owned defer_outcomes out claim p h =
        let s =
          follow_all defer_outcomes claim.waiting
            (hashed out claim.primary, record p { passed = suc p.passed }) in
        omega (
          arith,
          held-append s.1.pending s.0,
          follow_all-owned defer_outcomes claim.waiting
              (hashed out claim.primary, record p { passed = suc p.passed }),
          ap (count q) h,
        )

    hand_over-owned :
        (identity : String) (cs : List Clip) (p : Pipeline)
        → owned (hand_over identity cs p) ≡ waiting_in cs + owned p
    hand_over-owned identity [] p = omega arith
    hand_over-owned identity (c ∷ cs) p = omega arith

    resolve_claim-owned :
        (min_run : ℕ) (defer_outcomes : Bool) (identity : String) (result : Option HashOutput)
        (claim : HashClaim) (p : Pipeline)
        → claim.primary.exact_followers ≡ []
        → owned (resolve_claim min_run defer_outcomes identity result claim p)
          ≡ waiting_in (clips_of claim) + owned p
    unfolding resolve_claim
    resolve_claim-owned min_run defer_outcomes identity none claim p h = omega (
      arith,
      hand_over-owned identity claim.waiting (fail_clip "hash_error" claim.primary p),
      fail_clip-owned "hash_error" claim.primary p,
    )
    resolve_claim-owned min_run defer_outcomes identity (some out) claim p h =
        let P = λ (r : Pipeline). owned r ≡ waiting_in (clips_of claim) + owned p in
        both_branches P (str_eq out.outcome "rejected")
          (reject_clips-owned out.reject_reason (clips_of claim) p)
          (both_branches P (not (str_eq out.outcome "") && not (str_eq out.outcome "passed"))
            (fail_clips-owned "video_workflow_invalid_outcome" (clips_of claim) p)
            (both_branches P (str_eq out.outcome "passed" && ltb (length out.frame_hashes) min_run)
              (reject_clips-owned "insufficient_hash_frames" (clips_of claim) p)
              (release-owned defer_outcomes out claim p h)))

    settled-owned :
        (min_run : ℕ) (defer_outcomes : Bool) (identity : String) (result : Option HashOutput)
        (p : Pipeline) (found : Option (HashClaim × List (String × HashClaim)))
        → All IsFresh p.hashing
        → OnSome (IsTaken p.hashing) found
        → owned (elim found [
          | none ↦ record p { in_flight = p.in_flight - 1 }
          | some f ↦
              resolve_claim min_run defer_outcomes identity result f.0
                (record p { in_flight = p.in_flight - 1; hashing = f.1 })
        ])
          ≡ owned p
    settled-owned min_run defer_outcomes identity result p none fresh h = refl
    settled-owned min_run defer_outcomes identity result p (some f) fresh h = omega (
      arith,
      h.split,
      resolve_claim-owned min_run defer_outcomes identity result f.0
          (record p { in_flight = p.in_flight - 1; hashing = f.1 }) (h.fresh fresh),
    )

    -- Whatever a hash activity answers, its callback loses no candidate and counts none twice: of every
    -- set of addresses without the empty one, as many candidates are claimed, on their way through
    -- vision as clips or followers, or recorded with an outcome after it as before, where no first
    -- clip of a claim has followers.
    pub on_hash_done-owned :
        (min_run : ℕ) (defer_outcomes : Bool) (identity : String) (result : Option HashOutput)
        (p : Pipeline)
        → All IsFresh p.hashing
        → owned (on_hash_done min_run defer_outcomes identity result p) ≡ owned p
    unfolding on_hash_done
    on_hash_done-owned min_run defer_outcomes identity result p fresh =
        settled-owned min_run defer_outcomes identity result p (take_claim identity p.hashing) fresh
          (take_claim-IsTaken identity p.hashing)

-- ===== src/Video/Match/Diagonal/Scan.antt =====
-- One offset of internal/domain/video/match.go: the best window that the scan has seen.
use found_footy.Common.{
  ℕ, zero, suc, ◌+◌, ◌-◌, ◌≤◌, ◌<◌, ◌≡◌, ap, subst, Bool, true, false, arith, ltb, leb, leb→le,
  ◌==◌, Bool-cases, inl, inr,
}
use found_footy.Video.Match.{
  AlignmentEvidence, bit, shrink, scan, stronger_alignment, keep_stronger,
}
use found_footy.Video.Match.Diagonal.{Shrunk, shrink-Shrunk, prefix, prefix-suc, prefix_eq}

stronger_trans :
    (x y z : AlignmentEvidence)
    → stronger_alignment x y ≡ true
    → stronger_alignment y z ≡ true
    → stronger_alignment x z ≡ true
unfolding stronger_alignment
stronger_trans x y z h k = ground arith

stronger_neg_trans :
    (x y z : AlignmentEvidence)
    → stronger_alignment x y ≡ false
    → stronger_alignment y z ≡ false
    → stronger_alignment x z ≡ false
unfolding stronger_alignment
stronger_neg_trans x y z h k = ground arith

keep_stronger-beats :
    (w c best : AlignmentEvidence)
    → stronger_alignment w c ≡ false
    → stronger_alignment w (keep_stronger c best) ≡ false
keep_stronger-beats w c best h = elim (Bool-cases (stronger_alignment c best)) [
  | inl take ↦ rw take h
  | inr keep ↦ rw keep (stronger_neg_trans w c best h keep)
]

keep_stronger-keeps :
    (w c best : AlignmentEvidence)
    → stronger_alignment w best ≡ false
    → stronger_alignment w (keep_stronger c best) ≡ false
keep_stronger-keeps w c best h = elim (Bool-cases (stronger_alignment c best)) [
  | inl take ↦ rw take (ground (arith, stronger_trans w c best))
  | inr keep ↦ rw keep h
]

keep_stronger-sound {ℓ} :
    (P : AlignmentEvidence → Type ℓ) (c best : AlignmentEvidence)
    → P c
    → P best
    → P (keep_stronger c best)
keep_stronger-sound P c best h k = elim (Bool-cases (stronger_alignment c best)) [
  | inl take ↦ rw take h
  | inr keep ↦ rw keep k
]

module _ (miss : ℕ → Bool) (max_gaps left right : ℕ) where
  -- The frames from `lo` up to `end` of the overlap.
  abbrev pub window : (lo end : ℕ) → AlignmentEvidence
  window lo end = record {
    left_start = left + lo;
    right_start = right + lo;
    frames = end - lo;
    gaps = prefix miss end - prefix miss lo;
  }

  -- The loop variables when `hi` frames are done.
  pub record Scanning (hi lo misses : ℕ) : Type 0 where
    inside : lo ≤ hi
    counted : misses + prefix miss lo ≡ prefix miss hi
    skipped : (l : ℕ) → l < lo → prefix miss l + max_gaps < prefix miss hi

  shrink_next :
      (hi lo misses : ℕ)
      → Scanning hi lo misses
      → Shrunk miss max_gaps lo (suc hi) (shrink miss max_gaps (suc hi) lo (misses + bit (miss hi)))
  shrink_next hi lo misses s =
      shrink-Shrunk miss max_gaps (suc hi) lo (misses + bit (miss hi)) (suc hi)
        (omega (arith, s.inside)) (omega arith) (omega (arith, s.counted, prefix-suc miss hi))

  Shrunk-Scanning :
      (hi lo misses : ℕ) (r : ℕ × ℕ)
      → Scanning hi lo misses
      → Shrunk miss max_gaps lo (suc hi) r
      → Scanning (suc hi) r.0 r.1
  Shrunk-Scanning hi lo misses r s t = record {
    inside = t.inside;
    counted = t.counted;
    skipped = λ l h. elim (Bool-cases (ltb l lo)) [
      | inl before ↦ omega (arith, s.skipped l (ground arith), prefix-suc miss hi)
      | inr after ↦ t.skipped l (ground arith) h
    ];
  }

  abbrev candidate : ℕ → ℕ × ℕ → AlignmentEvidence
  candidate end r = record {
    left_start = left + r.0;
    right_start = right + r.0;
    frames = end - r.0;
    gaps = r.1;
  }

  candidate-window :
      (lo end : ℕ) (r : ℕ × ℕ) → Shrunk miss max_gaps lo end r → window r.0 end ≡ candidate end r
  candidate-window lo end r t =
      ap
        (λ g. record {
          left_start = left + r.0;
          right_start = right + r.0;
          frames = end - r.0;
          gaps = g;
        })
        (omega (arith, t.counted))

  pub scan-keeps :
      (rounds hi lo misses : ℕ) (w best : AlignmentEvidence)
      → stronger_alignment w best ≡ false
      → stronger_alignment w (scan miss max_gaps left right rounds hi lo misses best) ≡ false
  unfolding scan
  scan-keeps zero hi lo misses w best h = h
  scan-keeps (suc rounds) hi lo misses w best h =
      let r = shrink miss max_gaps (suc hi) lo (misses + bit (miss hi)) in
      scan-keeps rounds (suc hi) r.0 r.1 w _ (keep_stronger-keeps w (candidate (suc hi) r) best h)

  -- A window with at most as many misses as allowed is not stronger than the candidate of its end.
  window-candidate :
      (lo end l : ℕ) (r : ℕ × ℕ)
      → Shrunk miss max_gaps lo end r
      → r.0 ≤ l
      → l ≤ end
      → stronger_alignment (window l end) (candidate end r) ≡ false
  unfolding stronger_alignment
  window-candidate lo end l r t low high = elim (Bool-cases (r.0 == l)) [
    | inl same ↦ ground (arith, t.counted, prefix_eq miss r.0 l (ground arith))
    | inr no_match ↦ ground arith
  ]

  starts_no_later :
      (hi lo misses l : ℕ) (r : ℕ × ℕ)
      → Scanning (suc hi) r.0 r.1
      → prefix miss (suc hi) ≤ prefix miss l + max_gaps
      → r.0 ≤ l
  starts_no_later hi lo misses l r s few = elim (Bool-cases (leb r.0 l)) [
    | inl le ↦ leb→le r.0 l le
    | inr gt ↦ omega (arith, s.skipped l (ground arith))
  ]

  ends_now :
      (hi lo misses l end : ℕ) (r : ℕ × ℕ)
      → suc hi ≡ end
      → Shrunk miss max_gaps lo (suc hi) r
      → Scanning (suc hi) r.0 r.1
      → l ≤ end
      → prefix miss end ≤ prefix miss l + max_gaps
      → stronger_alignment (window l end) (candidate (suc hi) r) ≡ false
  ends_now hi lo misses l end r now t s low few =
      subst (λ e. stronger_alignment (window l e) (candidate (suc hi) r) ≡ false) now
        (window-candidate lo (suc hi) l r t
          (starts_no_later hi lo misses l r s (omega (arith, few, prefix_eq miss (suc hi) end now)))
          (omega arith))

  -- No allowed window that ends in the rounds to come is stronger than the result.
  pub scan-beats :
      (rounds hi lo misses : ℕ) (best : AlignmentEvidence) (l end : ℕ)
      → Scanning hi lo misses
      → hi < end
      → end ≤ hi + rounds
      → l ≤ end
      → prefix miss end ≤ prefix miss l + max_gaps
      → stronger_alignment (window l end) (scan miss max_gaps left right rounds hi lo misses best)
        ≡ false
  unfolding scan
  scan-beats zero hi lo misses best l end s from to low few = absurd (omega arith)
  scan-beats (suc rounds) hi lo misses best l end s from to low few =
      let r = shrink miss max_gaps (suc hi) lo (misses + bit (miss hi)) in
      let t = shrink_next hi lo misses s in
      let s' = Shrunk-Scanning hi lo misses r s t in
      elim (Bool-cases (end == suc hi)) [
        | inl now ↦ scan-keeps rounds (suc hi) r.0 r.1 (window l end) _ (
            keep_stronger-beats (window l end) (candidate (suc hi) r) best
              (ends_now hi lo misses l end r (ground arith) t s' low few))
        | inr later ↦
            scan-beats rounds (suc hi) r.0 r.1 _ l end s' (ground arith) (omega arith) low few
      ]

  -- What holds of the first best and of every allowed window of the overlap holds of the result.
  pub scan-sound {ℓ} :
      (P : AlignmentEvidence → Type ℓ) (rounds hi lo misses : ℕ) (best : AlignmentEvidence)
      → ((l end : ℕ)
          → l ≤ end
          → end ≤ hi + rounds
          → prefix miss end ≤ prefix miss l + max_gaps
          → P (window l end))
      → Scanning hi lo misses
      → P best
      → P (scan miss max_gaps left right rounds hi lo misses best)
  unfolding scan
  scan-sound P zero hi lo misses best windows s h = h
  scan-sound P (suc rounds) hi lo misses best windows s h =
      let r = shrink miss max_gaps (suc hi) lo (misses + bit (miss hi)) in
      let t = shrink_next hi lo misses s in
      let c =
        subst P (candidate-window lo (suc hi) r t)
          (windows r.0 (suc hi) t.inside (omega arith) (omega (arith, t.counted, t.allowed))) in
      scan-sound P rounds (suc hi) r.0 r.1 _
        (λ l end low to few. windows l end low (omega arith) few)
        (Shrunk-Scanning hi lo misses r s t) (keep_stronger-sound P _ best c h)

  pub first_scan : Scanning 0 0 0
  first_scan = record {
    inside = omega arith;
    counted = omega arith;
    skipped = λ l h. absurd (omega arith);
  }

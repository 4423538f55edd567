-- ===== src/Video/Match/Diagonal.antt =====
-- One offset of internal/domain/video/match.go: the window after its start has moved.
pub mod Scan
use found_footy.Common.{
  ℕ, zero, suc, ◌+◌, ◌-◌, ◌≤◌, ◌<◌, ◌≡◌, refl, ap, Bool, arith, ltb, leb, ltb→lt, ◌==◌, Bool-cases,
  inl, inr,
}
use found_footy.Video.Match.{bit, shrink}

module _ (miss : ℕ → Bool) where
  -- The misses among the first `n` frames of the overlap.
  unfoldable pub prefix : ℕ → ℕ
  prefix zero = 0
  prefix (suc n) = prefix n + bit (miss n)

  pub prefix-suc : (n : ℕ) → prefix (suc n) ≡ prefix n + bit (miss n)
  unfolding prefix
  prefix-suc n = refl

  pub prefix_eq : (m n : ℕ) → m ≡ n → prefix m ≡ prefix n
  prefix_eq m n h = ap prefix h

  pub prefix_mono : (m n : ℕ) → m ≤ n → prefix m ≤ prefix n
  prefix_mono m zero h = omega (arith, prefix_eq m 0 (omega arith))
  prefix_mono m (suc n) h = elim (Bool-cases (leb m n)) [
    | inl le ↦ omega (arith, prefix_mono m n (ground arith), prefix-suc n)
    | inr gt ↦ omega (arith, prefix_eq m (suc n) (ground arith))
  ]

  prefix_lt : (m n : ℕ) → m ≤ n → prefix m < prefix n → m < n
  prefix_lt m n h k = elim (Bool-cases (m == n)) [
    | inl same ↦ omega (arith, prefix_eq m n (ground arith))
    | inr no_match ↦ ground arith
  ]

module _ (miss : ℕ → Bool) (max_gaps : ℕ) where
  -- The window's new start and misses: no more than the limit, and every start that was given up
  -- has more.
  pub record Shrunk (lo end : ℕ) (r : ℕ × ℕ) : Type 0 where
    pub forward : lo ≤ r.0
    pub inside : r.0 ≤ end
    pub counted : r.1 + prefix miss r.0 ≡ prefix miss end
    pub allowed : r.1 ≤ max_gaps
    pub skipped : (l : ℕ) → lo ≤ l → l < r.0 → prefix miss l + max_gaps < prefix miss end

  shrink_stop :
      (lo misses end : ℕ)
      → lo ≤ end
      → misses + prefix miss lo ≡ prefix miss end
      → misses ≤ max_gaps
      → Shrunk lo end (lo, misses)
  shrink_stop lo misses end low counted allowed = record {
    forward = omega arith;
    inside = low;
    counted = counted;
    allowed = allowed;
    skipped = λ l h k. absurd (omega arith);
  }

  shrink_step :
      (lo misses end : ℕ) (r : ℕ × ℕ)
      → max_gaps < misses
      → misses + prefix miss lo ≡ prefix miss end
      → Shrunk (suc lo) end r
      → Shrunk lo end r
  shrink_step lo misses end r over counted s = record {
    forward = omega (arith, s.forward);
    inside = s.inside;
    counted = s.counted;
    allowed = s.allowed;
    skipped = λ l h k. elim (Bool-cases (l == lo)) [
      | inl same ↦ omega (arith, prefix_eq miss l lo (ground arith))
      | inr no_match ↦ s.skipped l (ground arith) k
    ];
  }

  pub shrink-Shrunk :
      (fuel lo misses end : ℕ)
      → lo ≤ end
      → end ≤ lo + fuel
      → misses + prefix miss lo ≡ prefix miss end
      → Shrunk lo end (shrink miss max_gaps fuel lo misses)
  unfolding shrink
  shrink-Shrunk zero lo misses end low enough counted =
      shrink_stop lo misses end low counted (omega (arith, prefix_eq miss lo end (omega arith)))
  shrink-Shrunk (suc fuel) lo misses end low enough counted =
      elim (Bool-cases (ltb max_gaps misses)) [
        | inl over ↦ rw over (
            shrink_step lo misses end _ (ltb→lt max_gaps misses over) counted (
              shrink-Shrunk fuel (suc lo) (misses - bit (miss lo)) end
                (prefix_lt miss lo end low (ground arith)) (omega arith)
                (ground (arith, prefix-suc miss lo))))
        | inr fine ↦ rw fine (shrink_stop lo misses end low counted (ground arith))
      ]

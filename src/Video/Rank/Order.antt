-- ===== src/Video/Rank/Order.antt =====
-- The ranking of shares is a total order (internal/domain/video/rank.go).
use found_footy.Common.Orders.{
  flip, Fits, IsComparison, settle-flip, settle-Fits, settle_eq, compare_text-flip,
  compare_text-Fits,
}
use Prim.Native.String.{then as settle, compare as compare_text}
use text.Mathlib.TextEquality
use found_footy.Common.{
  arith, ◌≡◌, sym, ap, ◌∙◌, Bool, Ordering, String, not, if◌then◌else◌, ◌&&◌, bool_eq, before,
  after, Time,
}
use found_footy.Common.Int.{ℤ, eqb_ℤ, ltb_ℤ}
use found_footy.Video.{Share, Asset}
use found_footy.Video.Rank.{compare_shares, text_before}

-- the order of numbers, as `if a < b { -1 } else if a > b { +1 }`
abbrev by_less : (less more : Bool) → Ordering
by_less less more = if less then Ordering.lt else if more then Ordering.gt else Ordering.eq

by_verified : Bool → Bool → Ordering
by_verified a b = by_less (a && not b) (b && not a)

by_larger : ℤ → ℤ → Ordering
by_larger a b = by_less (ltb_ℤ b a) (ltb_ℤ a b)

by_older : Time → Time → Ordering
by_older a b = by_less (before a b) (after a b)

by_verified-IsComparison : IsComparison by_verified
unfolding by_verified
by_verified-IsComparison = record {
  flips = λ a b. ground arith;
  fits = λ a b c. record {
    chained = ground arith;
    same_left = ground arith;
    same_right = ground arith;
  };
}

by_larger-IsComparison : IsComparison by_larger
unfolding by_larger
by_larger-IsComparison = record {
  flips = λ a b. ground arith;
  fits = λ a b c. record {
    chained = ground arith;
    same_left = ground arith;
    same_right = ground arith;
  };
}

by_older-IsComparison : IsComparison by_older
unfolding by_older
by_older-IsComparison = record {
  flips = λ a b. ground arith;
  fits = λ a b c. record {
    chained = ground arith;
    same_left = ground arith;
    same_right = ground arith;
  };
}

-- What decides the order of two shares: the verified one, the more popular one, the larger one, the
-- older one, and then the one with the lesser id.
abbrev pub Entry : Type 0
Entry = Share × Asset

abbrev pub compare_entries : Entry → Entry → Ordering
compare_entries a b = compare_shares a.0 b.0 a.1 b.1

by_keys : Entry → Entry → Ordering
by_keys a b = settle (by_verified a.0.timestamp_verified b.0.timestamp_verified) (
    settle (by_larger a.1.popularity b.1.popularity) (
      settle (by_larger a.1.file_size_bytes b.1.file_size_bytes)
        (settle (by_older a.0.created_at b.0.created_at) (compare_text a.0.id b.0.id))))

verified_step :
    (x y : Bool) (rest : Ordering)
    → (if not (bool_eq x y) then (if x then Ordering.lt else Ordering.gt) else rest)
      ≡ settle (by_verified x y) rest
unfolding by_verified
verified_step x y rest = ground arith

larger_step :
    (x y : ℤ) (rest : Ordering)
    → (if not (eqb_ℤ x y) then (if ltb_ℤ y x then Ordering.lt else Ordering.gt) else rest)
      ≡ settle (by_larger x y) rest
unfolding by_larger
larger_step x y rest = ground arith

older_step :
    (x y : Time) (rest : Ordering)
    → (if before x y then Ordering.lt else if after x y then Ordering.gt else rest)
      ≡ settle (by_older x y) rest
unfolding by_older
older_step x y rest = ground arith

text_step :
    (s t : String)
    → (if text_before s t
        then Ordering.lt
        else if text_before t s
        then Ordering.gt
        else Ordering.eq)
      ≡ compare_text s t
text_step s t = ground (arith, compare_text-flip s t)

compare_entries-by_keys : (a b : Entry) → compare_entries a b ≡ by_keys a b
unfolding compare_shares by_keys
compare_entries-by_keys a b =
    let last = text_step a.0.id b.0.id in
    let older = older_step a.0.created_at b.0.created_at _ ∙ ap (settle _) last in
    let larger = larger_step a.1.file_size_bytes b.1.file_size_bytes _ ∙ ap (settle _) older in
    verified_step a.0.timestamp_verified b.0.timestamp_verified _
    ∙ ap (settle _) (larger_step a.1.popularity b.1.popularity _ ∙ ap (settle _) larger)

by_keys-flip : (a b : Entry) → by_keys b a ≡ flip (by_keys a b)
unfolding by_keys
by_keys-flip a b =
    rw
      (
        by_verified-IsComparison.flips a.0.timestamp_verified b.0.timestamp_verified,
        by_larger-IsComparison.flips a.1.popularity b.1.popularity,
        by_larger-IsComparison.flips a.1.file_size_bytes b.1.file_size_bytes,
        by_older-IsComparison.flips a.0.created_at b.0.created_at,
        compare_text-flip a.0.id b.0.id,
      )
      (simp settle-flip)

by_keys-Fits : (a b c : Entry) → Fits (by_keys a b) (by_keys b c) (by_keys a c)
unfolding by_keys
by_keys-Fits a b c = settle-Fits (by_verified-IsComparison.fits _ _ _) (
    settle-Fits (by_larger-IsComparison.fits _ _ _) (
      settle-Fits (by_larger-IsComparison.fits _ _ _)
        (settle-Fits (by_older-IsComparison.fits _ _ _) (compare_text-Fits _ _ _))))

-- Ranking is a comparison: swapping two entries swaps the answer, and better than better is better,
-- where an entry may be replaced by one it ties with.
pub compare_shares-IsComparison : IsComparison compare_entries
compare_shares-IsComparison = record {
  flips = λ a b. rw (compare_entries-by_keys b a, compare_entries-by_keys a b) (by_keys-flip a b);
  fits = λ a b c.
      rw (compare_entries-by_keys a b, compare_entries-by_keys b c, compare_entries-by_keys a c)
        (by_keys-Fits a b c);
}

by_verified_eq : (x y : Bool) → by_verified x y ≡ Ordering.eq → x ≡ y
unfolding by_verified
by_verified_eq x y h = ground arith

by_larger_eq : (x y : ℤ) → by_larger x y ≡ Ordering.eq → x ≡ y
unfolding by_larger
by_larger_eq x y h = ground arith

by_older_eq : (x y : Time) → by_older x y ≡ Ordering.eq → x ≡ y
unfolding by_older
by_older_eq x y h = ground arith

-- Two shares with their assets tie only where they agree on the check, the popularity, the file
-- size, the creation time and the id.
compare_shares_tie :
    (a b : Entry)
    → compare_entries a b ≡ Ordering.eq
    → (a.0.timestamp_verified ≡ b.0.timestamp_verified)
      × (a.1.popularity ≡ b.1.popularity)
      × (a.1.file_size_bytes ≡ b.1.file_size_bytes)
      × (a.0.created_at ≡ b.0.created_at)
      × (a.0.id ≡ b.0.id)
unfolding by_keys
compare_shares_tie a b h =
    let (v, r) = settle_eq (sym (compare_entries-by_keys a b) ∙ h) in
    let (p, r1) = settle_eq r in
    let (s, r2) = settle_eq r1 in
    let (t, i) = settle_eq r2 in
    (
      by_verified_eq _ _ v,
      by_larger_eq _ _ p,
      by_larger_eq _ _ s,
      by_older_eq _ _ t,
      TextEquality.path_by_compare a.0.id b.0.id i,
    )

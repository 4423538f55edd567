-- ===== src/Common/Orders.antt =====
-- Comparisons with three answers: when they order a type, their lexicographic combination, and the
-- orders of numbers and of texts.
use Prim.Native.Char.{code}
use Prim.Native.Nat.{Ordering, compare as compare_ℕ}
use Prim.Native.String.{String, [] as empty, ◌∷◌ as ◌∷ₛ◌, then as settle, compare as compare_text}
use Prim.Native.String.compare as compare_text
use mathlib.Core.Path.{◌≡◌, refl}
use native.Mathlib.Omega.{arith}

abbrev pub flip : Ordering → Ordering
flip Ordering.lt = Ordering.gt
flip Ordering.eq = Ordering.eq
flip Ordering.gt = Ordering.lt

-- How three answers f a b, f b c and f a c of an order fit together.
pub record Fits (ab bc ac : Ordering) : Type 0 where
  pub chained : ab ≡ Ordering.lt → bc ≡ Ordering.lt → ac ≡ Ordering.lt
  pub same_left : ab ≡ Ordering.eq → ac ≡ bc
  pub same_right : bc ≡ Ordering.eq → ac ≡ ab

-- A comparison whose answers are those of a total preorder.
pub record IsComparison {ℓ} {A : Type ℓ} (f : A → A → Ordering) : Type ℓ where
  pub flips : (a b : A) → f b a ≡ flip (f a b)
  pub fits : (a b c : A) → Fits (f a b) (f b c) (f a c)

pub settle-flip : (x u : Ordering) → settle (flip x) (flip u) ≡ flip (settle x u)
settle-flip x u = ground arith

pub settle-Fits :
    {x y z u v w : Ordering} → Fits x y z → Fits u v w → Fits (settle x u) (settle y v) (settle z w)
settle-Fits {x} {y} {z} {u} {v} {w} p q = record {
  chained = λ h k. ground (arith, p.chained, p.same_left, p.same_right, q.chained);
  same_left = λ h. ground (arith, p.same_left, q.same_left);
  same_right = λ h. ground (arith, p.same_right, q.same_right);
}

pub compare_ℕ-IsComparison : IsComparison compare_ℕ
compare_ℕ-IsComparison = record {
  flips = λ a b. ground arith;
  fits = λ a b c. record {
    chained = ground arith;
    same_left = ground arith;
    same_right = ground arith;
  };
}

pub compare_text-flip : (s t : String) → compare_text t s ≡ flip (compare_text s t)
compare_text-flip empty empty = rw compare_text.nil-nil refl
compare_text-flip empty (d ∷ₛ t) = rw (compare_text.nil-cons d t, compare_text.cons-nil d t) refl
compare_text-flip (c ∷ₛ s) empty = rw (compare_text.nil-cons c s, compare_text.cons-nil c s) refl
compare_text-flip (c ∷ₛ s) (d ∷ₛ t) =
    rw
      (
        compare_text.cons-cons c d s t,
        compare_text.cons-cons d c t s,
        compare_ℕ-IsComparison.flips (code c) (code d),
        compare_text-flip s t,
      )
      (settle-flip (compare_ℕ (code c) (code d)) (compare_text s t))

pub Fits-same_left : (x : Ordering) → Fits Ordering.eq x x
Fits-same_left x = record {
  chained = λ h k. ground arith;
  same_left = λ h. ground arith;
  same_right = λ h. ground arith;
}

pub Fits-same_right : (x : Ordering) → Fits x Ordering.eq x
Fits-same_right x = record {
  chained = λ h k. ground arith;
  same_left = λ h. ground arith;
  same_right = λ h. ground arith;
}

pub Fits-least : (x : Ordering) → Fits Ordering.lt x Ordering.lt
Fits-least x = record {
  chained = λ h k. ground arith;
  same_left = λ h. ground arith;
  same_right = λ h. ground arith;
}

pub Fits-between : (x : Ordering) → Fits Ordering.gt Ordering.lt x
Fits-between x = record {
  chained = λ h k. ground arith;
  same_left = λ h. ground arith;
  same_right = λ h. ground arith;
}

pub Fits-greatest : (x : Ordering) → Fits x Ordering.gt Ordering.gt
Fits-greatest x = record {
  chained = λ h k. ground arith;
  same_left = λ h. ground arith;
  same_right = λ h. ground arith;
}

pub Fits-round : Fits Ordering.lt Ordering.gt Ordering.eq
Fits-round = record {
  chained = λ h k. ground arith;
  same_left = λ h. ground arith;
  same_right = λ h. ground arith;
}

pub compare_text-Fits :
    (s t u : String) → Fits (compare_text s t) (compare_text t u) (compare_text s u)
compare_text-Fits empty empty u = rw compare_text.nil-nil (Fits-same_left (compare_text empty u))
compare_text-Fits empty (d ∷ₛ t) empty =
    rw (compare_text.nil-cons d t, compare_text.cons-nil d t, compare_text.nil-nil) Fits-round
compare_text-Fits empty (d ∷ₛ t) (e ∷ₛ u) =
    rw (compare_text.nil-cons d t, compare_text.nil-cons e u)
      (Fits-least (compare_text (d ∷ₛ t) (e ∷ₛ u)))
compare_text-Fits (c ∷ₛ s) empty empty =
    rw compare_text.nil-nil (Fits-same_right (compare_text (c ∷ₛ s) empty))
compare_text-Fits (c ∷ₛ s) empty (e ∷ₛ u) =
    rw (compare_text.cons-nil c s, compare_text.nil-cons e u)
      (Fits-between (compare_text (c ∷ₛ s) (e ∷ₛ u)))
compare_text-Fits (c ∷ₛ s) (d ∷ₛ t) empty =
    rw (compare_text.cons-nil d t, compare_text.cons-nil c s)
      (Fits-greatest (compare_text (c ∷ₛ s) (d ∷ₛ t)))
compare_text-Fits (c ∷ₛ s) (d ∷ₛ t) (e ∷ₛ u) =
    rw
      (
        compare_text.cons-cons c d s t,
        compare_text.cons-cons d e t u,
        compare_text.cons-cons c e s u,
      )
      (settle-Fits (compare_ℕ-IsComparison.fits (code c) (code d) (code e))
        (compare_text-Fits s t u))

pub settle_eq : {x u : Ordering} → settle x u ≡ Ordering.eq → (x ≡ Ordering.eq) × (u ≡ Ordering.eq)
settle_eq {x} {u} h = ground arith

-- ===== src/Common/Text.antt =====
-- Texts: equality, and the `switch` over a list of text constants.
use Prim.Native.Char.{code}
use Prim.Native.Nat.{ℕ, ◌+◌}
use Prim.Native.String.{String}
use mathlib.Core.Path.{◌≡◌, sym, subst}
use mathlib.Core.Logic.{◌↔◌, ◌≢◌, inl, inr}
use mathlib.Core.Bool.{Bool, true, false, ◌||◌, ◌&&◌}
use mathlib.Core.List.{List, [], ◌∷◌}
use native.Mathlib.Omega.{arith}
use text.Mathlib.Text.{◌==◌ as ◌==ₛ◌}
use text.Mathlib.TextEquality
use text.Mathlib.TextPositions
use found_footy.Common.Lists.{All}
use found_footy.Common.Tests.{Bool-cases, leb, ◌==◌, if◌then◌else◌}

unfoldable pub str_eq : String → String → Bool
str_eq s t = s ==ₛ t

pub str_eq_iff : (s t : String) → (str_eq s t ≡ true) ↔ (s ≡ t)
unfolding str_eq
str_eq_iff s t = TextEquality.eq_iff s t

pub str_eq_refl : (s : String) → str_eq s s ≡ true
unfolding str_eq
str_eq_refl s = TextPositions.eq_refl s

pub str_eq_ne : {s t : String} → s ≢ t → str_eq s t ≡ false
str_eq_ne {s} {t} h = elim (Bool-cases (str_eq s t)) [
  | inl e ↦ absurd (h ((str_eq_iff s t).0 e))
  | inr e ↦ e
]

-- Go's `switch s { case a, b, …: }`: is the text one of the constants?
unfoldable pub one_of : String → List String → Bool
one_of s [] = false
one_of s (c ∷ cs) = str_eq s c || one_of s cs

-- What holds of every constant holds of a text that the `switch` accepts.
pub one_of-All :
    (P : String → Type 0) (s : String) (cs : List String) → one_of s cs ≡ true → All P cs → P s
unfolding one_of
one_of-All P s [] h all = absurd (ground arith)
one_of-All P s (c ∷ cs) h all = elim (Bool-cases (str_eq s c)) [
  | inl e ↦ subst P (sym ((str_eq_iff s c).0 e)) all.0
  | inr e ↦ one_of-All P s cs (ground arith) all.1
]

-- The code points of a text.
abbrev pub codes : String → List ℕ
codes String.[] = []
codes (String.◌∷◌ c s) = code c ∷ codes s

-- `strings.ToLower` on the letters A to Z, over code points
abbrev pub lower : ℕ → ℕ
lower c = if leb b'A' c && leb c b'Z' then c + 32 else c

-- Does the list begin with the other?
unfoldable pub begins_with : (s prefix : List ℕ) → Bool
begins_with s [] = true
begins_with [] (p ∷ ps) = false
begins_with (c ∷ s) (p ∷ ps) = (c == p) && begins_with s ps

-- `strings.Contains`, over code points
unfoldable pub contains : (s part : List ℕ) → Bool
unfolding begins_with
contains [] part = begins_with [] part
contains (c ∷ s) part = begins_with (c ∷ s) part || contains s part

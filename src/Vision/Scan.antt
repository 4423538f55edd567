-- ===== src/Vision/Scan.antt =====
-- internal/domain/vision/clock.go: the texts and regular expressions of a clock, over code points.
use found_footy.Common.{
  ℕ, zero, suc, ◌+◌, ◌-◌, ◌*◌, String, Bool, true, false, not, Option, none, some, List, [], ◌∷◌,
  map, length, ltb, leb, ◌==◌, ◌&&◌, ◌||◌, if◌then◌else◌, codes,
}
use found_footy.Vision.{ParsedTimer}

-- `unicode.IsSpace`
unfoldable pub is_space : ℕ → Bool
is_space c =
    (leb 9 c && leb c 13)
    || ((c == 32)
        || ((c == 133)
            || ((c == 160)
                || ((c == 5760)
                    || ((leb 8192 c && leb c 8202)
                        || ((c == 8232)
                            || ((c == 8233) || ((c == 8239) || ((c == 8287) || (c == 12288))))))))))

-- `\s` of a regular expression
abbrev pub is_blank : ℕ → Bool
is_blank c = (c == 9) || ((c == 10) || ((c == 12) || ((c == 13) || (c == 32))))

-- `\d`
abbrev pub is_digit : ℕ → Bool
is_digit c = leb b'0' c && leb c b'9'

-- `\w`, for `\b`
abbrev pub is_word : ℕ → Bool
is_word c =
    is_digit c || ((leb b'A' c && leb c b'Z') || ((leb b'a' c && leb c b'z') || (c == b'_')))

-- `strings.ToUpper` where its answer is ASCII: besides the small letters, the dotless i and the long
-- s. Every other code point stays outside ASCII, where no pattern of this file looks.
abbrev pub upper : ℕ → ℕ
upper c =
    if leb b'a' c && leb c b'z'
    then c - 32
    else if c == 305
    then b'I'
    else if c == 383
    then b'S'
    else c

abbrev cons_unless : Bool → ℕ → List ℕ → List ℕ
cons_unless skipped c [] = if skipped then [] else c ∷ []
cons_unless skipped c (d ∷ s) = c ∷ d ∷ s

unfoldable pub skip : (ℕ → Bool) → List ℕ → List ℕ
skip p [] = []
skip p (c ∷ s) = let rest = skip p s in if p c then rest else c ∷ s

unfoldable pub skip_end : (ℕ → Bool) → List ℕ → List ℕ
skip_end p [] = []
skip_end p (c ∷ s) = cons_unless (p c) c (skip_end p s)

-- `strings.TrimSpace`
unfoldable pub trim_space : List ℕ → List ℕ
trim_space s = skip_end is_space (skip is_space s)

abbrev pub to_upper : List ℕ → List ℕ
to_upper = map upper

-- Go's `==` on texts
unfoldable pub same : List ℕ → List ℕ → Bool
same [] [] = true
same (c ∷ s) (d ∷ t) = (c == d) && same s t
same [] (d ∷ t) = false
same (c ∷ s) [] = false

-- `switch s { case a, b, …: }`
unfoldable pub is_one_of : List ℕ → List String → Bool
is_one_of s [] = false
is_one_of s (t ∷ ts) = same s (codes t) || is_one_of s ts

-- the text behind a prefix
unfoldable pub after_prefix : (prefix s : List ℕ) → Option (List ℕ)
after_prefix [] s = some s
after_prefix (p ∷ ps) [] = none
after_prefix (p ∷ ps) (c ∷ s) = let rest = after_prefix ps s in if p == c then rest else none

-- the digits that a text begins with, and the rest
unfoldable pub span_digits : List ℕ → List ℕ × List ℕ
span_digits [] = ([], [])
span_digits (c ∷ s) =
    let rest = span_digits s in if is_digit c then (c ∷ rest.0, rest.1) else ([], c ∷ s)

-- `atoi`, from a value on
unfoldable pub atoi_from : ℕ → List ℕ → ℕ
atoi_from n [] = n
atoi_from n (c ∷ s) = atoi_from (n * 10 + (c - b'0')) s

abbrev pub atoi : List ℕ → ℕ
atoi = atoi_from 0

-- `:(\d{2})$`
abbrev pub seconds_of : List ℕ → Option ℕ
seconds_of (c ∷ d ∷ e ∷ []) =
    if (c == b':') && (is_digit d && is_digit e) then some (atoi (d ∷ e ∷ [])) else none
seconds_of _ = none

abbrev pub is_empty : List ℕ → Bool
is_empty [] = true
is_empty (c ∷ s) = false

-- one to `most` digits
abbrev pub few_digits : ℕ → List ℕ → Bool
few_digits most ds = leb 1 (length ds) && leb (length ds) most

abbrev pub timer_of : (minute : ℕ) → Option ℕ → (bare : Bool) → Option ParsedTimer
timer_of minute (some second) bare =
    if ltb second 60
    then some (record { minute = minute; second = second; seconds_known = true })
    else none
timer_of minute none bare =
    if bare then some (record { minute = minute; second = 0; seconds_known = false }) else none

-- `parseTimer`
unfoldable pub parse_timer : List ℕ → (allow_bare : Bool) → Option ParsedTimer
parse_timer text allow_bare =
    let (ds, rest) = span_digits text in
    if few_digits 3 ds
    then timer_of (atoi ds) (seconds_of rest) (allow_bare && is_empty rest)
    else none

abbrev after_quote : List ℕ → Bool
after_quote [] = true
after_quote (c ∷ []) = (c == b'\'') || (c == 8242)
after_quote (c ∷ d ∷ s) = false

abbrev pub skip_plus : List ℕ → List ℕ
skip_plus [] = []
skip_plus (c ∷ s) = if c == b'+' then s else c ∷ s

-- `reAdded`
unfoldable pub match_added : List ℕ → Option ℕ
match_added t =
    let (ds, rest) = span_digits (skip is_blank (skip_plus t)) in
    if few_digits 2 ds && after_quote (skip is_blank rest) then some (atoi ds) else none

-- `parseAddedField`
unfoldable pub parse_added_field : String → Option ℕ
parse_added_field raw =
    let t = to_upper (trim_space (codes raw)) in
    if is_one_of t ("" ∷ "NONE" ∷ "N/A" ∷ []) then none else match_added t

abbrev stoppage_minutes : Option ParsedTimer → Option ℕ
stoppage_minutes none = none
stoppage_minutes (some timer) = if ltb timer.minute 100 then some timer.minute else none

-- `parseStoppageClockField`
unfoldable pub parse_stoppage_clock_field : String → Option ℕ
parse_stoppage_clock_field raw =
    let t = trim_space (skip_plus (trim_space (codes raw))) in
    if is_one_of (to_upper t) ("" ∷ "NONE" ∷ "N/A" ∷ [])
    then none
    else stoppage_minutes (parse_timer t false)

-- What `reCompactStoppage` captures: the base, the minutes after it and the seconds, if there are any.
pub record Compact : Type 0 where
  pub base : ℕ
  pub extra : ℕ
  pub seconds : Option ℕ

abbrev compact_of : ℕ → List ℕ × List ℕ → Option Compact
compact_of base (ds, rest) =
    if few_digits 2 ds
    then (if is_empty rest
        then some (record { base = base; extra = atoi ds; seconds = none })
        else elim (seconds_of rest) [
          | none ↦ none
          | some s ↦ some (record { base = base; extra = atoi ds; seconds = some s })
        ])
    else none

abbrev after_plus : ℕ → List ℕ → Option Compact
after_plus base [] = none
after_plus base (c ∷ s) =
    if c == b'+' then compact_of base (span_digits (skip is_blank s)) else none

-- `reCompactStoppage`
unfoldable pub match_compact : List ℕ → Option Compact
match_compact t =
    let (ds, rest) = span_digits t in
    if is_one_of ds ("45" ∷ "90" ∷ "105" ∷ "120" ∷ [])
    then after_plus (atoi ds) (skip is_blank rest)
    else none

-- one alternative of `rePeriodHints`: a word, or two with blanks between them
pub record HintShape : Type 0 where
  pub head : String
  pub tail : Option String

abbrev after_head : Option String → Option (List ℕ) → Option (List ℕ)
after_head tail none = none
after_head none (some s) = some s
after_head (some tail) (some s) = after_prefix (codes tail) (skip is_blank s)

-- the text behind the words
abbrev match_shape : HintShape → List ℕ → Option (List ℕ)
match_shape h s = after_head h.tail (after_prefix (codes h.head) s)

abbrev ends_word : List ℕ → Bool
ends_word [] = true
ends_word (c ∷ s) = not (is_word c)

abbrev or_rest : Option (List ℕ) → Option (List ℕ) → Option (List ℕ)
or_rest none other = other
or_rest (some s) other = if ends_word s then some s else other

-- the first of the alternatives that matches here and ends at a word boundary
unfoldable pub match_hint : List HintShape → List ℕ → Option (List ℕ)
match_hint [] s = none
match_hint (h ∷ hs) s = or_rest (match_shape h s) (match_hint hs s)

abbrev hint_at : List HintShape → (in_word : Bool) → List ℕ → Option (List ℕ)
hint_at hs in_word s = if in_word then none else match_hint hs s

-- `regexp.MatchString` with `\b` before and behind
unfoldable pub has_hint : List HintShape → (in_word : Bool) → List ℕ → Bool
has_hint hs in_word [] = false
has_hint hs in_word (c ∷ s) =
    (elim (hint_at hs in_word (c ∷ s)) [ none ↦ false | some rest ↦ true ])
    || has_hint hs (is_word c) s

-- `ReplaceAllString` by the empty text; a round takes at least one code point
unfoldable pub remove_hints : List HintShape → (fuel : ℕ) → (in_word : Bool) → List ℕ → List ℕ
remove_hints hs zero in_word s = s
remove_hints hs (suc fuel) in_word [] = []
remove_hints hs (suc fuel) in_word (c ∷ s) = elim (hint_at hs in_word (c ∷ s)) [
  | none ↦ c ∷ remove_hints hs fuel (is_word c) s
  | some rest ↦ remove_hints hs fuel true rest
]

-- ===== src/Monitor/Identity/Groups/RoundTrip.antt =====
-- The sequence of a natural key is the one that the key was made with
-- (internal/domain/event/event.go, `ComposeNaturalKey`; internal/activity/monitor/event_identity.go,
-- `sequenceFromNaturalKey`).
use Prim.Native.String.{◌++◌ as ◌+++◌}
use Prim.Native.String.append.{nil, cons}
use Prim.Native.Char.{code}
use found_footy.Common.{
  ℕ, zero, suc, ◌+◌, ◌*◌, ◌/◌, ◌%◌, ◌^◌, ◌≤◌, ◌<◌, ◌≡◌, ◌≢◌, refl, ap, ◌∙◌, String, true, false,
  Option, none, some, List, [], ◌∷◌, ◌++◌, codes, All, All-weaken, ◌==◌, leb, arith, Bool-cases,
  inl, inr,
}
use found_footy.Event.{EventType}
use found_footy.Event.Key.{digit, decimal, itoa, compose_natural_key}
use found_footy.Monitor.Identity.Groups.{
  after_last, scan_digits, positive, atoi_positive, sequence_from_natural_key,
}

abbrev IsDigit : ℕ → Type 0
IsDigit c = (b'0' ≤ c) × (c ≤ b'9')

code-digit : (d : ℕ) → d < 10 → code (digit d) ≡ b'0' + d
code-digit zero h = omega arith
code-digit (suc zero) h = omega arith
code-digit (suc (suc zero)) h = omega arith
code-digit (suc (suc (suc zero))) h = omega arith
code-digit (suc (suc (suc (suc zero)))) h = omega arith
code-digit (suc (suc (suc (suc (suc zero))))) h = omega arith
code-digit (suc (suc (suc (suc (suc (suc zero)))))) h = omega arith
code-digit (suc (suc (suc (suc (suc (suc (suc zero))))))) h = omega arith
code-digit (suc (suc (suc (suc (suc (suc (suc (suc zero)))))))) h = omega arith
code-digit (suc (suc (suc (suc (suc (suc (suc (suc (suc zero))))))))) h = omega arith
code-digit (suc (suc (suc (suc (suc (suc (suc (suc (suc (suc d)))))))))) h = absurd (omega arith)

codes-append : (s t : String) → codes (s +++ t) ≡ codes s ++ codes t
codes-append String.[] t = ap codes (nil t)
codes-append (String.◌∷◌ c s) t = ap codes (cons c s t) ∙ ap (λ cs. code c ∷ cs) (codes-append s t)

decimal-IsDigit :
    (fuel n : ℕ) (out : String) → All IsDigit (codes out) → All IsDigit (codes (decimal fuel n out))
unfolding decimal
decimal-IsDigit zero n out h = h
decimal-IsDigit (suc fuel) n out h = elim (Bool-cases (n == 0)) [
  | inl none_left ↦ rw none_left h
  | inr more ↦ rw more (
      decimal-IsDigit fuel (n / 10) _ (
        (
          omega (arith, code-digit (n % 10) (omega arith)),
          omega (arith, code-digit (n % 10) (omega arith)),
        ),
        h,
      ))
]

-- a digit in front of a text moves the value before it by one place
scan_place :
    (m n d c : ℕ) (cs : List ℕ)
    → c ≡ b'0' + d
    → d < 10
    → n ≡ m * 10 + d
    → scan_digits (c ∷ cs) m ≡ scan_digits cs n
unfolding scan_digits
scan_place m n d c cs is_digit small whole =
    let low : leb b'0' c ≡ true = ground (arith, is_digit) in
    let high : leb c b'9' ≡ true = ground (arith, is_digit) in
    rw (low, high) (ap (scan_digits cs) (omega arith))

scan-decimal :
    (fuel n : ℕ) (out : String)
    → n ≤ fuel
    → scan_digits (codes (decimal fuel n out)) 0 ≡ scan_digits (codes out) n
unfolding decimal scan_digits
scan-decimal zero n out enough = ap (scan_digits (codes out)) (omega arith)
scan-decimal (suc fuel) n out enough = elim (Bool-cases (n == 0)) [
  | inl none_left ↦ rw none_left (ap (scan_digits (codes out)) (ground arith))
  | inr more ↦ rw more (
      scan-decimal fuel (n / 10) _ (ground arith)
      ∙ scan_place (n / 10) n (n % 10) (code (digit (n % 10))) (codes out)
          (code-digit (n % 10) (omega arith)) (omega arith) (omega arith))
]

after_last-none : (b : ℕ) (ds : List ℕ) → All (λ c. c ≢ b) ds → after_last b ds ≡ none
unfolding after_last
after_last-none b [] h = refl
after_last-none b (c ∷ ds) h = rw (after_last-none b ds h.1) (ground arith)

after_last-append :
    (b : ℕ) (xs ds : List ℕ) → All (λ c. c ≢ b) ds → after_last b (xs ++ b ∷ ds) ≡ some ds
unfolding after_last
after_last-append b [] ds h = rw (after_last-none b ds h) (ground arith)
after_last-append b (x ∷ xs) ds h = rw (after_last-append b xs ds h) refl

atoi-digits :
    (cs : List ℕ) (n : ℕ)
    → All IsDigit cs
    → scan_digits cs 0 ≡ some n
    → 0 < n
    → atoi_positive cs ≡ positive (some n)
unfolding atoi_positive scan_digits
atoi-digits [] n h scanned some_digit = absurd (ground (arith, scanned))
atoi-digits (c ∷ cs) n h scanned some_digit =
    let plain : (c == b'+') ≡ false = ground (arith, h.0) in rw plain (ap positive scanned)

itoa-IsDigit : (n : ℕ) → 0 < n → All IsDigit (codes (itoa n))
unfolding itoa
itoa-IsDigit n h = let more : (n == 0) ≡ false = ground arith in rw more (decimal-IsDigit n n "" tt)

scan-itoa : (n : ℕ) → 0 < n → scan_digits (codes (itoa n)) 0 ≡ some n
unfolding itoa scan_digits
scan-itoa n h =
    let more : (n == 0) ≡ false = ground arith in rw more (scan-decimal n n "" (omega arith))

key_part :
    (key : String) (n : ℕ)
    → 0 < n
    → n < 2 ^ 63
    → sequence_from_natural_key (key +++ ("_" +++ itoa n)) ≡ some n
unfolding sequence_from_natural_key
key_part key n low high =
    let split : codes (key +++ ("_" +++ itoa n)) ≡ codes key ++ b'_' ∷ codes (itoa n) =
      codes-append key ("_" +++ itoa n) ∙ ap (λ cs. codes key ++ cs) (codes-append "_" (itoa n)) in
    let no_separator : All (λ c. c ≢ b'_') (codes (itoa n)) =
      All-weaken (codes (itoa n)) (λ c is_digit same. omega (arith, is_digit, same))
        (itoa-IsDigit n low) in
    rw split (
      rw (after_last-append b'_' (codes key) (codes (itoa n)) no_separator)
        (atoi-digits (codes (itoa n)) n (itoa-IsDigit n low) (scan-itoa n low) low ∙ ground arith))

-- The sequence that the monitor reads from a natural key is the one that ComposeNaturalKey put into
-- it, for every team, player and type, where the sequence is at least 1 and below 2^63.
pub sequence_from_natural_key-compose_natural_key :
    (team_id : ℕ) (player_id : Option ℕ) (t : EventType) (seq : ℕ)
    → 0 < seq
    → seq < 2 ^ 63
    → sequence_from_natural_key (compose_natural_key team_id player_id t seq) ≡ some seq
unfolding compose_natural_key
sequence_from_natural_key-compose_natural_key team_id player_id t seq low high =
    key_part _ seq low high

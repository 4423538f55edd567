-- ===== src/Common/Instants.antt =====
-- Go's `time.Time` and `time.Duration` as the code uses them. An instant is the number of
-- nanoseconds since Go's zero time, which no instant of the program precedes; `UTC()` changes the
-- display zone of an instant and not the instant. `Sub` stops at 0 here: the code compares its
-- result only with positive limits, which a negative duration never reaches.
use Prim.Native.Nat.{ℕ, ◌-◌, ◌*◌}
use mathlib.Core.Bool.{Bool}
use found_footy.Common.Tests.{ltb, ◌==◌}

abbrev pub Time : Type 0
Time = ℕ

abbrev pub Duration : Type 0
Duration = ℕ

-- `time.Time{}`
abbrev pub zero_time : Time
zero_time = 0

abbrev pub is_zero : Time → Bool
is_zero t = t == 0

-- `t.After(u)`
abbrev pub after : Time → Time → Bool
after t u = ltb u t

-- `t.Before(u)`
abbrev pub before : Time → Time → Bool
before t u = ltb t u

-- `t.Sub(u)`
abbrev pub since : Time → Time → Duration
since t u = t - u

abbrev pub second : Duration
second = 1_000_000_000

abbrev pub minute : Duration
minute = 60 * second

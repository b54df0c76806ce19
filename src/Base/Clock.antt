-- ===== src/Base/Clock.antt =====
-- time.Time and time.Duration in nanoseconds. The zero time is 0, so `t.IsZero()` is `t == 0`. Where
-- the code compares `a.Sub(b)` with a positive duration, `a - b`, which stops at 0, decides alike.
use Prim.Native.Nat.{ℕ, ◌*◌}
use mathlib.Core.Bool.{Bool}
use ruptura.Base.Tests.{nat_beq, ltb}

abbrev pub Time : Type 0
Time = ℕ

abbrev pub Duration : Type 0
Duration = ℕ

abbrev pub second : Duration
second = 1000000000

abbrev pub minute : Duration
minute = 60 * second

abbrev pub hour : Duration
hour = 60 * minute

-- t.IsZero()
abbrev pub is_zero : Time → Bool
is_zero t = nat_beq t 0

-- t.After(u)
abbrev pub after : Time → Time → Bool
after t u = ltb u t

-- t.Before(u)
abbrev pub before : Time → Time → Bool
before t u = ltb t u

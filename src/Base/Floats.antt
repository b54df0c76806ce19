-- ===== src/Base/Floats.antt =====
-- Go's float64 as the interface that the modelled code uses. A component takes it as an instance and
-- assumes no law of it except where a theorem names one, so that NaN and rounding stay possible.
use Prim.Native.Nat.{ℕ, ◌+◌, ◌-◌, ◌*◌, ◌/◌}
use mathlib.Core.Bool.{Bool}
use ruptura.Base.Tests.{ltb, leb, nat_beq}
use ruptura.Base.Int.{ℤ, pos, pos_part}

pub record Float {ℓ} (F : Type ℓ) : Type ℓ where
  -- a < b, a <= b, a == b
  pub lt : F → F → Bool
  pub le : F → F → Bool
  pub eq : F → F → Bool
  -- a + b, a - b, a * b, a / b
  pub add : F → F → F
  pub sub : F → F → F
  pub mul : F → F → F
  pub div : F → F → F
  -- the constant m / 1000
  pub milli : ℕ → F
  -- float64(n) of an integer, and int64(x) of a float
  pub of_int : ℤ → F
  pub to_int : F → ℤ
  -- d.Seconds() of a duration in nanoseconds
  pub seconds : ℤ → F

-- Non-negative numbers in units of 10^-9, for the examples.
abbrev pub nano : ℕ
nano = 1000000000

abbrev pub fixed : Float ℕ
fixed = record {
  lt = ltb;
  le = leb;
  eq = nat_beq;
  add = ◌+◌;
  sub = ◌-◌;
  mul = λ a b. a * b / nano;
  div = λ a b. a * nano / b;
  milli = λ m. m * 1000000;
  of_int = λ n. pos_part n * nano;
  to_int = λ x. pos (x / nano);
  seconds = λ d. pos_part d;
}

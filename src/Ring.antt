-- ===== src/Ring.antt =====
-- workdir/pkg/utils/utils.go: CircularBuffer, a ring of fixed size that overwrites its oldest value.
pub mod Slots
pub mod Contents
mod Examples
use Prim.Native.Nat.{zero, suc}
use ruptura.Base.{
  ℕ, ◌+◌, ◌-◌, ◌%◌, List, [], ◌∷◌, ◌++◌, take, drop, get_or, Option, some, none, ltb, nat_beq,
  if◌then◌else◌,
}

module _ {A : Type 0} where
  -- `data[i] = v`
  abbrev pub set_at : ℕ → A → List A → List A
  set_at i v [] = []
  set_at zero v (x ∷ xs) = v ∷ xs
  set_at (suc i) v (x ∷ xs) = x ∷ set_at i v xs

  abbrev pub repeat : ℕ → A → List A
  repeat zero a = []
  repeat (suc n) a = a ∷ repeat n a

pub record CircularBuffer (A : Type 0) : Type 0 where
  -- `values` is the field data.
  pub values : List A
  pub size : ℕ
  pub head : ℕ
  pub n : ℕ

-- A is float64 in the source, and `zero_value` its zero.
module _ {A : Type 0} where
  unfoldable pub new_circular_buffer : A → ℕ → CircularBuffer A
  new_circular_buffer zero_value size = record {
    values = repeat size zero_value;
    size = size;
    head = 0;
    n = 0;
  }

  unfoldable pub push : CircularBuffer A → A → CircularBuffer A
  push c v = if nat_beq c.size 0 then c else record c {
    values = set_at c.head v c.values;
    head = (c.head + 1) % c.size;
    n = if ltb c.n c.size then c.n + 1 else c.n;
  }

  -- Values
  unfoldable pub contents : CircularBuffer A → List A
  contents c =
      if nat_beq c.n 0
      then []
      else if ltb c.n c.size
      then take c.n c.values
      else drop c.head c.values ++ take c.head c.values

  -- Last; `zero_value` is never read.
  unfoldable pub last_value : A → CircularBuffer A → Option A
  last_value zero_value c =
      if nat_beq c.n 0
      then none
      else some (get_or c.values ((c.head + c.size - 1) % c.size) zero_value)

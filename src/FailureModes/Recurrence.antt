-- ===== src/FailureModes/Recurrence.antt =====
-- recurrence.go: the rhythm of past failures.
pub mod Forecast
use ruptura.Base.{
  ℕ, ◌-◌, ◌/◌, ◌%◌, List, [], ◌∷◌, length, map, last, get_or, Option, some, none, sort_by, ltb,
  nat_beq, if◌then◌else◌, Float, ℤ, pos, sub_ℕ, ◌+ℤ◌, ◌-ℤ◌, quot_ℤ, abs_ℤ, lt_ℤ, le_ℤ, Time,
}

abbrev pub recurrence_min_failures : ℕ
recurrence_min_failures = 6

unfoldable pub median_duration : List ℤ → ℤ
median_duration values =
    let sorted = sort_by lt_ℤ values in
    let middle = length sorted / 2 in
    let upper = get_or sorted middle (pos 0) in
    let lower = get_or sorted (middle - 1) (pos 0) in
    if nat_beq (length sorted % 2) 1 then upper else quot_ℤ (lower +ℤ upper) 2

-- times[i].Sub(times[i-1])
abbrev pub intervals : List Time → List ℤ
intervals [] = []
intervals (t ∷ []) = []
intervals (t ∷ u ∷ rest) = sub_ℕ u t ∷ intervals (u ∷ rest)

module _ {F : Type 0} ⦃fl : Float F⦄ where
  -- The time left and the regularity, of a rhythm with this interval after `elapsed`.
  rhythm : ℤ → F → ℤ → Option (ℤ × F)
  rhythm interval spread elapsed =
      let remaining = interval -ℤ elapsed in
      if fl.le (fl.milli 200) spread
      then none
      else if fl.lt (fl.mul (fl.milli 1500) (fl.of_int interval)) (fl.of_int elapsed)
      then none
      else some (if lt_ℤ remaining (pos 0) then pos 0 else remaining, fl.sub (fl.milli 1000) spread)

  unfoldable pub next_failure : List Time → Time → Option (ℤ × F)
  unfolding rhythm
  next_failure times now =
      let gaps = intervals times in
      let interval = median_duration gaps in
      let deviations = map (λ value. abs_ℤ (value -ℤ interval)) gaps in
      let spread = fl.div (fl.of_int (median_duration deviations)) (fl.of_int interval) in
      if ltb (length times) recurrence_min_failures
      then none
      else if le_ℤ interval (pos 0)
      then none
      else elim (last times) [ none ↦ none | some t ↦ rhythm interval spread (sub_ℕ now t) ]

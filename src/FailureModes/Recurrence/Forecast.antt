-- ===== src/FailureModes/Recurrence/Forecast.antt =====
-- recurrence.go: what nextFailure reports.
use ruptura.Base.{
  ◌≤◌, ◌≡◌, subst, ≤ℤ_refl, not_lt_ℤ→le, false, List, length, last, Option, none, some, inl, inr,
  Bool-cases, ltb, Float, ℤ, pos, sub_ℕ, ◌-ℤ◌, abs_ℤ, lt_ℤ, le_ℤ, ◌≤ℤ◌, map, Time, if◌then◌else◌,
  arith,
}
use ruptura.FailureModes.Recurrence.{
  recurrence_min_failures, median_duration, intervals, rhythm, next_failure,
}

-- The time left is never negative.
clamp : (remaining : ℤ) → pos 0 ≤ℤ (if lt_ℤ remaining (pos 0) then pos 0 else remaining)
clamp remaining = elim (Bool-cases (lt_ℤ remaining (pos 0))) [
  | inl late ↦ rw late (≤ℤ_refl (pos 0))
  | inr early ↦ rw early (not_lt_ℤ→le remaining (pos 0) early)
]

module _ {F : Type 0} ⦃fl : Float F⦄ where
  rhythm_bounds :
      (interval elapsed : ℤ) (spread : F) {left : ℤ} {regular : F}
      → rhythm interval spread elapsed ≡ some (left, regular)
      → (fl.le (fl.milli 200) spread ≡ false) × (pos 0 ≤ℤ left)
  unfolding rhythm
  rhythm_bounds interval elapsed spread {left} {regular} h =
      elim (Bool-cases (fl.le (fl.milli 200) spread)) [
        | inl wide ↦ absurd (let e : none ≡ some (left, regular) = rw wide at h in cc)
        | inr tight ↦
            elim (Bool-cases
              (fl.lt (fl.mul (fl.milli 1500) (fl.of_int interval)) (fl.of_int elapsed))) [
                | inl over ↦
                    absurd (let e : none ≡ some (left, regular) = rw (tight, over) at h in cc)
                | inr due ↦
                    let remaining : ℤ = interval -ℤ elapsed in
                    let e : some (
                      if lt_ℤ remaining (pos 0) then pos 0 else remaining,
                      fl.sub (fl.milli 1000) spread,
                    )
                        ≡ some (left, regular) =
                      rw (tight, due) at h in
                    let same : (if lt_ℤ remaining (pos 0) then pos 0 else remaining) ≡ left = cc in
                    (tight, subst (λ d. pos 0 ≤ℤ d) same (clamp remaining))
              ]
      ]

  -- A forecast of the next failure rests on at least six failures whose median interval is not zero or
  -- less, and the time that it leaves is not negative.
  pub next_failure_bounds :
      (times : List Time) (now : Time) {left : ℤ} {regular : F}
      → next_failure times now ≡ some (left, regular)
      → (recurrence_min_failures ≤ length times)
        × ((le_ℤ (median_duration (intervals times)) (pos 0) ≡ false) × (pos 0 ≤ℤ left))
  unfolding next_failure
  next_failure_bounds times now {left} {regular} h =
      elim (Bool-cases (ltb (length times) recurrence_min_failures)) [
        | inl few ↦ absurd (let e : none ≡ some (left, regular) = rw few at h in cc)
        | inr enough ↦ elim (Bool-cases (le_ℤ (median_duration (intervals times)) (pos 0))) [
          | inl stuck ↦ absurd (let e : none ≡ some (left, regular) = rw (enough, stuck) at h in cc)
          | inr moving ↦ (ground arith, (moving, left_over (last times) (rw (enough, moving) at h)))
        ]
      ]
    where
      spread : F
      spread =
          fl.div
            (fl.of_int (
              median_duration (
                map (λ value. abs_ℤ (value -ℤ median_duration (intervals times)))
                  (intervals times))))
            (fl.of_int (median_duration (intervals times)))

      left_over :
          (newest : Option Time)
          → (elim newest [
            | none ↦ none
            | some t ↦ rhythm (median_duration (intervals times)) spread (sub_ℕ now t)
          ])
            ≡ some (left, regular)
          → pos 0 ≤ℤ left
      left_over none e = absurd (let e' : none ≡ some (left, regular) = e in cc)
      left_over (some t) e =
          (rhythm_bounds (median_duration (intervals times)) (sub_ℕ now t) spread e).1

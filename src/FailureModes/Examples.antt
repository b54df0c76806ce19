-- ===== src/FailureModes/Examples.antt =====
-- The theorems on the estimators at concrete inputs, with fixed-point numbers for float64.
use ruptura.Base.{
  ℕ, ◌*◌, ◌-◌, ◌≤◌, ◌≡◌, refl, inl, inr, true, false, List, [], ◌∷◌, length, last, some, arith,
  Float, fixed, pos, string_eq, Time, minute,
}
use ruptura.FailureModes.Estimate.{Estimate, detected, saturation}
use ruptura.FailureModes.Slopes.{Point}
use ruptura.FailureModes.Condition.{condition_raise_after, condition_clear_after}
use ruptura.FailureModes.Condition.Trace
use ruptura.FailureModes.Condition.Trace.{History, IsTimed, RunSince, advance-switches, run_raises}
use ruptura.FailureModes.Saturation.{Saturation, push_point}
use ruptura.FailureModes.Saturation.Window.{IsOrdered, IsFresh, push_point_window}

instance abbrev fixed_point : Float ℕ
fixed_point = fixed

-- Memory that grows by a twentieth of its limit each three minutes.
abbrev growing : Saturation ℕ
growing = record {
  points =
      record { at = 3 * minute; usage = 500000000 }
      ∷ record { at = 6 * minute; usage = 550000000 }
      ∷ record { at = 9 * minute; usage = 600000000 }
      ∷ record { at = 12 * minute; usage = 650000000 }
      ∷ [];
  restarts = 0;
  seen = true;
}

abbrev growing_estimate : Estimate ℕ
growing_estimate = record (detected saturation "") {
  etf = pos 1080003024008;
  etf_early = pos 1080003024008;
  etf_late = pos 1080003024008;
  confidence = 1000000000;
  usage = 700000000;
}

abbrev newest_point : Point ℕ
newest_point = record { at = 45 * minute; usage = 700000000 }

push_point_window_example :
    IsOrdered (push_point growing.points newest_point) (45 * minute)
    × IsFresh (push_point growing.points newest_point) (45 * minute)
    × (length (push_point growing.points newest_point) ≤ 120)
    × (last (push_point growing.points newest_point) ≡ some newest_point)
push_point_window_example =
    push_point_window growing.points newest_point
      (omega arith, (omega arith, (omega arith, (omega arith, tt))))

-- Samples at or above the threshold from minute one, two minutes apart.
abbrev throttled : History
throttled =
    (9 * minute, true)
    ∷ (7 * minute, true)
    ∷ (5 * minute, true)
    ∷ (3 * minute, true)
    ∷ (minute, true)
    ∷ []

throttled-IsTimed : IsTimed ((11 * minute, true) ∷ throttled)
throttled-IsTimed = ground arith

throttled-RunSince : RunSince true ((11 * minute, true) ∷ throttled) minute
throttled-RunSince = (
  refl,
  inr (
    omega arith,
    (
      refl,
      inr (
        omega arith,
        (
          refl,
          inr (omega arith, (refl, inr (omega arith, (refl, inr (omega arith, (refl, inl refl)))))),
        ),
      ),
    ),
  ),
)

run_raises_example : (Trace.run ((11 * minute, true) ∷ throttled)).active ≡ true
run_raises_example =
    run_raises throttled (11 * minute) minute throttled-IsTimed throttled-RunSince (omega arith)

advance-switches_example :
    ((Trace.run throttled).active ≡ false
      → (Trace.run ((11 * minute, true) ∷ throttled)).active ≡ true
      → (since : Time) × RunSince true ((11 * minute, true) ∷ throttled) since
        × (condition_raise_after ≤ 11 * minute - since))
    × ((Trace.run throttled).active ≡ true
        → (Trace.run ((11 * minute, true) ∷ throttled)).active ≡ false
        → (since : Time) × RunSince false ((11 * minute, true) ∷ throttled) since
          × (condition_clear_after ≤ 11 * minute - since))
advance-switches_example = advance-switches throttled (11 * minute) true throttled-IsTimed

abbrev hourly : List Time
hourly = 60 * minute ∷ 120 * minute ∷ 180 * minute ∷ 240 * minute ∷ 300 * minute ∷ 360 * minute ∷ []

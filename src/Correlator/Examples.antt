-- ===== src/Correlator/Examples.antt =====
-- The theorems on the correlator at a burst that two falls of the score follow, and at some lines, in
-- fixed point numbers.
use ruptura.Base.{ℕ, ◌≤◌, String, List, [], ◌∷◌, Float, fixed, second, ◌*◌}
use ruptura.Correlator.{BurstEvent, Maths, new_engine}
use ruptura.Correlator.Bursts.{
  Observation, kpi, burst, named, bursts_called, after_observations, named-after_observations,
}
use ruptura.Correlator.Detector.{new_burst_detector}
use ruptura.Correlator.Detector.Bounds.{Line, line, IsDetector, after_lines, after_lines-IsDetector}

instance abbrev fixed_float : Float ℕ
fixed_float = fixed

abbrev maths : Maths ℕ
maths = record { sqrt = λ v. v; abs = λ v. v; eps = 1 }

abbrev ids : ℕ → String
ids n = "id"

abbrev errors : BurstEvent ℕ
errors = record {
  id = "b1";
  service = "api";
  start_ts = 100 * second;
  end_ts = 110 * second;
  count = 40;
  baseline_rate = 2000000000;
  level = "error";
}

abbrev observed : List (Observation ℕ)
observed =
    kpi "web" "health_score" 90000000000 (90 * second)
    ∷ burst errors (110 * second) (110 * second)
    ∷ kpi "web" "health_score" 60000000000 (120 * second)
    ∷ kpi "web" "health_score" 20000000000 (130 * second)
    ∷ []

named-after_observations_example :
    named "b1" (after_observations ids maths new_engine observed).store.slots
    ≤ bursts_called "b1" observed
named-after_observations_example = named-after_observations ids maths "b1" observed

abbrev lines : List Line
lines =
    line "api" "error" (5 * second)
    ∷ line "api" "error" (16 * second)
    ∷ line "api" "info" (17 * second)
    ∷ line "api" "warn" (18 * second)
    ∷ []

after_lines-IsDetector_example : IsDetector 1 (after_lines maths ids (new_burst_detector 1) lines)
after_lines-IsDetector_example = after_lines-IsDetector maths ids 1 lines

-- ===== src/FailureModes/Tracker/Examples.antt =====
-- The theorems on the tracker at concrete inputs, with fixed-point numbers for float64.
use ruptura.Base.{
  ℕ, ◌*◌, ◌≡◌, refl, true, List, [], ◌∷◌, some, none, arith, Float, fixed, pos, sub_ℕ, lookup,
  string_eq, minute,
}
use ruptura.FailureModes.Estimate.{Estimate, detected, saturation, replicas_unavailable}
use ruptura.FailureModes.Tracker.{
  PodState, Tracker, new_tracker, new_pod, pod_locked, put_pod, record_failure,
}
use ruptura.FailureModes.Tracker.Observe.{
  observe_replicas, set_failure_recorder, note_forecast, restore_outcome,
}
use ruptura.FailureModes.Tracker.Worst.{worst}
use ruptura.FailureModes.Tracker.Rank.{Verdict, considered, worst-Verdict}
use ruptura.FailureModes.Tracker.Restarts.{feed, recorded-feed}
use ruptura.FailureModes.Tracker.Outcomes.{forecast_cycle}
use ruptura.FailureModes.Tracker.Bounds.{IsBounded}
use ruptura.FailureModes.Tracker.Run
use ruptura.FailureModes.Tracker.Run.{Op, restarts, asks_worst, run-IsBounded}

instance abbrev fixed_reading : Float ℕ
fixed_reading = fixed

-- A workload that has missed a replica for six minutes.
abbrev failing : Tracker ℕ
failing = observe_replicas (observe_replicas new_tracker "web" 1 minute) "web" 1 (7 * minute)

abbrev missing_replica : Estimate ℕ
missing_replica = record (detected replicas_unavailable "") { usage = 1000000000 }

worst-Verdict_example :
    Verdict (considered failing "web" (7 * minute)) (worst failing "web" (7 * minute)).1
worst-Verdict_example = worst-Verdict failing "web" (7 * minute)

recorded-feed_example :
    (feed {F = ℕ}
      (set_failure_recorder new_tracker true)
      "web"
      "web-1"
      ((minute, 3) ∷ (2 * minute, 3) ∷ (3 * minute, 4) ∷ [])).recorded
    ≡ ("web", 3 * minute) ∷ []
unfolding set_failure_recorder pod_locked lookup
recorded-feed_example =
    recorded-feed {F = ℕ} (set_failure_recorder new_tracker true) "web" "web-1"
      ((minute, 3) ∷ (2 * minute, 3) ∷ (3 * minute, 4) ∷ []) refl

abbrev noted : Tracker ℕ
noted = note_forecast (note_forecast new_tracker "web" minute) "web" (2 * minute)

forecast_cycle_example :
    (lookup "web" noted.forecasts ≡ some minute)
    × ((record_failure noted "web" (9 * minute)).outcomes
        ≡ record { at = 9 * minute; lead = sub_ℕ (9 * minute) minute } ∷ [])
    × (lookup "web" (record_failure noted "web" (9 * minute)).forecasts ≡ none)
unfolding lookup
forecast_cycle_example = forecast_cycle new_tracker "web" minute (2 * minute) (9 * minute) refl

abbrev recorded_failures : Tracker ℕ
recorded_failures =
    restore_outcome (restore_outcome new_tracker minute (pos (7 * minute))) (2 * minute)
      (pos minute)

abbrev calls : List (Op ℕ)
calls =
    restarts "web" "web-1" minute 2
    ∷ restarts "web" "web-1" (2 * minute) 3
    ∷ asks_worst "web" (3 * minute)
    ∷ []

run-IsBounded_example : IsBounded (Run.run new_tracker calls)
run-IsBounded_example =
    run-IsBounded new_tracker calls (record { pods_bound = tt; outcomes_bound = omega arith })

-- A memory estimate, in units of 10^-9.
abbrev last_estimate : Estimate ℕ
last_estimate = record (detected saturation "") {
  etf = pos (18 * minute);
  confidence = 1000000000;
  usage = 700000000;
}

-- A pod whose last memory reading is an hour old.
abbrev silent_pod : PodState ℕ
silent_pod = record (new_pod "web") { estimate = some last_estimate; seen = minute }

abbrev silent : Tracker ℕ
silent = put_pod new_tracker "web-1" silent_pod

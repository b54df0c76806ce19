-- ===== src/FailureModes/Tracker/Run.antt =====
-- Any sequence of operations on a tracker.
use ruptura.Base.{
  ℕ, String, Bool, List, [], ◌∷◌, Option, some, none, Float, ℤ, Time, lookup, string_eq,
}
use ruptura.FailureModes.Release.{ReleaseState}
use ruptura.FailureModes.Tracker.{Tracker}
use ruptura.FailureModes.Tracker.Observe.{
  set_failure_recorder, set_outcome_recorder, restore_failures, restore_outcome, note_forecast,
  observe_restarts, observe_version, observe_replicas, observe_rollout, observe_oom, observe_event,
  prune, observe, observe_condition,
}
use ruptura.FailureModes.Tracker.Worst.{worst, put_release, release_estimates}
use ruptura.FailureModes.Tracker.Bounds.{
  IsBounded, observe_restarts-bound, note_forecast-bound, observe_replicas-bound,
  observe_rollout-bound, observe_event-bound, prune-bound, observe_oom-bound, observe-bound,
  observe_condition-bound, outcome-bound,
}

-- A call of one of the operations that change a tracker.
pub data Op (F : Type 0) : Type 0 where
  sets_failure_recorder sets_outcome_recorder : Bool → Op F
  restores_failures : String → List Time → Op F
  restores_outcome : Time → ℤ → Op F
  notes_forecast : String → Time → Op F
  restarts : String → String → Time → ℕ → Op F
  reads : String → String → Time → F → F → ℕ → Op F
  runs_version : String → String → Op F
  throttles : String → String → Time → F → Op F
  misses_replicas : String → ℕ → Time → Op F
  rolls_out : String → Bool → Time → Op F
  exits_oom : String → String → Bool → Op F
  warns : String → String → String → String → Time → Op F
  asks_worst : String → Time → Op F
  prunes : Time → Op F

module _ {F : Type 0} ⦃fl : Float F⦄ where
  pub step : Tracker F → Op F → Tracker F
  step t (sets_failure_recorder set) = set_failure_recorder t set
  step t (sets_outcome_recorder set) = set_outcome_recorder t set
  step t (restores_failures w times) = restore_failures t w times
  step t (restores_outcome at lead) = restore_outcome t at lead
  step t (notes_forecast w at) = note_forecast t w at
  step t (restarts w pod at n) = observe_restarts t w pod at n
  step t (reads w pod at usage limit n) = observe t w pod at usage limit n
  step t (runs_version pod version) = observe_version t pod version
  step t (throttles w pod at ratio) = observe_condition t w pod at ratio
  step t (misses_replicas w missing at) = observe_replicas t w missing at
  step t (rolls_out w stalled at) = observe_rollout t w stalled at
  step t (exits_oom w pod oom) = observe_oom t w pod oom
  step t (warns w pod reason message at) = observe_event t w pod reason message at
  step t (asks_worst w now) = (worst t w now).0
  step t (prunes cutoff) = prune t cutoff

  pub run : Tracker F → List (Op F) → Tracker F
  run t [] = t
  run t (op ∷ ops) = run (step t op) ops

  put_release-bound :
      (t : Tracker F) (w : String) (r : Option (ReleaseState F))
      → IsBounded t
      → IsBounded (put_release t w r)
  put_release-bound t w none v = v
  put_release-bound t w (some r) v = record {
    pods_bound = v.pods_bound;
    outcomes_bound = v.outcomes_bound;
  }

  step-IsBounded : (t : Tracker F) (op : Op F) → IsBounded t → IsBounded (step t op)
  unfolding step set_failure_recorder set_outcome_recorder restore_failures restore_outcome
      observe_version worst
  step-IsBounded t (sets_failure_recorder set) v = record {
    pods_bound = v.pods_bound;
    outcomes_bound = v.outcomes_bound;
  }
  step-IsBounded t (sets_outcome_recorder set) v = record {
    pods_bound = v.pods_bound;
    outcomes_bound = v.outcomes_bound;
  }
  step-IsBounded t (restores_failures w times) v = record {
    pods_bound = v.pods_bound;
    outcomes_bound = v.outcomes_bound;
  }
  step-IsBounded t (restores_outcome at lead) v =
      outcome-bound t (record { at = at; lead = lead }) v
  step-IsBounded t (notes_forecast w at) v = note_forecast-bound t w at v
  step-IsBounded t (restarts w pod at n) v = observe_restarts-bound t w pod at n v
  step-IsBounded t (reads w pod at usage limit n) v = observe-bound t w pod at usage limit n v
  step-IsBounded t (runs_version pod version) v = record {
    pods_bound = v.pods_bound;
    outcomes_bound = v.outcomes_bound;
  }
  step-IsBounded t (throttles w pod at ratio) v = observe_condition-bound t w pod at ratio v
  step-IsBounded t (misses_replicas w missing at) v = observe_replicas-bound t w missing at v
  step-IsBounded t (rolls_out w stalled at) v = observe_rollout-bound t w stalled at v
  step-IsBounded t (exits_oom w pod oom) v = observe_oom-bound t w pod oom v
  step-IsBounded t (warns w pod reason message at) v =
      observe_event-bound t w pod reason message at v
  step-IsBounded t (asks_worst w now) v =
      put_release-bound t w (release_estimates (lookup w t.releases) now).0 v
  step-IsBounded t (prunes cutoff) v = prune-bound t cutoff v

  -- A tracker in which each pod holds at most 64 restart times and 120 readings, and which holds at
  -- most 2048 outcomes, stays within these bounds over any sequence of operations.
  pub run-IsBounded : (t : Tracker F) (ops : List (Op F)) → IsBounded t → IsBounded (run t ops)
  unfolding run
  run-IsBounded t [] v = v
  run-IsBounded t (op ∷ ops) v = run-IsBounded (step t op) ops (step-IsBounded t op v)

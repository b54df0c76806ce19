-- ===== src/FailureModes/Tracker.antt =====
-- tracker.go and trackrecord.go: the state that the tracker keeps, and how it records restarts,
-- failures and their outcomes. The operations on it are in the modules below.
pub mod Observe
pub mod Worst
pub mod Report
pub mod Rank
pub mod Bounds
pub mod Restarts
pub mod Outcomes
pub mod Freshness
pub mod Run
pub mod Examples
use ruptura.Base.{
  ℕ, ◌+◌, ◌-◌, ◌*◌, String, Bool, true, false, not, ◌&&◌, ◌||◌, List, [], ◌∷◌, ◌++◌, length, Option,
  some, none, cut_to_last, select, exists, before, after, is_zero, ltb, leb, if◌then◌else◌, ◌==◌,
  string_eq, Dict, lookup, insert, delete, Float, ℤ, pos, sub_ℕ, Time, Duration, minute,
}
use ruptura.FailureModes.Estimate.{Estimate}
use ruptura.FailureModes.Condition
use ruptura.FailureModes.Condition.{Condition}
use ruptura.FailureModes.Saturation
use ruptura.FailureModes.Saturation.{Saturation}
use ruptura.FailureModes.Release
use ruptura.FailureModes.Release.{ReleaseState}

abbrev pub max_restart_history : ℕ
max_restart_history = 64

abbrev pub max_track_record : ℕ
max_track_record = 2048

-- `estimate` and `cond_estimate` stand for the pairs (estimate, valid) and (condEstimate, condValid).
pub record PodState (F : Type 0) : Type 0 where
  pub workload : String
  pub detector : Option (Saturation F)
  pub estimate : Option (Estimate F)
  pub seen : Time
  pub condition : Option Condition
  pub cond_estimate : Option (Estimate F)
  pub cond_seen : Time
  pub restarts : ℕ
  pub counted : Bool
  pub history : List Time
  pub event_seen : Time
  pub event_reason : String
  pub back_off_seen : Time
  pub last_oom : Bool

pub record ReplicaState : Type 0 where
  pub missing : ℕ
  pub since : Time
  pub seen : Time

pub record FailureOutcome : Type 0 where
  pub at : Time
  pub lead : ℤ

-- The two callbacks are modelled by whether they are set and by the calls that they have received.
pub record Tracker (F : Type 0) : Type 0 where
  pub pods : Dict String (PodState F)
  pub replicas : Dict String ReplicaState
  pub rollouts : Dict String Time
  pub failures : Dict String (List Time)
  pub forecasts : Dict String Time
  pub outcomes : List FailureOutcome
  pub recorder : Bool
  pub outcome_recorder : Bool
  pub recorded : List (String × Time)
  pub recorded_outcomes : List FailureOutcome
  pub versions : Dict String String
  pub releases : Dict String (ReleaseState F)

-- m[k] of a map of texts or slices: the zero value if the key is missing
abbrev pub text_at : Option String → String
text_at none = ""
text_at (some s) = s

abbrev pub times_at : Option (List Time) → List Time
times_at none = []
times_at (some ts) = ts

-- The outcome of a failure: its lead is the time since the warning, 0 if there was none.
abbrev pub outcome_for : Option Time → Time → FailureOutcome
outcome_for none at = record { at = at; lead = pos 0 }
outcome_for (some warned) at = record { at = at; lead = sub_ℕ at warned }

module _ {F : Type 0} where
  abbrev pub new_tracker : Tracker F
  new_tracker = record {
    pods = [];
    replicas = [];
    rollouts = [];
    failures = [];
    forecasts = [];
    outcomes = [];
    recorder = false;
    outcome_recorder = false;
    recorded = [];
    recorded_outcomes = [];
    versions = [];
    releases = [];
  }

  abbrev pub new_pod : String → PodState F
  new_pod workload = record {
    workload = workload;
    detector = none;
    estimate = none;
    seen = 0;
    condition = none;
    cond_estimate = none;
    cond_seen = 0;
    restarts = 0;
    counted = false;
    history = [];
    event_seen = 0;
    event_reason = "";
    back_off_seen = 0;
    last_oom = false;
  }

  -- podLocked: the state of a pod, a new one if there is none. The caller stores it again.
  abbrev pub pod_or_new : String → Option (PodState F) → PodState F
  pod_or_new workload none = new_pod workload
  pod_or_new workload (some s) = s

  unfoldable pub pod_locked : Tracker F → String → String → PodState F
  pod_locked t workload pod = pod_or_new workload (lookup pod t.pods)

  abbrev pub put_pod : Tracker F → String → PodState F → Tracker F
  put_pod t pod s = record t { pods = insert pod s t.pods }

  -- recordRestarts, with its result.
  unfoldable pub record_restarts : PodState F → Time → ℕ → PodState F × Bool
  record_restarts s at restarts =
      let grew = s.counted && ltb s.restarts restarts in
      let history = cut_to_last max_restart_history (s.history ++ at ∷ []) in
      (
        record s {
          restarts = restarts;
          counted = true;
          history = if grew then history else s.history;
        },
        grew,
      )

  unfoldable pub append_outcome : Tracker F → FailureOutcome → Tracker F
  append_outcome t o = record t { outcomes = cut_to_last max_track_record (t.outcomes ++ o ∷ []) }

  unfoldable pub record_outcome : Tracker F → String → Time → Tracker F
  unfolding append_outcome
  record_outcome t workload at =
      let o = outcome_for (lookup workload t.forecasts) at in
      let u = append_outcome (record t { forecasts = delete workload t.forecasts }) o in
      if u.outcome_recorder
      then record u { recorded_outcomes = u.recorded_outcomes ++ o ∷ [] }
      else u

  unfoldable pub record_failure : Tracker F → String → Time → Tracker F
  unfolding record_outcome
  record_failure t workload at =
      let history =
        cut_to_last max_restart_history (times_at (lookup workload t.failures) ++ at ∷ []) in
      let u =
        record_outcome (record t { failures = insert workload history t.failures }) workload at in
      if u.recorder then record u { recorded = u.recorded ++ (workload, at) ∷ [] } else u

  -- The steps that ObserveRestarts and Observe share.
  abbrev pub count_restarts : Tracker F → String → Time → Bool → Tracker F
  count_restarts t workload at grew = if grew then record_failure t workload at else t

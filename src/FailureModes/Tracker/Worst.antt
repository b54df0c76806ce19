-- ===== src/FailureModes/Tracker/Worst.antt =====
-- tracker.go (Worst) and the estimates that it reads: what the tracker reports of a workload.
use ruptura.Base.{
  ◌-◌, ◌*◌, String, Bool, true, false, not, ◌&&◌, ◌||◌, List, [], ◌∷◌, ◌++◌, length, last, get_or,
  Option, some, none, is_zero, ltb, leb, if◌then◌else◌, ◌==◌, string_eq, Dict, lookup, insert,
  exists, Float, pos, sub_ℕ, quot_ℤ, lt_ℤ, Time, Duration, minute,
}
use ruptura.FailureModes.Estimate.{
  Estimate, Mode, saturation, startup_stuck, replicas_unavailable, rollout_stuck, oom_killed,
  recurrent_failure, detected, urgency,
}
use ruptura.FailureModes.Recurrence.{next_failure}
use ruptura.FailureModes.Release
use ruptura.FailureModes.Release.{ReleaseState}
use ruptura.FailureModes.Divergence.{divergence}
use ruptura.FailureModes.Tracker.{PodState, ReplicaState, Tracker, text_at, times_at}

abbrev pub estimate_max_age : Duration
estimate_max_age = 3 * minute

abbrev pub startup_event_max_age : Duration
startup_event_max_age = 10 * minute

abbrev pub replicas_sustained : Duration
replicas_sustained = 5 * minute

abbrev pub oom_recent_window : Duration
oom_recent_window = 30 * minute

abbrev is_saturation : Mode → Bool
is_saturation saturation = true
is_saturation _ = false

module _ {F : Type 0} ⦃fl : Float F⦄ where
  -- The step of the closure `consider`.
  abbrev pub consider : Option (Estimate F) → Estimate F → Option (Estimate F)
  consider none e = some e
  consider (some worst) e = if lt_ℤ (urgency e) (urgency worst) then some e else some worst

  abbrev pub consider_all : Option (Estimate F) → List (Estimate F) → Option (Estimate F)
  consider_all worst [] = worst
  consider_all worst (e ∷ es) = consider_all (consider worst e) es

  abbrev to_list : Option (Estimate F) → List (Estimate F)
  to_list none = []
  to_list (some e) = e ∷ []

  unfoldable pub replica_estimate : Option ReplicaState → Time → Option (Estimate F)
  replica_estimate none now = none
  replica_estimate (some s) now =
      if ltb estimate_max_age (now - s.seen) || ltb (s.seen - s.since) replicas_sustained
      then none
      else some (record (detected replicas_unavailable "") { usage = fl.of_int (pos s.missing) })

  unfoldable pub rollout_estimate : Option Time → Time → Option (Estimate F)
  rollout_estimate none now = none
  rollout_estimate (some seen) now =
      if ltb estimate_max_age (now - seen) then none else some (detected rollout_stuck "")

  -- recurrenceEstimate, with the reason that Worst adds.
  unfoldable pub recurrence_estimate : List Time → Bool → Time → Option (Estimate F)
  recurrence_estimate times oom now = elim (next_failure {F = F} times now) [
    | none ↦ none
    | some (remaining, confidence) ↦ some (record (detected recurrent_failure "") {
      etf = remaining;
      confidence = confidence;
      interval =
          quot_ℤ (sub_ℕ (get_or times (length times - 1) 0) (get_or times 0 0)) (length times - 1);
      failures = length times;
      reason = if oom then "OOMKilled" else "";
    })
  ]

  unfoldable pub oom_estimate : PodState F → String → Time → Option (Estimate F)
  oom_estimate s pod now = elim (last s.history) [
    | none ↦ none
    | some at ↦
        if not s.last_oom || ltb oom_recent_window (now - at)
        then none
        else some (detected oom_killed pod)
  ]

  -- An estimate that is at most three minutes old.
  abbrev fresh : Option (Estimate F) → Time → Time → Option (Estimate F)
  fresh e seen now = if leb (now - seen) estimate_max_age then e else none

  -- The pod's saturation estimate, unless a comparison of releases or replicas explains it.
  abbrev unexplained : Bool → Option (Estimate F) → Option (Estimate F)
  unexplained explained none = none
  unexplained explained (some e) = if explained && is_saturation e.mode then none else some e

  abbrev startup_estimate : PodState F → String → Time → Option (Estimate F)
  startup_estimate s pod now =
      if not (is_zero s.event_seen) && leb (now - s.event_seen) startup_event_max_age
      then some (record (detected startup_stuck pod) { reason = s.event_reason })
      else none

  -- The body of the loop over pods.
  unfoldable pub pod_candidates : PodState F → String → Bool → Time → List (Estimate F)
  pod_candidates s pod explained now =
      to_list (unexplained explained (fresh s.estimate s.seen now))
      ++ to_list (fresh s.cond_estimate s.cond_seen now)
      ++ to_list (oom_estimate s pod now)
      ++ to_list (startup_estimate s pod now)

  abbrev is_explained :
      Dict String String → Option (Estimate F) → Option (Estimate F) → String → Bool
  is_explained versions (some regression) divergent pod =
      text_at (lookup pod versions) == regression.version
  is_explained versions none (some divergent) pod = pod == divergent.pod
  is_explained versions none none pod = false

  abbrev pods_candidates :
      (String → Bool) → String → Time → Dict String (PodState F) → List (Estimate F)
  pods_candidates explained workload now [] = []
  pods_candidates explained workload now ((pod, s) ∷ pods) =
      let rest = pods_candidates explained workload now pods in
      if s.workload == workload then pod_candidates s pod (explained pod) now ++ rest else rest

  -- The release estimate that is considered: a regression before a divergence.
  abbrev release_candidate : Option (Estimate F) → Option (Estimate F) → List (Estimate F)
  release_candidate (some regression) divergent = regression ∷ []
  release_candidate none divergent = to_list divergent

  -- lastExitOOM
  abbrev last_exit_oom : Tracker F → String → Bool
  last_exit_oom t workload = exists (λ ks. (ks.1.workload == workload) && ks.1.last_oom) t.pods

  -- The release estimates of a workload, with the state that computing them leaves.
  unfoldable pub release_estimates :
      Option (ReleaseState F)
      → Time
      → Option (ReleaseState F) × Option (Estimate F) × Option (Estimate F)
  release_estimates none now = (none, none, none)
  release_estimates (some r) now =
      let (r', regression) = Release.estimate r now in
      let (r'', divergent) = divergence r' now in (some r'', regression, divergent)

  abbrev pub put_release : Tracker F → String → Option (ReleaseState F) → Tracker F
  put_release t workload none = t
  put_release t workload (some r) = record t { releases = insert workload r t.releases }

  -- Every estimate that Worst considers, in the order of the code.
  unfoldable pub candidates :
      Tracker F → String → Time → Option (Estimate F) → Option (Estimate F) → List (Estimate F)
  unfolding pod_candidates
  candidates t workload now regression divergent =
      release_candidate regression divergent
      ++ pods_candidates (is_explained t.versions regression divergent) workload now t.pods
      ++ to_list (replica_estimate (lookup workload t.replicas) now)
      ++ to_list (rollout_estimate (lookup workload t.rollouts) now)
      ++ to_list (
          recurrence_estimate (times_at (lookup workload t.failures)) (last_exit_oom t workload)
            now)

  unfoldable pub worst : Tracker F → String → Time → Tracker F × Option (Estimate F)
  worst t workload now =
      let (r, regression, divergent) = release_estimates (lookup workload t.releases) now in
      (put_release t workload r, consider_all none (candidates t workload now regression divergent))

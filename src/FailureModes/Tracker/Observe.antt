-- ===== src/FailureModes/Tracker/Observe.antt =====
-- tracker.go, replicas.go, rollout_oom.go, events.go, trackrecord.go: the operations that record an
-- observation. Each holds the lock for its whole length, so a run is a sequence of them.
use ruptura.Base.{
  ℕ, String, Bool, not, ◌&&◌, ◌||◌, List, [], ◌∷◌, length, Option, some, none, select, before,
  after, is_zero, leb, if◌then◌else◌, ◌==◌, string_eq, contains, Dict, lookup, insert, delete,
  Float, ℤ, Time, exists,
}
use ruptura.FailureModes.Estimate.{Estimate}
use ruptura.FailureModes.Condition
use ruptura.FailureModes.Condition.{Condition}
use ruptura.FailureModes.Saturation
use ruptura.FailureModes.Saturation.{Saturation}
use ruptura.FailureModes.Release
use ruptura.FailureModes.Release.{ReleaseState}
use ruptura.FailureModes.Tracker.{
  count_restarts, PodState, Tracker, pod_locked, put_pod, record_restarts, append_outcome, text_at,
}

-- The keys of startupFailureReasons.
abbrev startup_failure_reasons : List String
startup_failure_reasons =
    "FailedMount" ∷ "FailedAttachVolume" ∷ "FailedScheduling" ∷ "FailedCreatePodSandBox"
    ∷ "InvalidImageName" ∷ "FailedCreate" ∷ []

unfoldable pub startup_failure : String → String → Option String
startup_failure reason message =
    let failed_pull =
      reason == "Failed"
      && (contains message "ErrImagePull" || contains message "ImagePullBackOff") in
    let waiting_pull = reason == "BackOff" && contains message "pulling image" in
    if exists (λ r. r == reason) startup_failure_reasons
    then some reason
    else if failed_pull || waiting_pull
    then some "ImagePull"
    else none

unfoldable pub crash_back_off_event : String → String → Bool
crash_back_off_event reason message =
    reason == "BackOff" && contains message "restarting failed container"

module _ {F : Type 0} where
  unfoldable pub set_failure_recorder : Tracker F → Bool → Tracker F
  set_failure_recorder t set = record t { recorder = set }

  unfoldable pub set_outcome_recorder : Tracker F → Bool → Tracker F
  set_outcome_recorder t set = record t { outcome_recorder = set }

  unfoldable pub restore_failures : Tracker F → String → List Time → Tracker F
  restore_failures t workload times = record t { failures = insert workload times t.failures }

  unfoldable pub restore_outcome : Tracker F → Time → ℤ → Tracker F
  unfolding append_outcome
  restore_outcome t at lead = append_outcome t (record { at = at; lead = lead })

  unfoldable pub note_forecast : Tracker F → String → Time → Tracker F
  note_forecast t workload at = elim (lookup workload t.forecasts) [
    | none ↦ record t { forecasts = insert workload at t.forecasts }
    | some _ ↦ t
  ]

  unfoldable pub observe_restarts : Tracker F → String → String → Time → ℕ → Tracker F
  observe_restarts t workload pod at restarts =
      let (s, grew) = record_restarts (pod_locked t workload pod) at restarts in
      put_pod (count_restarts t workload at grew) pod (record s { seen = at })

  unfoldable pub observe_version : Tracker F → String → String → Tracker F
  observe_version t pod version = record t { versions = insert pod version t.versions }

  unfoldable pub observe_replicas : Tracker F → String → ℕ → Time → Tracker F
  observe_replicas t workload missing at =
      let since : Time = elim (lookup workload t.replicas) [
        | none ↦ at
        | some r ↦ if is_zero r.since then at else r.since
      ] in
      if leb missing 0 then record t { replicas = delete workload t.replicas } else record t {
        replicas =
            insert workload (record { missing = missing; since = since; seen = at }) t.replicas;
      }

  unfoldable pub observe_rollout : Tracker F → String → Bool → Time → Tracker F
  observe_rollout t workload stalled at =
      if not stalled
      then record t { rollouts = delete workload t.rollouts }
      else record t { rollouts = insert workload at t.rollouts }

  unfoldable pub observe_oom : Tracker F → String → String → Bool → Tracker F
  observe_oom t workload pod oom =
      put_pod t pod (record (pod_locked t workload pod) { last_oom = oom })

  abbrev pub note_back_off : PodState F → Time → PodState F
  note_back_off s at = if after at s.back_off_seen then record s { back_off_seen = at } else s

  abbrev pub note_event : PodState F → Time → String → PodState F
  note_event s at cause =
      if after at s.event_seen then record s { event_seen = at; event_reason = cause } else s

  unfoldable pub observe_event : Tracker F → String → String → String → String → Time → Tracker F
  observe_event t workload pod reason message at =
      let s = pod_locked t workload pod in
      if crash_back_off_event reason message
      then put_pod t pod (note_back_off s at)
      else elim (startup_failure reason message) [
        | none ↦ t
        | some cause ↦ put_pod t pod (note_event s at cause)
      ]

  abbrev prunable : Time → PodState F → Bool
  prunable cutoff s =
      before s.seen cutoff
      && before s.cond_seen cutoff
      && before s.event_seen cutoff
      && before s.back_off_seen cutoff

  abbrev drop_versions : List (String × PodState F) → Dict String String → Dict String String
  drop_versions [] versions = versions
  drop_versions ((pod, s) ∷ gone) versions = drop_versions gone (delete pod versions)

  abbrev prune_releases : Time → Dict String (ReleaseState F) → Dict String (ReleaseState F)
  prune_releases cutoff [] = []
  prune_releases cutoff ((workload, r) ∷ releases) =
      let q = Release.prune r cutoff in
      let rest = prune_releases cutoff releases in
      if leb (length q.pods) 0 && leb (length q.profiles) 0 then rest else (workload, q) ∷ rest

  unfoldable pub prune : Tracker F → Time → Tracker F
  prune t cutoff = record t {
    pods = select (λ ks. not (prunable cutoff ks.1)) t.pods;
    versions = drop_versions (select (λ ks. prunable cutoff ks.1) t.pods) t.versions;
    releases = prune_releases cutoff t.releases;
  }

abbrev condition_or_new : Option Condition → Condition
condition_or_new none = Condition.new_condition
condition_or_new (some c) = c

module _ {F : Type 0} ⦃fl : Float F⦄ where
  abbrev name_pod : String → Option (Estimate F) → Option (Estimate F)
  name_pod pod none = none
  name_pod pod (some e) = some (record e { pod = pod })

  abbrev pub detector_or_new : Option (Saturation F) → Saturation F
  detector_or_new none = Saturation.new_saturation
  detector_or_new (some s) = s

  abbrev release_or_new : Option (ReleaseState F) → ReleaseState F
  release_or_new none = Release.new_release_state
  release_or_new (some r) = r

  -- The last step of Observe: the release state of the workload, if the pod's version is known.
  unfoldable pub observe_release : Tracker F → String → String → Time → F → F → Tracker F
  observe_release t workload pod at usage capacity =
      let version = text_at (lookup pod t.versions) in
      let r =
        Release.observe (release_or_new (lookup workload t.releases)) pod version at usage
          capacity in
      if version == "" then t else record t { releases = insert workload r t.releases }

  unfoldable pub observe : Tracker F → String → String → Time → F → F → ℕ → Tracker F
  observe t workload pod at usage capacity restarts =
      let (s, grew) = record_restarts (pod_locked t workload pod) at restarts in
      let (detector, found) =
        Saturation.observe (detector_or_new s.detector) at usage capacity restarts in
      let u =
        put_pod (count_restarts t workload at grew) pod
          (record s { detector = some detector; estimate = name_pod pod found; seen = at }) in
      observe_release u workload pod at usage capacity

  unfoldable pub observe_condition : Tracker F → String → String → Time → F → Tracker F
  observe_condition t workload pod at ratio =
      let s = pod_locked t workload pod in
      let (condition, found) = Condition.observe (condition_or_new s.condition) at ratio in
      put_pod t pod (record s {
        condition = some condition;
        cond_estimate = name_pod pod found;
        cond_seen = at;
      })

-- ===== src/FailureModes/Tracker/Bounds.antt =====
-- The memory of the tracker stays bounded per pod, whatever it observes.
use ruptura.Base.{
  ℕ, ◌≤◌, ◌≡◌, sym, subst, inl, inr, String, Bool, true, false, [], ◌∷◌, ◌++◌, length, Option, some,
  none, arith, All, All-select, Bool-cases, ltb, Option-cases, Float, Time, lookup, All-insert,
  All-lookup, string_eq, length-cut_to_last,
}
use ruptura.FailureModes.Saturation
use ruptura.FailureModes.Saturation.Window
use ruptura.FailureModes.Saturation.{Saturation, saturation_max_samples, push_point, cut_stale}
use ruptura.FailureModes.Tracker.{
  PodState, FailureOutcome, Tracker, pod_locked, put_pod, record_restarts, record_failure,
  append_outcome, count_restarts, outcome_for, max_restart_history, max_track_record,
}
use ruptura.FailureModes.Tracker.Observe.{
  note_forecast, observe_restarts, observe_replicas, observe_rollout, observe_oom, observe_event,
  note_event, note_back_off, crash_back_off_event, startup_failure, prune, observe_release, observe,
  observe_condition, detector_or_new,
}

module _ {F : Type 0} where
  abbrev WindowBound : Option (Saturation F) → Type 0
  WindowBound none = Unit
  WindowBound (some d) = length d.points ≤ saturation_max_samples

  pub record IsBoundedPod (s : PodState F) : Type 0 where
    pub history_bound : length s.history ≤ max_restart_history
    pub window_bound : WindowBound s.detector

  pub record IsBounded (t : Tracker F) : Type 0 where
    pub pods_bound : All (λ ks. IsBoundedPod ks.1) t.pods
    pub outcomes_bound : length t.outcomes ≤ max_track_record

  pod_locked-bound :
      (t : Tracker F) (w pod : String) → IsBounded t → IsBoundedPod (pod_locked t w pod)
  unfolding pod_locked
  pod_locked-bound t w pod v = elim (Option-cases (lookup pod t.pods)) [
    | inl missing ↦ rw missing (record { history_bound = omega arith; window_bound = tt })
    | inr (s, found) ↦ rw found (All-lookup IsBoundedPod pod t.pods v.pods_bound found)
  ]

  pub put_pod-bound :
      (t : Tracker F) (pod : String) (s : PodState F)
      → IsBoundedPod s
      → IsBounded t
      → IsBounded (put_pod t pod s)
  put_pod-bound t pod s b v = record {
    pods_bound = All-insert IsBoundedPod pod s t.pods b v.pods_bound;
    outcomes_bound = v.outcomes_bound;
  }

  pub restarts-bound :
      (s : PodState F) (at : Time) (n : ℕ)
      → IsBoundedPod s
      → IsBoundedPod (record_restarts s at n).0
  unfolding record_restarts
  restarts-bound s at n b = record {
    history_bound =
        ground
          (arith, b.history_bound, length-cut_to_last max_restart_history (s.history ++ at ∷ []));
    window_bound = b.window_bound;
  }

  pub outcome-bound :
      (t : Tracker F) (o : FailureOutcome) → IsBounded t → IsBounded (append_outcome t o)
  unfolding append_outcome
  outcome-bound t o v = record {
    pods_bound = v.pods_bound;
    outcomes_bound = length-cut_to_last max_track_record (t.outcomes ++ o ∷ []);
  }

  -- The fields that the invariant reads.
  abbrev Same : Tracker F → Tracker F → Type 0
  Same t u = (u.pods ≡ t.pods) × (u.outcomes ≡ t.outcomes)

  Same-bound : (t u : Tracker F) → Same t u → IsBounded t → IsBounded u
  Same-bound t u (p, o) v = record {
    pods_bound = subst (λ m. All (λ ks. IsBoundedPod ks.1) m) (sym p) v.pods_bound;
    outcomes_bound = subst (λ os. length os ≤ max_track_record) (sym o) v.outcomes_bound;
  }

  failure_fields :
      (t : Tracker F) (w : String) (at : Time)
      → ((record_failure t w at).pods ≡ t.pods)
        × (length (record_failure t w at).outcomes ≤ max_track_record)
  unfolding record_failure
  failure_fields t w at = (
    ground arith,
    ground (
      arith,
      length-cut_to_last max_track_record
          (t.outcomes ++ outcome_for (lookup w t.forecasts) at ∷ []),
    ),
  )

  pub failure-bound :
      (t : Tracker F) (w : String) (at : Time) → IsBounded t → IsBounded (record_failure t w at)
  failure-bound t w at v = record {
    pods_bound =
        subst (λ m. All (λ ks. IsBoundedPod ks.1) m) (sym (failure_fields t w at).0) v.pods_bound;
    outcomes_bound = (failure_fields t w at).1;
  }

  pub count-bound :
      (t : Tracker F) (w : String) (at : Time) (grew : Bool)
      → IsBounded t
      → IsBounded (count_restarts t w at grew)
  count-bound t w at true v = failure-bound t w at v
  count-bound t w at false v = v

  pub observe_restarts-bound :
      (t : Tracker F) (w pod : String) (at : Time) (n : ℕ)
      → IsBounded t
      → IsBounded (observe_restarts t w pod at n)
  unfolding observe_restarts
  observe_restarts-bound t w pod at n v =
      let b = restarts-bound (pod_locked t w pod) at n (pod_locked-bound t w pod v) in
      put_pod-bound (count_restarts t w at (record_restarts (pod_locked t w pod) at n).1) pod _
        (record { history_bound = b.history_bound; window_bound = b.window_bound })
        (count-bound t w at (record_restarts (pod_locked t w pod) at n).1 v)

  pub note_forecast-bound :
      (t : Tracker F) (w : String) (at : Time) → IsBounded t → IsBounded (note_forecast t w at)
  unfolding note_forecast
  note_forecast-bound t w at v = Same-bound t _ (ground arith, ground arith) v

  pub observe_replicas-bound :
      (t : Tracker F) (w : String) (missing : ℕ) (at : Time)
      → IsBounded t
      → IsBounded (observe_replicas t w missing at)
  unfolding observe_replicas
  observe_replicas-bound t w missing at v = Same-bound t _ (ground arith, ground arith) v

  pub observe_rollout-bound :
      (t : Tracker F) (w : String) (stalled : Bool) (at : Time)
      → IsBounded t
      → IsBounded (observe_rollout t w stalled at)
  unfolding observe_rollout
  observe_rollout-bound t w stalled at v = Same-bound t _ (ground arith, ground arith) v

  back_off_bound : (s : PodState F) (at : Time) → IsBoundedPod s → IsBoundedPod (note_back_off s at)
  back_off_bound s at b = elim (Bool-cases (ltb s.back_off_seen at)) [
    | inl newer ↦
        rw newer (record { history_bound = b.history_bound; window_bound = b.window_bound })
    | inr older ↦ rw older b
  ]

  event_bound :
      (s : PodState F) (at : Time) (cause : String)
      → IsBoundedPod s
      → IsBoundedPod (note_event s at cause)
  event_bound s at cause b = elim (Bool-cases (ltb s.event_seen at)) [
    | inl newer ↦
        rw newer (record { history_bound = b.history_bound; window_bound = b.window_bound })
    | inr older ↦ rw older b
  ]

  pub observe_event-bound :
      (t : Tracker F) (w pod reason message : String) (at : Time)
      → IsBounded t
      → IsBounded (observe_event t w pod reason message at)
  unfolding observe_event
  observe_event-bound t w pod reason message at v =
      elim (Bool-cases (crash_back_off_event reason message)) [
        | inl loop ↦ rw loop (put_pod-bound t pod _ (back_off_bound s at b) v)
        | inr other ↦ rw other (elim (Option-cases (startup_failure reason message)) [
          | inl ignored ↦ rw ignored v
          | inr (cause, found) ↦ rw found (put_pod-bound t pod _ (event_bound s at cause b) v)
        ])
      ]
    where
      s : PodState F
      s = pod_locked t w pod

      b : IsBoundedPod s
      b = pod_locked-bound t w pod v

  pub prune-bound : (t : Tracker F) (cutoff : Time) → IsBounded t → IsBounded (prune t cutoff)
  unfolding prune
  prune-bound t cutoff v = record {
    pods_bound = All-select (λ ks. IsBoundedPod ks.1) _ t.pods v.pods_bound;
    outcomes_bound = v.outcomes_bound;
  }

  pub observe_oom-bound :
      (t : Tracker F) (w pod : String) (oom : Bool)
      → IsBounded t
      → IsBounded (observe_oom t w pod oom)
  unfolding observe_oom
  observe_oom-bound t w pod oom v =
      let b = pod_locked-bound t w pod v in
      put_pod-bound t pod _
        (record { history_bound = b.history_bound; window_bound = b.window_bound }) v

module _ {F : Type 0} ⦃fl : Float F⦄ where
  pub detector-bound :
      (d : Option (Saturation F)) (at : Time) (usage limit : F) (n : ℕ)
      → WindowBound d
      → length (Saturation.observe (detector_or_new d) at usage limit n).0.points
        ≤ saturation_max_samples
  detector-bound none at usage limit n b =
      Window.observe-le Saturation.new_saturation at usage limit n (omega arith)
  detector-bound (some d) at usage limit n b = Window.observe-le d at usage limit n b

  pub release-bound :
      (t : Tracker F) (w pod : String) (at : Time) (usage limit : F)
      → IsBounded t
      → IsBounded (observe_release t w pod at usage limit)
  unfolding observe_release
  release-bound t w pod at usage limit v = Same-bound t _ (ground arith, ground arith) v

  pub observe-bound :
      (t : Tracker F) (w pod : String) (at : Time) (usage limit : F) (n : ℕ)
      → IsBounded t
      → IsBounded (observe t w pod at usage limit n)
  unfolding observe
  observe-bound t w pod at usage limit n v =
      let s = pod_locked t w pod in
      let b = restarts-bound s at n (pod_locked-bound t w pod v) in
      let r = record_restarts s at n in
      release-bound _ w pod at usage limit (
        put_pod-bound (count_restarts t w at r.1) pod _
          (record {
            history_bound = b.history_bound;
            window_bound = detector-bound r.0.detector at usage limit n b.window_bound;
          })
          (count-bound t w at r.1 v))

  pub observe_condition-bound :
      (t : Tracker F) (w pod : String) (at : Time) (ratio : F)
      → IsBounded t
      → IsBounded (observe_condition t w pod at ratio)
  unfolding observe_condition
  observe_condition-bound t w pod at ratio v =
      let b = pod_locked-bound t w pod v in
      put_pod-bound t pod _
        (record { history_bound = b.history_bound; window_bound = b.window_bound }) v

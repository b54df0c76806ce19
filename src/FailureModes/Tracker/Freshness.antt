-- ===== src/FailureModes/Tracker/Freshness.antt =====
-- How long the saturation estimate of a pod stays in play when no new reading comes.
use ruptura.Base.{
  ℕ, ◌-◌, ◌≤◌, ◌≡◌, refl, inl, String, false, some, Has, le→leb, Float, Time, lookup,
  lookup-insert_self, string_eq,
}
use ruptura.FailureModes.Estimate.{Estimate}
use ruptura.FailureModes.Tracker.{PodState, Tracker, pod_locked, record_restarts}
use ruptura.FailureModes.Tracker.Observe.{observe_restarts}
use ruptura.FailureModes.Tracker.Worst.{pod_candidates, estimate_max_age}

module _ {F : Type 0} ⦃fl : Float F⦄ where
  pod_candidates_first :
      (s : PodState F) (pod : String) (now : Time) (e : Estimate F)
      → s.estimate ≡ some e
      → now - s.seen ≤ estimate_max_age
      → Has e (pod_candidates s pod false now)
  unfolding pod_candidates
  pod_candidates_first s pod now e has young =
      rw (has, le→leb (now - s.seen) estimate_max_age young) (inl refl)

  pod_locked-found :
      (t : Tracker F) (workload pod : String) (s : PodState F)
      → lookup pod t.pods ≡ some s
      → pod_locked t workload pod ≡ s
  unfolding pod_locked
  pod_locked-found t workload pod s found = rw found

  -- Where a pod has a saturation estimate, each restart count that comes in without a reading puts it
  -- back among the candidates for three minutes, however old the reading is that it rests on.
  pub observe_restarts_revives :
      (t : Tracker F) (workload pod : String) (at now : Time) (restarts : ℕ) (s : PodState F)
      (e : Estimate F)
      → lookup pod t.pods ≡ some s
      → s.estimate ≡ some e
      → now - at ≤ estimate_max_age
      → (s' : PodState F) × (lookup pod (observe_restarts t workload pod at restarts).pods
          ≡ some s')
        × (s'.estimate ≡ some e)
        × Has e (pod_candidates s' pod false now)
  unfolding observe_restarts record_restarts
  observe_restarts_revives t workload pod at now restarts s e found has young =
      (after, lookup-insert_self pod after _, kept, pod_candidates_first after pod now e kept young)
    where
      after : PodState F
      after = record ((record_restarts (pod_locked t workload pod) at restarts).0) { seen = at }

      kept : after.estimate ≡ some e
      kept = rw (pod_locked-found t workload pod s found) has

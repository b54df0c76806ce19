-- ===== src/FailureModes/Tracker/Restarts.antt =====
-- Which restarts of a pod count as failures.
use ruptura.Base.{
  ℕ, ◌≡◌, refl, sym, ◌∙◌, ap, String, Bool, true, ◌&&◌, List, [], ◌∷◌, ◌++◌, map, arith, Bool-cases,
  inl, inr, ltb, Time, lookup-insert_self, string_eq, if◌then◌else◌,
}
use mathlib.Core.List.{append_assoc, append-nil}
use ruptura.FailureModes.Tracker.{
  PodState, Tracker, pod_locked, pod_or_new, record_restarts, record_failure, record_outcome,
  append_outcome,
}
use ruptura.FailureModes.Tracker.Observe.{observe_restarts}

-- The times at which a sequence of restart counts grew. The first count of a pod is history.
abbrev pub growth_times : Bool → ℕ → List (Time × ℕ) → List Time
growth_times counted restarts [] = []
growth_times counted restarts ((at, n) ∷ samples) =
    let rest = growth_times true n samples in if counted && ltb restarts n then at ∷ rest else rest

module _ {F : Type 0} where
  -- ObserveRestarts for each count of a pod.
  pub feed : Tracker F → String → String → List (Time × ℕ) → Tracker F
  feed t workload pod [] = t
  feed t workload pod ((at, n) ∷ samples) =
      feed (observe_restarts t workload pod at n) workload pod samples

  pod_after :
      (t : Tracker F) (workload pod : String) (at : Time) (n : ℕ)
      → let s = pod_locked (observe_restarts t workload pod at n) workload pod in
        (s.counted ≡ true) × (s.restarts ≡ n)
  unfolding observe_restarts pod_locked record_restarts
  pod_after t workload pod at n = rw (lookup-insert_self pod _ _, pod_or_new) (refl, refl)

  recorded_after :
      (t : Tracker F) (workload pod : String) (at : Time) (n : ℕ)
      → let s = pod_locked t workload pod in
        let u = observe_restarts t workload pod at n in
        t.recorder ≡ true
        → (u.recorder ≡ true)
          × (u.recorded ≡ (
              if s.counted && ltb s.restarts n
              then t.recorded ++ (workload, at) ∷ []
              else t.recorded))
  unfolding observe_restarts record_restarts record_failure record_outcome append_outcome
  recorded_after t workload pod at n on = ground arith

  -- The claim for a longer sequence, from the claim for its tail.
  recorded_step :
      (t : Tracker F) (workload pod : String) (at : Time) (n : ℕ) (samples : List (Time × ℕ))
      → t.recorder ≡ true
      → let s = pod_locked t workload pod in
        let u = observe_restarts t workload pod at n in
        let s' = pod_locked u workload pod in
        let call : Time → String × Time = λ at. (workload, at) in
        (feed u workload pod samples).recorded
          ≡ u.recorded ++ map call (growth_times s'.counted s'.restarts samples)
        → (feed u workload pod samples).recorded
          ≡ t.recorded ++ map call (growth_times s.counted s.restarts ((at, n) ∷ samples))
  recorded_step t workload pod at n samples on rest =
      elim (Bool-cases (s.counted && ltb s.restarts n)) [
        | inl grew ↦ rw grew (
            tail
            ∙ ap (λ l. l ++ map call later) (log.1 ∙ rw grew)
            ∙ append_assoc t.recorded ((workload, at) ∷ []) (map call later))
        | inr same ↦ rw same (tail ∙ ap (λ l. l ++ map call later) (log.1 ∙ rw same))
      ]
    where
      s : PodState F
      s = pod_locked t workload pod

      u : Tracker F
      u = observe_restarts t workload pod at n

      call : Time → String × Time
      call at = (workload, at)

      later : List Time
      later = growth_times true n samples

      log :
          (u.recorder ≡ true)
          × (u.recorded ≡ (
              if s.counted && ltb s.restarts n
              then t.recorded ++ (workload, at) ∷ []
              else t.recorded))
      log = recorded_after t workload pod at n on

      tail : (feed u workload pod samples).recorded ≡ u.recorded ++ map call later
      tail = rw (pod_after t workload pod at n).0 at (rw (pod_after t workload pod at n).1 at rest)

  -- With a recorder set, the calls that it receives from a sequence of restart counts of a pod are
  -- one for each count that is larger than the one before it, at that count's time and in order. The
  -- first count of a pod that the tracker does not know makes no call.
  pub recorded-feed :
      (t : Tracker F) (workload pod : String) (samples : List (Time × ℕ))
      → t.recorder ≡ true
      → let s = pod_locked t workload pod in
        (feed t workload pod samples).recorded
        ≡ t.recorded ++ map (λ at. (workload, at)) (growth_times s.counted s.restarts samples)
  unfolding feed
  recorded-feed t workload pod [] on = sym (append-nil t.recorded)
  recorded-feed t workload pod ((at, n) ∷ samples) on =
      recorded_step t workload pod at n samples on (
        recorded-feed (observe_restarts t workload pod at n) workload pod samples
          (recorded_after t workload pod at n on).0)

-- ===== src/FailureModes/Divergence.antt =====
-- divergence.go: one replica that outgrows the others of its version.
use ruptura.Base.{
  ℕ, ◌-◌, ◌*◌, ◌/◌, String, Bool, not, ◌&&◌, ◌||◌, List, [], ◌∷◌, length, Option, some, none,
  select, get_or, sort_by, is_zero, ltb, leb, if◌then◌else◌, ◌==◌, string_eq, Dict, Float, pos,
  lt_ℤ, Time, Duration, minute,
}
use ruptura.FailureModes.Estimate.{Estimate, replica_divergence, detected}
use ruptura.FailureModes.Slopes.{failure_band, time_to_fill}
use ruptura.FailureModes.Release.{
  ReleasePod, ReleaseState, release_min_age, release_horizon, rate_band, at_least_floor, last_usage,
  over_pods,
}

abbrev pub divergence_min_replicas : ℕ
divergence_min_replicas = 3

abbrev pub divergence_window : Duration
divergence_window = 5 * minute

abbrev pub divergence_sustain : Duration
divergence_sustain = 5 * minute

module _ {F : Type 0} ⦃fl : Float F⦄ where
  -- The test that puts a pod into the group of its version.
  abbrev grouped : Time → ReleasePod F → Bool
  grouped now p =
      leb release_min_age (now - p.first_seen)
      && fl.lt (fl.milli 0) p.capacity
      && ltb 0 (length p.samples)

  -- The pods of one group.
  abbrev group_of : Time → String → Dict String (ReleasePod F) → Dict String (ReleasePod F)
  group_of now version pods = select (λ kp. grouped now kp.1 && (kp.1.version == version)) pods

  -- The growth rates of the other members, as far as they have one.
  other_rates : Time → String → Dict String (ReleasePod F) → List F
  other_rates now name [] = []
  other_rates now name ((other, p) ∷ group) =
      let rest = other_rates now name group in
      if other == name then rest else elim (rate_band p.samples (now - divergence_window)) [
        | none ↦ rest
        | some (r, low, high) ↦ r ∷ rest
      ]

  divergence_of :
      Time → String → ReleasePod F → List F → F → F × F × F → ReleasePod F × Option (Estimate F)
  divergence_of now name p others used (r, low, high) =
      let sibling_rate = get_or (sort_by fl.lt others) (length others / 2) (fl.milli 0) in
      let reference = at_least_floor sibling_rate in
      let q = record p {
        divergent_since = if is_zero p.divergent_since then now else p.divergent_since;
      } in
      let room = fl.sub p.capacity used in
      let etf = time_to_fill room r in
      let (early, late) = failure_band room low high in
      let e = record (detected replica_divergence name) {
        etf = etf;
        etf_early = early;
        etf_late = late;
        usage = fl.div used p.capacity;
        version = p.version;
        rate = r;
        previous_rate = sibling_rate;
        siblings = length others;
      } in
      if fl.le r (fl.mul (fl.milli 3000) reference) || fl.le p.capacity used
      then (record p { divergent_since = 0 }, none)
      else if ltb (now - q.divergent_since) divergence_sustain || lt_ℤ (pos release_horizon) etf
      then (q, none)
      else (q, some e)

  diverge_pod :
      Time → Dict String (ReleasePod F) → String → ReleasePod F → ReleasePod F × Option (Estimate F)
  unfolding other_rates divergence_of
  diverge_pod now pods name p =
      let group = group_of now p.version pods in
      let others = other_rates now name group in
      if not (grouped now p) || ltb (length group) divergence_min_replicas
      then (p, none)
      else elim (last_usage p.samples) [
        | none ↦ (p, none)
        | some used ↦ elim (rate_band p.samples (now - divergence_window)) [
          | none ↦ (record p { divergent_since = 0 }, none)
          | some band ↦
              if ltb (length others) (divergence_min_replicas - 1)
              then (record p { divergent_since = 0 }, none)
              else divergence_of now name p others used band
        ]
      ]

  -- The loops over groups and members. The code visits the groups in an order of Go's choosing; the
  -- list visits the pods, and both keep the first of the smallest times to failure.
  unfoldable pub divergence : ReleaseState F → Time → ReleaseState F × Option (Estimate F)
  unfolding diverge_pod over_pods
  divergence s now =
      let (pods, best) = over_pods (diverge_pod now s.pods) s.pods none in
      (record s { pods = pods }, best)

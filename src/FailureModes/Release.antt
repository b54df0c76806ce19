-- ===== src/FailureModes/Release.antt =====
-- release.go: the memory growth of the pods of one workload, by version.
use ruptura.Base.{
  ℕ, ◌-◌, ◌*◌, ◌/◌, String, Bool, true, not, ◌&&◌, ◌||◌, List, [], ◌∷◌, ◌++◌, length, Option, some,
  none, select, get_or, last, cut_to_last, sort_by, before, after, is_zero, ltb, if◌then◌else◌,
  ◌==◌, string_eq, Dict, lookup, insert, Float, pos, lt_ℤ, Time, Duration, minute, hour,
}
use ruptura.FailureModes.Estimate.{Estimate, release_regression, detected}
use ruptura.FailureModes.Slopes.{Point, pair_slopes, slope_band, failure_band, time_to_fill}

abbrev pub release_min_age : Duration
release_min_age = 6 * minute

abbrev pub release_window : Duration
release_window = 3 * minute

abbrev pub release_sustain : Duration
release_sustain = 5 * minute

abbrev pub release_horizon : Duration
release_horizon = 2 * hour

abbrev pub release_steady : Duration
release_steady = 15 * minute

abbrev pub release_max_samples : ℕ
release_max_samples = 240

abbrev pub release_profile_ttl : Duration
release_profile_ttl = 24 * hour

pub record ReleasePod (F : Type 0) : Type 0 where
  pub version : String
  pub first_seen : Time
  pub samples : List (Point F)
  pub capacity : F
  pub since : Time
  pub divergent_since : Time

pub record VersionProfile (F : Type 0) : Type 0 where
  pub rate : F
  pub at : Time

pub record ReleaseState (F : Type 0) : Type 0 where
  pub pods : Dict String (ReleasePod F)
  pub profiles : Dict String (VersionProfile F)

module _ {F : Type 0} where
  abbrev pub new_release_state : ReleaseState F
  new_release_state = record { pods = []; profiles = [] }

  -- prune: pods by their last sample, profiles by their age.
  pub stale_pod : Time → ReleasePod F → Bool
  stale_pod cutoff p = elim (last p.samples) [ none ↦ true | some s ↦ before s.at cutoff ]

  unfoldable pub prune : ReleaseState F → Time → ReleaseState F
  unfolding stale_pod
  prune s cutoff = record {
    pods = select (λ kp. not (stale_pod cutoff kp.1)) s.pods;
    profiles = select (λ kp. not (before kp.1.at (cutoff - release_profile_ttl))) s.profiles;
  }

module _ {F : Type 0} ⦃fl : Float F⦄ where
  -- rateBand: the median slope of the samples since `from`, and the quartiles.
  pub rate_of_slopes : List F → Option (F × F × F)
  rate_of_slopes [] = none
  rate_of_slopes (x ∷ xs) =
      let slopes = x ∷ xs in
      let (low, high) = slope_band slopes in some (get_or slopes (length slopes / 2) x, low, high)

  unfoldable pub rate_band : List (Point F) → Time → Option (F × F × F)
  unfolding rate_of_slopes
  rate_band samples from =
      let pts = select (λ p. not (before p.at from)) samples in
      if ltb (length pts) 5 then none else rate_of_slopes (pair_slopes pts)

  abbrev new_pod : String → Time → ReleasePod F
  new_pod version at = record {
    version = version;
    first_seen = at;
    samples = [];
    capacity = fl.milli 0;
    since = 0;
    divergent_since = 0;
  }

  -- The pod to extend: the one kept, if it still runs this version.
  abbrev pod_for : Option (ReleasePod F) → String → Time → ReleasePod F
  pod_for none version at = new_pod version at
  pod_for (some p) version at = if p.version == version then p else new_pod version at

  unfoldable pub observe : ReleaseState F → String → String → Time → F → F → ReleaseState F
  observe s pod version at usage capacity =
      let p = pod_for (lookup pod s.pods) version at in
      let samples = p.samples ++ record { at = at; usage = usage } ∷ [] in
      let q = record p { samples = cut_to_last release_max_samples samples; capacity = capacity } in
      if version == "" then s else record s { pods = insert pod q s.pods }

  -- The rates of each version whose pods have run long enough.
  collect_rate : Time → ReleasePod F → Dict String (List F) → Dict String (List F)
  collect_rate now p rates =
      let from = now - (release_steady - release_min_age) in
      if ltb (now - p.first_seen) release_steady then rates else elim (rate_band p.samples from) [
        | none ↦ rates
        | some (r, low, high) ↦
            insert p.version
              (elim (lookup p.version rates) [ none ↦ r ∷ [] | some rs ↦ rs ++ r ∷ [] ]) rates
      ]

  collect_rates : Time → Dict String (ReleasePod F) → Dict String (List F) → Dict String (List F)
  unfolding collect_rate
  collect_rates now [] rates = rates
  collect_rates now ((name, p) ∷ pods) rates = collect_rates now pods (collect_rate now p rates)

  store_profiles :
      Time → Dict String (List F) → Dict String (VersionProfile F) → Dict String (VersionProfile F)
  store_profiles now [] profiles = profiles
  store_profiles now ((version, rs) ∷ rates) profiles =
      let sorted = sort_by fl.lt rs in
      let median = get_or sorted (length rs / 2) (fl.milli 0) in
      store_profiles now rates (insert version (record { rate = median; at = now }) profiles)

  unfoldable pub refresh_profiles : ReleaseState F → Time → ReleaseState F
  unfolding collect_rates store_profiles
  refresh_profiles s now = record s {
    profiles = store_profiles now (collect_rates now s.pods []) s.profiles;
  }

  -- The version of the pod that started last, `""` if there is none.
  newest_version : String × Time → Dict String (ReleasePod F) → String
  newest_version (version, start) [] = version
  newest_version (version, start) ((name, p) ∷ pods) =
      newest_version
        (if after p.first_seen start then (p.version, p.first_seen) else (version, start)) pods

  -- The latest profile of another version, `""` if there is none.
  previous_version : String → String × Time → Dict String (VersionProfile F) → String
  previous_version newest (version, at) [] = version
  previous_version newest (version, at) ((v, profile) ∷ profiles) =
      previous_version newest
        (if not (v == newest) && after profile.at at then (v, profile.at) else (version, at))
        profiles

  -- 0.25 * 1024 * 1024 / 60 bytes per second
  abbrev pub release_floor : F
  release_floor = fl.div (fl.of_int (pos 262144)) (fl.of_int (pos 60))

  abbrev pub at_least_floor : F → F
  at_least_floor r = if fl.lt r release_floor then release_floor else r

  abbrev pub last_usage : List (Point F) → Option F
  last_usage samples = elim (last samples) [ none ↦ none | some p ↦ some p.usage ]

  -- What one pod of the newest version adds: its `since` mark, and its estimate.
  regression_of :
      Time
      → String
      → String
      → F
      → String
      → ReleasePod F
      → F
      → F × F × F
      → ReleasePod F × Option (Estimate F)
  regression_of now newest previous prev_rate name p used (r, low, high) =
      let reference = at_least_floor prev_rate in
      let regressing = fl.lt (fl.mul (fl.milli 3000) reference) r && fl.lt used p.capacity in
      let q = record p { since = if is_zero p.since then now else p.since } in
      let room = fl.sub p.capacity used in
      let etf = time_to_fill room r in
      let (early, late) = failure_band room low high in
      let e = record (detected release_regression name) {
        etf = etf;
        etf_early = early;
        etf_late = late;
        usage = fl.div used p.capacity;
        version = newest;
        previous_version = previous;
        rate = r;
        previous_rate = prev_rate;
      } in
      if not regressing
      then (record p { since = 0 }, none)
      else if ltb (now - q.since) release_sustain || lt_ℤ (pos release_horizon) etf
      then (q, none)
      else (q, some e)

  regress_pod :
      Time → String → String → F → String → ReleasePod F → ReleasePod F × Option (Estimate F)
  unfolding regression_of
  regress_pod now newest previous prev_rate name p =
      let skip =
        not (p.version == newest)
        || ltb (now - p.first_seen) release_min_age
        || fl.le p.capacity (fl.milli 0) in
      if skip then (p, none) else elim (last_usage p.samples) [
        | none ↦ (p, none)
        | some used ↦ elim (rate_band p.samples (now - release_window)) [
          | none ↦ (record p { since = 0 }, none)
          | some band ↦ regression_of now newest previous prev_rate name p used band
        ]
      ]

  -- The smaller time to failure; the first one on a tie.
  abbrev pub sooner : Option (Estimate F) → Option (Estimate F) → Option (Estimate F)
  sooner none e = e
  sooner (some best) none = some best
  sooner (some best) (some e) = if lt_ℤ e.etf best.etf then some e else some best

  -- The loop over pods, for a function of one pod.
  unfoldable pub over_pods :
      (String → ReleasePod F → ReleasePod F × Option (Estimate F))
      → Dict String (ReleasePod F)
      → Option (Estimate F)
      → Dict String (ReleasePod F) × Option (Estimate F)
  over_pods f [] best = ([], best)
  over_pods f ((name, p) ∷ pods) best =
      let (q, e) = f name p in
      let (rest, final) = over_pods f pods (sooner best e) in ((name, q) ∷ rest, final)

  unfoldable pub estimate : ReleaseState F → Time → ReleaseState F × Option (Estimate F)
  unfolding refresh_profiles newest_version previous_version regress_pod over_pods
  estimate s now =
      let t = refresh_profiles s now in
      let newest = newest_version ("", 0) t.pods in
      let previous = previous_version newest ("", 0) t.profiles in
      let prev_rate : F = elim (lookup previous t.profiles) [
        | none ↦ fl.milli 0
        | some p ↦ p.rate
      ] in
      let (pods, best) = over_pods (regress_pod now newest previous prev_rate) t.pods none in
      if newest == "" || previous == "" then (t, none) else (record t { pods = pods }, best)

-- ===== src/FailureModes/Tracker/Report.antt =====
-- tracker.go, events.go, recent.go, series.go, trackrecord.go: the read-only reports of the tracker.
use ruptura.Base.{
  ℕ, ◌+◌, ◌-◌, ◌*◌, ◌/◌, String, Bool, not, ◌&&◌, ◌||◌, List, [], ◌∷◌, length, get_or, map, select,
  exists, before, after, is_zero, leb, ltb, if◌then◌else◌, ◌==◌, string_eq, Dict, sort_by, ℤ, pos,
  lt_ℤ, le_ℤ, Time, Duration, minute,
}
use ruptura.FailureModes.Tracker.{PodState, FailureOutcome, Tracker}

abbrev pub crash_back_off_max_age : Duration
crash_back_off_max_age = 10 * minute

abbrev pub track_record_min_lead : ℤ
track_record_min_lead = pos (5 * minute)

pub record TrackRecord : Type 0 where
  pub failures : ℕ
  pub warned : ℕ
  pub median_lead : ℤ

-- The outcomes in the period, and the leads that count as a warning.
abbrev pub in_period : Time → Time → FailureOutcome → Bool
in_period from to o = not (before o.at from || after o.at to)

abbrev pub is_warned : FailureOutcome → Bool
is_warned o = le_ℤ track_record_min_lead o.lead

recent_of : Time → Duration → List Time → ℕ
recent_of now window history = length (select (λ at. leb (now - at) window) history)

recent_in : Dict String (List Time) → Time → Dict String (List Time)
recent_in [] since = []
recent_in ((workload, times) ∷ failures) since =
    let recent = select (λ at. not (before at since)) times in
    let rest = recent_in failures since in
    if ltb 0 (length recent) then (workload, recent) ∷ rest else rest

module _ {F : Type 0} where
  unfoldable pub track_record : Tracker F → Time → Time → TrackRecord
  track_record t from to =
      let failures = select (in_period from to) t.outcomes in
      let leads = map (λ o. o.lead) (select is_warned failures) in
      record {
        failures = length failures;
        warned = length leads;
        median_lead = get_or (sort_by lt_ℤ leads) (length leads / 2) (pos 0);
      }

  restarts_in : Dict String (PodState F) → String → Time → Duration → ℕ
  unfolding recent_of
  restarts_in [] workload now window = 0
  restarts_in ((pod, s) ∷ pods) workload now window =
      let rest = restarts_in pods workload now window in
      if s.workload == workload then recent_of now window s.history + rest else rest

  unfoldable pub recent_restarts : Tracker F → String → Time → Duration → ℕ
  unfolding restarts_in
  recent_restarts t workload now window = restarts_in t.pods workload now window

  unfoldable pub crash_back_off : Tracker F → String → Time → Bool
  crash_back_off t workload now =
      exists
        (λ ks.
          (ks.1.workload == workload)
          && not (is_zero ks.1.back_off_seen)
          && leb (now - ks.1.back_off_seen) crash_back_off_max_age)
        t.pods

  unfoldable pub recent_failures : Tracker F → Time → Dict String (List Time)
  unfolding recent_in
  recent_failures t since = recent_in t.failures since

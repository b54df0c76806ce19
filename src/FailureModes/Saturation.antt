-- ===== src/FailureModes/Saturation.antt =====
-- saturation.go: the memory estimator of one pod.
pub mod Window
pub mod Estimates
use ruptura.Base.{
  ℕ, ◌-◌, ◌*◌, Bool, true, false, ◌&&◌, ◌||◌, not, List, [], ◌∷◌, ◌++◌, length, cut_to_last, Option,
  some, none, ltb, if◌then◌else◌, Float, Time, Duration, minute, get_or,
}
use ruptura.FailureModes.Estimate.{Estimate, saturation, detected}
use ruptura.FailureModes.Slopes.{
  Point, pair_slopes, slope_band, failure_band, sustained, theil_sen, time_to_fill,
}

abbrev pub saturation_window : Duration
saturation_window = 30 * minute

abbrev pub saturation_min_samples : ℕ
saturation_min_samples = 5

abbrev pub saturation_max_samples : ℕ
saturation_max_samples = 120

abbrev pub saturation_min_span : Duration
saturation_min_span = 10 * minute

pub record Saturation (F : Type 0) : Type 0 where
  pub points : List (Point F)
  pub restarts : ℕ
  pub seen : Bool

module _ {F : Type 0} where
  abbrev pub new_saturation : Saturation F
  new_saturation = record { points = []; restarts = 0; seen = false }

  -- The loop over `cut`: it drops points older than the window and stops at the last point.
  abbrev pub cut_stale : Time → List (Point F) → List (Point F)
  cut_stale at [] = []
  cut_stale at (p ∷ []) = p ∷ []
  cut_stale at (p ∷ q ∷ rest) =
      let shorter = cut_stale at (q ∷ rest) in
      if ltb saturation_window (at - p.at) then shorter else p ∷ q ∷ rest

  -- The window after a reading.
  unfoldable pub push_point : List (Point F) → Point F → List (Point F)
  push_point points p = cut_to_last saturation_max_samples (cut_stale p.at (points ++ p ∷ []))

  -- The window resets when the restart count grows.
  abbrev pub after_restarts : Saturation F → ℕ → Saturation F
  after_restarts s restarts = record {
    points = if s.seen && ltb s.restarts restarts then [] else s.points;
    restarts = restarts;
    seen = true;
  }

module _ {F : Type 0} ⦃fl : Float F⦄ where
  -- The estimate read from a window, `usage` being the last reading.
  unfoldable pub estimate_from : List (Point F) → Time → F → Option (Estimate F)
  estimate_from [] at usage = none
  estimate_from (p ∷ ps) at usage =
      let points = p ∷ ps in
      let slopes = pair_slopes points in
      let (slope, agree) = theil_sen slopes in
      let remaining = fl.sub (fl.milli 1000) usage in
      let room = if fl.lt remaining (fl.milli 0) then fl.milli 0 else remaining in
      let (low, high) = slope_band slopes in
      let (early, late) = failure_band room low high in
      if ltb (length points) saturation_min_samples || ltb (at - p.at) saturation_min_span
      then none
      else if fl.le slope (fl.milli 0) || fl.lt agree (fl.milli 800)
      then none
      else if not (sustained points slope)
      then none
      else some (record (detected saturation "") {
        etf = time_to_fill room slope;
        etf_early = early;
        etf_late = late;
        confidence = agree;
        usage = usage;
      })

  unfoldable pub observe : Saturation F → Time → F → F → ℕ → Saturation F × Option (Estimate F)
  observe s at usage_bytes limit_bytes restarts =
      let t = after_restarts s restarts in
      let usage = fl.div usage_bytes limit_bytes in
      let points = push_point t.points (record { at = at; usage = usage }) in
      if fl.le limit_bytes (fl.milli 0)
      then (t, none)
      else (record t { points = points }, estimate_from points at usage)

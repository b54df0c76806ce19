-- ===== src/FailureModes/Condition.antt =====
-- condition.go: the throttling condition of one pod.
pub mod Trace
use ruptura.Base.{
  ◌-◌, ◌*◌, Bool, true, false, not, ◌&&◌, Option, some, none, ltb, leb, if◌then◌else◌, Float, Time,
  Duration, minute, is_zero,
}
use ruptura.FailureModes.Estimate.{Estimate, cpu_throttling, detected}

abbrev pub condition_raise_after : Duration
condition_raise_after = 10 * minute

abbrev pub condition_clear_after : Duration
condition_clear_after = 5 * minute

abbrev pub condition_max_gap : Duration
condition_max_gap = 2 * minute

pub record Condition : Type 0 where
  -- start of the current run at or above the threshold
  pub run_start : Time
  -- start of the current run below the threshold
  pub below_since : Time
  pub last : Time
  pub active : Bool

pub new_condition : Condition
new_condition = record { run_start = 0; below_since = 0; last = 0; active = false }

-- The gap rule: a long silence restarts both runs.
abbrev restart_after_gap : Condition → Time → Condition
restart_after_gap c at =
    if not (is_zero c.last) && ltb condition_max_gap (at - c.last)
    then record c { run_start = 0; below_since = 0; last = at }
    else record c { last = at }

-- The branch `ratio >= ThrottleThreshold`.
abbrev above : Condition → Time → Condition
above c at =
    let start = if is_zero c.run_start then at else c.run_start in
    record c {
      below_since = 0;
      run_start = start;
      active = if leb condition_raise_after (at - start) then true else c.active;
    }

-- The branch below the threshold.
abbrev below : Condition → Time → Condition
below c at =
    let since = if is_zero c.below_since then at else c.below_since in
    record c {
      run_start = 0;
      below_since = since;
      active = if leb condition_clear_after (at - since) then false else c.active;
    }

-- The state after a sample, `throttled` being `ratio >= ThrottleThreshold`.
unfoldable pub advance : Condition → Time → Bool → Condition
advance c at throttled =
    let d = restart_after_gap c at in if throttled then above d at else below d at

module _ {F : Type 0} ⦃fl : Float F⦄ where
  -- ratio >= 0.25
  abbrev pub is_throttled : F → Bool
  is_throttled ratio = fl.le (fl.milli 250) ratio

  unfoldable pub observe : Condition → Time → F → Condition × Option (Estimate F)
  unfolding advance
  observe c at ratio =
      let d = advance c at (is_throttled ratio) in
      (d, if d.active then some (record (detected cpu_throttling "") { usage = ratio }) else none)

-- ===== src/FailureModes/Estimate.antt =====
-- saturation.go (Estimate), condition.go (urgency) and the mode constants of the package.
use ruptura.Base.{ℕ, ◌+◌, ◌*◌, String, Float, ℤ, pos, minute, hour}

-- Mode: one constructor for each constant of the package.
pub data Mode : Type 0 where
  saturation cpu_throttling startup_stuck replicas_unavailable rollout_stuck : Mode
  oom_killed recurrent_failure release_regression replica_divergence : Mode

pub record Estimate (F : Type 0) : Type 0 where
  pub mode : Mode
  pub pod : String
  pub etf : ℤ
  pub etf_early : ℤ
  pub etf_late : ℤ
  pub confidence : F
  pub usage : F
  pub reason : String
  pub interval : ℤ
  pub failures : ℕ
  pub version : String
  pub previous_version : String
  pub rate : F
  pub previous_rate : F
  pub siblings : ℕ

abbrev pub condition_urgency_etf : ℕ
condition_urgency_etf = 10 * minute + 1

abbrev pub startup_stuck_urgency : ℕ
startup_stuck_urgency = minute

abbrev pub replicas_urgency : ℕ
replicas_urgency = 2 * minute

abbrev pub rollout_urgency : ℕ
rollout_urgency = 3 * minute

abbrev pub oom_urgency : ℕ
oom_urgency = 24 * hour

abbrev pub mode_urgency : Mode → ℤ → ℤ
mode_urgency cpu_throttling etf = pos condition_urgency_etf
mode_urgency startup_stuck etf = pos startup_stuck_urgency
mode_urgency replicas_unavailable etf = pos replicas_urgency
mode_urgency rollout_stuck etf = pos rollout_urgency
mode_urgency oom_killed etf = pos oom_urgency
mode_urgency _ etf = etf

module _ {F : Type 0} where
  -- The smallest value is the most urgent.
  unfoldable pub urgency : Estimate F → ℤ
  urgency e = mode_urgency e.mode e.etf

  -- `Estimate{Mode: mode, Pod: pod, Confidence: 1}`, where every other field is zero.
  abbrev pub detected : ⦃fl : Float F⦄ → Mode → String → Estimate F
  detected ⦃fl⦄ mode pod = record {
    mode = mode;
    pod = pod;
    etf = pos 0;
    etf_early = pos 0;
    etf_late = pos 0;
    confidence = fl.milli 1000;
    usage = fl.milli 0;
    reason = "";
    interval = pos 0;
    failures = 0;
    version = "";
    previous_version = "";
    rate = fl.milli 0;
    previous_rate = fl.milli 0;
    siblings = 0;
  }

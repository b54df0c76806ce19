-- ===== src/Fusion.antt =====
-- workdir/internal/fusion/fusion.go: one rupture index for a host from the metric, log, trace and
-- infrastructure pipelines. `now` and `later` are the readings of time.Now() in FusedR and in fusedR.
pub mod Ready
mod Examples
use ruptura.Base.{
  ℕ, ◌+◌, ◌-◌, ◌*◌, ◌/◌, String, Bool, true, false, not, ◌&&◌, ◌||◌, List, [], ◌∷◌, Option, some,
  none, ltb, nat_beq, if◌then◌else◌, Dict, lookup, insert, string_eq, Time, Duration, second,
  minute, is_zero, after, Float, pos,
}

abbrev pub stale_threshold : Duration
stale_threshold = 5 * minute

abbrev pub max_lag : Duration
max_lag = 30 * second

pub record HostData (F : Type 0) : Type 0 where
  pub metric_val : F
  pub log_val : F
  pub trace_val : F
  pub infra_val : F
  pub metric_ts : Time
  pub log_ts : Time
  pub trace_ts : Time
  pub infra_ts : Time

abbrev pub Engine : Type 0 → Type 0
Engine F = Dict String (HostData F)

-- What the calls that can fail return. The errors carry the host in the source.
pub data Fused (F : Type 0) : Type 0 where
  fused : F → Time → Fused F
  insufficient_signals lag_too_large : Fused F

-- !ts.IsZero()
abbrev pub is_set : Time → Bool
is_set ts = not (is_zero ts)

-- !ts.IsZero() && now.Sub(ts) > staleThreshold
abbrev pub is_stale : Time → Time → Bool
is_stale now ts = is_set ts && ltb stale_threshold (now - ts)

abbrev pub lags : Time → Time → Bool
lags latest ts = is_set ts && ltb max_lag (latest - ts)

-- `if ts.After(latest) { latest = ts }`
abbrev pub later_of : Time → Time → Time
later_of latest ts = if after ts latest then ts else latest

abbrev pub fresh_ts : Time → Time → Time
fresh_ts now ts = if is_stale now ts then 0 else ts

abbrev pub one_if : Time → ℕ
one_if ts = if is_set ts then 1 else 0

module _ {F : Type 0} where
  abbrev pub latest_of : HostData F → Time
  latest_of d = later_of (later_of d.metric_ts d.log_ts) d.trace_ts

  -- The test of the signal lag in FusedR.
  unfoldable pub is_lagging : HostData F → Bool
  is_lagging d =
      lags (latest_of d) d.metric_ts
      || (lags (latest_of d) d.log_ts || lags (latest_of d) d.trace_ts)

module _ {F : Type 0} ⦃fl : Float F⦄ where
  abbrev pub zero_f : F
  zero_f = fl.milli 0

  abbrev pub max_fused_r : F
  max_fused_r = fl.milli 10000

  -- getHost
  unfoldable pub get_host : Engine F → String → HostData F
  get_host e host = elim (lookup host e) [
    | some h ↦ h
    | none ↦ record {
      metric_val = zero_f;
      log_val = zero_f;
      trace_val = zero_f;
      infra_val = zero_f;
      metric_ts = 0;
      log_ts = 0;
      trace_ts = 0;
      infra_ts = 0;
    }
  ]

  unfoldable pub set_metric_r : Engine F → String → F → Time → Engine F
  unfolding get_host
  set_metric_r e host r ts =
      insert host (record (get_host e host) { metric_val = r; metric_ts = ts }) e

  unfoldable pub set_log_r : Engine F → String → F → Time → Engine F
  unfolding get_host
  set_log_r e host r ts = insert host (record (get_host e host) { log_val = r; log_ts = ts }) e

  unfoldable pub set_trace_r : Engine F → String → F → Time → Engine F
  unfolding get_host
  set_trace_r e host r ts =
      insert host (record (get_host e host) { trace_val = r; trace_ts = ts }) e

  unfoldable pub set_infra_r : Engine F → String → F → Time → Engine F
  unfolding get_host
  set_infra_r e host r ts =
      insert host (record (get_host e host) { infra_val = r; infra_ts = ts }) e

  abbrev pub fresh_val : Time → Time → F → F
  fresh_val now ts val = if is_stale now ts then zero_f else val

  -- The signals that are older than the threshold are cleared.
  unfoldable pub clear_stale : Time → HostData F → HostData F
  clear_stale now d = record {
    metric_val = fresh_val now d.metric_ts d.metric_val;
    log_val = fresh_val now d.log_ts d.log_val;
    trace_val = fresh_val now d.trace_ts d.trace_val;
    infra_val = fresh_val now d.infra_ts d.infra_val;
    metric_ts = fresh_ts now d.metric_ts;
    log_ts = fresh_ts now d.log_ts;
    trace_ts = fresh_ts now d.trace_ts;
    infra_ts = fresh_ts now d.infra_ts;
  }

  abbrev weighted : ℕ → F → F
  weighted m x = fl.mul (fl.milli m) x

  -- The three signals without infrastructure.
  unfoldable pub fused_three : HostData F → F × Bool
  fused_three d =
      let count = one_if d.metric_ts + one_if d.log_ts + one_if d.trace_ts in
      if nat_beq count 0
      then (zero_f, false)
      else if nat_beq count 1
      then (fl.add (fl.add d.metric_val d.log_val) d.trace_val, true)
      else if nat_beq count 3
      then (
        fl.add (fl.add (weighted 600 d.metric_val) (weighted 200 d.log_val))
            (weighted 200 d.trace_val),
        true,
      )
      else if is_set d.metric_ts
      then if is_set d.log_ts
        then (fl.add (weighted 750 d.metric_val) (weighted 250 d.log_val), true)
        else (fl.add (weighted 750 d.metric_val) (weighted 250 d.trace_val), true)
      else (fl.add (weighted 500 d.log_val) (weighted 500 d.trace_val), true)

  -- `if !ts.IsZero() { x += y }`
  abbrev add_if : Time → F → F → F
  add_if ts x y = if is_set ts then fl.add x y else x

  abbrev active_weight : HostData F → F
  active_weight d =
      add_if d.trace_ts
        (add_if d.log_ts (add_if d.metric_ts (fl.milli 300) (fl.milli 420)) (fl.milli 140))
        (fl.milli 140)

  abbrev share : ℕ → HostData F → F → F
  share m d x = fl.mul (fl.div (fl.milli m) (active_weight d)) x

  -- All four signals.
  unfoldable pub fused_four : HostData F → F × Bool
  fused_four d =
      if ltb (1 + one_if d.metric_ts + one_if d.log_ts + one_if d.trace_ts) 2
      then (zero_f, false)
      else (
        add_if d.trace_ts
            (add_if d.log_ts
              (add_if d.metric_ts (share 300 d d.infra_val) (share 420 d d.metric_val))
              (share 140 d d.log_val))
            (share 140 d d.trace_val),
        true,
      )

  -- fusedR
  unfoldable pub fuse : HostData F → Time → F × Bool
  unfolding clear_stale fused_three fused_four
  fuse data_now later =
      let d = clear_stale later data_now in
      if is_zero d.infra_ts then fused_three d else fused_four d

  -- math.Min(val, MaxFusedR)
  abbrev pub at_most_max : F → F
  at_most_max val = if fl.lt max_fused_r val then max_fused_r else val

  -- The part of FusedR after its lag check.
  unfoldable pub fuse_fresh : HostData F → Time → Time → Time → Fused F
  unfolding clear_stale fuse
  fuse_fresh h latest now later =
      let d = clear_stale now h in
      if nat_beq (one_if d.metric_ts + one_if d.log_ts + one_if d.trace_ts + one_if d.infra_ts) 0
      then insufficient_signals
      else fused (at_most_max (fuse d later).0) latest

  -- FusedR
  unfoldable pub fused_r : Engine F → String → Time → Time → Fused F
  unfolding is_lagging fuse_fresh
  fused_r e host now later = elim (lookup host e) [
    | none ↦ insufficient_signals
    | some h ↦ if is_lagging h then lag_too_large else fuse_fresh h (latest_of h) now later
  ]

  -- `if set && val > bestVal { bestVal = val; best = name }`
  abbrev better : Time → F → String → String × F → String × F
  better ts val name (best, best_val) =
      if is_set ts && fl.lt best_val val then (name, val) else (best, best_val)

  unfoldable pub dominant_pipeline : HostData F → String
  dominant_pipeline d =
      (better d.infra_ts d.infra_val "infra" (
        better d.trace_ts d.trace_val "traces" (
          better d.log_ts d.log_val "logs"
            (better d.metric_ts d.metric_val "metrics" ("", zero_f))))).0

pub record WorkloadState (F : Type 0) : Type 0 where
  pub workload : String
  pub metric_r : F
  pub log_r : F
  pub trace_r : F
  pub infra_r : F
  pub fused_r : F
  pub dominant_pipeline : String
  pub last_updated : Time

module _ {F : Type 0} ⦃fl : Float F⦄ where
  -- `round` is math.Round; `none` is the error of an unknown workload.
  unfoldable pub state_by_workload : (F → F) → Engine F → String → Time → Option (WorkloadState F)
  unfolding fuse dominant_pipeline
  state_by_workload round e key later = elim (lookup key e) [
    | none ↦ none
    | some d ↦
        let (val, ok) = fuse d later in
        let fused = if ok then val else zero_f in
        some (record {
          workload = key;
          metric_r = d.metric_val;
          log_r = d.log_val;
          trace_r = d.trace_val;
          infra_r = d.infra_val;
          fused_r = fl.div (round (fl.mul fused (fl.milli 1000000))) (fl.milli 1000000);
          dominant_pipeline = dominant_pipeline d;
          last_updated = latest_of d;
        })
  ]

  -- Snapshot; `clock` is the reading of time.Now() at each host.
  unfoldable pub snapshot : Engine F → (String → Time) → Dict String F
  unfolding fuse
  snapshot [] clock = []
  snapshot ((host, h) ∷ e) clock =
      let rest = snapshot e clock in
      let (val, ok) = fuse h (clock host) in if ok then (host, val) ∷ rest else rest

  -- One event of StartLogWatcher.
  unfoldable pub watch_log : Engine F → String → ℕ → F → Time → Engine F
  unfolding set_log_r
  watch_log e service count baseline_rate start =
      let distance =
        if fl.lt zero_f baseline_rate
        then fl.sub (fl.div (fl.of_int (pos count)) baseline_rate) (fl.milli 1000)
        else zero_f in
      set_log_r e service (if fl.lt distance zero_f then zero_f else distance) start

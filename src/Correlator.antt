-- ===== src/Correlator.antt =====
-- workdir/internal/correlator/correlator.go: bursts of log lines matched with falls of the health score,
-- and the service edges from trace spans. `ids` is the stream of identifiers of utils.GenerateID.
pub mod Bursts
pub mod Spans
pub mod Detector
mod Examples
use Prim.Native.Nat.{zero, suc}
use Prim.Native.String.{◌++◌ as ◌&◌}
use ruptura.Base.{
  ℕ, ◌+◌, ◌-◌, ◌*◌, ◌/◌, ◌%◌, String, Bool, true, false, not, ◌&&◌, ◌||◌, List, [], ◌∷◌, ◌++◌, map,
  select, get_or, Option, some, none, ltb, nat_beq, leb, if◌then◌else◌, ◌==◌, string_eq, Dict,
  lookup, insert, Time, Duration, second, before, after, Float, ℤ, pos,
}
use ruptura.Ring.{set_at, repeat}

abbrev pub correlation_window : Duration
correlation_window = 120 * second

abbrev pub pearson_window : ℕ
pearson_window = 300

-- models.CorrelationEvent, without the alert that nothing here sets.
pub record CorrelationEvent (F : Type 0) : Type 0 where
  pub id : String
  pub host : String
  pub burst_id : String
  pub kpi_name : String
  pub kpi_delta : F
  pub confidence : F
  pub created_at : Time

-- models.BurstEvent
pub record BurstEvent (F : Type 0) : Type 0 where
  pub id : String
  pub service : String
  pub start_ts : Time
  pub end_ts : Time
  pub count : ℕ
  pub baseline_rate : F
  pub level : String

-- A ring of the last `cap` values, which CorrelationStore and kpiRing both are. A slot that was never
-- written is `none`, the zero value in the source.
pub record RingOf (A : Type 0) : Type 0 where
  pub slots : List (Option A)
  pub cap : ℕ
  pub pos_ : ℕ
  pub n : ℕ

module _ {A : Type 0} where
  -- NewCorrelationStore and newKPIRing
  unfoldable pub new_ring : ℕ → RingOf A
  new_ring cap = record { slots = repeat cap none; cap = cap; pos_ = 0; n = 0 }

  -- CorrelationStore.Push and kpiRing.push
  unfoldable pub push_ring : RingOf A → A → RingOf A
  push_ring r v = record r {
    slots = set_at r.pos_ (some v) r.slots;
    pos_ = (r.pos_ + 1) % r.cap;
    n = if ltb r.n r.cap then r.n + 1 else r.n;
  }

  -- `r.data[i % r.cap]`
  abbrev pub slot : RingOf A → ℕ → Option A
  slot r i = get_or r.slots (i % r.cap) none

module _ {F : Type 0} where
  abbrev matches : String → Time → CorrelationEvent F → Bool
  matches host from_ ev = not (before ev.created_at from_) && (host == "" || ev.host == host)

  -- The loop of Query, from the oldest slot on.
  unfoldable pub query_from :
      RingOf (CorrelationEvent F) → String → Time → ℕ → ℕ → List (CorrelationEvent F)
  query_from r host from_ start zero = []
  query_from r host from_ start (suc left) =
      let rest = query_from r host from_ (start + 1) left in
      elim (slot r start) [
        | none ↦ rest
        | some ev ↦ if matches host from_ ev then ev ∷ rest else rest
      ]

  unfoldable pub query : RingOf (CorrelationEvent F) → String → Time → List (CorrelationEvent F)
  unfolding query_from
  query r host from_ = query_from r host from_ ((r.pos_ + r.cap * 2 - r.n) % r.cap) r.n

pub record KpiPoint (F : Type 0) : Type 0 where
  pub value : F
  pub ts : Time

pub record PendingBurst (F : Type 0) : Type 0 where
  pub burst : BurstEvent F
  pub added_at : Time
  pub correlated : Bool

pub record PearsonTracker (F : Type 0) : Type 0 where
  pub n : ℕ
  pub sum_x : F
  pub sum_y : F
  pub sum_xy : F
  pub sum_x2 : F
  pub sum_y2 : F

-- `drawn` counts the identifiers that were taken.
pub record Engine (F : Type 0) : Type 0 where
  pub kpi_history : Dict String (RingOf (KpiPoint F))
  pub pending_bursts : List (PendingBurst F)
  pub store : RingOf (CorrelationEvent F)
  pub pearson : Dict String (PearsonTracker F)
  pub drawn : ℕ

-- The absolute value of a.Sub(b).
abbrev pub distance_of : Time → Time → Duration
distance_of a b = a - b + (b - a)

-- `sqrt` is math.Sqrt and `abs` math.Abs; `eps` is the constant 1e-12.
pub record Maths (F : Type 0) : Type 0 where
  pub sqrt : F → F
  pub abs : F → F
  pub eps : F

module _ {F : Type 0} ⦃fl : Float F⦄ where
  unfoldable pub new_engine : Engine F
  unfolding new_ring
  new_engine = record {
    kpi_history = [];
    pending_bursts = [];
    store = new_ring 1000;
    pearson = [];
    drawn = 0;
  }

  -- kpiRing.prev
  unfoldable pub prev : RingOf (KpiPoint F) → F
  prev r =
      if ltb r.n 2
      then fl.milli 0
      else elim (slot r (r.pos_ + r.cap * 2 - 2)) [ none ↦ fl.milli 0 | some p ↦ p.value ]

  unfoldable pub corr : Maths F → PearsonTracker F → F
  corr m p =
      let n = fl.of_int (pos p.n) in
      let num = fl.sub (fl.mul n p.sum_xy) (fl.mul p.sum_x p.sum_y) in
      let den = m.sqrt (
        fl.mul (fl.sub (fl.mul n p.sum_x2) (fl.mul p.sum_x p.sum_x))
          (fl.sub (fl.mul n p.sum_y2) (fl.mul p.sum_y p.sum_y))) in
      if fl.lt den m.eps then fl.milli 0 else fl.div num den

  -- `distance` is the absolute difference of the times.
  unfoldable pub compute_confidence : Maths F → Engine F → String → String → F → Duration → F
  unfolding corr
  compute_confidence m e service host delta distance =
      let time_score =
        fl.sub (fl.milli 1000)
          (fl.div (fl.seconds (pos distance)) (fl.seconds (pos correlation_window))) in
      let ratio = fl.div delta (fl.milli 50000) in
      let delta_score = if fl.lt (fl.milli 1000) ratio then fl.milli 1000 else ratio in
      let pearson_score : F = elim (lookup (service & (":" & host)) e.pearson) [
        | none ↦ fl.milli 500
        | some p ↦ if ltb p.n 10 then fl.milli 500 else m.abs (corr m p)
      ] in
      fl.div (fl.add (fl.add time_score delta_score) pearson_score) (fl.milli 3000)

  -- The test of the loop of tryCorrelate.
  abbrev pub is_due : Time → PendingBurst F → Bool
  is_due ts pb = not pb.correlated && leb (distance_of ts pb.burst.start_ts) correlation_window

  module _ (ids : ℕ → String) (m : Maths F) where
    unfoldable pub event_of : Engine F → String → F → Time → PendingBurst F → CorrelationEvent F
    unfolding compute_confidence
    event_of e host delta ts pb = record {
      id = ids e.drawn;
      host = host;
      burst_id = pb.burst.id;
      kpi_name = "health_score";
      kpi_delta = delta;
      confidence =
          compute_confidence m e pb.burst.service host delta (distance_of ts pb.burst.start_ts);
      created_at = ts;
    }

    -- The loop over the pending bursts: the engine with the events stored, and the bursts after it.
    unfoldable pub correlate :
        Engine F → String → F → Time → List (PendingBurst F) → Engine F × List (PendingBurst F)
    unfolding event_of push_ring
    correlate e host delta ts [] = (e, [])
    correlate e host delta ts (pb ∷ pbs) =
        let skipped : Engine F × List (PendingBurst F) = correlate e host delta ts pbs in
        let stored : Engine F × List (PendingBurst F) =
          correlate
            (record e {
              store = push_ring e.store (event_of e host delta ts pb);
              drawn = e.drawn + 1;
            })
            host delta ts pbs in
        if is_due ts pb
        then (stored.0, (record pb { correlated = true }) ∷ stored.1)
        else (skipped.0, pb ∷ skipped.1)

    unfoldable pub try_correlate : Engine F → String → F → Time → Engine F
    unfolding prev correlate
    try_correlate e host current ts = elim (lookup (host & ":health_score") e.kpi_history) [
      | none ↦ e
      | some r ↦
          let delta = fl.sub (prev r) current in
          if ltb r.n 2 || fl.lt delta (fl.milli 10000)
          then e
          else let (e', pending) = correlate e host delta ts e.pending_bursts in
            record e' { pending_bursts = pending }
    ]

    unfoldable pub observe_kpi : Engine F → String → String → F → Time → Engine F
    unfolding try_correlate push_ring new_ring
    observe_kpi e host kpi value ts =
        let key = host & (":" & kpi) in
        let ring : RingOf (KpiPoint F) = elim (lookup key e.kpi_history) [
          | none ↦ new_ring pearson_window
          | some r ↦ r
        ] in
        let pushed = push_ring ring (record { value = value; ts = ts }) in
        let e' = record e { kpi_history = insert key pushed e.kpi_history } in
        if kpi == "health_score" then try_correlate e' host value ts else e'

  -- addedAt.After(now - 2 * window)
  abbrev is_recent : Time → PendingBurst F → Bool
  is_recent cutoff_now pb = after (pb.added_at + correlation_window * 2) cutoff_now

  unfoldable pub evict_stale_pending : Engine F → Time → Engine F
  evict_stale_pending e now = record e { pending_bursts = select (is_recent now) e.pending_bursts }

  -- `now` and `later` are the readings of the clock in ObserveBurst and in its eviction.
  unfoldable pub observe_burst : Engine F → BurstEvent F → Time → Time → Engine F
  unfolding evict_stale_pending
  observe_burst e burst now later =
      evict_stale_pending
        (record e {
          pending_bursts =
              e.pending_bursts
              ++ (record { burst = burst; added_at = now; correlated = false }) ∷ [];
        })
        later

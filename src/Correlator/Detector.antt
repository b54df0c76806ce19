-- ===== src/Correlator/Detector.antt =====
-- bursts.go: BurstDetector, which finds bursts in the counts of log lines of a service and level. `ids`
-- is the stream of identifiers of utils.GenerateID.
pub mod Bounds
use Prim.Native.Nat.{zero, suc}
use Prim.Native.String.{◌++◌ as ◌&◌}
use mathlib.Core.List.{foldl}
use ruptura.Base.{
  ℕ, ◌+◌, ◌-◌, ◌*◌, ◌/◌, ◌%◌, String, Bool, true, false, not, ◌&&◌, ◌||◌, List, [], ◌∷◌, ◌++◌,
  length, get_or, Option, some, none, ltb, nat_beq, if◌then◌else◌, ◌==◌, string_eq, Dict, lookup,
  insert, Time, Duration, second, Float, pos,
}
use ruptura.Ring.{set_at, repeat}
use ruptura.Correlator.{BurstEvent, Maths}

abbrev pub bucket_size : Duration
bucket_size = 10 * second

abbrev pub baseline_size : ℕ
baseline_size = 30

-- len(s.buckets)
abbrev pub bucket_count : ℕ
bucket_count = baseline_size + 1

pub record BurstSeries : Type 0 where
  pub buckets : List ℕ
  pub bucket_ts : List ℕ
  pub pos_ : ℕ
  pub n : ℕ
  pub in_burst : Bool
  pub burst_start : Time
  pub burst_count : ℕ

abbrev pub new_burst_series : BurstSeries
new_burst_series = record {
  buckets = repeat bucket_count 0;
  bucket_ts = repeat bucket_count 0;
  pos_ = 0;
  n = 0;
  in_burst = false;
  burst_start = 0;
  burst_count = 0;
}

-- The roll over to the next bucket, and the count of the line.
unfoldable pub count_line : BurstSeries → ℕ → BurstSeries
count_line s key =
    let next = (s.pos_ + 1) % bucket_count in
    let rolled : BurstSeries =
      if nat_beq s.n 0 || not (nat_beq (get_or s.bucket_ts s.pos_ 0) key)
      then record s {
        pos_ = next;
        buckets = set_at next 0 s.buckets;
        bucket_ts = set_at next key s.bucket_ts;
        n = if ltb s.n bucket_count then s.n + 1 else s.n;
      }
      else s in
    record rolled {
      buckets = set_at rolled.pos_ (get_or rolled.buckets rolled.pos_ 0 + 1) rolled.buckets;
    }

pub record BurstDetector (F : Type 0) : Type 0 where
  pub series : Dict String BurstSeries
  -- `events` is the channel, of the given capacity.
  pub events : List (BurstEvent F)
  pub capacity : ℕ
  pub dropped : ℕ
  pub drawn : ℕ

abbrev pub new_burst_detector : {F : Type 0} → ℕ → BurstDetector F
new_burst_detector size = record {
  series = [];
  events = [];
  capacity = size;
  dropped = 0;
  drawn = 0;
}

module _ {F : Type 0} ⦃fl : Float F⦄ (m : Maths F) where
  -- The counts of the buckets before the current one, from the newest.
  abbrev baseline_values : BurstSeries → ℕ → ℕ → List F
  baseline_values s i zero = []
  baseline_values s i (suc left) =
      fl.of_int (pos (get_or s.buckets ((s.pos_ + bucket_count * 2 - 1 - i) % bucket_count) 0))
      ∷ baseline_values s (i + 1) left

  -- The mean and the deviation.
  unfoldable pub baseline_rate : BurstSeries → F × F
  baseline_rate s =
      let n = s.n - 1 in
      let vals = baseline_values s 0 n in
      let mean = fl.div (foldl fl.add (fl.milli 0) vals) (fl.of_int (pos n)) in
      let variance =
        foldl (λ sum v. fl.add sum (fl.mul (fl.sub v mean) (fl.sub v mean))) (fl.milli 0) vals in
      if nat_beq n 0
      then (fl.milli 0, fl.milli 0)
      else (mean, m.sqrt (fl.div variance (fl.of_int (pos n))))

  -- `isBurst` in record.
  unfoldable pub is_above : BurstSeries → Bool
  unfolding baseline_rate
  is_above s =
      let (mean, std) = baseline_rate s in
      fl.lt (fl.add mean (fl.mul (fl.milli 3000) std)) (fl.of_int (pos (get_or s.buckets s.pos_ 0)))

  -- The part of `record` after the line is counted. The event has no identifier, service or level yet.
  unfoldable pub find_burst : BurstSeries → Time → BurstSeries × Option (BurstEvent F)
  unfolding baseline_rate is_above
  find_burst s ts =
      let current = get_or s.buckets s.pos_ 0 in
      let is_burst = is_above s in
      let counted = record s { burst_count = s.burst_count + current } in
      if ltb s.n 5
      then (s, none)
      else if is_burst && not s.in_burst
      then (record s { in_burst = true; burst_start = ts; burst_count = current }, none)
      else if s.in_burst
      then if is_burst then (counted, none) else (
        record counted { in_burst = false },
        some (record {
          id = "";
          service = "";
          start_ts = s.burst_start;
          end_ts = ts;
          count = s.burst_count + current;
          baseline_rate = (baseline_rate s).0;
          level = "";
        }),
      )
      else (s, none)

  -- burstSeries.record
  unfoldable pub record_line : BurstSeries → Time → BurstSeries × Option (BurstEvent F)
  unfolding count_line find_burst
  record_line s ts = find_burst (count_line s (ts / bucket_size)) ts

-- The non-blocking send.
unfoldable pub emit : {F : Type 0} → BurstDetector F → BurstEvent F → BurstDetector F
emit d burst =
    if ltb (length d.events) d.capacity
    then record d { events = d.events ++ burst ∷ []; drawn = d.drawn + 1 }
    else record d { dropped = d.dropped + 1; drawn = d.drawn + 1 }

module _ {F : Type 0} ⦃fl : Float F⦄ (m : Maths F) (ids : ℕ → String) where
  unfoldable pub observe : BurstDetector F → String → String → Time → BurstDetector F
  unfolding record_line emit
  observe d service level ts =
      let key = service & (":" & level) in
      let s : BurstSeries = elim (lookup key d.series) [ none ↦ new_burst_series | some s ↦ s ] in
      let (s', burst) = record_line m s ts in
      let kept = record d { series = insert key s' d.series } in
      let sent : BurstDetector F = elim burst [
        | none ↦ kept
        | some b ↦ emit kept (record b { id = ids d.drawn; service = service; level = level })
      ] in
      if level == "error" || level == "warn" then sent else d

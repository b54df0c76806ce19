-- ===== src/Storage/Examples.antt =====
-- Runs of the store on a small database.
use ruptura.Base.{
  ℕ, ◌+◌, ◌-◌, ◌≤◌, ◌≡◌, ◌≢◌, ◌↔◌, ◌⊎◌, refl, subst, true, false, none, some, inl, inr, List, [],
  ◌∷◌, ◌++◌, map, Has, drop, IsUnique, length, ltb, Float, fixed, Time, minute, ◌*◌, before, Dict,
  arith,
}
use ruptura.Storage.{
  Bytes, bytes_eq, colon, less, has_prefix, ts_key, parse_int, scan_int, Json, IsFaithful, ok, set,
  set_raw, commit, set_entry, items_of, Write,
}
use ruptura.Storage.Keys.{max_time, less-ts_key, parse_int-ts_key}
use ruptura.Storage.Series.{
  Sample, value_of, keyed, m_tag, metrics_ttl, put_metric, get_metric, list_metrics, range_query,
  get_rollup, r5_tag,
}
use ruptura.Storage.Ranges.{IsSeries, Stores, Has-range_query}
use ruptura.Storage.Writes.{list_metrics-put_metric, IsSeries-set}
use ruptura.Storage.Memory.{memory, memory-IsLawful, apply, apply-IsAscending}
use ruptura.Storage.Records.{rev_tag}
use ruptura.Storage.Logs.{
  l_tag, sanitize_key_segment, span_key, save_span, query_spans_by_trace, logs_ttl, query_logs,
  query_logs_raw, reverse,
}
use ruptura.Storage.Segments.{query_spans_by_trace-save_span}
use ruptura.Storage.Windows.{in_window, query_logs-in_window}
use ruptura.Storage.Purge.{in_range, to_delete, purge_by_prefix}
use ruptura.Storage.Removal.{purge_by_prefix-IsRemoval}
use ruptura.Storage.Retention.{Bucket, mean, compact_bucket, compact_buckets, compact_tier}
use ruptura.Storage.Compaction.{compact_bucket-IsAtomic, find-compact_tier}
use ruptura.Storage.Snapshots.{KpiSnapshot, snapshot_stale_ttl, canonical, all_snapshots}
use ruptura.Storage.Fresh.{all_snapshots-IsListing}

instance abbrev fixed_float : Float ℕ
fixed_float = fixed

-- A number as one digit of any size.
abbrev number : Json ℕ
number = record {
  marshal = λ n. some (n ∷ []);
  unmarshal = λ text. elim text [ [] ↦ none | n ∷ rest ↦ some n ];
}

number-IsFaithful : IsFaithful number
number-IsFaithful a text e =
    let same : a ∷ [] ≡ text = cc in subst (λ t. number.unmarshal t ≡ some a) same refl

abbrev mark : Json Unit
mark = record { marshal = λ u. some []; unmarshal = λ text. some tt }

mark-IsFaithful : IsFaithful mark
mark-IsFaithful a text e = refl

abbrev host : Bytes
host = b'a' ∷ []

abbrev cpu : Bytes
cpu = b'c' ∷ []

abbrev cpu_prefix : Bytes
cpu_prefix = keyed m_tag (host ∷ cpu ∷ [])

abbrev empty : memory.State
empty = ([], tt)

abbrev wrote : List Write → memory.State
wrote writes = (apply writes [], apply-IsAscending writes [] tt)

abbrev one_point : memory.State
one_point = wrote (set_entry (ts_key cpu_prefix 5) (7 ∷ []) metrics_ttl ∷ [])

empty-IsSeries : IsSeries memory number cpu_prefix empty
unfolding IsSeries
empty-IsSeries key text held there = absurd (cc)

put_one : put_metric memory number host cpu 5 7 empty ≡ ok one_point
unfolding put_metric set set_raw commit
put_one = refl

less-ts_key_example : less (ts_key cpu_prefix 9) (ts_key cpu_prefix 10) ≡ ltb 9 10
less-ts_key_example = less-ts_key cpu_prefix 9 10 (omega arith) (omega arith)

list_metrics-put_metric_example :
    (get_metric memory number host cpu 5 one_point ≡ ok 7)
    × ((from to : Time) (point : Sample ℕ)
        → from ≤ max_time
        → to ≤ max_time
        → Has point (list_metrics memory number host cpu from to one_point) ↔ (
            (from ≤ 5) × (5 ≤ to) × (point ≡ (5, 7))
            ⊎ ((key text : Bytes) × (key ≢ ts_key cpu_prefix 5)
                × (memory.find empty key ≡ some text)
                × (less key (ts_key cpu_prefix from) ≡ false)
                × (less (ts_key cpu_prefix to) key ≡ false)
                × (point ≡ (parse_int (drop (length cpu_prefix) key), value_of number text)))))
list_metrics-put_metric_example =
    list_metrics-put_metric memory number host cpu 5 7 empty one_point memory-IsLawful
      number-IsFaithful (omega arith) put_one

one_point-IsSeries : IsSeries memory number cpu_prefix one_point
unfolding put_metric
one_point-IsSeries =
    IsSeries-set memory number cpu_prefix 5 7 metrics_ttl empty one_point memory-IsLawful
      number-IsFaithful (omega arith) empty-IsSeries put_one

Has-range_query_example :
    Has (5, 7) (range_query memory number cpu_prefix 0 5 one_point)
    ↔ ((0 ≤ 5) × (5 ≤ 5) × Stores memory number cpu_prefix one_point 5 7)
Has-range_query_example =
    Has-range_query memory number cpu_prefix 0 5 one_point memory-IsLawful one_point-IsSeries
      (omega arith) (omega arith) 5 7

abbrev token : Bytes
token = b't' ∷ []

abbrev revoked : memory.State
revoked = wrote (set_entry (rev_tag ++ token) [] 60 ∷ [])

-- A trace and a span that try to reach the keys of the trace "t".
abbrev sly : Bytes
sly = b't' ∷ colon ∷ b'x' ∷ []

abbrev saved : memory.State
saved = wrote (set_entry (span_key sly token) (9 ∷ []) logs_ttl ∷ [])

query_spans_by_trace-save_span_example :
    (text : Bytes) × (number.marshal 9 ≡ some text)
    × ((v : Bytes)
        → Has v (query_spans_by_trace memory token saved)
        → (v ≡ text) × (sanitize_key_segment sly ≡ sanitize_key_segment token)
          ⊎ Has v (query_spans_by_trace memory token empty))
    × (sanitize_key_segment sly ≡ sanitize_key_segment token
        → Has text (query_spans_by_trace memory token saved))
unfolding save_span set set_raw commit
query_spans_by_trace-save_span_example =
    query_spans_by_trace-save_span memory number 9 sly token token empty saved memory-IsLawful refl

purge_by_prefix-IsRemoval_example :
    ((key : Bytes)
      → has_prefix key m_tag ≡ false ⊎ in_range m_tag 1 8 key ≡ false
      → memory.find ((purge_by_prefix memory m_tag 1 8 one_point).state) key
        ≡ memory.find one_point key)
    × ((purge_by_prefix memory m_tag 1 8 one_point).failed ≡ none
        → ((key : Bytes)
            → has_prefix key m_tag ≡ true
            → in_range m_tag 1 8 key ≡ true
            → memory.find ((purge_by_prefix memory m_tag 1 8 one_point).state) key ≡ none)
          × ((purge_by_prefix memory m_tag 1 8 one_point).deleted
              ≡ length (to_delete memory m_tag 1 8 one_point)))
purge_by_prefix-IsRemoval_example =
    purge_by_prefix-IsRemoval memory m_tag 1 8 one_point memory-IsLawful

abbrev service_prefix : Bytes
service_prefix = keyed l_tag (sanitize_key_segment host ∷ [])

-- Three entries of a service, of which a query with the limit 2 gives the two oldest.
abbrev three_logs : memory.State
three_logs = wrote (
    set_entry (ts_key service_prefix 3) (3 ∷ []) logs_ttl
    ∷ set_entry (ts_key service_prefix 1) (1 ∷ []) logs_ttl
    ∷ set_entry (ts_key service_prefix 2) (2 ∷ []) logs_ttl
    ∷ [])

oldest_two : query_logs memory host 0 9 2 three_logs ≡ (2 ∷ []) ∷ (1 ∷ []) ∷ []
unfolding query_logs query_logs_raw
oldest_two = refl

query_logs-in_window_example :
    query_logs memory host 0 9 3 three_logs
    ≡ reverse (
        in_window service_prefix
          (ts_key service_prefix 0)
          (ts_key service_prefix 9)
          (memory.scan three_logs service_prefix))
query_logs-in_window_example =
    query_logs-in_window memory host 0 9 3 three_logs memory-IsLawful (omega arith)
      (inr (omega arith))

abbrev bucket : Bucket ℕ
bucket = record {
  series_prefix = cpu_prefix;
  floor = 0;
  vals = 7 ∷ [];
  keys = ts_key cpu_prefix 5 ∷ [];
}

compact_bucket-IsAtomic_example :
    (compact_bucket memory number cpu 60 bucket one_point ≡ one_point)
    ⊎ ((text : Bytes) × (number.marshal (mean (bucket.vals)) ≡ some text)
        × (memory.find (compact_bucket memory number cpu 60 bucket one_point) cpu ≡ some text)
        × ((key : Bytes)
            → Has key (bucket.keys)
            → memory.find (compact_bucket memory number cpu 60 bucket one_point) key ≡ none)
        × ((key : Bytes)
            → key ≢ cpu
            → ¬ Has key (bucket.keys)
            → memory.find (compact_bucket memory number cpu 60 bucket one_point) key
              ≡ memory.find one_point key))
compact_bucket-IsAtomic_example =
    compact_bucket-IsAtomic memory number cpu 60 bucket one_point memory-IsLawful
      (λ h. elim h [ inl e ↦ absurd (ground arith) | inr nowhere ↦ nowhere ])

-- Two readings of one bucket of five minutes, of which the first is older than the first cutoff: the
-- second pass puts the second reading in the place of the first.
abbrev two_points : memory.State
two_points = wrote (
    set_entry (ts_key cpu_prefix 1) (10 ∷ []) metrics_ttl
    ∷ set_entry (ts_key cpu_prefix 5) (30 ∷ []) metrics_ttl
    ∷ [])

abbrev pass : Time → memory.State → memory.State
pass cutoff s = compact_tier memory number m_tag r5_tag (5 * minute) cutoff 60 s

one_pass : list_metrics memory number host cpu 0 9 (pass 9 two_points) ≡ []
unfolding compact_tier compact_buckets compact_bucket items_of commit list_metrics range_query
one_pass = refl

two_passes :
    (get_rollup memory number r5_tag host cpu 0 9 (pass 9 two_points) ≡ (0, 20) ∷ [])
    × (get_rollup memory number r5_tag host cpu 0 9 (pass 9 (pass 3 two_points)) ≡ (0, 30) ∷ [])
unfolding compact_tier compact_buckets compact_bucket items_of commit get_rollup range_query
two_passes = (refl, refl)

abbrev snapshot : KpiSnapshot ℕ
snapshot = record {
  host = host;
  workload = record { namespace = b'n' ∷ []; kind = b'k' ∷ []; name = b'w' ∷ [] };
  timestamp = snapshot_stale_ttl;
  body = 0;
}

abbrev stored : Dict Bytes (KpiSnapshot ℕ)
stored = (host, snapshot) ∷ (cpu, snapshot) ∷ []

all_snapshots-IsListing_example :
    IsUnique (map canonical (all_snapshots snapshot_stale_ttl stored))
    × ((snap : KpiSnapshot ℕ)
        → Has snap (all_snapshots snapshot_stale_ttl stored)
        → (before (snap.timestamp) (snapshot_stale_ttl - snapshot_stale_ttl) ≡ false)
          × Has snap (map (λ item. item.1) stored))
    × ((snap : KpiSnapshot ℕ)
        → Has snap (map (λ item. item.1) stored)
        → before (snap.timestamp) (snapshot_stale_ttl - snapshot_stale_ttl) ≡ false
        → Has (canonical snap) (map canonical (all_snapshots snapshot_stale_ttl stored)))
all_snapshots-IsListing_example = all_snapshots-IsListing snapshot_stale_ttl stored

-- The second of the two readings is not older than the cutoff 3.
find-compact_tier_example :
    memory.find (compact_tier memory number m_tag r5_tag 60 3 60 two_points) (ts_key cpu_prefix 5)
    ≡ memory.find two_points (ts_key cpu_prefix 5)
find-compact_tier_example =
    find-compact_tier memory number m_tag r5_tag 60 3 60 two_points (ts_key cpu_prefix 5)
      memory-IsLawful refl (inr (inl (cpu_prefix, 5, refl, omega arith, omega arith)))

parse_int-ts_key_example :
    (parse_int (drop (length cpu_prefix) (ts_key cpu_prefix 1700000000000000000))
      ≡ 1700000000000000000)
    × (length (ts_key cpu_prefix 1700000000000000000) ≡ length cpu_prefix + 20)
    × (scan_int (
          drop
            (length (ts_key cpu_prefix 1700000000000000000) - 20)
            (ts_key cpu_prefix 1700000000000000000))
        ≡ some 1700000000000000000)
parse_int-ts_key_example = parse_int-ts_key cpu_prefix 1700000000000000000 (omega arith)

-- ===== src/Storage/Retention.antt =====
-- retention.go: downsampling of the points older than a cutoff into one mean for each bucket of
-- time. A bucket of both maps of the source is one record, and the order of the list stands for one
-- iteration order.
use ruptura.Base.{
  ℕ, ◌-◌, ◌*◌, ◌%◌, not, ◌&&◌, Option, none, some, List, [], ◌∷◌, ◌++◌, map, length, drop, take,
  nat_beq, if◌then◌else◌, ◌==◌, Float, pos, Time, Duration, minute, hour, before,
}
use ruptura.Storage.{
  Bytes, bytes_eq, padded, Database, Json, ok, error, set_entry, delete_key, commit, items_of,
}
use ruptura.Storage.Series.{
  day, m_tag, kpi_tag, kr5_tag, kr1h_tag, r5_tag, r1h_tag, is_tag, gh_tag, gni_tag,
}
use ruptura.Storage.Records.{prop_tag}
use ruptura.Storage.Purge.{time_of}

abbrev pub rollup_5m_ttl : Duration
rollup_5m_ttl = 35 * day

abbrev pub rollup_1h_ttl : Duration
rollup_1h_ttl = 400 * day

abbrev pub compact_raw_after : Duration
compact_raw_after = 2 * hour

abbrev pub compact_5m_after : Duration
compact_5m_after = 12 * hour

-- "is5:" and "is1h:"
abbrev pub is5_tag : Bytes
is5_tag = b'i' ∷ b's' ∷ b'5' ∷ b':' ∷ []

abbrev pub is1h_tag : Bytes
is1h_tag = b'i' ∷ b's' ∷ b'1' ∷ b'h' ∷ b':' ∷ []

-- The local type kv.
pub record Kv (F : Type 0) : Type 0 where
  pub key : Bytes
  pub ts : Time
  pub val : F

-- bucketKey, with what buckets and keysByBucket hold for it.
pub record Bucket (F : Type 0) : Type 0 where
  pub series_prefix : Bytes
  pub floor : Time
  pub vals : List F
  pub keys : List Bytes

-- ts.Truncate(size) for a size that divides an hour
abbrev pub truncate : Time → Duration → Time
truncate ts size = ts - ts % size

-- The point of an item, where it is older than the cutoff and its value can be decoded.
abbrev pub old_point : {F : Type 0} → Json F → Bytes → Time → Bytes × Bytes → Option (Kv F)
old_point json prefix cutoff item = elim (time_of prefix item.0) [
  | none ↦ none
  | some ts ↦ if not (before ts cutoff) then none else elim (json.unmarshal item.1) [
    | none ↦ none
    | some v ↦ some (record { key = item.0; ts = ts; val = v })
  ]
]

abbrev pub old_points : {F : Type 0} → Json F → Bytes → Time → List (Bytes × Bytes) → List (Kv F)
old_points json prefix cutoff [] = []
old_points json prefix cutoff (item ∷ items) = elim (old_point json prefix cutoff item) [
  | none ↦ old_points json prefix cutoff items
  | some p ↦ p ∷ old_points json prefix cutoff items
]

-- p.key[:len(p.key)-20]
abbrev pub series_of : Bytes → Bytes
series_of key = take (length key - 20) key

-- buckets[bk] = append(buckets[bk], p.val), and the key likewise
abbrev pub add_point : {F : Type 0} → Duration → Kv F → List (Bucket F) → List (Bucket F)
add_point size p [] =
    (record {
      series_prefix = series_of p.key;
      floor = truncate p.ts size;
      vals = p.val ∷ [];
      keys = p.key ∷ [];
    })
    ∷ []
add_point size p (b ∷ buckets) =
    let rest = add_point size p buckets in
    if (b.series_prefix == series_of p.key) && nat_beq b.floor (truncate p.ts size)
    then (record b { vals = b.vals ++ p.val ∷ []; keys = b.keys ++ p.key ∷ [] }) ∷ buckets
    else b ∷ rest

abbrev pub group : {F : Type 0} → Duration → List (Kv F) → List (Bucket F) → List (Bucket F)
group size [] buckets = buckets
group size (p ∷ points) buckets = group size points (add_point size p buckets)

module _ {F : Type 0} ⦃fl : Float F⦄ where
  abbrev pub sum : F → List F → F
  sum acc [] = acc
  sum acc (v ∷ vals) = sum (fl.add acc v) vals

  -- The division of 0 by 0 is the source's NaN.
  abbrev pub mean : List F → F
  mean [] = fl.div (fl.milli 0) (fl.milli 0)
  mean (v ∷ vals) = fl.div (sum (fl.milli 0) (v ∷ vals)) (fl.of_int (pos (length (v ∷ vals))))

-- fmt.Sprintf("%s%s%020d", destPrefix, innerSeries, floor)
abbrev pub dest_key : {F : Type 0} → Bytes → Bytes → Bucket F → Bytes
dest_key src_prefix dest_prefix b =
    dest_prefix ++ (drop (length src_prefix) b.series_prefix ++ padded 20 b.floor)

module _ {F : Type 0} ⦃fl : Float F⦄ (B : Database) (json : Json F) where
  -- One transaction: the mean of the bucket and the deletion of its keys. An error is only logged.
  unfoldable pub compact_bucket : Bytes → Duration → Bucket F → B.State → B.State
  compact_bucket key ttl b s = elim (json.marshal (mean b.vals)) [
    | none ↦ s
    | some text ↦ elim (commit B (set_entry key text ttl ∷ map delete_key b.keys) s) [
      | error e ↦ s
      | ok t ↦ t
    ]
  ]

  unfoldable pub compact_buckets : Bytes → Bytes → Duration → List (Bucket F) → B.State → B.State
  compact_buckets src dest ttl [] s = s
  compact_buckets src dest ttl (b ∷ buckets) s =
      compact_buckets src dest ttl buckets (compact_bucket (dest_key src dest b) ttl b s)

  unfoldable pub compact_tier : Bytes → Bytes → Duration → Time → Duration → B.State → B.State
  compact_tier src dest size cutoff ttl s =
      let points = old_points json src cutoff (items_of B src s) in
      compact_buckets src dest ttl (group size points []) s

  unfoldable pub compact : Time → B.State → B.State
  compact now s =
      let cut_raw = now - compact_raw_after in
      let cut_5m = now - compact_5m_after in
      let five = 5 * minute in
      let s1 = compact_tier m_tag r5_tag five cut_raw rollup_5m_ttl s in
      let s2 = compact_tier kpi_tag kr5_tag five cut_raw rollup_5m_ttl s1 in
      let s3 = compact_tier r5_tag r1h_tag hour cut_5m rollup_1h_ttl s2 in
      let s4 = compact_tier kr5_tag kr1h_tag hour cut_5m rollup_1h_ttl s3 in
      let s5 = compact_tier is_tag is5_tag five cut_raw rollup_5m_ttl s4 in
      compact_tier is5_tag is1h_tag hour cut_5m rollup_1h_ttl s5

module _ (B : Database) where
  abbrev pub counted : List Bytes → B.State → List (Bytes × ℕ)
  counted [] s = []
  counted (prefix ∷ prefixes) s = (prefix, length (items_of B prefix s)) ∷ counted prefixes s

  unfoldable pub retention_stats : B.State → List (Bytes × ℕ)
  retention_stats s =
      counted
        (m_tag ∷ kpi_tag ∷ r5_tag ∷ kr5_tag ∷ r1h_tag ∷ kr1h_tag ∷ is_tag ∷ is5_tag ∷ is1h_tag
          ∷ gh_tag ∷ gni_tag ∷ prop_tag ∷ [])
        s

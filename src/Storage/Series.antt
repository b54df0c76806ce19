-- ===== src/Storage/Series.antt =====
-- storage.go, retention.go: metrics, KPIs and infrastructure signals, one key for each point, and
-- the scan of a range of times. A float is an encoded value, and 0 where it cannot be decoded.
use ruptura.Base.{
  ◌-◌, ◌*◌, not, ◌||◌, none, some, List, [], ◌∷◌, ◌++◌, map, length, drop, leb, nat_beq,
  if◌then◌else◌, Float, Time, Duration, hour,
}
use ruptura.Storage.{
  Bytes, less, has_prefix, colon, ts_key, parse_int, Database, Json, Result, set, get,
}

-- 24 * time.Hour
abbrev pub day : Duration
day = 24 * hour

abbrev pub metrics_ttl : Duration
metrics_ttl = 7 * day

abbrev pub kpis_ttl : Duration
kpis_ttl = 7 * day

abbrev pub infra_signals_ttl : Duration
infra_signals_ttl = 7 * day

abbrev pub group_health_ttl : Duration
group_health_ttl = 35 * day

abbrev pub group_noise_ttl : Duration
group_noise_ttl = 35 * day

-- "m:"
abbrev pub m_tag : Bytes
m_tag = b'm' ∷ colon ∷ []

-- "kpi:"
abbrev pub kpi_tag : Bytes
kpi_tag = b'k' ∷ b'p' ∷ b'i' ∷ colon ∷ []

-- "kr5:"
abbrev pub kr5_tag : Bytes
kr5_tag = b'k' ∷ b'r' ∷ b'5' ∷ colon ∷ []

-- "kr1h:"
abbrev pub kr1h_tag : Bytes
kr1h_tag = b'k' ∷ b'r' ∷ b'1' ∷ b'h' ∷ colon ∷ []

-- "r5:"
abbrev pub r5_tag : Bytes
r5_tag = b'r' ∷ b'5' ∷ colon ∷ []

-- "r1h:"
abbrev pub r1h_tag : Bytes
r1h_tag = b'r' ∷ b'1' ∷ b'h' ∷ colon ∷ []

-- "is:"
abbrev pub is_tag : Bytes
is_tag = b'i' ∷ b's' ∷ colon ∷ []

-- "gh:"
abbrev pub gh_tag : Bytes
gh_tag = b'g' ∷ b'h' ∷ colon ∷ []

-- "gni:"
abbrev pub gni_tag : Bytes
gni_tag = b'g' ∷ b'n' ∷ b'i' ∷ colon ∷ []

-- A tag with segments, each closed by the separator.
abbrev pub keyed : Bytes → List Bytes → Bytes
keyed tag [] = tag
keyed tag (segment ∷ segments) = keyed (tag ++ (segment ++ colon ∷ [])) segments

-- A point of a series, as MetricSample, KPISample and TimeValue have it: a time and a value.
abbrev pub Sample : Type 0 → Type 0
Sample F = Time × F

module _ {F : Type 0} ⦃fl : Float F⦄ (json : Json F) where
  -- The value of an item: `v` stays 0 where it cannot be decoded.
  abbrev pub value_of : Bytes → F
  value_of text = elim (json.unmarshal text) [ none ↦ fl.milli 0 | some v ↦ v ]

  -- The loop of a range scan, over the items of the iterator.
  abbrev pub samples_until : Bytes → Bytes → List (Bytes × Bytes) → List (Sample F)
  samples_until prefix end_key [] = []
  samples_until prefix end_key (item ∷ items) =
      let rest = samples_until prefix end_key items in
      if less end_key item.0 || not (has_prefix item.0 prefix)
      then []
      else (parse_int (drop (length prefix) item.0), value_of item.1) ∷ rest

module _ {F : Type 0} ⦃fl : Float F⦄ (B : Database) (json : Json F) where
  -- rangeQueryMetrics, rangeQueryKPI and rangeQuery, which have the same body
  unfoldable pub range_query : Bytes → Time → Time → B.State → List (Sample F)
  range_query prefix from to s =
      samples_until json prefix (ts_key prefix to) (B.scan s (ts_key prefix from))

  unfoldable pub list_metrics : Bytes → Bytes → Time → Time → B.State → List (Sample F)
  list_metrics host metric from to s = range_query (keyed m_tag (host ∷ metric ∷ [])) from to s

  -- TimeValue is MetricSample, so the copy is the list.
  unfoldable pub get_metric_range : Bytes → Bytes → Time → Time → B.State → List (Sample F)
  get_metric_range host metric from to s =
      map (λ sample. (sample.0, sample.1)) (list_metrics host metric from to s)

  unfoldable pub list_kpi : Bytes → Bytes → Time → Time → B.State → List (Sample F)
  list_kpi name host from to s = range_query (keyed kpi_tag (name ∷ host ∷ [])) from to s

  unfoldable pub get_kpi_range : Bytes → Bytes → Time → Time → B.State → List (Sample F)
  get_kpi_range host name from to s =
      let samples = list_kpi name host from to s in
      if nat_beq (length samples) 0
      then range_query (keyed kr5_tag (name ∷ host ∷ [])) from to s
      else map (λ sample. (sample.0, sample.1)) samples

  unfoldable pub get_rollup : Bytes → Bytes → Bytes → Time → Time → B.State → List (Sample F)
  get_rollup tier_prefix host name from to s =
      range_query (keyed tier_prefix (host ∷ name ∷ [])) from to s

  -- Where `to` is before `from`, `to - from` is 0 and, as in the source, the raw points are read.
  unfoldable pub get_metric_range_tiered : Bytes → Bytes → Time → Time → B.State → List (Sample F)
  get_metric_range_tiered host name from to s =
      if leb (to - from) (6 * hour)
      then get_metric_range host name from to s
      else if leb (to - from) (7 * day)
      then get_rollup r5_tag host name from to s
      else get_rollup r1h_tag host name from to s

  unfoldable pub get_kpi_range_tiered : Bytes → Bytes → Time → Time → B.State → List (Sample F)
  get_kpi_range_tiered host name from to s =
      if leb (to - from) (6 * hour)
      then get_kpi_range host name from to s
      else if leb (to - from) (7 * day)
      then get_rollup kr5_tag name host from to s
      else get_rollup kr1h_tag name host from to s

  unfoldable pub list_infra_signal :
      Bytes → Bytes → Bytes → Bytes → Bytes → Bytes → Time → Time → B.State → List (Sample F)
  list_infra_signal group scope ns kind name signal from to s =
      range_query (keyed is_tag (group ∷ scope ∷ ns ∷ kind ∷ name ∷ signal ∷ [])) from to s

  unfoldable pub list_group_health : Bytes → Bytes → Time → Time → B.State → List (Sample F)
  list_group_health group ns from to s = range_query (keyed gh_tag (group ∷ ns ∷ [])) from to s

  unfoldable pub list_group_noise : Bytes → Time → Time → B.State → List (Sample F)
  list_group_noise group from to s = range_query (keyed gni_tag (group ∷ [])) from to s

module _ {F : Type 0} (B : Database) (json : Json F) where
  unfoldable pub put_metric : Bytes → Bytes → Time → F → B.State → Result B.State
  put_metric host metric ts value s =
      set B json (ts_key (keyed m_tag (host ∷ metric ∷ [])) ts) value metrics_ttl s

  unfoldable pub get_metric : Bytes → Bytes → Time → B.State → Result F
  get_metric host metric ts s = get B json (ts_key (keyed m_tag (host ∷ metric ∷ [])) ts) s

  unfoldable pub save_metric : Bytes → Bytes → F → Time → B.State → Result B.State
  save_metric host name value ts s = put_metric host name ts value s

  unfoldable pub put_kpi : Bytes → Bytes → Time → F → B.State → Result B.State
  put_kpi name host ts value s =
      set B json (ts_key (keyed kpi_tag (name ∷ host ∷ [])) ts) value kpis_ttl s

  unfoldable pub put_infra_signal :
      Bytes → Bytes → Bytes → Bytes → Bytes → Bytes → Time → F → B.State → Result B.State
  put_infra_signal group scope ns kind name signal ts value s =
      let prefix = keyed is_tag (group ∷ scope ∷ ns ∷ kind ∷ name ∷ signal ∷ []) in
      set B json (ts_key prefix ts) value infra_signals_ttl s

  unfoldable pub put_group_health : Bytes → Bytes → Time → F → B.State → Result B.State
  put_group_health group ns ts health s =
      set B json (ts_key (keyed gh_tag (group ∷ ns ∷ [])) ts) health group_health_ttl s

  unfoldable pub put_group_noise : Bytes → Time → F → B.State → Result B.State
  put_group_noise group ts gni s =
      set B json (ts_key (keyed gni_tag (group ∷ [])) ts) gni group_noise_ttl s

-- ===== src/Storage/Logs.antt =====
-- storage.go: logs under the service's name, and spans under the trace's, both with the separators
-- taken out of them.
use ruptura.Base.{
  ℕ, ◌+◌, ◌*◌, Bool, true, false, not, ◌&&◌, ◌||◌, List, [], ◌∷◌, ◌++◌, map, length, nat_beq, leb,
  if◌then◌else◌, Time, Duration,
}
use ruptura.Storage.{
  Bytes, bytes_eq, less, has_prefix, colon, ts_key, Database, Json, Result, set, items_of,
}
use ruptura.Storage.Series.{day, keyed}

abbrev pub logs_ttl : Duration
logs_ttl = 30 * day

-- "l:", "l::", "l:~" and "sp:"
abbrev pub l_tag : Bytes
l_tag = b'l' ∷ colon ∷ []

abbrev pub all_logs : Bytes
all_logs = b'l' ∷ colon ∷ colon ∷ []

abbrev pub end_of_logs : Bytes
end_of_logs = b'l' ∷ colon ∷ b'~' ∷ []

abbrev pub sp_tag : Bytes
sp_tag = b's' ∷ b'p' ∷ colon ∷ []

-- sanitizeKeySegment, one byte at a time
abbrev pub sanitize_byte : ℕ → ℕ
sanitize_byte c = if nat_beq c colon || (nat_beq c b'/' || nat_beq c b'\\') then b'_' else c

abbrev pub sanitize_key_segment : Bytes → Bytes
sanitize_key_segment s = map sanitize_byte s

-- The loop of queryLogsRaw after `count` results: the items while they have the prefix, with the
-- bounds tested only where `filter_time` is set, until the limit.
abbrev pub logs_until : Bytes → Bytes → Bytes → Bool → ℕ → ℕ → List (Bytes × Bytes) → List Bytes
logs_until prefix start_key end_key filter_time limit count [] = []
logs_until prefix start_key end_key filter_time limit count (item ∷ items) =
    let skipped = logs_until prefix start_key end_key filter_time limit count items in
    let rest = logs_until prefix start_key end_key filter_time limit (count + 1) items in
    if not (has_prefix item.0 prefix)
    then []
    else if filter_time && not (less item.0 end_key)
    then []
    else if filter_time && less item.0 start_key
    then skipped
    else if not (nat_beq limit 0) && leb limit (count + 1)
    then item.1 ∷ []
    else item.1 ∷ rest

abbrev pub reverse : List Bytes → List Bytes
reverse [] = []
reverse (x ∷ xs) = reverse xs ++ x ∷ []

module _ (B : Database) where
  -- A limit that is not positive is 0, and is none.
  unfoldable pub query_logs_raw : Bytes → Bytes → Bytes → Bool → ℕ → B.State → List Bytes
  query_logs_raw prefix start_key end_key filter_time limit s =
      reverse (logs_until prefix start_key end_key filter_time limit 0 (B.scan s prefix))

  unfoldable pub query_logs : Bytes → Time → Time → ℕ → B.State → List Bytes
  query_logs service from to limit s =
      let prefix = keyed l_tag (sanitize_key_segment service ∷ []) in
      if nat_beq (length service) 0
      then query_logs_raw l_tag (ts_key all_logs from) end_of_logs false limit s
      else query_logs_raw prefix (ts_key prefix from) (ts_key prefix to) true limit s

  unfoldable pub query_all_logs : Time → Time → ℕ → B.State → List Bytes
  query_all_logs from to limit s = query_logs [] from to limit s

  unfoldable pub query_spans_by_trace : Bytes → B.State → List Bytes
  query_spans_by_trace trace_id s =
      map (λ item. item.1) (items_of B (keyed sp_tag (sanitize_key_segment trace_id ∷ [])) s)

-- sp:{trace}:{span}
abbrev pub span_key : Bytes → Bytes → Bytes
span_key trace_id span_id =
    keyed sp_tag (sanitize_key_segment trace_id ∷ []) ++ sanitize_key_segment span_id

module _ {A : Type 0} (B : Database) (json : Json A) where
  unfoldable pub save_log : Bytes → A → Time → B.State → Result B.State
  save_log service entry ts s =
      set B json (ts_key (keyed l_tag (sanitize_key_segment service ∷ [])) ts) entry logs_ttl s

  unfoldable pub save_span : A → Bytes → Bytes → B.State → Result B.State
  save_span span trace_id span_id s = set B json (span_key trace_id span_id) span logs_ttl s

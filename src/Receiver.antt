-- ===== src/Receiver.antt =====
-- receiver/dogstatsd.go, bus.go: the lines of DogStatsD, and what goes on to the store and to the
-- topology. A text is its bytes, of which only ASCII blanks are trimmed; strconv.ParseFloat is
-- `parse_float`, and `none` its error.
mod Lines
mod Examples
use Prim.Native.Char.{code}
use ruptura.Base.{
  ℕ, zero, suc, ◌+◌, String, Bool, true, false, not, ◌&&◌, ◌||◌, Option, none, some, List, [], ◌∷◌,
  ◌++◌, map, length, nat_beq, leb, if◌then◌else◌, ◌==◌, string_eq, Dict, insert, Float, Time,
}
use ruptura.Storage.{Bytes, bytes_eq, has_prefix, colon, Database, Json, Result, ok, error}
use ruptura.Storage.Series.{save_metric}
use ruptura.Storage.Logs.{save_log, save_span}
use ruptura.Topology.{Span, TopologyAnalyzer, ingest_span}

abbrev pub pipe : ℕ
pipe = b'|'

abbrev pub comma : ℕ
comma = b','

-- unicode.IsSpace of an ASCII byte
abbrev pub is_blank : ℕ → Bool
is_blank c = nat_beq c b' ' || (leb 9 c && leb c 13)

abbrev trim_left : Bytes → Bytes
trim_left [] = []
trim_left (c ∷ cs) = let rest = trim_left cs in if is_blank c then rest else c ∷ cs

abbrev trim_right : Bytes → Bytes
trim_right [] = []
trim_right (c ∷ cs) =
    let rest = trim_right cs in if nat_beq (length rest) 0 && is_blank c then [] else c ∷ rest

-- strings.TrimSpace
abbrev pub trim_space : Bytes → Bytes
trim_space text = trim_right (trim_left text)

-- A part with one more byte in front.
abbrev pub onto_first : ℕ → List Bytes → List Bytes
onto_first c [] = (c ∷ []) ∷ []
onto_first c (part ∷ parts) = (c ∷ part) ∷ parts

-- strings.Split(text, sep) for a separator of one byte
abbrev pub split_at : ℕ → Bytes → List Bytes
split_at sep [] = [] ∷ []
split_at sep (c ∷ cs) =
    let rest = split_at sep cs in if nat_beq c sep then [] ∷ rest else onto_first c rest

-- What is before and after the first separator: strings.Index, and strings.SplitN with 2.
abbrev pub cut_at : ℕ → Bytes → Option (Bytes × Bytes)
cut_at sep [] = none
cut_at sep (c ∷ cs) =
    let rest = cut_at sep cs in
    if nat_beq c sep
    then some ([], cs)
    else elim rest [ none ↦ none | some (front, back) ↦ some (c ∷ front, back) ]

pub record StatsDMetric (F : Type 0) : Type 0 where
  pub name : Bytes
  pub value : F
  pub type_ : Bytes
  pub sample_rate : F
  pub tags : Dict Bytes Bytes
  pub timestamp : Time

pub data ParseError : Type 0 where
  missing_colon missing_type bad_value : ParseError

pub data Parsed (F : Type 0) : Type 0 where
  parsed : StatsDMetric F → Parsed F
  failed : ParseError → Parsed F

-- "true"
abbrev pub true_text : Bytes
true_text = b't' ∷ b'r' ∷ b'u' ∷ b'e' ∷ []

abbrev pub add_tag : Bytes → Dict Bytes Bytes → Dict Bytes Bytes
add_tag tag tags = elim (cut_at colon tag) [
  | some (k, v) ↦ insert (trim_space k) (trim_space v) tags
  | none ↦ if nat_beq (length tag) 0 then tags else insert tag true_text tags
]

abbrev pub add_tags : List Bytes → Dict Bytes Bytes → Dict Bytes Bytes
add_tags [] tags = tags
add_tags (tag ∷ rest) tags = add_tags rest (add_tag tag tags)

module _ {F : Type 0} ⦃fl : Float F⦄ (parse_float : Bytes → Option F) where
  -- sm.SampleRate = sr, for a rate that can be read and is positive
  abbrev pub with_rate : Bytes → StatsDMetric F → StatsDMetric F
  with_rate text sm = elim (parse_float text) [
    | none ↦ sm
    | some rate ↦ if fl.lt (fl.milli 0) rate then record sm { sample_rate = rate } else sm
  ]

  -- One round of the loop over the further parts.
  abbrev pub with_part : Bytes → StatsDMetric F → StatsDMetric F
  with_part [] sm = sm
  with_part (c ∷ text) sm =
      if nat_beq c b'@'
      then with_rate text sm
      else if nat_beq c b'#'
      then record sm { tags = add_tags (split_at comma text) [] }
      else sm

  abbrev pub with_parts : List Bytes → StatsDMetric F → StatsDMetric F
  with_parts [] sm = sm
  with_parts (part ∷ parts) sm = with_parts parts (with_part (trim_space part) sm)

  -- What follows the name, split at the bars.
  abbrev pub parse_parts : Time → Bytes → List Bytes → Parsed F
  parse_parts now name [] = failed missing_type
  parse_parts now name (value ∷ []) = failed missing_type
  parse_parts now name (value ∷ kind ∷ parts) = elim (parse_float value) [
    | none ↦ failed bad_value
    | some v ↦ parsed (
        with_parts parts (record {
          name = trim_space name;
          value = v;
          type_ = trim_space kind;
          sample_rate = fl.milli 1000;
          tags = [];
          timestamp = now;
        }))
  ]

  unfoldable pub parse_stats_d_line : Time → Bytes → Parsed F
  parse_stats_d_line now line = elim (cut_at colon line) [
    | none ↦ failed missing_colon
    | some (name, rest) ↦ parse_parts now name (split_at pipe rest)
  ]

-- sanitizeName, one byte at a time
abbrev pub sanitize_name : Bytes → Bytes
sanitize_name name =
    map
      (λ c.
        if nat_beq c b'.' || (nat_beq c b'-' || (nat_beq c b'/' || nat_beq c b' '))
        then b'_'
        else c)
      name

pub record Metric (F : Type 0) : Type 0 where
  pub name : Bytes
  pub value : F
  pub timestamp : Time
  pub labels : Dict Bytes Bytes
  pub host : Bytes

module _ {F : Type 0} ⦃fl : Float F⦄ where
  -- The value of a counter stands for all the events of which it is a sample.
  abbrev pub corrected : StatsDMetric F → F
  corrected sm =
      if (sm.type_ == b'c' ∷ [])
        && (fl.lt (fl.milli 0) (sm.sample_rate) && fl.lt (sm.sample_rate) (fl.milli 1000))
      then fl.div (sm.value) (sm.sample_rate)
      else sm.value

  abbrev pub metric_of : Bytes → StatsDMetric F → Metric F
  metric_of host sm = record {
    name = sanitize_name (sm.name);
    value = corrected sm;
    timestamp = sm.timestamp;
    labels = sm.tags;
    host = host;
  }

-- The state after a write, or the one before it where the write failed, which is only logged.
abbrev pub or_before : {S : Type 0} → S → Result S → S
or_before s (ok t) = t
or_before s (error e) = s

module _ {F : Type 0} (B : Database) (json : Json F) where
  -- Bus.IngestMetric
  unfoldable pub ingest_metric : Metric F → B.State → B.State
  ingest_metric m s = or_before s (save_metric B json (m.host) (m.name) (m.value) (m.timestamp) s)

module _ {F : Type 0} ⦃fl : Float F⦄ (B : Database) (json : Json F) where
  -- `sink` is the receiver's MetricSink, which may be nil.
  unfoldable pub emit :
      Option (Metric F → B.State → B.State) → Bytes → StatsDMetric F → B.State → B.State
  emit sink host sm s =
      let m = metric_of host sm in
      let sunk : B.State = elim sink [ none ↦ s | some take_in ↦ take_in m s ] in
      or_before sunk (save_metric B json host (m.name) (m.value) (m.timestamp) sunk)

  -- The lines of a packet; `clock` reads the time for each. A line that cannot be parsed is logged.
  unfoldable pub receive_lines :
      (Bytes → Option F)
      → Option (Metric F → B.State → B.State)
      → Bytes
      → (ℕ → Time)
      → ℕ
      → List Bytes
      → B.State
      → B.State
  receive_lines parse_float sink host clock n [] s = s
  receive_lines parse_float sink host clock n (line ∷ lines) s =
      let skipped = receive_lines parse_float sink host clock (n + 1) lines s in
      let emitted = λ (sm : StatsDMetric F).
        receive_lines parse_float sink host clock (n + 1) lines (emit sink host sm s) in
      if nat_beq (length (trim_space line)) 0
      then skipped
      else elim (parse_stats_d_line parse_float (clock n) (trim_space line)) [
        | failed e ↦ skipped
        | parsed sm ↦ emitted sm
      ]

  -- One round of the loop of Run.
  unfoldable pub receive_packet :
      (Bytes → Option F)
      → Option (Metric F → B.State → B.State)
      → Bytes
      → (ℕ → Time)
      → Bytes
      → B.State
      → B.State
  receive_packet parse_float sink host clock packet s =
      receive_lines parse_float sink host clock 0 (split_at 10 (trim_space packet)) s

-- The bytes of an ASCII text.
abbrev pub raw : String → Bytes
raw String.[] = []
raw (String.◌∷◌ c s) = code c ∷ raw s

module _ (B : Database) (json : Json Span) where
  -- Bus.IngestSpan: the topology, where there is one, and then the store
  unfoldable pub bus_ingest_span :
      Span → Option TopologyAnalyzer → B.State → Option TopologyAnalyzer × B.State
  bus_ingest_span span topology s = (
    elim topology [ none ↦ none | some t ↦ some (ingest_span span t) ],
    or_before s (save_span B json span (raw (span.trace_id)) (raw (span.span_id)) s),
  )

-- The fields of a LogEntry that the bus reads, and the rest.
pub record LogEntry (X : Type 0) : Type 0 where
  pub service : Bytes
  pub host : Bytes
  pub timestamp : Time
  pub body : X

-- "unknown"
abbrev pub unknown_text : Bytes
unknown_text = b'u' ∷ b'n' ∷ b'k' ∷ b'n' ∷ b'o' ∷ b'w' ∷ b'n' ∷ []

module _ {X : Type 0} where
  -- The service of a log entry, or else its host, or else "unknown".
  abbrev pub log_service : LogEntry X → Bytes
  log_service e =
      if nat_beq (length (e.service)) 0
      then if nat_beq (length (e.host)) 0 then unknown_text else e.host
      else e.service

module _ {X : Type 0} (B : Database) (json : Json (LogEntry X)) where
  -- Bus.IngestLog
  unfoldable pub ingest_log : LogEntry X → B.State → B.State
  ingest_log e s = or_before s (save_log B json (log_service e) e (e.timestamp) s)

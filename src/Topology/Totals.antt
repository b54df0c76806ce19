-- ===== src/Topology/Totals.antt =====
-- analyzer/topology.go: the counts of the edges against the spans that were taken in.
use Prim.Native.String.{◌++◌ as ◌&◌}
use ruptura.Base.{
  ℕ, ◌+◌, ◌≡◌, refl, sym, ap, ◌∙◌, String, Bool, true, false, ◌&&◌, Option, none, some, inl, inr,
  List, [], ◌∷◌, first, Bool-cases, if◌then◌else◌, ◌==◌, ==_iff, string_eq, Dict, lookup, insert,
  lookup-insert, Duration,
}
use ruptura.Topology.{
  Span, EdgeStats, TopologyAnalyzer, new_topology_analyzer, spans_of, index_span, caller,
  fresh_edge, or_empty, edge_or, edge_key, record_edge, note_service, with_span, ingest_span,
}

-- The analyzer after some spans, of which the latest stands first.
abbrev pub after_spans : Duration → List Span → TopologyAnalyzer
after_spans window [] = new_topology_analyzer window
after_spans window (span ∷ earlier) = ingest_span span (after_spans window earlier)

-- The latest span of a trace with an identifier.
abbrev pub latest_span : String → String → List Span → Option Span
latest_span trace id = first (λ s. (s.trace_id == trace) && (s.span_id == id))

-- The span of another service that called a span, among the spans so far.
abbrev pub caller_among : Span → List Span → Option Span
caller_among span spans =
    let found = latest_span (span.trace_id) (span.parent_id) spans in
    if span.parent_id == "" then none else elim found [
      | none ↦ none
      | some parent ↦ if parent.service == span.service then none else some parent
    ]

-- What an edge counts.
pub record Totals : Type 0 where
  pub calls : ℕ
  pub errors : ℕ
  pub total_ns : ℕ

abbrev pub nothing : Totals
nothing = record { calls = 0; errors = 0; total_ns = 0 }

abbrev pub one_more : Span → Totals → Totals
one_more span n = record {
  calls = n.calls + 1;
  errors = if span.status == "error" then n.errors + 1 else n.errors;
  total_ns = n.total_ns + span.duration_ns;
}

-- A call is counted under the key that the services of the caller and the span make.
abbrev pub add_call : String → Span → Totals → Option Span → Totals
add_call key span n none = n
add_call key span n (some parent) =
    if edge_key (parent.service) (span.service) == key then one_more span n else n

-- The calls under a key among some spans, each with a caller that came before it.
abbrev pub totals_among : String → List Span → Totals
totals_among key [] = nothing
totals_among key (span ∷ earlier) =
    add_call key span (totals_among key earlier) (caller_among span (span ∷ earlier))

abbrev pub stats_of : EdgeStats → Totals
stats_of e = record { calls = e.calls; errors = e.errors; total_ns = e.total_ns }

abbrev pub totals_or : Option EdgeStats → Totals
totals_or none = nothing
totals_or (some e) = stats_of e

-- The counts under a key, none where it has no entry.
abbrev pub totals_at : String → Dict String EdgeStats → Totals
totals_at key edges = totals_or (lookup key edges)

map_if :
    {A B : Type 0} (f : A → B) (b : Bool) (x y : A)
    → f (if b then x else y) ≡ (if b then f x else f y)
map_if f true x y = refl
map_if f false x y = refl

spans_of-index_span :
    (span : Span) (index : Dict String (Dict String Span)) (trace id : String)
    → lookup id (spans_of trace (index_span span index)) ≡ (
        if (span.trace_id == trace) && (span.span_id == id)
        then some span
        else lookup id (spans_of trace index))
spans_of-index_span span index trace id =
    let siblings = insert (span.span_id) span (spans_of (span.trace_id) index) in
    let there : spans_of trace (index_span span index)
        ≡ (if span.trace_id == trace then siblings else spans_of trace index) =
      ap or_empty (lookup-insert (span.trace_id) trace siblings index)
      ∙ map_if or_empty (span.trace_id == trace) (some siblings) (lookup trace index) in
    elim (Bool-cases (span.trace_id == trace)) [
      | inl same ↦
          let e : span.trace_id ≡ trace = (==_iff (span.trace_id) trace).0 same in
          let found : spans_of trace (index_span span index) ≡ siblings = rw same at there in
          rw same (
            ap (lookup id) found
            ∙ lookup-insert (span.span_id) id span (spans_of (span.trace_id) index)
            ∙ ap (λ t. if span.span_id == id then some span else lookup id (spans_of t index)) e)
      | inr other ↦
          let found : spans_of trace (index_span span index) ≡ spans_of trace index =
            rw other at there in
          rw other (ap (lookup id) found)
    ]

span_index-ingest_span :
    (span : Span) (t : TopologyAnalyzer)
    → (ingest_span span t).span_index ≡ index_span span (t.span_index)
unfolding ingest_span
span_index-ingest_span span t = refl

-- The index finds the latest span with an identifier.
latest_span-after_spans :
    (window : Duration) (spans : List Span) (trace id : String)
    → lookup id (spans_of trace ((after_spans window spans).span_index))
      ≡ latest_span trace id spans
unfolding lookup
latest_span-after_spans window [] trace id = refl
latest_span-after_spans window (span ∷ earlier) trace id =
    ap (λ index. lookup id (spans_of trace index))
      (span_index-ingest_span span (after_spans window earlier))
    ∙ spans_of-index_span span ((after_spans window earlier).span_index) trace id
    ∙ ap (λ o. if (span.trace_id == trace) && (span.span_id == id) then some span else o)
        (latest_span-after_spans window earlier trace id)

-- What is found of the caller decides alike.
abbrev judged : Span → Option Span → Option Span
judged span found = if span.parent_id == "" then none else elim found [
  | none ↦ none
  | some parent ↦ if parent.service == span.service then none else some parent
]

caller-after_spans :
    (window : Duration) (span : Span) (earlier : List Span)
    → caller span (index_span span ((after_spans window earlier).span_index))
      ≡ caller_among span (span ∷ earlier)
caller-after_spans window span earlier = ap (judged span) (
    ap (λ index. lookup (span.parent_id) (spans_of (span.trace_id) index))
      (sym (span_index-ingest_span span (after_spans window earlier)))
    ∙ latest_span-after_spans window (span ∷ earlier) (span.trace_id) (span.parent_id))

stats_of-edge_or :
    (from to : String) (found : Option EdgeStats)
    → stats_of (edge_or (fresh_edge from to) found) ≡ totals_or found
stats_of-edge_or from to none = refl
stats_of-edge_or from to (some e) = refl

totals_at-note_service :
    (span : Span) (key : String) (edges : Dict String EdgeStats)
    → totals_at key (note_service span edges) ≡ totals_at key edges
unfolding note_service
totals_at-note_service span key edges = elim (Bool-cases ((span.service & ":") == key)) [
  | inl same ↦
      let e = (==_iff (span.service & ":") key).0 same in
      rw (lookup-insert, same)
        (stats_of-edge_or (span.service) "" (lookup (span.service & ":") edges)
          ∙ ap (λ k. totals_at k edges) e)
  | inr other ↦ rw (lookup-insert, other) refl
]

totals_at-record_edge :
    (from to : String) (span : Span) (key : String) (edges : Dict String EdgeStats)
    → totals_at key (record_edge from to span edges) ≡ (
        if edge_key from to == key
        then one_more span (totals_at key edges)
        else totals_at key edges)
unfolding record_edge
totals_at-record_edge from to span key edges = elim (Bool-cases (edge_key from to == key)) [
  | inl same ↦
      let e = (==_iff (edge_key from to) key).0 same in
      rw (lookup-insert, same)
        (ap (one_more span) (
          stats_of-edge_or from to (lookup (edge_key from to) edges)
          ∙ ap (λ k. totals_at k edges) e))
  | inr other ↦ rw (lookup-insert, other) refl
]

totals_at-with_span :
    (span : Span) (key : String) (edges : Dict String EdgeStats) (found : Option Span)
    → totals_at key (with_span span edges found) ≡ add_call key span (totals_at key edges) found
totals_at-with_span span key edges none = totals_at-note_service span key edges
totals_at-with_span span key edges (some parent) =
    totals_at-record_edge (parent.service) (span.service) span key edges

-- After any spans, an edge counts exactly the spans whose parent was taken in before them, in the
-- same trace and with another service, where the two services make the edge's key: how many they
-- were, how many of them had the status error, and their whole duration.
pub totals_at-after_spans :
    (window : Duration) (spans : List Span) (key : String)
    → totals_at key ((after_spans window spans).edges) ≡ totals_among key spans
unfolding lookup ingest_span
totals_at-after_spans window [] key = refl
totals_at-after_spans window (span ∷ earlier) key =
    let t = after_spans window earlier in
    ap (λ found. totals_at key (with_span span (t.edges) found))
      (caller-after_spans window span earlier)
    ∙ totals_at-with_span span key (t.edges) (caller_among span (span ∷ earlier))
    ∙ ap (λ n. add_call key span n (caller_among span (span ∷ earlier)))
        (totals_at-after_spans window earlier key)

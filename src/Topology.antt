-- ===== src/Topology.antt =====
-- analyzer/topology.go: the calls between services that the spans of traces show. Durations are not
-- negative.
mod Totals
mod Pruning
mod Examples
use Prim.Native.String.{◌++◌ as ◌&◌}
use ruptura.Base.{
  ℕ, zero, ◌+◌, ◌-◌, ◌*◌, String, Bool, true, false, not, ◌||◌, Option, none, some, List, [], ◌∷◌,
  ◌++◌, select, exists, map, nat_beq, if◌then◌else◌, ◌==◌, string_eq, Dict, lookup, insert, sort_by,
  str_less, Float, pos, Time, Duration, minute, before, after,
}

pub record Span : Type 0 where
  pub trace_id : String
  pub span_id : String
  pub parent_id : String
  pub service : String
  pub status : String
  pub start_time : Time
  pub duration_ns : ℕ

pub record EdgeStats : Type 0 where
  pub from : String
  pub to : String
  pub calls : ℕ
  pub errors : ℕ
  pub total_ns : ℕ
  pub last_seen : Time

pub record TopologyAnalyzer : Type 0 where
  pub span_index : Dict String (Dict String Span)
  pub edges : Dict String EdgeStats
  pub window : Duration

abbrev pub new_topology_analyzer : Duration → TopologyAnalyzer
new_topology_analyzer window = record {
  span_index = [];
  edges = [];
  window = if nat_beq window 0 then 10 * minute else window;
}

-- The spans of a trace, empty where the trace is not indexed.
abbrev pub or_empty : Option (Dict String Span) → Dict String Span
or_empty none = []
or_empty (some spans) = spans

abbrev pub spans_of : String → Dict String (Dict String Span) → Dict String Span
spans_of trace index = or_empty (lookup trace index)

abbrev pub index_span : Span → Dict String (Dict String Span) → Dict String (Dict String Span)
index_span span index =
    insert (span.trace_id) (insert (span.span_id) span (spans_of (span.trace_id) index)) index

-- The parent of a span, where it is known and of another service.
abbrev pub caller : Span → Dict String (Dict String Span) → Option Span
caller span index =
    let found = lookup (span.parent_id) (spans_of (span.trace_id) index) in
    if span.parent_id == "" then none else elim found [
      | none ↦ none
      | some parent ↦ if parent.service == span.service then none else some parent
    ]

abbrev pub fresh_edge : String → String → EdgeStats
fresh_edge from to = record {
  from = from;
  to = to;
  calls = 0;
  errors = 0;
  total_ns = 0;
  last_seen = 0;
}

abbrev pub edge_or : EdgeStats → Option EdgeStats → EdgeStats
edge_or fresh none = fresh
edge_or fresh (some e) = e

-- t.edges[key], or a fresh entry
abbrev pub edge_at : String → EdgeStats → Dict String EdgeStats → EdgeStats
edge_at key fresh edges = edge_or fresh (lookup key edges)

abbrev pub edge_key : String → String → String
edge_key from to = from & ":" & to

abbrev pub count_call : Span → EdgeStats → EdgeStats
count_call span e = record e {
  calls = e.calls + 1;
  total_ns = e.total_ns + span.duration_ns;
  last_seen = span.start_time;
  errors = if span.status == "error" then e.errors + 1 else e.errors;
}

unfoldable pub record_edge : String → String → Span → Dict String EdgeStats → Dict String EdgeStats
record_edge from to span edges =
    let key = edge_key from to in
    insert key (count_call span (edge_at key (fresh_edge from to) edges)) edges

-- The entry that shows a service without a call to another one.
unfoldable pub note_service : Span → Dict String EdgeStats → Dict String EdgeStats
note_service span edges =
    let key = span.service & ":" in
    let e = edge_at key (fresh_edge (span.service) "") edges in
    insert key (record e { last_seen = span.start_time }) edges

-- The edges with a span, under its caller where there is one.
abbrev pub with_span : Span → Dict String EdgeStats → Option Span → Dict String EdgeStats
with_span span edges none = note_service span edges
with_span span edges (some parent) = record_edge (parent.service) (span.service) span edges

unfoldable pub ingest_span : Span → TopologyAnalyzer → TopologyAnalyzer
ingest_span span t =
    let index = index_span span t.span_index in
    record t { span_index = index; edges = with_span span t.edges (caller span index) }

pub record ServiceEdge (F : Type 0) : Type 0 where
  pub from : String
  pub to : String
  pub calls : ℕ
  pub errors : ℕ
  pub avg_lat_ms : F

pub record TopologyGraph (F : Type 0) : Type 0 where
  pub timestamp : Time
  pub nodes : List String
  pub edges : List (ServiceEdge F)

-- nodeSet[name] = struct{}{}
abbrev pub add_node : String → List String → List String
add_node name nodes = if exists (λ n. n == name) nodes then nodes else nodes ++ name ∷ []

-- The names of an edge, an empty one left out.
abbrev pub add_names : EdgeStats → List String → List String
add_names e nodes =
    let with_from = if e.from == "" then nodes else add_node (e.from) nodes in
    if e.to == "" then with_from else add_node (e.to) with_from

abbrev pub nodes_of : List EdgeStats → List String → List String
nodes_of [] nodes = nodes
nodes_of (e ∷ edges) nodes = nodes_of edges (add_names e nodes)

-- The entries seen within the window.
abbrev pub recent_edges : Time → Dict String EdgeStats → List EdgeStats
recent_edges cutoff edges =
    select (λ e. not (before (e.last_seen) cutoff)) (map (λ entry. entry.1) edges)

module _ {F : Type 0} ⦃fl : Float F⦄ where
  abbrev pub service_edge : EdgeStats → ServiceEdge F
  service_edge e = record {
    from = e.from;
    to = e.to;
    calls = e.calls;
    errors = e.errors;
    avg_lat_ms =
        if nat_beq (e.calls) 0
        then fl.milli 0
        else fl.div (fl.div (fl.of_int (pos (e.total_ns))) (fl.of_int (pos (e.calls))))
            (fl.of_int (pos 1000000));
  }

  -- The read phase of Graph; `now` is read again for the timestamp.
  unfoldable pub read_graph : Time → Time → TopologyAnalyzer → TopologyGraph F
  read_graph cutoff stamp t =
      let recent = recent_edges cutoff t.edges in
      record {
        timestamp = stamp;
        nodes = sort_by str_less (nodes_of recent []);
        edges = map service_edge (select (λ e. not (e.to == "")) recent);
      }

-- The second phase of Graph, which takes out the old traces and edges.
unfoldable pub prune : Time → TopologyAnalyzer → TopologyAnalyzer
prune cutoff t = record t {
  span_index = select (λ entry. exists (λ s. after (s.1.start_time) cutoff) entry.1) t.span_index;
  edges = select (λ entry. not (before (entry.1.last_seen) cutoff)) t.edges;
}

module _ {F : Type 0} ⦃fl : Float F⦄ where
  -- No span comes between the two phases.
  unfoldable pub graph : Time → Time → TopologyAnalyzer → TopologyGraph F × TopologyAnalyzer
  graph now stamp t = (read_graph (now - t.window) stamp t, prune (now - t.window) t)

  abbrev pub error_rates : F → List (ServiceEdge F) → F
  error_rates total [] = total
  error_rates total (e ∷ edges) =
      let rate = fl.div (fl.of_int (pos (e.errors))) (fl.of_int (pos (e.calls))) in
      error_rates (if nat_beq (e.calls) 0 then total else fl.add total rate) edges

  unfoldable pub contagion_index : Time → Time → TopologyAnalyzer → F × TopologyAnalyzer
  contagion_index now stamp t =
      let (g, pruned) = graph now stamp t in
      let total = error_rates (fl.milli 0) g.edges in
      (if fl.lt (fl.milli 1000) total then fl.milli 1000 else total, pruned)

unfoldable pub upstream_deps : String → Time → TopologyAnalyzer → List String
upstream_deps host now t =
    map (λ e. e.to) (select (λ e. e.from == host) (recent_edges (now - t.window) t.edges))

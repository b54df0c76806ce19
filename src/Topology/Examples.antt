-- ===== src/Topology/Examples.antt =====
-- The theorems on the topology at a trace of three spans.
use ruptura.Base.{ℕ, ◌-◌, ◌≡◌, refl, String, [], ◌∷◌, List, Float, fixed, minute, arith}
use ruptura.Topology.{Span, upstream_deps, prune, graph}
use ruptura.Topology.Totals.{after_spans, totals_at, totals_among, totals_at-after_spans}
use ruptura.Topology.Pruning.{upstream_deps-prune}

instance abbrev fixed_float : Float ℕ
fixed_float = fixed

abbrev span : String → String → String → String → Span
span id parent service status = record {
  trace_id = "t";
  span_id = id;
  parent_id = parent;
  service = service;
  status = status;
  start_time = 5;
  duration_ns = 7;
}

abbrev trace : List Span
trace = span "3" "1" "db" "error" ∷ span "2" "1" "db" "ok" ∷ span "1" "" "api" "ok" ∷ []

totals_at-after_spans_example :
    totals_at "api:db" ((after_spans minute trace).edges) ≡ totals_among "api:db" trace
totals_at-after_spans_example = totals_at-after_spans minute trace "api:db"

two_calls : (totals_among "api:db" trace ≡ record { calls = 2; errors = 1; total_ns = 14 })
two_calls = refl

-- A child that comes before its parent is not counted.
child_first :
    totals_among "api:db" (span "1" "" "api" "ok" ∷ span "2" "1" "db" "ok" ∷ [])
    ≡ record { calls = 0; errors = 0; total_ns = 0 }
child_first = refl

upstream_deps-prune_example :
    (upstream_deps "api" 9
        (prune (9 - (after_spans minute trace).window) (after_spans minute trace))
      ≡ upstream_deps "api" 9 (after_spans minute trace))
    × ((graph {F = ℕ} 9 9
          (prune (9 - (after_spans minute trace).window) (after_spans minute trace))).0
        ≡ (graph {F = ℕ} 9 9 (after_spans minute trace)).0)
upstream_deps-prune_example =
    upstream_deps-prune 9 9 9 "api" (after_spans minute trace) (omega arith)

-- ===== src/Correlator/Spans.antt =====
-- correlator.go: TopologyBuilder, the service edges that trace spans show.
use Prim.Native.String.{◌++◌ as ◌&◌}
use ruptura.Base.{
  ℕ, ◌+◌, String, Bool, ◌||◌, List, map, some, none, if◌then◌else◌, ltb, ◌==◌, string_eq, Dict,
  lookup, insert, Float, pos,
}

pub record EdgeStats : Type 0 where
  pub from : String
  pub to : String
  pub calls : ℕ
  pub errors : ℕ
  pub total_latency_ns : ℕ

abbrev pub TopologyBuilder : Type 0
TopologyBuilder = Dict String EdgeStats

unfoldable pub observe_span : TopologyBuilder → String → String → ℕ → Bool → TopologyBuilder
observe_span t service parent_service duration_ns is_error =
    let key = parent_service & ("→" & service) in
    let e : EdgeStats = elim (lookup key t) [
      | some e ↦ e
      | none ↦ record {
        from = parent_service;
        to = service;
        calls = 0;
        errors = 0;
        total_latency_ns = 0;
      }
    ] in
    if parent_service == "" || parent_service == service
    then t
    else insert key
        (record e {
          calls = e.calls + 1;
          total_latency_ns = e.total_latency_ns + duration_ns;
          errors = if is_error then e.errors + 1 else e.errors;
        })
        t

-- models.ServiceEdge
pub record ServiceEdge (F : Type 0) : Type 0 where
  pub from : String
  pub to : String
  pub calls : ℕ
  pub errors : ℕ
  pub avg_lat_ms : F

module _ {F : Type 0} ⦃fl : Float F⦄ where
  -- Edges
  unfoldable pub service_edges : TopologyBuilder → List (ServiceEdge F)
  service_edges t =
      map
        (λ ke.
          let e : EdgeStats = ke.1 in
          record {
            from = e.from;
            to = e.to;
            calls = e.calls;
            errors = e.errors;
            avg_lat_ms =
                if ltb 0 e.calls
                then fl.div (fl.div (fl.of_int (pos e.total_latency_ns)) (fl.of_int (pos e.calls)))
                    (fl.milli 1000000000)
                else fl.milli 0;
          })
        t

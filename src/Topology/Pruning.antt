-- ===== src/Topology/Pruning.antt =====
-- analyzer/topology.go: queries after Graph took out old entries.
use ruptura.Base.{
  ◌-◌, ◌≤◌, ◌≡◌, refl, ap, String, true, not, [], ◌∷◌, map, select, Bool-cases, inl, inr, Dict,
  sort_by, str_less, Float, Time, before, if◌then◌else◌, ◌==◌, string_eq, arith,
}
use ruptura.Topology.{
  EdgeStats, TopologyAnalyzer, recent_edges, read_graph, prune, graph, upstream_deps, nodes_of,
  service_edge,
}

recent_edges-select :
    (cutoff later : Time) (edges : Dict String EdgeStats)
    → cutoff ≤ later
    → recent_edges later (select (λ entry. not (before (entry.1.last_seen) cutoff)) edges)
      ≡ recent_edges later edges
recent_edges-select cutoff later [] h = refl
recent_edges-select cutoff later (entry ∷ edges) h =
    elim (Bool-cases (before (entry.1.last_seen) cutoff)) [
      | inl old ↦
          let still_old : before (entry.1.last_seen) later ≡ true = ground arith in
          rw (old, still_old) (recent_edges-select cutoff later edges h)
      | inr recent ↦ rw recent (
          ap (λ l. if not (before (entry.1.last_seen) later) then entry.1 ∷ l else l)
            (recent_edges-select cutoff later edges h))
    ]

-- After Graph took out the old entries, it and UpstreamDeps give at the same time and at any later
-- one what they give without that.
pub upstream_deps-prune :
    {F : Type 0} ⦃fl : Float F⦄ (now later stamp : Time) (host : String) (t : TopologyAnalyzer)
    → now ≤ later
    → (upstream_deps host later (prune (now - t.window) t) ≡ upstream_deps host later t)
      × ((graph {F = F} later stamp (prune (now - t.window) t)).0 ≡ (graph {F = F} later stamp t).0)
unfolding upstream_deps prune graph read_graph
upstream_deps-prune now later stamp host t h =
    let same = recent_edges-select (now - t.window) (later - t.window) (t.edges) (omega arith) in
    (
      ap (λ l. map (λ e. e.to) (select (λ e. e.from == host) l)) same,
      ap
          (λ l. record {
            timestamp = stamp;
            nodes = sort_by str_less (nodes_of l []);
            edges = map service_edge (select (λ e. not (e.to == "")) l);
          })
          same,
    )

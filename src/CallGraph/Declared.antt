-- ===== src/CallGraph/Declared.antt =====
-- graph.go: Build compared with a list of all the calls that the cluster declares, which is written
-- without maps.
use ruptura.Base.{
  ◌≡◌, refl, sym, ap, ◌∙◌, subst, fun_ext, ◌≢◌, inl, inr, String, List, [], ◌∷◌, ◌++◌, map,
  flat_map, append_assoc, append_nil, select, All, All-sort_by, Has, IsUnique, Has-key-sort_by,
  IsUnique-sort_by, some, none, Option-cases, if◌then◌else◌, Bool-cases, List-cases, ◌==◌, ==_iff,
  string_eq, Dict, lookup, sort_by,
}
use ruptura.CallGraph.{
  EnvVar, Workload, Service, Entry, Edge, HostText, Found, source_env, workload_id, entry_id,
  list_at, append_at, hosts, service_key, is_backend, service_id, add_backends, all_backends,
  edge_key, add, add_all, add_hosts, add_env, add_workloads, entry_source, entry_targets,
  add_entries, edge_less, build, slashed,
}
use ruptura.CallGraph.Calls.{list_at-append_at}
use ruptura.CallGraph.Edges.{
  add_edges, add_edges-append, IsFound, IsFound-start, IsFound-add_edges, add_edges-seen,
}

-- The workloads that the services of a key select.
abbrev pub backends_of : List Workload → List Service → String → List String
backends_of ws svcs key =
    flat_map
      (λ svc. if service_id svc == key then map workload_id (select (is_backend svc) ws) else [])
      svcs

abbrev pub edges_to : String → String → String → List String → List Edge
edges_to from source via targets =
    map (λ to. record { from = from; to = to; source = source; via = via }) targets

module _ (targets : String → List String) where
  abbrev pub host_edges : Workload → String → String → List Edge
  host_edges w via host = elim (service_key host w.namespace) [
    | none ↦ []
    | some key ↦ edges_to (workload_id w) source_env via (targets key)
  ]

  abbrev pub env_edges : HostText → Workload → List Edge
  env_edges texts w =
      flat_map (λ (v : EnvVar). flat_map (host_edges w v.name) (hosts texts v.value)) w.env

  abbrev pub entry_edges : Entry → List Edge
  entry_edges entry =
      edges_to (entry_id entry) (entry_source entry) entry.host
        (targets (slashed entry.namespace entry.service))

-- Every edge that an environment value or an entry declares.
unfoldable pub declared_edges : HostText → List Workload → List Service → List Entry → List Edge
declared_edges texts ws svcs entries =
    flat_map (env_edges (backends_of ws svcs) texts) ws
    ++ flat_map (entry_edges (backends_of ws svcs)) entries

list_at-add_backends :
    (svc : Service) (ws : List Workload) (m : Dict String (List String)) (key : String)
    → list_at key (add_backends svc ws m) ≡ (
        if service_id svc == key
        then list_at key m ++ map workload_id (select (is_backend svc) ws)
        else list_at key m)
unfolding add_backends
list_at-add_backends svc [] m key = elim (Bool-cases (service_id svc == key)) [
  | inl same ↦ rw same (sym (append_nil (list_at key m)))
  | inr other ↦ rw other
]
list_at-add_backends svc (w ∷ ws) m key = elim (Bool-cases (is_backend svc w)) [
  | inr out ↦ rw out (list_at-add_backends svc ws m key)
  | inl hit ↦
      let later = list_at-add_backends svc ws (append_at (service_id svc) (workload_id w) m) key in
      let joined = list_at-append_at (service_id svc) key (workload_id w) m in
      let chosen = map workload_id (select (is_backend svc) ws) in
      elim (Bool-cases (service_id svc == key)) [
        | inl same ↦
            let is_it : service_id svc ≡ key = (==_iff (service_id svc) key).0 same in
            let before : list_at (service_id svc) m ≡ list_at key m = ap (λ k. list_at k m) is_it in
            rw (hit, later, joined, before, same)
              (append_assoc (list_at key m) (workload_id w ∷ []) chosen)
        | inr other ↦ rw (hit, later, joined, other)
      ]
]

list_at-all_backends :
    (ws : List Workload) (svcs : List Service) (m : Dict String (List String)) (key : String)
    → list_at key (all_backends ws svcs m) ≡ list_at key m ++ backends_of ws svcs key
unfolding all_backends
list_at-all_backends ws [] m key = sym (append_nil (list_at key m))
list_at-all_backends ws (svc ∷ svcs) m key =
    let later = list_at-all_backends ws svcs (add_backends svc ws m) key in
    let first_one = list_at-add_backends svc ws m key in
    elim (Bool-cases (service_id svc == key)) [
      | inl same ↦
          rw (later, first_one, same)
            (append_assoc (list_at key m) (map workload_id (select (is_backend svc) ws))
              (backends_of ws svcs key))
      | inr other ↦ rw (later, first_one, other)
    ]

-- Each loop of Build adds a list of edges.
add_all-eq :
    (f : Found) (from : String) (targets : List String) (source via : String)
    → add_all f from targets source via ≡ add_edges f (edges_to from source via targets)
unfolding add_all
add_all-eq f from [] source via = refl
add_all-eq f from (to ∷ more) source via =
    add_all-eq (add f (record { from = from; to = to; source = source; via = via })) from more
      source via

module _ (backends : Dict String (List String)) where
  targets_at : String → List String
  targets_at key = list_at key backends

  add_hosts-eq :
      (f : Found) (w : Workload) (via : String) (names : List String)
      → add_hosts backends f w via names
        ≡ add_edges f (flat_map (host_edges targets_at w via) names)
  unfolding add_hosts targets_at
  add_hosts-eq f w via [] = refl
  add_hosts-eq f w via (host ∷ more) = elim (Option-cases (service_key host w.namespace)) [
    | inl foreign ↦ rw (add_hosts, flat_map, host_edges, foreign) (add_hosts-eq f w via more)
    | inr (key, local) ↦
        let these = edges_to (workload_id w) source_env via (list_at key backends) in
        rw
          (
            add_hosts,
            flat_map,
            host_edges,
            local,
            add_all-eq f (workload_id w) (list_at key backends) source_env via,
          )
          (add_hosts-eq (add_edges f these) w via more
            ∙ sym (add_edges-append f these (flat_map (host_edges targets_at w via) more)))
  ]

  add_env-eq :
      (texts : HostText) (f : Found) (w : Workload) (vars : List EnvVar)
      → add_env backends texts f w vars
        ≡ add_edges f (
            flat_map
              (λ (v : EnvVar). flat_map (host_edges targets_at w v.name) (hosts texts v.value))
              vars)
  unfolding add_env
  add_env-eq texts f w [] = refl
  add_env-eq texts f w (v ∷ vars) =
      let these = flat_map (host_edges targets_at w v.name) (hosts texts v.value) in
      rw (add_hosts-eq f w v.name (hosts texts v.value))
        (add_env-eq texts (add_edges f these) w vars ∙ sym (add_edges-append f these _))

  add_workloads-eq :
      (texts : HostText) (f : Found) (ws : List Workload)
      → add_workloads backends texts f ws ≡ add_edges f (flat_map (env_edges targets_at texts) ws)
  unfolding add_workloads
  add_workloads-eq texts f [] = refl
  add_workloads-eq texts f (w ∷ ws) =
      let these = env_edges targets_at texts w in
      rw (add_env-eq texts f w w.env)
        (add_workloads-eq texts (add_edges f these) ws ∙ sym (add_edges-append f these _))

  add_entries-eq :
      (f : Found) (entries : List Entry)
      → (add_entries backends f entries).0 ≡ add_edges f (flat_map (entry_edges targets_at) entries)
  unfolding add_entries targets_at
  add_entries-eq f [] = refl
  add_entries-eq f (entry ∷ more) = elim (List-cases (entry_targets backends entry)) [
    | inl nowhere ↦ rw (add_entries, nowhere) (add_entries-eq f more)
    | inr (t, ts, e) ↦
        let these = edges_to (entry_id entry) (entry_source entry) entry.host (t ∷ ts) in
        rw (add_entries, e, add_all-eq f (entry_id entry) (t ∷ ts) (entry_source entry) entry.host)
          (add_entries-eq (add_edges f these) more ∙ sym (add_edges-append f these _))
  ]

-- The edges of the graph before they are sorted.
build-edges :
    (texts : HostText) (ws : List Workload) (svcs : List Service) (entries : List Entry)
    → (build texts ws svcs entries).edges
      ≡ sort_by edge_less
          (add_edges
            (record { seen = []; edges = [] })
            (declared_edges texts ws svcs entries)).edges
unfolding build declared_edges targets_at lookup
build-edges texts ws svcs entries =
    let backends = all_backends ws svcs [] in
    let tables : targets_at backends ≡ backends_of ws svcs =
      fun_ext (list_at-all_backends ws svcs []) in
    let nothing : Found = record { seen = []; edges = [] } in
    let calls = flat_map (env_edges (backends_of ws svcs) texts) ws in
    let first_half : add_workloads backends texts nothing ws ≡ add_edges nothing calls =
      subst
        (λ t.
          add_workloads backends texts nothing ws
          ≡ add_edges nothing (flat_map (env_edges t texts) ws))
        tables (add_workloads-eq backends texts nothing ws) in
    let both : (add_entries backends (add_workloads backends texts nothing ws) entries).0
        ≡ add_edges nothing (declared_edges texts ws svcs entries) =
      rw first_half (
        subst
          (λ t.
            (add_entries backends (add_edges nothing calls) entries).0
            ≡ add_edges (add_edges nothing calls) (flat_map (entry_edges t) entries))
          tables (add_entries-eq backends (add_edges nothing calls) entries)
        ∙ sym (add_edges-append nothing calls _)) in
    ap (λ (f : Found). sort_by edge_less f.edges) both

-- The edges of the graph are the listed ones between different names, each once per ends and source.
pub build-declared_edges :
    (texts : HostText) (ws : List Workload) (svcs : List Service) (entries : List Entry)
    → IsUnique (map edge_key (build texts ws svcs entries).edges)
      × All
          (λ e. Has e (declared_edges texts ws svcs entries) × (e.from ≢ e.to))
          (build texts ws svcs entries).edges
      × ((e : Edge)
          → Has e (declared_edges texts ws svcs entries)
          → e.from ≢ e.to
          → Has (edge_key e) (map edge_key (build texts ws svcs entries).edges))
build-declared_edges texts ws svcs entries = rw (build-edges texts ws svcs entries) (
  IsUnique-sort_by edge_less edge_key f.edges known.unique,
  All-sort_by edge_less (λ e. Has e wanted × (e.from ≢ e.to)) f.edges known.among,
  λ e there away.
      (Has-key-sort_by edge_less edge_key (edge_key e) f.edges).1
        (known.noted e (add_edges-seen (record { seen = []; edges = [] }) wanted e there away)),
)
  where
    wanted : List Edge
    wanted = declared_edges texts ws svcs entries

    f : Found
    f = add_edges (record { seen = []; edges = [] }) wanted

    known : IsFound wanted f
    known =
        IsFound-add_edges wanted (record { seen = []; edges = [] }) wanted (λ e h. h)
          (IsFound-start wanted)

-- ===== src/CallGraph/Declarations.antt =====
-- graph.go: Build compared with what a cluster declares.
use ruptura.Base.{
  ◌≡◌, ◌≢◌, ◌⊎◌, ◌↔◌, refl, sym, ap, ◌∙◌, subst, String, true, false, some, none, inl, inr, List,
  [], map, flat_map, select, Has, Has-append, Has-map, Has-select, All-Has, IsUnique, Bool-cases,
  Option-cases, if◌then◌else◌, ◌==◌, ==_iff, string_eq, split,
}
use ruptura.CallGraph.{
  HostText, EnvVar, Workload, Service, Entry, Edge, hosts, service_key, slashed, is_backend,
  service_id, workload_id, entry_id, entry_source, edge_key, build,
}
use ruptura.CallGraph.Declares.{Names, IsBackend, DeclaresEnv, DeclaresEntry, Declares, id_text}
use ruptura.CallGraph.Mentions.{
  Has-flat_map, hosts-Mentions, service_key-Names, is_backend-IsSelected,
}
use ruptura.CallGraph.Declared.{
  backends_of, host_edges, env_edges, entry_edges, declared_edges, build-declared_edges,
}

module _ (ws : List Workload) (svcs : List Service) where
  of_service :
      (svc : Service) (key target : String)
      → Has target
          (if service_id svc == key then map workload_id (select (is_backend svc) ws) else [])
        ↔ ((service_id svc ≡ key) × Has target (map workload_id (select (is_backend svc) ws)))
  of_service svc key target = elim (Bool-cases (service_id svc == key)) [
    | inl same ↦ rw same (λ h. ((==_iff (service_id svc) key).0 same, h), λ h. h.1)
    | inr other ↦ rw other (
      λ h. absurd h,
      λ h.
          absurd (let bad : true ≡ false = sym ((==_iff (service_id svc) key).1 h.0) ∙ other in cc),
    )
  ]

  backends_of-IsBackend :
      (namespace name target : String)
      → Has target (backends_of ws svcs (slashed namespace name))
        ↔ IsBackend ws svcs namespace name target
  unfolding workload_id
  backends_of-IsBackend namespace name target =
      let key = slashed namespace name in
      let all =
        Has-flat_map
          (λ svc.
            if service_id svc == key then map workload_id (select (is_backend svc) ws) else [])
          target svcs in
      (
        λ h.
            let (svc, among, found) = all.0 h in
            let (same, there) = (of_service svc key target).0 found in
            let (w, chosen, e) = (Has-map workload_id target _).0 there in
            let (listed, backend) = (Has-select w (is_backend svc) ws).0 chosen in
            (svc, w, among, listed, same, (is_backend-IsSelected svc w).0 backend, sym e),
        λ h.
            let (svc, w, among, listed, same, selected, e) = h in
            let chosen =
              (Has-select w (is_backend svc) ws).1
                (listed, (is_backend-IsSelected svc w).1 selected) in
            all.1 (
              svc,
              among,
              (of_service svc key target).1
                  (same, (Has-map workload_id target _).1 (w, chosen, sym e)),
            ),
      )

  host_edges-Names :
      (w : Workload) (via host : String) (e : Edge)
      → Has e (host_edges (backends_of ws svcs) w via host) ↔ (
          (namespace name target : String) × Names w.namespace (split "." host) namespace name
          × IsBackend ws svcs namespace name target
          × (e ≡ record {
            from = id_text w.namespace w.kind w.name;
            to = target;
            source = "env";
            via = via;
          }))
  unfolding workload_id
  host_edges-Names w via host e =
      let by_key = service_key-Names host w.namespace in
      elim (Option-cases (service_key host w.namespace)) [
        | inl foreign ↦
            rw (host_edges, foreign)
              (
                λ h. absurd h,
                λ h.
                    let (ns, name, target, named, backend, is_it) = h in
                    let local = (by_key (slashed ns name)).1 (ns, name, named, refl) in
                    absurd (let bad : none ≡ some (slashed ns name) = sym foreign ∙ local in cc),
              )
        | inr (key, local) ↦
            rw (host_edges, local)
              (
                λ h.
                    let (target, among, is_it) = (Has-map _ e (backends_of ws svcs key)).0 h in
                    let (ns, name, named, is_key) = (by_key key).0 local in
                    (
                      ns,
                      name,
                      target,
                      named,
                      (backends_of-IsBackend ns name target).0
                          (subst (λ k. Has target (backends_of ws svcs k)) is_key among),
                      sym is_it,
                    ),
                λ h.
                    let (ns, name, target, named, backend, is_it) = h in
                    let again = (by_key (slashed ns name)).1 (ns, name, named, refl) in
                    let both : some key ≡ some (slashed ns name) = sym local ∙ again in
                    let is_key : slashed ns name ≡ key = cc in
                    let among =
                      subst (λ k. Has target (backends_of ws svcs k)) is_key
                        ((backends_of-IsBackend ns name target).1 backend) in
                    (Has-map _ e (backends_of ws svcs key)).1 (target, among, sym is_it),
              )
      ]

  host_edges-DeclaresEnv :
      (texts : HostText) (e : Edge)
      → Has e (flat_map (env_edges (backends_of ws svcs) texts) ws) ↔ DeclaresEnv texts ws svcs e
  host_edges-DeclaresEnv texts e =
      let per_var = λ (w : Workload).
        Has-flat_map
          (λ (v : EnvVar).
            flat_map (host_edges (backends_of ws svcs) w v.name) (hosts texts v.value))
          e w.env in
      let all = Has-flat_map (env_edges (backends_of ws svcs) texts) e ws in
      (
        λ h.
            let (w, listed, of_w) = all.0 h in
            let (v, there, of_v) = (per_var w).0 of_w in
            let (host, found, edge) =
              (Has-flat_map (host_edges (backends_of ws svcs) w v.name) e (hosts texts v.value)).0
                of_v in
            let (ns, name, target, named, backend, is_it) =
              (host_edges-Names w v.name host e).0 edge in
            (
              w,
              v,
              host,
              ns,
              name,
              target,
              listed,
              there,
              (hosts-Mentions texts v.value host).0 found,
              named,
              backend,
              is_it,
            ),
        λ h.
            let (w, v, host, ns, name, target, listed, there, mentioned, named, backend, is_it) =
              h in
            let edge =
              (host_edges-Names w v.name host e).1 (ns, name, target, named, backend, is_it) in
            let of_v =
              (Has-flat_map (host_edges (backends_of ws svcs) w v.name) e (hosts texts v.value)).1
                (host, (hosts-Mentions texts v.value host).1 mentioned, edge) in
            all.1 (w, listed, (per_var w).1 (v, there, of_v)),
      )

  entry_source-kind :
      (entry : Entry) (source : String)
      → (entry_source entry ≡ source) ↔ (
          (entry.kind ≡ "Route") × (source ≡ "route")
          ⊎ (entry.kind ≢ "Route") × (source ≡ "ingress"))
  entry_source-kind entry source = elim (Bool-cases (entry.kind == "Route")) [
    | inl route ↦
        let is_route = (==_iff entry.kind "Route").0 route in
        rw route (
          λ h. inl (is_route, sym h),
          λ h. elim h [ inl a ↦ sym a.1 | inr a ↦ absurd (a.0 is_route) ],
        )
    | inr other ↦
        let no_route : entry.kind ≢ "Route" = λ e.
          absurd (let bad : true ≡ false = sym ((==_iff entry.kind "Route").1 e) ∙ other in cc) in
        rw other (
          λ h. inr (no_route, sym h),
          λ h. elim h [ inl a ↦ absurd (no_route a.0) | inr a ↦ sym a.1 ],
        )
  ]

  entry_edges-DeclaresEntry :
      (entries : List Entry) (e : Edge)
      → Has e (flat_map (entry_edges (backends_of ws svcs)) entries)
        ↔ DeclaresEntry ws svcs entries e
  unfolding entry_id
  entry_edges-DeclaresEntry entries e =
      let all = Has-flat_map (entry_edges (backends_of ws svcs)) e entries in
      (
        λ h.
            let (entry, listed, edge) = all.0 h in
            let (target, among, is_it) = (Has-map _ e _).0 edge in
            (
              entry,
              target,
              entry_source entry,
              listed,
              (backends_of-IsBackend entry.namespace entry.service target).0 among,
              (entry_source-kind entry (entry_source entry)).0 refl,
              sym is_it,
            ),
        λ h.
            let (entry, target, source, listed, backend, kind, is_it) = h in
            let from_kind = (entry_source-kind entry source).1 kind in
            let among = (backends_of-IsBackend entry.namespace entry.service target).1 backend in
            all.1 (
              entry,
              listed,
              (Has-map _ e _).1 (
                target,
                among,
                ap
                      (λ s. record {
                        from = id_text entry.namespace entry.kind entry.name;
                        to = target;
                        source = s;
                        via = entry.host;
                      })
                      from_kind
                    ∙ sym is_it,
              ),
            ),
      )

-- The list of the code has exactly the declared edges.
declared_edges-Declares :
    (texts : HostText) (ws : List Workload) (svcs : List Service) (entries : List Entry) (e : Edge)
    → Has e (declared_edges texts ws svcs entries) ↔ Declares texts ws svcs entries e
unfolding declared_edges
declared_edges-Declares texts ws svcs entries e =
    let split = Has-append e (flat_map (env_edges (backends_of ws svcs) texts) ws) _ in
    let env = host_edges-DeclaresEnv ws svcs texts e in
    let entry = entry_edges-DeclaresEntry ws svcs entries e in
    (
      λ h. elim (split.0 h) [ inl a ↦ inl (env.0 a) | inr a ↦ inr (entry.0 a) ],
      λ h. split.1 (elim h [ inl a ↦ inl (env.1 a) | inr a ↦ inr (entry.1 a) ]),
    )

-- Every edge that Build finds is one that an environment value or an entry declares and joins two
-- different names, no two of its edges have the same key, which is the ends and the source with bars
-- between them, and for each declared edge between two different names it has one with the same key.
pub build-Declares :
    (texts : HostText) (ws : List Workload) (svcs : List Service) (entries : List Entry)
    → IsUnique (map edge_key (build texts ws svcs entries).edges)
      × ((e : Edge)
          → Has e (build texts ws svcs entries).edges
          → Declares texts ws svcs entries e × (e.from ≢ e.to))
      × ((e : Edge)
          → Declares texts ws svcs entries e
          → e.from ≢ e.to
          → (found : Edge) × Has found (build texts ws svcs entries).edges
            × (edge_key found ≡ edge_key e))
build-Declares texts ws svcs entries =
    let (unique, listed, noted) = build-declared_edges texts ws svcs entries in
    let edges = (build texts ws svcs entries).edges in
    (
      unique,
      λ e there.
          let (declared, away) = All-Has _ e edges listed there in
          ((declared_edges-Declares texts ws svcs entries e).0 declared, away),
      λ e declared away.
          (Has-map edge_key (edge_key e) edges).0
            (noted e ((declared_edges-Declares texts ws svcs entries e).1 declared) away),
    )

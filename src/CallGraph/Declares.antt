-- ===== src/CallGraph/Declares.antt =====
-- graph.go: which edges a cluster declares, written without the lists and the maps of the code.
use Prim.Native.String.{◌++◌ as ◌&◌}
use ruptura.Base.{
  ◌≡◌, ◌≢◌, ◌⊎◌, String, true, false, List, [], ◌∷◌, Has, contains, trim_suffix, split,
}
use ruptura.CallGraph.{HostText, EnvVar, Workload, Service, Entry, Edge, text_at}

-- Namespace, kind and name with slashes between them.
abbrev pub id_text : String → String → String → String
id_text namespace kind name = namespace & ("/" & (kind & ("/" & name)))

-- A non-empty group of a match is the host, in lower case and without a dot at its end.
abbrev pub IsGroup : HostText → List String → String → Type 0
IsGroup texts groups host =
    (h : String) × Has h groups × (h ≢ "") × (host ≡ texts.to_lower (trim_suffix "." h))

-- The value names the host: a match does, or there is no non-empty group and the whole value looks like
-- the name of a service.
abbrev pub Mentions : HostText → String → String → Type 0
Mentions texts value host =
    ((groups : List String) × Has groups (texts.submatches value) × IsGroup texts groups host)
    ⊎ ((groups : List String) (h : String)
        → Has groups (texts.submatches value)
        → Has h groups
        → h ≡ "")
      × (contains value ".svc" ≡ true)
      × (contains value " " ≡ false)
      × (contains value "/" ≡ false)
      × (host ≡ texts.to_lower value)

-- The parts of a host name a service of a namespace, for a workload of the namespace `home`: the name
-- alone, with its namespace, or with its namespace and "svc" and any more.
abbrev pub Names : String → List String → String → String → Type 0
Names home [] namespace name = ⊥
Names home (n ∷ []) namespace name = (name ≡ n) × (namespace ≡ home)
Names home (n ∷ ns ∷ []) namespace name = (name ≡ n) × (namespace ≡ ns)
Names home (n ∷ ns ∷ third ∷ more) namespace name = (third ≡ "svc") × (name ≡ n) × (namespace ≡ ns)

-- The service selects the workload: they share the namespace, and the selector is not empty and has
-- nothing but labels of the workload.
abbrev pub IsSelected : Service → Workload → Type 0
IsSelected svc w =
    (w.namespace ≡ svc.namespace)
    × (svc.selector ≢ [])
    × ((k v : String) → Has (k, v) svc.selector → text_at k w.labels ≡ v)

-- The name is that of a workload behind a service with that namespace and name.
abbrev pub IsBackend : List Workload → List Service → String → String → String → Type 0
IsBackend ws svcs namespace name target =
    (svc : Service) × (w : Workload) × Has svc svcs
    × Has w ws
    × (svc.namespace & ("/" & svc.name) ≡ namespace & ("/" & name))
    × IsSelected svc w
    × (target ≡ id_text w.namespace w.kind w.name)

-- An environment value of a workload names a host of a service that selects the target.
abbrev pub DeclaresEnv : HostText → List Workload → List Service → Edge → Type 0
DeclaresEnv texts ws svcs e =
    (w : Workload) × (var : EnvVar) × (host namespace name target : String) × Has w ws
    × Has var w.env
    × Mentions texts var.value host
    × Names w.namespace (split "." host) namespace name
    × IsBackend ws svcs namespace name target
    × (e ≡ record {
      from = id_text w.namespace w.kind w.name;
      to = target;
      source = "env";
      via = var.name;
    })

-- An entry leads to a service that selects the target.
abbrev pub DeclaresEntry : List Workload → List Service → List Entry → Edge → Type 0
DeclaresEntry ws svcs entries e =
    (entry : Entry) × (target source : String) × Has entry entries
    × IsBackend ws svcs entry.namespace entry.service target
    × ((entry.kind ≡ "Route") × (source ≡ "route") ⊎ (entry.kind ≢ "Route") × (source ≡ "ingress"))
    × (e ≡ record {
      from = id_text entry.namespace entry.kind entry.name;
      to = target;
      source = source;
      via = entry.host;
    })

abbrev pub Declares : HostText → List Workload → List Service → List Entry → Edge → Type 0
Declares texts ws svcs entries e = DeclaresEnv texts ws svcs e ⊎ DeclaresEntry ws svcs entries e

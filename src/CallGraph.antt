-- ===== src/CallGraph.antt =====
-- workdir/internal/callgraph/graph.go: which workloads call which, from what a cluster declares.
pub mod Callers
pub mod Calls
pub mod Frontier
pub mod Rounds
pub mod Reach
pub mod Edges
pub mod Declares
pub mod Mentions
pub mod Declarations
pub mod Declared
mod Examples
use Prim.Native.String.{◌++◌ as ◌&◌}
use ruptura.Base.{
  String, Bool, true, false, not, ◌&&◌, ◌||◌, List, [], ◌∷◌, ◌++◌, select, length, Option, some,
  none, if◌then◌else◌, ◌==◌, string_eq, Dict, lookup, insert, sort_by, str_less, contains,
  trim_suffix, split,
}

abbrev pub source_env : String
source_env = "env"

abbrev pub source_route : String
source_route = "route"

abbrev pub source_ingress : String
source_ingress = "ingress"

pub record EnvVar : Type 0 where
  pub name : String
  pub value : String

pub record Workload : Type 0 where
  pub namespace : String
  pub kind : String
  pub name : String
  pub labels : Dict String String
  pub env : List EnvVar

pub record Service : Type 0 where
  pub namespace : String
  pub name : String
  pub selector : Dict String String

pub record Entry : Type 0 where
  pub kind : String
  pub namespace : String
  pub name : String
  pub host : String
  pub service : String

pub record Edge : Type 0 where
  pub from : String
  pub to : String
  pub source : String
  pub via : String

pub record Graph : Type 0 where
  pub edges : List Edge
  pub entries : List Entry

abbrev pub slashed : String → String → String
slashed a b = a & ("/" & b)

unfoldable pub workload_id : Workload → String
workload_id w = slashed w.namespace (slashed w.kind w.name)

unfoldable pub entry_id : Entry → String
entry_id e = slashed e.namespace (slashed e.kind e.name)

-- `m[k]`, the zero value where there is no such key
abbrev pub text_at : String → Dict String String → String
text_at k m = elim (lookup k m) [ none ↦ "" | some v ↦ v ]

abbrev pub list_at : {A : Type 0} → String → Dict String (List A) → List A
list_at k m = elim (lookup k m) [ none ↦ [] | some vs ↦ vs ]

-- `m[k] = append(m[k], v)`
abbrev pub append_at : {A : Type 0} → String → A → Dict String (List A) → Dict String (List A)
append_at k v m = insert k (list_at k m ++ v ∷ []) m

-- What Go's packages regexp and strings do for `hosts`: the groups of each match of hostPattern in a
-- text, and the text in lower case.
pub record HostText : Type 0 where
  pub submatches : String → List (List String)
  pub to_lower : String → String

module _ (texts : HostText) where
  -- The loop over the groups of a match.
  unfoldable pub group_hosts : List String → List String
  group_hosts [] = []
  group_hosts (h ∷ hs) =
      let rest = group_hosts hs in
      if h == "" then rest else texts.to_lower (trim_suffix "." h) ∷ rest

  unfoldable pub found_hosts : List (List String) → List String
  unfolding group_hosts
  found_hosts [] = []
  found_hosts (groups ∷ more) = group_hosts groups ++ found_hosts more

  unfoldable pub hosts : String → List String
  unfolding found_hosts
  hosts value = elim (found_hosts (texts.submatches value)) [
    | [] ↦
        if contains value ".svc" && not (contains value " " || contains value "/")
        then texts.to_lower value ∷ []
        else []
    | h ∷ hs ↦ h ∷ hs
  ]

-- The key of the service that the parts of a host name.
abbrev pub parts_key : String → List String → Option String
parts_key namespace [] = none
parts_key namespace (only ∷ []) = some (slashed namespace only)
parts_key namespace (name ∷ ns ∷ []) = some (slashed ns name)
parts_key namespace (name ∷ ns ∷ third ∷ more) =
    if third == "svc" then some (slashed ns name) else none

unfoldable pub service_key : String → String → Option String
service_key host namespace = parts_key namespace (split "." host)

-- The loop of `selects`.
abbrev agrees : Dict String String → Dict String String → Bool
agrees [] labels = true
agrees ((k, v) ∷ more) labels = (text_at k labels == v) && agrees more labels

unfoldable pub selects : Dict String String → Dict String String → Bool
selects [] labels = false
selects (kv ∷ more) labels = agrees (kv ∷ more) labels

-- The test of the inner loop over the workloads.
abbrev pub is_backend : Service → Workload → Bool
unfolding selects
is_backend svc w = (w.namespace == svc.namespace) && selects svc.selector w.labels

abbrev pub service_id : Service → String
service_id svc = slashed svc.namespace svc.name

unfoldable pub add_backends :
    Service → List Workload → Dict String (List String) → Dict String (List String)
unfolding workload_id
add_backends svc [] m = m
add_backends svc (w ∷ ws) m =
    let skipped = add_backends svc ws m in
    let added = add_backends svc ws (append_at (service_id svc) (workload_id w) m) in
    if is_backend svc w then added else skipped

unfoldable pub all_backends :
    List Workload → List Service → Dict String (List String) → Dict String (List String)
unfolding add_backends
all_backends ws [] m = m
all_backends ws (svc ∷ svcs) m = all_backends ws svcs (add_backends svc ws m)

-- The edges so far, with the keys of all of them.
pub record Found : Type 0 where
  pub seen : Dict String Bool
  pub edges : List Edge

abbrev pub edge_key : Edge → String
edge_key e = e.from & ("|" & (e.to & ("|" & e.source)))

abbrev pub is_seen : String → Dict String Bool → Bool
is_seen k m = elim (lookup k m) [ none ↦ false | some b ↦ b ]

-- `add`
unfoldable pub add : Found → Edge → Found
add f e =
    if (e.from == e.to) || is_seen (edge_key e) f.seen
    then f
    else record { seen = insert (edge_key e) true f.seen; edges = f.edges ++ e ∷ [] }

unfoldable pub add_all : Found → String → List String → String → String → Found
unfolding add
add_all f from [] source via = f
add_all f from (target ∷ targets) source via =
    add_all (add f (record { from = from; to = target; source = source; via = via })) from targets
      source via

abbrev pub entry_source : Entry → String
entry_source entry = if entry.kind == "Route" then source_route else source_ingress

module _ (backends : Dict String (List String)) where
  unfoldable pub add_hosts : Found → Workload → String → List String → Found
  unfolding add_all service_key workload_id
  add_hosts f w via [] = f
  add_hosts f w via (host ∷ more) =
      let skipped : Found = add_hosts f w via more in
      elim (service_key host w.namespace) [
        | none ↦ skipped
        | some key ↦
            add_hosts (add_all f (workload_id w) (list_at key backends) source_env via) w via more
      ]

  unfoldable pub add_env : HostText → Found → Workload → List EnvVar → Found
  unfolding add_hosts hosts
  add_env texts f w [] = f
  add_env texts f w (env ∷ more) =
      add_env texts (add_hosts f w env.name (hosts texts env.value)) w more

  unfoldable pub add_workloads : HostText → Found → List Workload → Found
  unfolding add_env
  add_workloads texts f [] = f
  add_workloads texts f (w ∷ ws) = add_workloads texts (add_env texts f w w.env) ws

  abbrev pub entry_targets : Entry → List String
  entry_targets entry = list_at (slashed entry.namespace entry.service) backends

  -- The loop over the entries: the edges, and the entries that lead somewhere.
  unfoldable pub add_entries : Found → List Entry → Found × List Entry
  unfolding add_all entry_id
  add_entries f [] = (f, [])
  add_entries f (entry ∷ more) =
      let skipped : Found × List Entry = add_entries f more in
      elim (entry_targets entry) [
        | [] ↦ skipped
        | t ∷ ts ↦
            let (g, kept) =
              add_entries (add_all f (entry_id entry) (t ∷ ts) (entry_source entry) entry.host)
                more in
            (g, entry ∷ kept)
      ]

abbrev pub edge_less : Edge → Edge → Bool
edge_less a b = if a.from == b.from then str_less a.to b.to else str_less a.from b.from

unfoldable pub build : HostText → List Workload → List Service → List Entry → Graph
unfolding all_backends add_workloads add_entries
build texts workloads services entries =
    let backends = all_backends workloads services [] in
    let from_env = add_workloads backends texts (record { seen = []; edges = [] }) workloads in
    let (f, kept) = add_entries backends from_env entries in
    record { edges = sort_by edge_less f.edges; entries = kept }

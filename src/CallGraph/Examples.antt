-- ===== src/CallGraph/Examples.antt =====
-- The theorems on graph.go at a small cluster: web calls api and api calls db.
use ruptura.Base.{
  ◌≡◌, refl, ◌↔◌, ◌≢◌, String, List, [], ◌∷◌, map, Has, IsUnique, some, string_eq, lookup, insert,
  delete, sort_by,
}
use ruptura.CallGraph.{
  Workload, Service, Entry, Edge, Graph, HostText, edge_key, build, selects, workload_id, entry_id,
  add_backends, all_backends, add, add_all, add_hosts, hosts, found_hosts, service_key, add_env,
  add_workloads, add_entries,
}
use ruptura.CallGraph.Callers.{callers, incoming_from, loop, expand, offer_all, offer}
use ruptura.CallGraph.Calls.{Reaches}
use ruptura.CallGraph.Reach.{callers-Reaches}
use ruptura.CallGraph.Declares.{Declares}
use ruptura.CallGraph.Declarations.{build-Declares}

abbrev texts : HostText
texts = record { submatches = λ text. (text ∷ "" ∷ []) ∷ []; to_lower = λ text. text }

abbrev workload : String → String → Workload
workload name calls = record {
  namespace = "shop";
  kind = "Deployment";
  name = name;
  labels = ("app", name) ∷ [];
  env = (record { name = "UPSTREAM"; value = calls }) ∷ [];
}

abbrev service : String → Service
service name = record { namespace = "shop"; name = name; selector = ("app", name) ∷ [] }

abbrev workloads : List Workload
workloads = workload "web" "api.shop." ∷ workload "api" "db" ∷ workload "db" "db" ∷ []

abbrev services : List Service
services = service "web" ∷ service "api" ∷ service "db" ∷ []

abbrev entries : List Entry
entries =
    (record {
      kind = "Route";
      namespace = "shop";
      name = "front";
      host = "shop.example";
      service = "web";
    })
    ∷ []

abbrev cluster : Graph
cluster = build texts workloads services entries

callers-db :
    callers cluster "shop/Deployment/db" ≡ some ("shop/Deployment/api" ∷ "shop/Deployment/web" ∷ [])
unfolding lookup insert delete selects workload_id entry_id add_backends all_backends add add_all
    add_hosts hosts found_hosts service_key add_env add_workloads add_entries build sort_by callers
    incoming_from loop expand offer_all offer
callers-db = refl

callers-Reaches_example :
    (found : List String) × (callers cluster "shop/Deployment/db" ≡ some found)
    × IsUnique found
    × ((c : String)
        → Has c found ↔ (c ≢ "shop/Deployment/db" × Reaches cluster.edges "shop/Deployment/db" c))
callers-Reaches_example = callers-Reaches cluster "shop/Deployment/db"

build-Declares_example :
    IsUnique (map edge_key (build texts workloads services entries).edges)
    × ((e : Edge)
        → Has e (build texts workloads services entries).edges
        → Declares texts workloads services entries e × (e.from ≢ e.to))
    × ((e : Edge)
        → Declares texts workloads services entries e
        → e.from ≢ e.to
        → (found : Edge) × Has found (build texts workloads services entries).edges
          × (edge_key found ≡ edge_key e))
build-Declares_example = build-Declares texts workloads services entries

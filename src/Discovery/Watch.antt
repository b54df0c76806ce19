-- ===== src/Discovery/Watch.antt =====
-- metadata.go: what the lists and the watches of the cluster do to the cache. A nested struct that is
-- decoded is flat here, with the fields that are read.
use ruptura.Base.{
  ℕ, String, ◌||◌, not, ◌&&◌, List, [], ◌∷◌, Option, some, none, if◌then◌else◌, ◌==◌, string_eq,
  Dict, Time,
}
use ruptura.Discovery.{
  ResourceInfo, ResourceSet, WorkloadMeta, CachedPod, MetadataCache, set_workload, delete_workload,
  record_change, upsert_pod, delete_pod,
}

pub record K8sCondition : Type 0 where
  pub type_ : String
  pub last_transition_time : String

pub record K8sContainer : Type 0 where
  pub image : String
  pub requests : ResourceSet
  pub limits : ResourceSet

pub record K8sWorkload : Type 0 where
  pub name : String
  pub namespace : String
  pub labels : Dict String String
  pub creation_timestamp : String
  pub generation : ℕ
  pub replicas : ℕ
  pub containers : List K8sContainer
  pub ready_replicas : ℕ
  pub available_replicas : ℕ
  pub conditions : List K8sCondition

pub record K8sOwner : Type 0 where
  pub kind : String
  pub name : String

pub record K8sPod : Type 0 where
  pub name : String
  pub namespace : String
  pub owner_references : List K8sOwner
  pub node_name : String
  pub phase : String
  pub restart_counts : List ℕ

-- The loop over the conditions: the last transition of Available.
abbrev deploy_time : List K8sCondition → String → String
deploy_time [] last_deploy = last_deploy
deploy_time (c ∷ conditions) last_deploy = deploy_time conditions (
    if (c.type_ == "Available") && not (c.last_transition_time == "")
    then c.last_transition_time
    else last_deploy)

abbrev no_resources : ResourceInfo
no_resources = record {
  requests = record { cpu = ""; memory = "" };
  limits = record { cpu = ""; memory = "" };
}

unfoldable pub to_workload_meta : K8sWorkload → String → WorkloadMeta
to_workload_meta w kind =
    let m : WorkloadMeta = record {
      namespace = w.namespace;
      kind = kind;
      name = w.name;
      replicas = record {
        desired = w.replicas;
        ready = w.ready_replicas;
        available = w.available_replicas;
      };
      image = "";
      resources = no_resources;
      labels = w.labels;
      generation = w.generation;
      last_deploy = deploy_time w.conditions w.creation_timestamp;
      pods = [];
    } in
    elim w.containers [
      | [] ↦ m
      | c ∷ more ↦ record m {
        image = c.image;
        resources = record { requests = c.requests; limits = c.limits };
      }
    ]

unfoldable pub to_cached_pod : K8sPod → Option CachedPod
to_cached_pod p = elim p.owner_references [
  | [] ↦ none
  | owner ∷ more ↦
      let restarts : ℕ = elim p.restart_counts [ [] ↦ 0 | count ∷ counts ↦ count ] in
      some (record {
        info = record { name = p.name; node = p.node_name; status = p.phase; restarts = restarts };
        namespace = p.namespace;
        owner_kind = owner.kind;
        owner_name = owner.name;
      })
]

-- The items of one page of listWorkloads.
unfoldable pub list_workloads : MetadataCache → String → List K8sWorkload → MetadataCache
unfolding set_workload to_workload_meta
list_workloads c kind [] = c
list_workloads c kind (w ∷ items) =
    let skipped = list_workloads c kind items in
    let stored =
      list_workloads (set_workload c w.namespace kind w.name (to_workload_meta w kind)) kind
        items in
    if w.namespace == "" || w.name == "" then skipped else stored

-- One event of watchWorkloads; another type changes nothing.
unfoldable pub workload_event : MetadataCache → String → String → K8sWorkload → Time → MetadataCache
unfolding record_change set_workload delete_workload to_workload_meta
workload_event c kind type_ w now =
    let meta = to_workload_meta w kind in
    if w.namespace == "" || w.name == ""
    then c
    else if type_ == "ADDED" || type_ == "MODIFIED"
    then set_workload (record_change c w.namespace kind w.name meta.image meta.generation now)
        w.namespace kind w.name meta
    else if type_ == "DELETED"
    then delete_workload c w.namespace kind w.name
    else c

-- An item of listPods.
unfoldable pub list_pod : MetadataCache → K8sPod → MetadataCache
unfolding upsert_pod to_cached_pod
list_pod c p = elim (to_cached_pod p) [ none ↦ c | some cp ↦ upsert_pod c cp ]

-- One event of watchPods.
unfoldable pub pod_event : MetadataCache → String → K8sPod → MetadataCache
unfolding list_pod delete_pod
pod_event c type_ p =
    if type_ == "ADDED" || type_ == "MODIFIED"
    then list_pod c p
    else if type_ == "DELETED"
    then if not (p.namespace == "") && not (p.name == "")
      then delete_pod c p.namespace p.name
      else c
    else c

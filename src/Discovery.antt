-- ===== src/Discovery.antt =====
-- workdir/internal/discovery: the cache of workloads and pods (cache.go, changes.go), and what the lists
-- and watches of the cluster do to it (metadata.go). Requests and decoding are outside.
pub mod Watch
pub mod Pods
pub mod Keys
pub mod Changes
mod Examples
use Prim.Native.String.{◌++◌ as ◌&◌}
use text.Mathlib.Text.{starts_with}
use ruptura.Base.{
  ℕ, ◌+◌, String, Bool, true, false, not, ◌&&◌, ◌||◌, List, [], ◌∷◌, ◌++◌, map, select, first,
  cut_to_last, Option, some, none, if◌then◌else◌, nat_beq, ◌==◌, string_eq, Dict, lookup, insert,
  delete, contains, Time, before,
}

pub record ReplicaStatus : Type 0 where
  pub desired : ℕ
  pub ready : ℕ
  pub available : ℕ

pub record ResourceSet : Type 0 where
  pub cpu : String
  pub memory : String

pub record ResourceInfo : Type 0 where
  pub requests : ResourceSet
  pub limits : ResourceSet

pub record PodInfo : Type 0 where
  pub name : String
  pub node : String
  pub status : String
  pub restarts : ℕ

pub record WorkloadMeta : Type 0 where
  pub namespace : String
  pub kind : String
  pub name : String
  pub replicas : ReplicaStatus
  pub image : String
  pub resources : ResourceInfo
  pub labels : Dict String String
  pub generation : ℕ
  pub last_deploy : String
  pub pods : List PodInfo

pub record CachedPod : Type 0 where
  pub info : PodInfo
  pub namespace : String
  pub owner_kind : String
  pub owner_name : String

pub record Change : Type 0 where
  pub workload : String
  pub image : String
  pub at : Time

pub record MetadataCache : Type 0 where
  pub workloads : Dict String WorkloadMeta
  pub changes : List Change
  pub pods : List CachedPod

abbrev pub new_metadata_cache : MetadataCache
new_metadata_cache = record { workloads = []; changes = []; pods = [] }

unfoldable pub workload_key : String → String → String → String
workload_key ns kind name = ns & ("/" & (kind & ("/" & name)))

unfoldable pub set_workload :
    MetadataCache → String → String → String → WorkloadMeta → MetadataCache
set_workload c ns kind name m = record c {
  workloads = insert (workload_key ns kind name) m c.workloads;
}

unfoldable pub delete_workload : MetadataCache → String → String → String → MetadataCache
delete_workload c ns kind name = record c {
  workloads = delete (workload_key ns kind name) c.workloads;
}

-- What follows a prefix that the text has.
abbrev rest_after : String → String → String
rest_after String.[] text = text
rest_after (String.◌∷◌ p prefix) String.[] = ""
rest_after (String.◌∷◌ p prefix) (String.◌∷◌ c text) = rest_after prefix text

unfoldable pub is_rs_owned_by : String → String → Bool
is_rs_owned_by rs_name deployment_name =
    let suffix = rest_after (deployment_name & "-") rs_name in
    if starts_with rs_name (deployment_name & "-")
    then not (suffix == "") && not (contains suffix "/")
    else false

-- The test of the loop of podsForWorkload.
unfoldable pub belongs : String → String → String → CachedPod → Bool
unfolding is_rs_owned_by
belongs ns kind name p =
    if not (p.namespace == ns)
    then false
    else if kind == "StatefulSet" || kind == "DaemonSet"
    then (p.owner_kind == kind) && (p.owner_name == name)
    else if kind == "Deployment"
    then (p.owner_kind == "ReplicaSet") && is_rs_owned_by p.owner_name name
    else false

unfoldable pub pods_for_workload : MetadataCache → String → String → String → List PodInfo
unfolding belongs
pods_for_workload c ns kind name = map (λ p. p.info) (select (belongs ns kind name) c.pods)

unfoldable pub get : MetadataCache → String → String → String → Option WorkloadMeta
unfolding pods_for_workload
get c ns kind name = elim (lookup (workload_key ns kind name) c.workloads) [
  | none ↦ none
  | some m ↦ some (record m { pods = pods_for_workload c ns kind name })
]

abbrev pub is_pod : String → String → CachedPod → Bool
is_pod ns name p = (p.namespace == ns) && (p.info.name == name)

-- The first Deployment of the namespace that may own the ReplicaSet.
abbrev pub owns_rs : String → String → WorkloadMeta → Bool
unfolding is_rs_owned_by
owns_rs ns rs_name m =
    (m.kind == "Deployment") && ((m.namespace == ns) && is_rs_owned_by rs_name m.name)

unfoldable pub owner_of : MetadataCache → String → CachedPod → Option (String × String)
unfolding owns_rs
owner_of c ns pod =
    if pod.owner_kind == "StatefulSet" || pod.owner_kind == "DaemonSet"
    then some (pod.owner_kind, pod.owner_name)
    else if pod.owner_kind == "ReplicaSet"
    then elim (first (owns_rs ns pod.owner_name) (map (λ kw. kw.1) c.workloads)) [
      | none ↦ none
      | some m ↦ some ("Deployment", m.name)
    ]
    else none

unfoldable pub resolve_pod_owner : MetadataCache → String → String → Option (String × String)
unfolding owner_of
resolve_pod_owner c ns pod_name = elim (first (is_pod ns pod_name) c.pods) [
  | none ↦ none
  | some pod ↦ owner_of c ns pod
]

unfoldable pub pod_replica_set : MetadataCache → String → String → String × Bool
pod_replica_set c ns pod_name = elim (first (is_pod ns pod_name) c.pods) [
  | none ↦ ("", false)
  | some pod ↦ (pod.owner_name, pod.owner_kind == "ReplicaSet")
]

unfoldable pub put_pod : CachedPod → List CachedPod → List CachedPod
put_pod p [] = p ∷ []
put_pod p (existing ∷ pods) =
    let rest = put_pod p pods in
    if is_pod p.namespace p.info.name existing then p ∷ pods else existing ∷ rest

unfoldable pub upsert_pod : MetadataCache → CachedPod → MetadataCache
unfolding put_pod
upsert_pod c p = record c { pods = put_pod p c.pods }

unfoldable pub delete_pod : MetadataCache → String → String → MetadataCache
delete_pod c ns name = record c { pods = select (λ p. not (is_pod ns name p)) c.pods }

abbrev pub max_changes : ℕ
max_changes = 512

unfoldable pub record_change :
    MetadataCache → String → String → String → String → ℕ → Time → MetadataCache
unfolding workload_key
record_change c ns kind name image generation at =
    elim (lookup (workload_key ns kind name) c.workloads) [
      | none ↦ c
      | some previous ↦
          if (previous.image == image) && nat_beq previous.generation generation
          then c
          else record c {
            changes = cut_to_last max_changes (
                c.changes
                ++ (record { workload = workload_key ns kind name; image = image; at = at }) ∷ []);
          }
    ]

-- Changes
unfoldable pub changes_since : MetadataCache → Time → List Change
changes_since c since = select (λ change. not (before change.at since)) c.changes

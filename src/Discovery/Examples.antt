-- ===== src/Discovery/Examples.antt =====
-- The theorems on the cache of workloads and pods at one deployment and its pod.
use ruptura.Base.{
  ℕ, ◌≡◌, refl, String, List, [], ◌∷◌, ◌++◌, map, first, last_n, length, Has, IsUnique, some,
  string_eq, lookup, insert, Time, arith,
}
use ruptura.Discovery.{
  PodInfo, CachedPod, MetadataCache, new_metadata_cache, is_pod, pods_for_workload,
  resolve_pod_owner, owner_of, is_rs_owned_by, max_changes, upsert_pod, put_pod, set_workload,
  workload_key,
}
use ruptura.Discovery.Watch.{
  K8sWorkload, K8sPod, to_workload_meta, to_cached_pod, list_workloads, list_pod,
}
use ruptura.Discovery.Pods.{resolve_pod_owner-pods_for_workload}
use ruptura.Discovery.Keys.{PodCall, lists, watches, after_calls, pod_key, after_calls-IsUnique}
use ruptura.Discovery.Changes.{after_updates, keyed, jumps, changes-after_updates}

abbrev api : String → ℕ → K8sWorkload
api image generation = record {
  name = "api";
  namespace = "shop";
  labels = [];
  creation_timestamp = "";
  generation = generation;
  replicas = 1;
  containers =
      (record {
        image = image;
        requests = record { cpu = ""; memory = "" };
        limits = record { cpu = ""; memory = "" };
      })
      ∷ [];
  ready_replicas = 1;
  available_replicas = 1;
  conditions = [];
}

abbrev api_pod : K8sPod
api_pod = record {
  name = "api-6d5f-x1";
  namespace = "shop";
  owner_references = (record { kind = "ReplicaSet"; name = "api-6d5f" }) ∷ [];
  node_name = "n1";
  phase = "Running";
  restart_counts = 2 ∷ [];
}

abbrev cache : MetadataCache
cache = list_pod (list_workloads new_metadata_cache "Deployment" (api "v1" 1 ∷ [])) api_pod

resolved : resolve_pod_owner cache "shop" "api-6d5f-x1" ≡ some ("Deployment", "api")
unfolding resolve_pod_owner list_pod list_workloads to_workload_meta to_cached_pod set_workload
    upsert_pod put_pod insert owner_of is_rs_owned_by workload_key
resolved = refl

resolve_pod_owner-pods_for_workload_example :
    (info : PodInfo) × Has info (pods_for_workload cache "shop" "Deployment" "api")
    × (info.name ≡ "api-6d5f-x1")
resolve_pod_owner-pods_for_workload_example =
    resolve_pod_owner-pods_for_workload cache "shop" "api-6d5f-x1" "Deployment" "api" resolved

abbrev calls : List PodCall
calls = lists api_pod ∷ watches "MODIFIED" api_pod ∷ []

after_calls-IsUnique_example :
    IsUnique (map pod_key (after_calls new_metadata_cache calls).pods)
    × ((p : K8sPod) (cp : CachedPod)
        → to_cached_pod p ≡ some cp
        → first
            (is_pod cp.namespace cp.info.name)
            (list_pod (after_calls new_metadata_cache calls) p).pods
          ≡ some cp)
after_calls-IsUnique_example = after_calls-IsUnique calls

cached :
    lookup (workload_key "shop" "Deployment" "api") cache.workloads
    ≡ some (to_workload_meta (api "v1" 1) "Deployment")
unfolding list_pod list_workloads to_workload_meta to_cached_pod set_workload upsert_pod put_pod
    insert lookup workload_key
cached = refl

no_changes : length cache.changes ≡ 0
unfolding list_pod list_workloads to_cached_pod set_workload upsert_pod
no_changes = refl

abbrev updates : List (K8sWorkload × Time)
updates = (api "v1" 1, 5) ∷ (api "v2" 2, 6) ∷ []

changes-after_updates_example :
    (after_updates "shop" "Deployment" "api" cache updates).changes
    ≡ last_n max_changes (
        cache.changes
        ++ jumps
            (workload_key "shop" "Deployment" "api")
            "Deployment"
            (to_workload_meta (api "v1" 1) "Deployment")
            (keyed "shop" "Deployment" "api" updates))
changes-after_updates_example =
    changes-after_updates "shop" "Deployment" "api" (λ e. cc) (λ e. cc) cache
      (to_workload_meta (api "v1" 1) "Deployment") updates cached (omega (arith, no_changes))

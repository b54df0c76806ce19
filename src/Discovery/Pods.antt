-- ===== src/Discovery/Pods.antt =====
-- cache.go: a pod is cached once, and its owner lists it.
use ruptura.Base.{
  ◌≡◌, refl, subst, inl, inr, String, Bool, true, ◌||◌, List, [], ◌∷◌, map, select, first, Has,
  Has-map, Has-select, Option, some, none, Option-cases, Bool-cases, ◌==◌, ==_iff, ==_refl,
  string_eq, arith,
}
use ruptura.Discovery.{
  PodInfo, CachedPod, MetadataCache, belongs, pods_for_workload, is_pod, owns_rs, owner_of,
  resolve_pod_owner, is_rs_owned_by,
}

first-Has :
    {A : Type 0} (p : A → Bool) (xs : List A) (a : A)
    → first p xs ≡ some a
    → Has a xs × (p a ≡ true)
first-Has p [] a e = absurd (cc)
first-Has p (x ∷ xs) a e = elim (Bool-cases (p x)) [
  | inl passes ↦
      let found : some x ≡ some a = rw (first, passes) at e in
      let is_it : x ≡ a = cc in (inl is_it, subst (λ y. p y ≡ true) is_it passes)
  | inr fails ↦
      let later : first p xs ≡ some a = rw (first, fails) at e in
      let (there, passes) = first-Has p xs a later in (inr there, passes)
]

pub is_pod_iff :
    (ns name : String) (p : CachedPod)
    → is_pod ns name p ≡ true
    → (p.namespace ≡ ns) × (p.info.name ≡ name)
is_pod_iff ns name p h = ground (arith, ==_iff p.namespace ns, ==_iff p.info.name name)

pair-eq :
    (a b x y : String)
    → ◌≡◌ {A = Option (String × String)} (some (a, x)) (some (b, y))
    → (a ≡ b) × (x ≡ y)
pair-eq a b x y e = (cc, cc)

set_kind : CachedPod → Bool
set_kind pod = pod.owner_kind == "StatefulSet" || pod.owner_kind == "DaemonSet"

-- The owner of a pod passes the test of the loop that lists the owner's pods.
owner_of-belongs :
    (c : MetadataCache) (ns : String) (pod : CachedPod) (kind name : String)
    → (pod.namespace == ns) ≡ true
    → owner_of c ns pod ≡ some (kind, name)
    → belongs ns kind name pod ≡ true
unfolding owner_of belongs owns_rs set_kind
owner_of-belongs c ns pod kind name here known = elim (Bool-cases (set_kind pod)) [
  | inl direct ↦
      let owner : some (pod.owner_kind, pod.owner_name) ≡ some (kind, name) =
        rw (owner_of, direct) at known in
      let (same_kind, same_name) = pair-eq pod.owner_kind kind pod.owner_name name owner in
      subst (λ k. belongs ns k name pod ≡ true) same_kind
        (subst (λ n. belongs ns pod.owner_kind n pod ≡ true) same_name
          (rw (here, direct, ==_refl pod.owner_kind, ==_refl pod.owner_name)))
  | inr indirect ↦ elim (Bool-cases (pod.owner_kind == "ReplicaSet")) [
    | inr other ↦
        absurd (let no : none ≡ some (kind, name) = rw (owner_of, indirect, other) at known in cc)
    | inl replica_set ↦
        elim (Option-cases (first (owns_rs ns pod.owner_name) (map (λ kw. kw.1) c.workloads))) [
          | inl missing ↦ absurd (
              let no : none ≡ some (kind, name) =
                rw (owner_of, indirect, replica_set, missing) at known in
              cc)
          | inr (m, found) ↦
              let owner : some ("Deployment", m.name) ≡ some (kind, name) =
                rw (owner_of, indirect, replica_set, found) at known in
              let (same_kind, same_name) = pair-eq "Deployment" kind m.name name owner in
              let (there, owns) =
                first-Has (owns_rs ns pod.owner_name) (map (λ kw. kw.1) c.workloads) m found in
              let rs : is_rs_owned_by pod.owner_name m.name ≡ true = ground arith in
              subst (λ k. belongs ns k name pod ≡ true) same_kind
                (subst (λ n. belongs ns "Deployment" n pod ≡ true) same_name
                  (rw (here, replica_set, rs)))
        ]
  ]
]

-- If ResolvePodOwner names the owner of a pod, then that workload lists the pod among its pods.
pub resolve_pod_owner-pods_for_workload :
    (c : MetadataCache) (ns pod_name kind name : String)
    → resolve_pod_owner c ns pod_name ≡ some (kind, name)
    → (info : PodInfo) × Has info (pods_for_workload c ns kind name) × (info.name ≡ pod_name)
unfolding resolve_pod_owner pods_for_workload
resolve_pod_owner-pods_for_workload c ns pod_name kind name known =
    elim (Option-cases (first (is_pod ns pod_name) c.pods)) [
      | inl missing ↦
          absurd
            (let no : none ≡ some (kind, name) = rw (resolve_pod_owner, missing) at known in cc)
      | inr (pod, found) ↦
          let owner : owner_of c ns pod ≡ some (kind, name) =
            rw (resolve_pod_owner, found) at known in
          let (there, is_it) = first-Has (is_pod ns pod_name) c.pods pod found in
          let (in_ns, named) = is_pod_iff ns pod_name pod is_it in
          let listed =
            owner_of-belongs c ns pod kind name ((==_iff pod.namespace ns).1 in_ns) owner in
          (
            pod.info,
            (Has-map (λ (p : CachedPod). p.info) pod.info (select (belongs ns kind name) c.pods)).1
                (pod, (Has-select pod (belongs ns kind name) c.pods).1 (there, listed), refl),
            named,
          )
    ]

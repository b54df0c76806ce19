-- ===== src/Discovery/Keys.antt =====
-- cache.go: a pod is cached once.
use ruptura.Base.{
  ◌≡◌, subst, ◌⊎◌, inl, inr, String, Bool, true, not, ◌&&◌, List, [], ◌∷◌, map, select, first, Has,
  Has-map, Has-select, IsUnique, some, Option-cases, Bool-cases, ◌==◌, ◌||◌, ==_refl, string_eq,
}
use ruptura.Discovery.{
  CachedPod, MetadataCache, is_pod, put_pod, upsert_pod, delete_pod, new_metadata_cache,
}
use ruptura.Discovery.Watch.{K8sPod, to_cached_pod, list_pod, pod_event}
use ruptura.Discovery.Pods.{is_pod_iff}

-- The key by which pods are told apart.
abbrev pub pod_key : CachedPod → String × String
pod_key p = (p.namespace, p.info.name)

Has-put_pod :
    (k : String × String) (p : CachedPod) (pods : List CachedPod)
    → Has k (map pod_key (put_pod p pods))
    → (pod_key p ≡ k) ⊎ Has k (map pod_key pods)
unfolding put_pod
Has-put_pod k p [] h = h
Has-put_pod k p (q ∷ pods) h = elim (Bool-cases (is_pod p.namespace p.info.name q)) [
  | inl same ↦ elim (rw same at h) [ inl e ↦ inl e | inr there ↦ inr (inr there) ]
  | inr other ↦ elim (rw other at h) [
    | inl e ↦ inr (inl e)
    | inr there ↦ elim (Has-put_pod k p pods there) [ inl e ↦ inl e | inr old ↦ inr (inr old) ]
  ]
]

IsUnique-put_pod :
    (p : CachedPod) (pods : List CachedPod)
    → IsUnique (map pod_key pods)
    → IsUnique (map pod_key (put_pod p pods))
unfolding put_pod
IsUnique-put_pod p [] u = (λ h. h, tt)
IsUnique-put_pod p (q ∷ pods) u = elim (Bool-cases (is_pod p.namespace p.info.name q)) [
  | inl same ↦
      let (ns, name) = is_pod_iff p.namespace p.info.name q same in
      let key : pod_key q ≡ pod_key p = cc in
      rw same (subst (λ k. ¬ Has k (map pod_key pods)) key u.0, u.1)
  | inr other ↦ rw other (
    λ h. elim (Has-put_pod (pod_key q) p pods h) [
      | inl e ↦
          let ns : q.namespace ≡ p.namespace = cc in
          let name : q.info.name ≡ p.info.name = cc in
          absurd (
            let same : is_pod p.namespace p.info.name q ≡ true =
              rw (ns, name, ==_refl p.namespace, ==_refl p.info.name) in
            cc)
      | inr there ↦ u.0 there
    ],
    IsUnique-put_pod p pods u.1,
  )
]

IsUnique-select :
    (p : CachedPod → Bool) (pods : List CachedPod)
    → IsUnique (map pod_key pods)
    → IsUnique (map pod_key (select p pods))
IsUnique-select p [] u = tt
IsUnique-select p (q ∷ pods) u = elim (Bool-cases (p q)) [
  | inr dropped ↦ rw dropped (IsUnique-select p pods u.1)
  | inl kept ↦ rw kept (
    λ h.
        let (r, there, e) = (Has-map pod_key (pod_key q) (select p pods)).0 h in
        u.0 ((Has-map pod_key (pod_key q) pods).1 (r, ((Has-select r p pods).0 there).0, e)),
    IsUnique-select p pods u.1,
  )
]

first-put_pod :
    (p : CachedPod) (pods : List CachedPod)
    → first (is_pod p.namespace p.info.name) (put_pod p pods) ≡ some p
unfolding put_pod
first-put_pod p [] = rw (==_refl p.namespace, ==_refl p.info.name)
first-put_pod p (q ∷ pods) = elim (Bool-cases (is_pod p.namespace p.info.name q)) [
  | inl same ↦ rw (same, ==_refl p.namespace, ==_refl p.info.name)
  | inr other ↦ rw (other, other) (first-put_pod p pods)
]

-- The items of a list of the pods, and the events of a watch after it.
pub data PodCall : Type 0 where
  lists : K8sPod → PodCall
  watches : String → K8sPod → PodCall

abbrev pub after_calls : MetadataCache → List PodCall → MetadataCache
after_calls c [] = c
after_calls c (lists p ∷ more) = after_calls (list_pod c p) more
after_calls c (watches type_ p ∷ more) = after_calls (pod_event c type_ p) more

IsUnique-list_pod :
    (c : MetadataCache) (p : K8sPod)
    → IsUnique (map pod_key c.pods)
    → IsUnique (map pod_key (list_pod c p).pods)
unfolding list_pod upsert_pod
IsUnique-list_pod c p u = elim (Option-cases (to_cached_pod p)) [
  | inl bare ↦ rw (list_pod, bare) u
  | inr (cp, owned) ↦ rw (list_pod, owned) (IsUnique-put_pod cp c.pods u)
]

IsUnique-pod_event :
    (c : MetadataCache) (type_ : String) (p : K8sPod)
    → IsUnique (map pod_key c.pods)
    → IsUnique (map pod_key (pod_event c type_ p).pods)
unfolding pod_event delete_pod
IsUnique-pod_event c type_ p u = elim (Bool-cases (type_ == "ADDED" || type_ == "MODIFIED")) [
  | inl stored ↦ rw stored (IsUnique-list_pod c p u)
  | inr not_stored ↦ elim (Bool-cases (type_ == "DELETED")) [
    | inr ignored ↦ rw (not_stored, ignored) u
    | inl deleted ↦ elim (Bool-cases (not (p.namespace == "") && not (p.name == ""))) [
      | inl named ↦
          rw (not_stored, deleted, named)
            (IsUnique-select (λ q. not (is_pod p.namespace p.name q)) c.pods u)
      | inr unnamed ↦ rw (not_stored, deleted, unnamed) u
    ]
  ]
]

IsUnique-after_calls :
    (c : MetadataCache) (calls : List PodCall)
    → IsUnique (map pod_key c.pods)
    → IsUnique (map pod_key (after_calls c calls).pods)
IsUnique-after_calls c [] u = u
IsUnique-after_calls c (lists p ∷ more) u =
    IsUnique-after_calls (list_pod c p) more (IsUnique-list_pod c p u)
IsUnique-after_calls c (watches type_ p ∷ more) u =
    IsUnique-after_calls (pod_event c type_ p) more (IsUnique-pod_event c type_ p u)

-- After any list and watch events, no two cached pods have the same namespace and name, and a pod with
-- an owner that is then listed is the one that a lookup of its name finds.
pub after_calls-IsUnique :
    (calls : List PodCall)
    → IsUnique (map pod_key (after_calls new_metadata_cache calls).pods)
      × ((p : K8sPod) (cp : CachedPod)
          → to_cached_pod p ≡ some cp
          → first
              (is_pod cp.namespace cp.info.name)
              (list_pod (after_calls new_metadata_cache calls) p).pods
            ≡ some cp)
unfolding list_pod upsert_pod
after_calls-IsUnique calls = (
  IsUnique-after_calls new_metadata_cache calls tt,
  λ p cp owned. rw (list_pod, owned) (first-put_pod cp (after_calls new_metadata_cache calls).pods),
)

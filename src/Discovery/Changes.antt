-- ===== src/Discovery/Changes.antt =====
-- changes.go: which changes of a workload are recorded while it is watched.
use ruptura.Base.{
  ◌-◌, ◌≡◌, ◌≢◌, refl, sym, ap, ◌∙◌, subst, inl, inr, String, ◌&&◌, List, [], ◌∷◌, ◌++◌,
  append_assoc, append_nil, length, length-last_n, last_n, cut_to_last-eq, last_n-append, ◌≤◌, some,
  if◌then◌else◌, Bool-cases, nat_beq, map, ◌==◌, ==_ne, string_eq, lookup, lookup-insert_self, Time,
  arith,
}
use ruptura.Discovery.{
  WorkloadMeta, Change, MetadataCache, workload_key, set_workload, max_changes, record_change,
}
use ruptura.Discovery.Watch.{K8sWorkload, to_workload_meta, workload_event}

-- A description of the workload of that namespace and name.
abbrev pub at_key : String → String → K8sWorkload → K8sWorkload
at_key ns name w = record w { namespace = ns; name = name }

-- The changes in a run of descriptions of one workload, each with the time when it was watched: those
-- whose image or generation is not that of the one before.
abbrev pub jumps : String → String → WorkloadMeta → List (K8sWorkload × Time) → List Change
jumps key kind before [] = []
jumps key kind before ((w, at) ∷ more) =
    let meta = to_workload_meta w kind in
    let rest = jumps key kind meta more in
    if (before.image == meta.image) && nat_beq before.generation meta.generation
    then rest
    else (record { workload = key; image = meta.image; at = at }) ∷ rest

module _ (ns kind name : String) where
  -- Some MODIFIED events of the workload.
  abbrev pub after_updates : MetadataCache → List (K8sWorkload × Time) → MetadataCache
  after_updates c [] = c
  after_updates c ((w, at) ∷ more) =
      after_updates (workload_event c kind "MODIFIED" (at_key ns name w) at) more

  abbrev pub keyed : List (K8sWorkload × Time) → List (K8sWorkload × Time)
  keyed events = map (λ e. (at_key ns name e.0, e.1)) events

  abbrev key : String
  key = workload_key ns kind name

  last_n-short : (xs : List Change) → length xs ≤ max_changes → last_n max_changes xs ≡ xs
  last_n-short xs h = let e : length xs - max_changes ≡ 0 = omega arith in rw e refl

  module _ (some_ns : ns ≢ "") (some_name : name ≢ "") where
    event-eq :
        (c : MetadataCache) (w : K8sWorkload) (at : Time)
        → workload_event c kind "MODIFIED" (at_key ns name w) at ≡ (
            let meta = to_workload_meta (at_key ns name w) kind in
            set_workload
              (record_change c ns kind name meta.image meta.generation at)
              ns
              kind
              name
              meta)
    unfolding workload_event
    event-eq c w at = rw (workload_event, ==_ne ns "" some_ns, ==_ne name "" some_name)

    changes-event :
        (c : MetadataCache) (before : WorkloadMeta) (w : K8sWorkload) (at : Time)
        → lookup key c.workloads ≡ some before
        → length c.changes ≤ max_changes
        → (workload_event c kind "MODIFIED" (at_key ns name w) at).changes
          ≡ last_n max_changes (c.changes ++ jumps key kind before ((at_key ns name w, at) ∷ []))
    unfolding record_change set_workload
    changes-event c before w at known bounded =
        let meta : WorkloadMeta = to_workload_meta (at_key ns name w) kind in
        rw (event-eq c w at)
          (elim (Bool-cases
            ((before.image == meta.image) && nat_beq before.generation meta.generation)) [
              | inl same ↦
                  rw (record_change, known, same)
                    (sym (
                      ap (λ l. last_n max_changes l) (append_nil c.changes)
                      ∙ last_n-short c.changes bounded))
              | inr moved ↦
                  rw (record_change, known, moved)
                    (cut_to_last-eq max_changes
                      (c.changes ++ (record { workload = key; image = meta.image; at = at }) ∷ []))
            ])

    stored-event :
        (c : MetadataCache) (w : K8sWorkload) (at : Time)
        → lookup key (workload_event c kind "MODIFIED" (at_key ns name w) at).workloads
          ≡ some (to_workload_meta (at_key ns name w) kind)
    unfolding set_workload
    stored-event c w at =
        rw (event-eq c w at) (lookup-insert_self key (to_workload_meta (at_key ns name w) kind) _)

    jumps-cons :
        (before : WorkloadMeta) (w : K8sWorkload) (at : Time) (more : List (K8sWorkload × Time))
        → jumps key kind before ((w, at) ∷ []) ++ jumps key kind (to_workload_meta w kind) more
          ≡ jumps key kind before ((w, at) ∷ more)
    jumps-cons before w at more =
        let meta : WorkloadMeta = to_workload_meta w kind in
        elim (Bool-cases
          ((before.image == meta.image) && nat_beq before.generation meta.generation)) [
            | inl same ↦ rw (jumps, same)
            | inr moved ↦ rw (jumps, moved)
          ]

    -- Over any MODIFIED events of a workload that is cached, the changes that are recorded are the last
    -- 512 of those before and of one for each description whose image or generation differs from the
    -- description before it, so that an update of the status alone is no change.
    pub changes-after_updates :
        (c : MetadataCache) (before : WorkloadMeta) (events : List (K8sWorkload × Time))
        → lookup key c.workloads ≡ some before
        → length c.changes ≤ max_changes
        → (after_updates c events).changes
          ≡ last_n max_changes (c.changes ++ jumps key kind before (keyed events))
    changes-after_updates c before [] known bounded =
        sym (ap (λ l. last_n max_changes l) (append_nil c.changes) ∙ last_n-short c.changes bounded)
    changes-after_updates c before ((w, at) ∷ more) known bounded =
        let c' = workload_event c kind "MODIFIED" (at_key ns name w) at in
        let here = jumps key kind before ((at_key ns name w, at) ∷ []) in
        let meta : WorkloadMeta = to_workload_meta (at_key ns name w) kind in
        let later = jumps key kind meta (keyed more) in
        let now = changes-event c before w at known bounded in
        changes-after_updates c' meta more (stored-event c w at) (
          subst (λ l. length l ≤ max_changes) (sym now)
            (length-last_n max_changes (c.changes ++ here)))
        ∙ ap (λ l. last_n max_changes (l ++ later)) now
        ∙ last_n-append max_changes (c.changes ++ here) later
        ∙ ap (λ l. last_n max_changes l)
            (append_assoc c.changes here later
              ∙ ap (λ l. c.changes ++ l) (jumps-cons before (at_key ns name w) at (keyed more)))

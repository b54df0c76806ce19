-- ===== src/Storage/Fresh.antt =====
-- storage.go: the list of the latest snapshots.
use ruptura.Base.{
  ◌-◌, ◌≡◌, ◌⊎◌, ◌↔◌, refl, sym, ap, ◌∙◌, subst, true, false, inl, inr, List, [], ◌∷◌, map, Has,
  IsUnique, exists, Bool-cases, ◌==◌, ==_iff, Dict, Time, before, arith,
}
use ruptura.Storage.{Bytes, bytes_eq}
use ruptura.Storage.Snapshots.{
  KpiSnapshot, snapshot_stale_ttl, canonical, fresh_from, all_snapshots,
}

seen_iff :
    (name : Bytes) (seen : List Bytes)
    → (exists (λ other. other == name) seen ≡ true) ↔ Has name seen
seen_iff name [] = (λ h. absurd (cc), λ h. absurd h)
seen_iff name (other ∷ seen) = ground (arith, ==_iff other name, seen_iff name seen)

module _ {X : Type 0} where
  -- What the loop gives after some names: fresh snapshots of the map, of new and different names,
  -- one for each name of a fresh snapshot that was not seen.
  abbrev IsListing : Time → List Bytes → Dict Bytes (KpiSnapshot X) → List (KpiSnapshot X) → Type 0
  IsListing cutoff seen snapshots listed =
      IsUnique (map canonical listed)
      × ((name : Bytes) → Has name (map canonical listed) → ¬ Has name seen)
      × ((snap : KpiSnapshot X)
          → Has snap listed
          → (before (snap.timestamp) cutoff ≡ false) × Has snap (map (λ item. item.1) snapshots))
      × ((snap : KpiSnapshot X)
          → Has snap (map (λ item. item.1) snapshots)
          → before (snap.timestamp) cutoff ≡ false
          → Has (canonical snap) (map canonical listed) ⊎ Has (canonical snap) seen)

  fresh_from-IsListing :
      (cutoff : Time) (seen : List Bytes) (snapshots : Dict Bytes (KpiSnapshot X))
      → IsListing cutoff seen snapshots (fresh_from cutoff seen snapshots)
  unfolding fresh_from
  fresh_from-IsListing cutoff seen [] =
      (tt, λ name h. absurd h, λ snap h. absurd h, λ snap h fresh. absurd h)
  fresh_from-IsListing cutoff seen (item ∷ items) =
      elim (Bool-cases (before (item.1.timestamp) cutoff)) [
        | inl stale ↦
            let (unique, new, fresh, all) = fresh_from-IsListing cutoff seen items in
            rw (fresh_from, stale)
              (
                unique,
                new,
                λ snap h. let (in_time, there) = fresh snap h in (in_time, inr there),
                λ snap h in_time. elim h [
                  | inl e ↦
                      let late : before (snap.timestamp) cutoff ≡ true =
                        subst (λ x. before (x.timestamp) cutoff ≡ true) e stale in
                      absurd (let bad : true ≡ false = sym late ∙ in_time in cc)
                  | inr later ↦ all snap later in_time
                ],
              )
        | inr in_time ↦ elim (Bool-cases (exists (λ name. name == canonical item.1) seen)) [
          | inl known ↦
              let (unique, new, fresh, all) = fresh_from-IsListing cutoff seen items in
              rw (fresh_from, in_time, known)
                (
                  unique,
                  new,
                  λ snap h. let (time, there) = fresh snap h in (time, inr there),
                  λ snap h time. elim h [
                    | inl e ↦ inr (
                        subst (λ x. Has (canonical x) seen) e
                          ((seen_iff (canonical item.1) seen).0 known))
                    | inr later ↦ all snap later time
                  ],
                )
          | inr unknown ↦
              let name = canonical item.1 in
              let (unique, new, fresh, all) = fresh_from-IsListing cutoff (name ∷ seen) items in
              rw (fresh_from, in_time, unknown)
                (
                  (λ h. new name h (inl refl), unique),
                  λ other h seen_before. elim h [
                    | inl e ↦
                        let known =
                          (seen_iff name seen).1 (subst (λ n. Has n seen) (sym e) seen_before) in
                        absurd (let bad : true ≡ false = sym known ∙ unknown in cc)
                    | inr later ↦ new other later (inr seen_before)
                  ],
                  λ snap h. elim h [
                    | inl e ↦ (subst (λ x. before (x.timestamp) cutoff ≡ false) e in_time, inl e)
                    | inr later ↦ let (time, there) = fresh snap later in (time, inr there)
                  ],
                  λ snap h time. elim h [
                    | inl e ↦ inl (inl (ap canonical e))
                    | inr later ↦ elim (all snap later time) [
                      | inl listed ↦ inl (inr listed)
                      | inr known ↦ elim known [
                        | inl e ↦ inl (inl e)
                        | inr before_it ↦ inr before_it
                      ]
                    ]
                  ],
                )
        ]
      ]

  -- AllSnapshots lists only stored snapshots that were updated in the last five minutes, no two of
  -- one workload, and one for the workload of each such snapshot.
  pub all_snapshots-IsListing :
      (now : Time) (snapshots : Dict Bytes (KpiSnapshot X))
      → IsUnique (map canonical (all_snapshots now snapshots))
        × ((snap : KpiSnapshot X)
            → Has snap (all_snapshots now snapshots)
            → (before (snap.timestamp) (now - snapshot_stale_ttl) ≡ false)
              × Has snap (map (λ item. item.1) snapshots))
        × ((snap : KpiSnapshot X)
            → Has snap (map (λ item. item.1) snapshots)
            → before (snap.timestamp) (now - snapshot_stale_ttl) ≡ false
            → Has (canonical snap) (map canonical (all_snapshots now snapshots)))
  unfolding all_snapshots
  all_snapshots-IsListing now snapshots =
      let (unique, new, fresh, all) =
        fresh_from-IsListing (now - snapshot_stale_ttl) [] snapshots in
      (
        unique,
        fresh,
        λ snap h time. elim (all snap h time) [
          | inl listed ↦ listed
          | inr nowhere ↦ absurd nowhere
        ],
      )

-- ===== src/Storage/Snapshots.antt =====
-- storage.go, models/workload.go: the latest snapshot of each host and of each workload. The fields
-- of a KPISnapshot that the store does not read are its `body`.
use ruptura.Base.{
  ◌-◌, ◌*◌, Bool, true, false, ◌||◌, Option, List, [], ◌∷◌, ◌++◌, length, nat_beq, exists,
  if◌then◌else◌, ◌==◌, Dict, lookup, insert, Time, Duration, minute, before,
}
use ruptura.Storage.{Bytes, bytes_eq, Database, Json, ok, error, set}
use ruptura.Storage.Series.{kpis_ttl}

pub record WorkloadRef : Type 0 where
  pub namespace : Bytes
  pub kind : Bytes
  pub name : Bytes

-- "default/host/"
abbrev pub host_root : Bytes
host_root =
    b'd' ∷ b'e' ∷ b'f' ∷ b'a' ∷ b'u' ∷ b'l' ∷ b't' ∷ b'/' ∷ b'h' ∷ b'o' ∷ b's' ∷ b't' ∷ b'/' ∷ []

-- WorkloadRef.Key
abbrev pub workload_key : WorkloadRef → Bytes
workload_key w =
    if nat_beq (length w.namespace) 0
    then host_root ++ w.name
    else w.namespace ++ (b'/' ∷ (w.kind ++ (b'/' ∷ w.name)))

-- WorkloadRef.IsEmpty
abbrev pub is_empty : WorkloadRef → Bool
is_empty w = nat_beq (length w.name) 0

pub record KpiSnapshot (X : Type 0) : Type 0 where
  pub host : Bytes
  pub workload : WorkloadRef
  pub timestamp : Time
  pub body : X

abbrev pub snapshot_stale_ttl : Duration
snapshot_stale_ttl = 5 * minute

-- "snapshot:"
abbrev pub snapshot_tag : Bytes
snapshot_tag = b's' ∷ b'n' ∷ b'a' ∷ b'p' ∷ b's' ∷ b'h' ∷ b'o' ∷ b't' ∷ b':' ∷ []

module _ {X : Type 0} where
  -- s.snapshots[snap.Host] = snap, for a host with a name
  abbrev pub with_host : KpiSnapshot X → Dict Bytes (KpiSnapshot X) → Dict Bytes (KpiSnapshot X)
  with_host snap snapshots =
      if nat_beq (length snap.host) 0 then snapshots else insert snap.host snap snapshots

  unfoldable pub store_snapshot :
      KpiSnapshot X → Dict Bytes (KpiSnapshot X) → Dict Bytes (KpiSnapshot X)
  store_snapshot snap snapshots =
      let key = workload_key snap.workload in
      if is_empty snap.workload || (key == snap.host)
      then with_host snap snapshots
      else insert key snap (with_host snap snapshots)

  unfoldable pub latest_snapshot : Bytes → Dict Bytes (KpiSnapshot X) → Option (KpiSnapshot X)
  latest_snapshot key snapshots = lookup key snapshots

  -- The name under which AllSnapshots tells workloads apart.
  abbrev pub canonical : KpiSnapshot X → Bytes
  canonical snap =
      let key = workload_key snap.workload in
      if nat_beq (length key) 0 || (key == host_root) then snap.host else key

  -- The loop of AllSnapshots, with the names seen so far.
  unfoldable pub fresh_from : Time → List Bytes → Dict Bytes (KpiSnapshot X) → List (KpiSnapshot X)
  fresh_from cutoff seen [] = []
  fresh_from cutoff seen (item ∷ items) =
      let skipped = fresh_from cutoff seen items in
      let rest = fresh_from cutoff (canonical item.1 ∷ seen) items in
      if before (item.1.timestamp) cutoff
      then skipped
      else if exists (λ name. name == canonical item.1) seen
      then skipped
      else item.1 ∷ rest

  unfoldable pub all_snapshots : Time → Dict Bytes (KpiSnapshot X) → List (KpiSnapshot X)
  all_snapshots now snapshots = fresh_from (now - snapshot_stale_ttl) [] snapshots

module _ {X : Type 0} (B : Database) (json : Json (KpiSnapshot X)) where
  -- The loop of FlushSnapshots, which stops at the first error; what was written before it stays.
  unfoldable pub flush_snapshots : Dict Bytes (KpiSnapshot X) → B.State → B.State × Bool
  flush_snapshots [] s = (s, true)
  flush_snapshots (item ∷ items) s =
      elim (set B json (snapshot_tag ++ item.1.host) (item.1) kpis_ttl s) [
        | error e ↦ (s, false)
        | ok t ↦
            if is_empty (item.1.workload)
            then flush_snapshots items t
            else elim (set B json (snapshot_tag ++ workload_key (item.1.workload)) (item.1) kpis_ttl
                t) [ error e ↦ (t, false) | ok u ↦ flush_snapshots items u ]
      ]

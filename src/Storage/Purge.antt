-- ===== src/Storage/Purge.antt =====
-- storage.go: the deletion of the points of a range of times, in batches of a thousand keys.
use ruptura.Base.{
  ℕ, zero, suc, ◌+◌, ◌-◌, Bool, false, not, ◌&&◌, ◌||◌, Option, none, some, List, [], ◌∷◌, map,
  select, length, drop, take, leb, if◌then◌else◌, Time, is_zero, before, after,
}
use ruptura.Storage.{Bytes, Database, ok, error, StoreError, delete_key, commit, scan_int, items_of}
use ruptura.Storage.Series.{m_tag, kpi_tag, kr5_tag, kr1h_tag}

-- The time in the last twenty bytes of a key, where the key is long enough and they can be read.
abbrev pub time_of : Bytes → Bytes → Option Time
time_of prefix key =
    if leb (length prefix + 20) (length key) then scan_int (drop (length key - 20) key) else none

-- Whether the loop puts a key on the list: a bound at the zero time does not hold it back.
abbrev pub in_range : Bytes → Time → Time → Bytes → Bool
in_range prefix from to key = elim (time_of prefix key) [
  | none ↦ false
  | some ts ↦ not ((not (is_zero from) && before ts from) || (not (is_zero to) && after ts to))
]

-- What a purge returns, with the state that it leaves.
pub record Purged (S : Type 0) : Type 0 where
  pub deleted : ℕ
  pub state : S
  pub failed : Option StoreError

abbrev pub batch_size : ℕ
batch_size = 1000

module _ (B : Database) where
  unfoldable pub to_delete : Bytes → Time → Time → B.State → List Bytes
  to_delete prefix from to s =
      map (λ item. item.0) (select (λ item. in_range prefix from to item.0) (items_of B prefix s))

  -- The loop over the batches, on fuel.
  unfoldable pub delete_batches : ℕ → List Bytes → ℕ → B.State → Purged B.State
  delete_batches zero keys deleted s = record { deleted = deleted; state = s; failed = none }
  delete_batches (suc fuel) [] deleted s = record { deleted = deleted; state = s; failed = none }
  delete_batches (suc fuel) (key ∷ keys) deleted s =
      elim (commit B (map delete_key (take batch_size (key ∷ keys))) s) [
        | error e ↦ record { deleted = deleted; state = s; failed = some e }
        | ok t ↦
            delete_batches fuel (drop batch_size (key ∷ keys))
              (deleted + length (take batch_size (key ∷ keys))) t
      ]

  unfoldable pub purge_by_prefix : Bytes → Time → Time → B.State → Purged B.State
  purge_by_prefix prefix from to s =
      let keys = to_delete prefix from to s in delete_batches (length keys) keys 0 s

  unfoldable pub purge_metrics : Time → Time → B.State → Purged B.State
  purge_metrics from to s = purge_by_prefix m_tag from to s

  -- One tier after the other, until one fails; what that one deleted is not counted.
  unfoldable pub purge_tiers : List Bytes → Time → Time → ℕ → B.State → Purged B.State
  purge_tiers [] from to total s = record { deleted = total; state = s; failed = none }
  purge_tiers (tier ∷ tiers) from to total s =
      let r = purge_by_prefix tier from to s in
      elim (r.failed) [
        | some e ↦ record { deleted = total; state = r.state; failed = some e }
        | none ↦ purge_tiers tiers from to (total + r.deleted) r.state
      ]

  unfoldable pub purge_kpis : Time → Time → B.State → Purged B.State
  purge_kpis from to s = purge_tiers (kpi_tag ∷ kr5_tag ∷ kr1h_tag ∷ []) from to 0 s

-- ===== src/Alerter/Windows.antt =====
-- alerter.go: maintenance windows, and models/workload.go for the key of a host's workload.
use ruptura.Base.{
  String, Bool, not, ◌&&◌, ◌||◌, List, [], ◌∷◌, ◌++◌, ℕ, ◌+◌, select, exists, if◌then◌else◌, ◌==◌,
  string_eq, Time, after, before,
}
use Prim.Native.String.{◌++◌ as ◌&◌}
use ruptura.Alerter.{Alerter, MaintenanceWindow}

-- WorkloadRefFromHost(host).Key()
abbrev pub host_key : String → String
host_key host = "default/host/" & host

module _ {F : Type 0} where
  unfoldable pub add_maintenance_window :
      (ℕ → String) → Alerter F → MaintenanceWindow → Alerter F × String
  add_maintenance_window ids a w =
      if w.id == ""
      then (
        record a { windows = a.windows ++ record w { id = ids a.drawn } ∷ []; drawn = a.drawn + 1 },
        ids a.drawn,
      )
      else (record a { windows = a.windows ++ w ∷ [] }, w.id)

  unfoldable pub remove_maintenance_window : Alerter F → String → Alerter F
  remove_maintenance_window a id = record a { windows = select (λ w. not (w.id == id)) a.windows }

  unfoldable pub list_maintenance_windows : Alerter F → Time → List MaintenanceWindow
  list_maintenance_windows a now = select (λ w. after w.until now) a.windows

-- One round of the loop of isSuppressed.
unfoldable pub covers : String → Time → MaintenanceWindow → Bool
covers key now w =
    not (before w.until now)
    && not (after w.from now)
    && (w.workload_key == "*" || w.workload_key == key)

module _ {F : Type 0} where
  unfoldable pub is_suppressed : Alerter F → String → Time → Bool
  unfolding covers
  is_suppressed a key now = exists (covers key now) a.windows

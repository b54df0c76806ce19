-- ===== src/Alerter/Suppression.antt =====
-- alerter.go: maintenance windows silence Evaluate and FireRupture.
use ruptura.Base.{
  ℕ, ◌≤◌, ◌≡◌, refl, sym, subst, ◌⊎◌, inl, inr, String, Bool, true, false, ◌||◌, List, [], ◌∷◌,
  exists, Has, ◌==◌, string_eq, ==_refl, Bool-cases, le→ltb-false, Dict, Time, Float,
}
use ruptura.Alerter.{Alerter, MaintenanceWindow}
use ruptura.Alerter.Windows.{host_key, covers, is_suppressed}
use ruptura.Alerter.Evaluate.{RuptureEvent, evaluate, fire_rupture}

-- The window is open at `now`, its ends included.
abbrev pub IsOpen : MaintenanceWindow → Time → Type 0
IsOpen w now = (w.from ≤ now) × (now ≤ w.until)

covers_key :
    (key : String) (now : Time) (w : MaintenanceWindow)
    → IsOpen w now
    → (w.workload_key ≡ "*") ⊎ (w.workload_key ≡ key)
    → covers key now w ≡ true
unfolding covers
covers_key key now w during (inl e) =
    rw
      (
        le→ltb-false w.until now during.1,
        le→ltb-false now w.from during.0,
        e,
        ==_refl {A = String} "*",
      )
      refl
covers_key key now w during (inr e) =
    rw (le→ltb-false w.until now during.1, le→ltb-false now w.from during.0, e, ==_refl key)
      (or_true (key == "*"))
  where
    or_true : (b : Bool) → (b || true) ≡ true
    or_true true = refl
    or_true false = refl

exists-Has :
    (p : MaintenanceWindow → Bool) (w : MaintenanceWindow) (ws : List MaintenanceWindow)
    → Has w ws
    → p w ≡ true
    → exists p ws ≡ true
exists-Has p w [] h e = absurd h
exists-Has p w (x ∷ xs) (inl same) e =
    let hit : p x ≡ true = subst (λ y. p y ≡ true) (sym same) e in rw hit refl
exists-Has p w (x ∷ xs) (inr later) e = elim (Bool-cases (p x)) [
  | inl hit ↦ rw hit refl
  | inr miss ↦ rw miss (exists-Has p w xs later e)
]

module _ {F : Type 0} ⦃fl : Float F⦄ (ids : ℕ → String) where
  suppressed :
      (a : Alerter F) (key : String) (now : Time) (w : MaintenanceWindow)
      → Has w a.windows
      → IsOpen w now
      → (w.workload_key ≡ "*") ⊎ (w.workload_key ≡ key)
      → is_suppressed a key now ≡ true
  unfolding is_suppressed
  suppressed a key now w h during e =
      exists-Has (covers key now) w a.windows h (covers_key key now w during e)

  -- While a window that names every workload, the host or the key of the host's workload is open, an
  -- evaluation of that host changes nothing.
  pub evaluate_in_window :
      (a : Alerter F) (host : String) (kpis : Dict String F) (now : Time) (w : MaintenanceWindow)
      → Has w a.windows
      → IsOpen w now
      → (w.workload_key ≡ "*") ⊎ ((w.workload_key ≡ host_key host) ⊎ (w.workload_key ≡ host))
      → evaluate ids a host kpis now ≡ a
  unfolding evaluate
  evaluate_in_window a host kpis now w h during (inl e) =
      rw (suppressed a (host_key host) now w h during (inl e)) refl
  evaluate_in_window a host kpis now w h during (inr (inl e)) =
      rw (suppressed a (host_key host) now w h during (inr e)) refl
  evaluate_in_window a host kpis now w h during (inr (inr e)) =
      rw (suppressed a host now w h during (inr e))
        (elim (Bool-cases (is_suppressed a (host_key host) now)) [
          | inl hit ↦ rw hit refl
          | inr miss ↦ rw miss refl
        ])

  -- While a window that names every workload or the event's host is open, a rupture event changes
  -- nothing.
  pub fire_rupture_in_window :
      (describe : String → F → String) (a : Alerter F) (ev : RuptureEvent F) (now : Time)
      (w : MaintenanceWindow)
      → Has w a.windows
      → IsOpen w now
      → (w.workload_key ≡ "*") ⊎ (w.workload_key ≡ ev.host)
      → fire_rupture ids describe a ev now ≡ a
  unfolding fire_rupture
  fire_rupture_in_window describe a ev now w h during e =
      rw (suppressed a ev.host now w h during e) refl

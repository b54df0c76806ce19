-- ===== src/Events/Bands.antt =====
-- events.go: the readings for which ObserveFusedR adds no event.
use ruptura.Base.{
  ℕ, first, none, ◌≡◌, refl, String, Bool, true, false, ◌&&◌, insert, string_eq, Time, Float,
}
use ruptura.Events.{Bus, bands, inside, observe_fused_r}

and_false : (b : Bool) → (b && false) ≡ false
and_false true = refl
and_false false = refl

module _ {F : Type 0} ⦃fl : Float F⦄ where
  no_band :
      (r : F)
      → fl.lt r (fl.milli 1500) ≡ false
      → fl.lt r (fl.milli 3000) ≡ false
      → fl.lt r (fl.milli 5000) ≡ false
      → fl.lt r (fl.milli 99000) ≡ false
      → first (inside r) bands ≡ none
  unfolding bands inside
  no_band r h1 h2 h3 h4 =
      rw
        (
          h1,
          h2,
          h3,
          h4,
          and_false (fl.le (fl.milli 0) r),
          and_false (fl.le (fl.milli 1500) r),
          and_false (fl.le (fl.milli 3000) r),
          and_false (fl.le (fl.milli 5000) r),
        )
        refl

module _ {F : Type 0} ⦃fl : Float F⦄ (name : ℕ → String)
    (describe : String → String → F → String) where
  -- A reading that is not less than 1.5, 3, 5 or 99 is kept as the last one and adds no event, whatever
  -- the reading before it was.
  pub observe_fused_r_above :
      (b : Bus F) (workload : String) (r : F) (now : Time)
      → fl.lt r (fl.milli 1500) ≡ false
      → fl.lt r (fl.milli 3000) ≡ false
      → fl.lt r (fl.milli 5000) ≡ false
      → fl.lt r (fl.milli 99000) ≡ false
      → observe_fused_r name describe b workload r now
        ≡ record b { last_fused_r = insert workload r b.last_fused_r }
  unfolding observe_fused_r
  observe_fused_r_above b workload r now h1 h2 h3 h4 =
      rw (observe_fused_r, no_band r h1 h2 h3 h4) refl

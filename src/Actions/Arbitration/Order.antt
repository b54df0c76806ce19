-- ===== src/Actions/Arbitration/Order.antt =====
-- arbitrator.go: what Submit refuses and Drain returns.
use ruptura.Base.{
  ◌-◌, ◌<◌, ◌≡◌, refl, ap, sym, subst, true, false, [], ◌∷◌, ◌++◌, lt→ltb, string_eq, insert,
  lookup-insert_self, Time, sort_by-perm, Float,
}
use mathlib.Core.List.{Perm}
use ruptura.Actions.{Recommendation}
use ruptura.Actions.Safety.{action_key}
use ruptura.Actions.Arbitration.{Arbitrator, cooling, submit, precedes, drain}

module _ {F : Type 0} where
  -- The arbitrator that has accepted a recommendation.
  abbrev accepted : Arbitrator F → Recommendation F → Time → Arbitrator F
  accepted a rec now = record a {
    last_submitted = insert (action_key rec.host rec.action_type) now a.last_submitted;
    queue = a.queue ++ rec ∷ [];
  }

  cooling-accepted :
      (a : Arbitrator F) (rec : Recommendation F) (now later : Time)
      → later - now < a.cooldown_window
      → cooling (accepted a rec now) (action_key rec.host rec.action_type) later ≡ true
  unfolding cooling
  cooling-accepted a rec now later h =
      rw (cooling, lookup-insert_self (action_key rec.host rec.action_type) now a.last_submitted)
        (lt→ltb (later - now) a.cooldown_window h)

  -- A recommendation that is accepted is queued, and a second one for the same host and type of action,
  -- less than the cooldown later, is refused and changes nothing.
  pub submit_cooldown :
      (a : Arbitrator F) (rec rec' : Recommendation F) (now later : Time)
      → cooling a (action_key rec.host rec.action_type) now ≡ false
      → rec.host ≡ rec'.host
      → rec.action_type ≡ rec'.action_type
      → later - now < a.cooldown_window
      → ((submit a rec now).0.queue ≡ a.queue ++ rec ∷ [])
        × (submit (submit a rec now).0 rec' later ≡ ((submit a rec now).0, false))
  unfolding submit
  submit_cooldown a rec rec' now later fresh host action h =
      let first : submit a rec now ≡ (accepted a rec now, true) = rw fresh refl in
      let key : action_key rec.host rec.action_type ≡ action_key rec'.host rec'.action_type = cc in
      let cold : cooling (accepted a rec now) (action_key rec'.host rec'.action_type) later ≡ true =
        subst (λ k. cooling (accepted a rec now) k later ≡ true) key
          (cooling-accepted a rec now later h) in
      let second : submit (accepted a rec now) rec' later ≡ (accepted a rec now, false) =
        rw cold refl in
      let state : (submit a rec now).0 ≡ accepted a rec now = ap (λ p. p.0) first in
      (ap (λ b. b.queue) state, subst (λ b. submit b rec' later ≡ (b, false)) (sym state) second)

module _ {F : Type 0} ⦃fl : Float F⦄ where
  -- Drain returns the submitted recommendations in some order, each as often as it was submitted, and
  -- leaves an empty queue and the cooldowns as they were.
  pub drain-perm :
      (a : Arbitrator F)
      → Perm (drain a).1 a.queue
        × (((drain a).0.queue ≡ []) × ((drain a).0.last_submitted ≡ a.last_submitted))
  unfolding drain
  drain-perm a = (sort_by-perm precedes a.queue, (refl, refl))

-- ===== src/Actions/Arbitration.antt =====
-- actions/arbitration/arbitrator.go: the queue of submitted recommendations and its order.
pub mod Order
use ruptura.Base.{
  ◌-◌, String, Bool, true, false, List, [], ◌∷◌, ◌++◌, none, some, ltb, if◌then◌else◌, ◌==◌,
  string_eq, nat_eq, Dict, lookup, insert, Time, Duration, sort_by, Float,
}
use ruptura.Actions.{Recommendation, tier_number}
use ruptura.Actions.Safety.{action_key}

pub record Arbitrator (F : Type 0) : Type 0 where
  pub cooldown_window : Duration
  pub last_submitted : Dict String Time
  pub queue : List (Recommendation F)

module _ {F : Type 0} where
  unfoldable pub cooling : Arbitrator F → String → Time → Bool
  cooling a key now = elim (lookup key a.last_submitted) [
    | none ↦ false
    | some at ↦ ltb (now - at) a.cooldown_window
  ]

  unfoldable pub submit : Arbitrator F → Recommendation F → Time → Arbitrator F × Bool
  unfolding cooling
  submit a rec now =
      let key : String = action_key rec.host rec.action_type in
      if cooling a key now then (a, false) else (
        record a { last_submitted = insert key now a.last_submitted; queue = a.queue ++ rec ∷ [] },
        true,
      )

module _ {F : Type 0} ⦃fl : Float F⦄ where
  -- The order of Drain: by tier, then by falling confidence.
  unfoldable pub precedes : Recommendation F → Recommendation F → Bool
  unfolding tier_number
  precedes x y =
      if tier_number x.tier == tier_number y.tier
      then fl.lt y.confidence x.confidence
      else ltb (tier_number x.tier) (tier_number y.tier)

  unfoldable pub drain : Arbitrator F → Arbitrator F × List (Recommendation F)
  unfolding precedes
  drain a = (record a { queue = [] }, sort_by precedes a.queue)

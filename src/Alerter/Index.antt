-- ===== src/Alerter/Index.antt =====
-- alerter.go: the index from rule and host to the alert that an evaluation resolves.
use ruptura.Base.{
  ℕ, ◌+◌, ◌-◌, ◌*◌, leb, minute, ◌≡◌, refl, sym, subst, String, Bool, false, ◌||◌, List, [], ◌∷◌,
  length, select, some, none, inl, inr, ltb, Bool-cases, Option-cases, ◌==◌, string_eq, Dict,
  lookup, insert, delete, lookup-insert, lookup-delete, lookup-delete_self, Time, Float,
}
use ruptura.Alerter.{Status, Alert, Rule, Alerter, send}
use ruptura.Alerter.Windows.{host_key, is_suppressed}
use ruptura.Alerter.Evaluate.{
  evict, fire_key, just_fired, raise, resolve_alert, resolve, rule_alert, judge, evaluate_rule,
  evaluate_rules, evaluate,
}

lookup-select :
    (p : String × Time → Bool) (key : String) (m : Dict String Time)
    → lookup key m ≡ none
    → lookup key (select p m) ≡ none
unfolding lookup
lookup-select p key [] e = refl
lookup-select p key ((j, at) ∷ m) e = elim (Bool-cases (j == key)) [
  | inl same ↦ absurd (let clash : some at ≡ none = rw same at e in cc)
  | inr other ↦
      let rest : lookup key (select p m) ≡ none = lookup-select p key m (rw other at e) in
      elim (Bool-cases (p (j, at))) [ inl kept ↦ rw (kept, other) rest | inr cut ↦ rw cut rest ]
]

module _ {F : Type 0} where
  -- Every key that has fired is in the index.
  abbrev pub IsIndexed : Alerter F → Type 0
  IsIndexed a = (key : String) → lookup key a.rule_host_idx ≡ none → lookup key a.fired ≡ none

  -- `send` touches the channel and the counter only.
  pub send-rest :
      (a : Alerter F) (alert : Alert F)
      → ((send a alert).rule_host_idx ≡ a.rule_host_idx)
        × (((send a alert).fired ≡ a.fired) × ((send a alert).active ≡ a.active))
  unfolding send
  send-rest a alert = elim (Bool-cases (ltb (length a.channel) a.capacity)) [
    | inl room ↦ rw room (refl, (refl, refl))
    | inr full ↦ rw full (refl, (refl, refl))
  ]

  raise-IsIndexed :
      (a : Alerter F) (key : String) (alert : Alert F) (now : Time)
      → IsIndexed a
      → IsIndexed (raise a key alert now)
  unfolding raise
  raise-IsIndexed a key alert now h j e =
      let rest =
        send-rest
          (record a {
            active = insert alert.id alert a.active;
            rule_host_idx = insert key alert.id a.rule_host_idx;
            fired = insert key now a.fired;
            drawn = a.drawn + 1;
          })
          alert in
      rw rest.1.0 (by_key (rw rest.0 at e))
    where
      by_key :
          lookup j (insert key alert.id a.rule_host_idx) ≡ none
          → lookup j (insert key now a.fired) ≡ none
      by_key e' = elim (Bool-cases (key == j)) [
        | inl same ↦ absurd (
            let clash : some alert.id ≡ none =
              rw (lookup-insert key j alert.id a.rule_host_idx, same) at e' in
            cc)
        | inr other ↦
            rw (lookup-insert key j now a.fired, other)
              (h j (rw (lookup-insert key j alert.id a.rule_host_idx, other) at e'))
      ]

  -- `resolve_alert` touches the alerts only.
  pub resolve_alert-rest :
      (a : Alerter F) (id : String)
      → ((resolve_alert a id).rule_host_idx ≡ a.rule_host_idx)
        × ((resolve_alert a id).fired ≡ a.fired)
  unfolding resolve_alert
  resolve_alert-rest a id = elim (Option-cases (lookup id a.active)) [
    | inl missing ↦ rw (resolve_alert, missing) (refl, refl)
    | inr (alert, found) ↦ rw (resolve_alert, found) (by_status alert.status)
  ]
    where
      by_status :
          (s : Status)
          → let b : Alerter F = elim s [
            | Status.active ↦ record a { active = delete id a.active }
            | _ ↦ a
          ] in
            (b.rule_host_idx ≡ a.rule_host_idx) × (b.fired ≡ a.fired)
      by_status Status.active = (refl, refl)
      by_status Status.acknowledged = (refl, refl)
      by_status Status.silenced = (refl, refl)
      by_status Status.resolved = (refl, refl)

  resolve-IsIndexed : (a : Alerter F) (key : String) → IsIndexed a → IsIndexed (resolve a key)
  unfolding resolve
  resolve-IsIndexed a key h = elim (Option-cases (lookup key a.rule_host_idx)) [
    | inl missing ↦ rw (resolve, missing) h
    | inr (id, found) ↦ rw (resolve, found) (λ j e. by_key id j e)
  ]
    where
      by_key :
          (id j : String)
          → lookup j (delete key (resolve_alert a id).rule_host_idx) ≡ none
          → lookup j (delete key (resolve_alert a id).fired) ≡ none
      by_key id j e = rw (resolve_alert-rest a id).1 (elim (Bool-cases (key == j)) [
        | inl same ↦ rw (lookup-delete key j a.fired, same) refl
        | inr other ↦
            rw (lookup-delete key j a.fired, other)
              (h j
                (rw ((resolve_alert-rest a id).0, lookup-delete key j a.rule_host_idx, other) at e))
      ])

  resolve_alert_gone :
      (a : Alerter F) (id : String) (alert : Alert F)
      → lookup id a.active ≡ some alert
      → alert.status ≡ Status.active
      → lookup id (resolve_alert a id).active ≡ none
  unfolding resolve_alert
  resolve_alert_gone a id alert found act =
      rw (resolve_alert, found, act) (lookup-delete_self id a.active)

module _ {F : Type 0} ⦃fl : Float F⦄ (ids : ℕ → String) where
  judge-IsIndexed :
      (a : Alerter F) (host : String) (value : F) (now : Time) (r : Rule F)
      → IsIndexed a
      → IsIndexed (judge ids a host value now r)
  unfolding judge
  judge-IsIndexed a host value now r h = elim (Bool-cases (fl.le r.threshold value)) [
    | inl high ↦ rw high (elim (Bool-cases (just_fired a (fire_key r host) now)) [
      | inl recent ↦ rw recent h
      | inr old ↦
          rw old
            (raise-IsIndexed a (fire_key r host) (rule_alert (ids a.drawn) r host value now) now h)
    ])
    | inr low ↦ rw low (resolve-IsIndexed a (fire_key r host) h)
  ]

  evaluate_rule-IsIndexed :
      (a : Alerter F) (host : String) (kpis : Dict String F) (now : Time) (r : Rule F)
      → IsIndexed a
      → IsIndexed (evaluate_rule ids a host kpis now r)
  unfolding evaluate_rule
  evaluate_rule-IsIndexed a host kpis now r h = elim (Option-cases (lookup r.metric kpis)) [
    | inl missing ↦ rw (evaluate_rule, missing) h
    | inr (value, found) ↦ rw (evaluate_rule, found) (judge-IsIndexed a host value now r h)
  ]

  evaluate_rules-IsIndexed :
      (a : Alerter F) (host : String) (kpis : Dict String F) (now : Time) (rs : List (Rule F))
      → IsIndexed a
      → IsIndexed (evaluate_rules ids a host kpis now rs)
  unfolding evaluate_rules
  evaluate_rules-IsIndexed a host kpis now [] h = h
  evaluate_rules-IsIndexed a host kpis now (r ∷ rs) h =
      evaluate_rules-IsIndexed (evaluate_rule ids a host kpis now r) host kpis now rs
        (evaluate_rule-IsIndexed a host kpis now r h)

  -- An evaluation keeps every fired key in the index.
  pub evaluate-IsIndexed :
      (a : Alerter F) (host : String) (kpis : Dict String F) (now : Time)
      → IsIndexed a
      → IsIndexed (evaluate ids a host kpis now)
  unfolding evaluate evict
  evaluate-IsIndexed a host kpis now h =
      elim (Bool-cases (is_suppressed a (host_key host) now || is_suppressed a host now)) [
        | inl quiet ↦ rw quiet h
        | inr loud ↦ rw loud (
            evaluate_rules-IsIndexed (evict a now) host kpis now a.rules
              (λ key e. lookup-select (λ kt. leb (now - kt.1) (5 * minute)) key a.fired (h key e)))
      ]

  -- When the value is below the rule's threshold, on an alerter whose fired keys are all indexed, the
  -- rule and host leave the index and may fire again at once, and the alert that the index named is
  -- gone if it was active.
  pub judge_clears :
      (a : Alerter F) (host : String) (value : F) (now : Time) (r : Rule F)
      → IsIndexed a
      → fl.le r.threshold value ≡ false
      → (lookup (fire_key r host) (judge ids a host value now r).rule_host_idx ≡ none)
        × ((lookup (fire_key r host) (judge ids a host value now r).fired ≡ none)
            × ((id : String) (alert : Alert F)
                → lookup (fire_key r host) a.rule_host_idx ≡ some id
                → lookup id a.active ≡ some alert
                → alert.status ≡ Status.active
                → lookup id (judge ids a host value now r).active ≡ none))
  unfolding judge resolve
  judge_clears a host value now r h low =
      rw low (elim (Option-cases (lookup (fire_key r host) a.rule_host_idx)) [
        | inl missing ↦
            rw (resolve, missing)
              (missing, (h (fire_key r host) missing, λ id alert e. absurd (cc)))
        | inr (id, found) ↦
            rw (resolve, found)
              (
                lookup-delete_self (fire_key r host) (resolve_alert a id).rule_host_idx,
                (
                  lookup-delete_self (fire_key r host) (resolve_alert a id).fired,
                  λ id' alert e at_id act.
                      let same : id ≡ id' = cc in
                      subst (λ i. lookup i (resolve_alert a id).active ≡ none) same
                        (resolve_alert_gone a id alert
                          (subst (λ i. lookup i a.active ≡ some alert) (sym same) at_id) act),
                ),
              )
      ])

-- ===== src/Alerter/Handled.antt =====
-- alerter.go: Evaluate leaves the alerts alone that a person has acknowledged or silenced.
use ruptura.Base.{
  ℕ, ◌≡◌, ◌≢◌, refl, sym, ◌∙◌, subst, ◌+◌, inl, inr, String, ◌||◌, List, [], ◌∷◌, some, Bool-cases,
  Option-cases, ◌==◌, ==_iff, string_eq, Dict, lookup, insert, delete, lookup-insert_ne,
  lookup-delete, Time, Float, ltb, length, ◌≤◌, arith,
}
use ruptura.Alerter.{Status, Alert, Rule, Alerter, send}
use ruptura.Alerter.Windows.{host_key, is_suppressed}
use ruptura.Alerter.Evaluate.{
  evict, fire_key, just_fired, raise, resolve_alert, resolve, rule_alert, judge, evaluate_rule,
  evaluate_rules, evaluate,
}
use ruptura.Alerter.Index.{send-rest}

module _ {F : Type 0} where
  -- The alert `id` is there, and it is `alert`.
  abbrev pub Holds : Alerter F → String → Alert F → Type 0
  Holds a id alert = lookup id a.active ≡ some alert

  raise-Holds :
      (a : Alerter F) (key : String) (new : Alert F) (now : Time) (id : String) (alert : Alert F)
      → new.id ≢ id
      → Holds a id alert
      → Holds (raise a key new now) id alert
  unfolding raise
  raise-Holds a key new now id alert fresh h =
      let rest =
        send-rest
          (record a {
            active = insert new.id new a.active;
            rule_host_idx = insert key new.id a.rule_host_idx;
            fired = insert key now a.fired;
            drawn = a.drawn + 1;
          })
          new in
      rw (rest.1.1, lookup-insert_ne new.id id new a.active fresh) h

  resolve_alert-Holds :
      (a : Alerter F) (other id : String) (alert : Alert F)
      → alert.status ≢ Status.active
      → Holds a id alert
      → Holds (resolve_alert a other) id alert
  unfolding resolve_alert
  resolve_alert-Holds a other id alert handled h = elim (Option-cases (lookup other a.active)) [
    | inl missing ↦ rw (resolve_alert, missing) h
    | inr (al, found) ↦ rw (resolve_alert, found) (by_status al.status al refl found)
  ]
    where
      clash :
          other ≡ id
          → (al : Alert F) → al.status ≡ Status.active
          → lookup other a.active ≡ some al
          → alert.status ≡ Status.active
      clash is_it al e found =
          let found' : lookup id a.active ≡ some al = rw is_it at found in
          let one : some al ≡ some alert = sym found' ∙ h in
          let same : al ≡ alert = cc in subst (λ x. x.status ≡ Status.active) same e

      by_status :
          (s : Status) (al : Alert F)
          → al.status ≡ s
          → lookup other a.active ≡ some al
          → let b : Alerter F = elim s [
            | Status.active ↦ record a { active = delete other a.active }
            | _ ↦ a
          ] in
            lookup id b.active ≡ some alert
      by_status Status.active al e found = elim (Bool-cases (other == id)) [
        | inl same ↦
            let is_it : other ≡ id = (==_iff other id).0 same in
            absurd (handled (clash is_it al e found))
        | inr differ ↦ rw (lookup-delete other id a.active, differ) h
      ]
      by_status Status.acknowledged al e found = h
      by_status Status.silenced al e found = h
      by_status Status.resolved al e found = h

  resolve-Holds :
      (a : Alerter F) (key id : String) (alert : Alert F)
      → alert.status ≢ Status.active
      → Holds a id alert
      → Holds (resolve a key) id alert
  unfolding resolve
  resolve-Holds a key id alert handled h = elim (Option-cases (lookup key a.rule_host_idx)) [
    | inl missing ↦ rw (resolve, missing) h
    | inr (other, found) ↦ rw (resolve, found) (resolve_alert-Holds a other id alert handled h)
  ]

module _ {F : Type 0} where
  send-drawn : (a : Alerter F) (alert : Alert F) → (send a alert).drawn ≡ a.drawn
  unfolding send
  send-drawn a alert = elim (Bool-cases (ltb (length a.channel) a.capacity)) [
    | inl room ↦ rw room refl
    | inr full ↦ rw full refl
  ]

  raise-drawn :
      (a : Alerter F) (key : String) (new : Alert F) (now : Time)
      → (raise a key new now).drawn ≡ a.drawn + 1
  unfolding raise
  raise-drawn a key new now =
      send-drawn
        (record a {
          active = insert new.id new a.active;
          rule_host_idx = insert key new.id a.rule_host_idx;
          fired = insert key now a.fired;
          drawn = a.drawn + 1;
        })
        new

  resolve_alert-drawn : (a : Alerter F) (id : String) → (resolve_alert a id).drawn ≡ a.drawn
  unfolding resolve_alert
  resolve_alert-drawn a id = elim (Option-cases (lookup id a.active)) [
    | inl missing ↦ rw (resolve_alert, missing) refl
    | inr (al, found) ↦ rw (resolve_alert, found) (by_status al.status)
  ]
    where
      by_status :
          (s : Status)
          → let b : Alerter F = elim s [
            | Status.active ↦ record a { active = delete id a.active }
            | _ ↦ a
          ] in
            b.drawn ≡ a.drawn
      by_status Status.active = refl
      by_status Status.acknowledged = refl
      by_status Status.silenced = refl
      by_status Status.resolved = refl

  resolve-drawn : (a : Alerter F) (key : String) → (resolve a key).drawn ≡ a.drawn
  unfolding resolve
  resolve-drawn a key = elim (Option-cases (lookup key a.rule_host_idx)) [
    | inl missing ↦ rw (resolve, missing) refl
    | inr (id, found) ↦ rw (resolve, found) (resolve_alert-drawn a id)
  ]

-- The alert is there, and the first `k` identifiers have been drawn.
abbrev IsKept : {F : Type 0} → String → Alert F → ℕ → Alerter F → Type 0
IsKept id alert k a = (k ≤ a.drawn) × Holds a id alert

module _ {F : Type 0} ⦃fl : Float F⦄ (ids : ℕ → String) (id : String) (alert : Alert F) (k : ℕ)
    (unused : (n : ℕ) → k ≤ n → ids n ≢ id) (handled : alert.status ≢ Status.active) where
  judge-IsKept :
      (a : Alerter F) (host : String) (value : F) (now : Time) (r : Rule F)
      → IsKept id alert k a
      → IsKept id alert k (judge ids a host value now r)
  unfolding judge rule_alert
  judge-IsKept a host value now r h = elim (Bool-cases (fl.le r.threshold value)) [
    | inl high ↦ rw high (elim (Bool-cases (just_fired a (fire_key r host) now)) [
      | inl recent ↦ rw recent h
      | inr old ↦
          let new = rule_alert (ids a.drawn) r host value now in
          rw old (
            let one_more = raise-drawn a (fire_key r host) new now in omega (arith, h.0, one_more),
            raise-Holds a (fire_key r host) new now id alert (unused a.drawn h.0) h.1,
          )
    ])
    | inr low ↦ rw low (
      let same = resolve-drawn a (fire_key r host) in omega (arith, h.0, same),
      resolve-Holds a (fire_key r host) id alert handled h.1,
    )
  ]

  evaluate_rule-IsKept :
      (a : Alerter F) (host : String) (kpis : Dict String F) (now : Time) (r : Rule F)
      → IsKept id alert k a
      → IsKept id alert k (evaluate_rule ids a host kpis now r)
  unfolding evaluate_rule
  evaluate_rule-IsKept a host kpis now r h = elim (Option-cases (lookup r.metric kpis)) [
    | inl missing ↦ rw (evaluate_rule, missing) h
    | inr (value, found) ↦ rw (evaluate_rule, found) (judge-IsKept a host value now r h)
  ]

  evaluate_rules-IsKept :
      (a : Alerter F) (host : String) (kpis : Dict String F) (now : Time) (rs : List (Rule F))
      → IsKept id alert k a
      → IsKept id alert k (evaluate_rules ids a host kpis now rs)
  unfolding evaluate_rules
  evaluate_rules-IsKept a host kpis now [] h = h
  evaluate_rules-IsKept a host kpis now (r ∷ rs) h =
      evaluate_rules-IsKept (evaluate_rule ids a host kpis now r) host kpis now rs
        (evaluate_rule-IsKept a host kpis now r h)

module _ {F : Type 0} ⦃fl : Float F⦄ where
  -- An alert that is not active, such as an acknowledged one, stays in the alerter as it is through an
  -- evaluation of any KPI values, where no identifier that is still to be drawn equals its own; and
  -- the identifiers that were drawn before stay drawn.
  pub evaluate_keeps_handled :
      (ids : ℕ → String) (id : String) (alert : Alert F) (a : Alerter F) (host : String)
      (kpis : Dict String F) (now : Time)
      → ((n : ℕ) → a.drawn ≤ n → ids n ≢ id)
      → alert.status ≢ Status.active
      → Holds a id alert
      → Holds (evaluate ids a host kpis now) id alert
        × (a.drawn ≤ (evaluate ids a host kpis now).drawn)
  unfolding evaluate evict
  evaluate_keeps_handled ids id alert a host kpis now unused handled h =
      elim (Bool-cases (is_suppressed a (host_key host) now || is_suppressed a host now)) [
        | inl quiet ↦ rw quiet (h, omega arith)
        | inr loud ↦
            let kept =
              evaluate_rules-IsKept ids id alert a.drawn unused handled (evict a now) host kpis now
                a.rules (omega arith, h) in
            rw loud (kept.1, kept.0)
      ]

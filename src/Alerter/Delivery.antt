-- ===== src/Alerter/Delivery.antt =====
-- alerter.go: the channel of new alerts and the count of dropped ones.
use ruptura.Base.{
  ℕ, ◌+◌, ◌≤◌, ◌≡◌, refl, String, ◌||◌, List, [], ◌∷◌, length, length-append, inl, inr, ltb, ltb→lt,
  Bool-cases, Option-cases, string_eq, Dict, lookup, delete, Time, Float, arith,
}
use ruptura.Alerter.{Status, Alert, Rule, Alerter, send}
use ruptura.Alerter.Windows.{host_key, is_suppressed}
use ruptura.Alerter.Evaluate.{
  RuptureEvent, evict, fire_key, just_fired, raise, resolve_alert, resolve, rule_alert, judge,
  evaluate_rule, evaluate_rules, evaluate, rupture_key, rupture_alert, fire_rupture,
}

module _ {F : Type 0} where
  -- The alerts sent and not yet received, or dropped.
  abbrev pub handed : Alerter F → ℕ
  handed a = length a.channel + a.dropped

  -- From `a` to `b`, every alert made was sent or counted as dropped, within the buffer.
  pub record IsDelivery (a b : Alerter F) : Type 0 where
    pub buffer : length b.channel ≤ b.capacity
    pub capacity_kept : b.capacity ≡ a.capacity
    pub count : handed b + a.drawn ≡ handed a + b.drawn

  abbrev pub IsBuffered : Alerter F → Type 0
  IsBuffered a = length a.channel ≤ a.capacity

  IsDelivery-refl : (a : Alerter F) → IsBuffered a → IsDelivery a a
  IsDelivery-refl a h = record { buffer = h; capacity_kept = refl; count = refl }

  IsDelivery-trans : {a b c : Alerter F} → IsDelivery a b → IsDelivery b c → IsDelivery a c
  IsDelivery-trans p q = record {
    buffer = q.buffer;
    capacity_kept = omega (arith, p.capacity_kept, q.capacity_kept);
    count = omega (arith, p.count, q.count);
  }

  raise-IsDelivery :
      (a : Alerter F) (key : String) (alert : Alert F) (now : Time)
      → IsBuffered a
      → IsDelivery a (raise a key alert now)
  unfolding raise send
  raise-IsDelivery a key alert now h = elim (Bool-cases (ltb (length a.channel) a.capacity)) [
    | inl room ↦ rw room (record {
      buffer =
          omega (
            arith,
            length-append a.channel (alert ∷ []),
            ltb→lt (length a.channel) a.capacity room,
          );
      capacity_kept = refl;
      count = omega (arith, length-append a.channel (alert ∷ []));
    })
    | inr full ↦ rw full (record { buffer = h; capacity_kept = refl; count = omega arith })
  ]

  resolve_alert-IsDelivery :
      (a : Alerter F) (id : String) → IsBuffered a → IsDelivery a (resolve_alert a id)
  unfolding resolve_alert
  resolve_alert-IsDelivery a id h = elim (Option-cases (lookup id a.active)) [
    | inl missing ↦ rw (resolve_alert, missing) (IsDelivery-refl a h)
    | inr (alert, found) ↦ rw (resolve_alert, found) (by_status alert.status)
  ]
    where
      by_status :
          (s : Status)
          → IsDelivery a
              (elim s [ Status.active ↦ record a { active = delete id a.active } | _ ↦ a ])
      by_status Status.active = record { buffer = h; capacity_kept = refl; count = refl }
      by_status Status.acknowledged = IsDelivery-refl a h
      by_status Status.silenced = IsDelivery-refl a h
      by_status Status.resolved = IsDelivery-refl a h

  resolve-IsDelivery : (a : Alerter F) (key : String) → IsBuffered a → IsDelivery a (resolve a key)
  unfolding resolve
  resolve-IsDelivery a key h = elim (Option-cases (lookup key a.rule_host_idx)) [
    | inl missing ↦ rw (resolve, missing) (IsDelivery-refl a h)
    | inr (id, found) ↦
        let d : IsDelivery a (resolve_alert a id) = resolve_alert-IsDelivery a id h in
        rw (resolve, found)
          (record { buffer = d.buffer; capacity_kept = d.capacity_kept; count = d.count })
  ]

module _ {F : Type 0} ⦃fl : Float F⦄ (ids : ℕ → String) where
  judge-IsDelivery :
      (a : Alerter F) (host : String) (value : F) (now : Time) (r : Rule F)
      → IsBuffered a
      → IsDelivery a (judge ids a host value now r)
  unfolding judge
  judge-IsDelivery a host value now r h = elim (Bool-cases (fl.le r.threshold value)) [
    | inl high ↦ rw high (elim (Bool-cases (just_fired a (fire_key r host) now)) [
      | inl recent ↦ rw recent (IsDelivery-refl a h)
      | inr old ↦
          rw old
            (raise-IsDelivery a (fire_key r host) (rule_alert (ids a.drawn) r host value now) now h)
    ])
    | inr low ↦ rw low (resolve-IsDelivery a (fire_key r host) h)
  ]

  evaluate_rule-IsDelivery :
      (a : Alerter F) (host : String) (kpis : Dict String F) (now : Time) (r : Rule F)
      → IsBuffered a
      → IsDelivery a (evaluate_rule ids a host kpis now r)
  unfolding evaluate_rule
  evaluate_rule-IsDelivery a host kpis now r h = elim (Option-cases (lookup r.metric kpis)) [
    | inl missing ↦ rw (evaluate_rule, missing) (IsDelivery-refl a h)
    | inr (value, found) ↦ rw (evaluate_rule, found) (judge-IsDelivery a host value now r h)
  ]

  evaluate_rules-IsDelivery :
      (a : Alerter F) (host : String) (kpis : Dict String F) (now : Time) (rs : List (Rule F))
      → IsBuffered a
      → IsDelivery a (evaluate_rules ids a host kpis now rs)
  unfolding evaluate_rules
  evaluate_rules-IsDelivery a host kpis now [] h = IsDelivery-refl a h
  evaluate_rules-IsDelivery a host kpis now (r ∷ rs) h =
      let d : IsDelivery a (evaluate_rule ids a host kpis now r) =
        evaluate_rule-IsDelivery a host kpis now r h in
      IsDelivery-trans d
        (evaluate_rules-IsDelivery (evaluate_rule ids a host kpis now r) host kpis now rs d.buffer)

  -- An evaluation of any KPI values, on an alerter whose channel is within its buffer, keeps the
  -- channel within the buffer and its size; and every alert it makes is sent or counted as dropped.
  pub evaluate-IsDelivery :
      (a : Alerter F) (host : String) (kpis : Dict String F) (now : Time)
      → IsBuffered a
      → IsDelivery a (evaluate ids a host kpis now)
  unfolding evaluate evict
  evaluate-IsDelivery a host kpis now h =
      elim (Bool-cases (is_suppressed a (host_key host) now || is_suppressed a host now)) [
        | inl quiet ↦ rw quiet (IsDelivery-refl a h)
        | inr loud ↦
            let d : IsDelivery (evict a now)
                (evaluate_rules ids (evict a now) host kpis now a.rules) =
              evaluate_rules-IsDelivery (evict a now) host kpis now a.rules h in
            rw loud (record { buffer = d.buffer; capacity_kept = d.capacity_kept; count = d.count })
      ]

  -- The same of a rupture event, whatever text describes it.
  pub fire_rupture-IsDelivery :
      (describe : String → F → String) (a : Alerter F) (ev : RuptureEvent F) (now : Time)
      → IsBuffered a
      → IsDelivery a (fire_rupture ids describe a ev now)
  unfolding fire_rupture
  fire_rupture-IsDelivery describe a ev now h = elim (Bool-cases (is_suppressed a ev.host now)) [
    | inl quiet ↦ rw quiet (IsDelivery-refl a h)
    | inr loud ↦ rw loud (elim (Bool-cases (just_fired a (rupture_key ev) now)) [
      | inl recent ↦ rw recent (IsDelivery-refl a h)
      | inr old ↦
          rw old (
            raise-IsDelivery a (rupture_key ev) (rupture_alert describe (ids a.drawn) ev now) now h)
    ])
  ]

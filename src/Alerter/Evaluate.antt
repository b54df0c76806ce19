-- ===== src/Alerter/Evaluate.antt =====
-- alerter.go: Evaluate and FireRupture. The text that FireRupture formats is `describe metric r`.
use ruptura.Base.{
  ℕ, ◌+◌, ◌-◌, ◌*◌, String, Bool, false, ◌||◌, List, [], ◌∷◌, some, none, ltb, leb, select,
  if◌then◌else◌, string_eq, Dict, lookup, insert, delete, Time, minute, Float,
}
use Prim.Native.String.{◌++◌ as ◌&◌}
use ruptura.Alerter.{Status, Alert, Rule, Alerter, send}
use ruptura.Alerter.Windows.{host_key, is_suppressed}

-- models.RuptureEvent, the fields that FireRupture reads.
pub record RuptureEvent (F : Type 0) : Type 0 where
  pub host : String
  pub metric : String
  pub rupture_index : F

module _ {F : Type 0} where
  -- Entries of `fired` older than five minutes are evicted.
  unfoldable pub evict : Alerter F → Time → Alerter F
  evict a now = record a { fired = select (λ kt. leb (now - kt.1) (5 * minute)) a.fired }

  unfoldable pub fire_key : Rule F → String → String
  fire_key r host = r.name & (":" & host)

  -- Whether this key has fired within the last minute.
  unfoldable pub just_fired : Alerter F → String → Time → Bool
  just_fired a key now = elim (lookup key a.fired) [
    | none ↦ false
    | some at ↦ ltb (now - at) minute
  ]

  unfoldable pub raise : Alerter F → String → Alert F → Time → Alerter F
  unfolding send
  raise a key alert now =
      send
        (record a {
          active = insert alert.id alert a.active;
          rule_host_idx = insert key alert.id a.rule_host_idx;
          fired = insert key now a.fired;
          drawn = a.drawn + 1;
        })
        alert

  -- A resolved alert leaves the active map.
  unfoldable pub resolve_alert : Alerter F → String → Alerter F
  resolve_alert a id = elim (lookup id a.active) [
    | none ↦ a
    | some alert ↦ elim alert.status [
      | Status.active ↦ record a { active = delete id a.active }
      | _ ↦ a
    ]
  ]

  unfoldable pub resolve : Alerter F → String → Alerter F
  unfolding resolve_alert
  resolve a key = elim (lookup key a.rule_host_idx) [
    | none ↦ a
    | some id ↦
        let b : Alerter F = resolve_alert a id in
        record b { rule_host_idx = delete key b.rule_host_idx; fired = delete key b.fired }
  ]

module _ {F : Type 0} ⦃fl : Float F⦄ where
  unfoldable pub rule_alert : String → Rule F → String → F → Time → Alert F
  rule_alert id r host value now = record {
    id = id;
    name = r.name;
    description = r.message;
    severity = r.severity;
    status = Status.active;
    host = host;
    metric = r.metric;
    value = value;
    threshold = r.threshold;
    prediction = "";
    created_at = now;
    updated_at = now;
    resolved_at = none;
    suppressed = false;
    suppressed_by = "";
    group_id = "";
  }

  -- The body of Evaluate's loop for a metric that was read.
  unfoldable pub judge : (ℕ → String) → Alerter F → String → F → Time → Rule F → Alerter F
  unfolding fire_key just_fired raise resolve rule_alert
  judge ids a host value now r =
      if fl.le r.threshold value
      then (if just_fired a (fire_key r host) now
          then a
          else raise a (fire_key r host) (rule_alert (ids a.drawn) r host value now) now)
      else resolve a (fire_key r host)

  unfoldable pub evaluate_rule :
      (ℕ → String) → Alerter F → String → Dict String F → Time → Rule F → Alerter F
  unfolding judge
  evaluate_rule ids a host kpis now r = elim (lookup r.metric kpis) [
    | none ↦ a
    | some value ↦ judge ids a host value now r
  ]

  unfoldable pub evaluate_rules :
      (ℕ → String) → Alerter F → String → Dict String F → Time → List (Rule F) → Alerter F
  unfolding evaluate_rule
  evaluate_rules ids a host kpis now [] = a
  evaluate_rules ids a host kpis now (r ∷ rs) =
      evaluate_rules ids (evaluate_rule ids a host kpis now r) host kpis now rs

  unfoldable pub evaluate : (ℕ → String) → Alerter F → String → Dict String F → Time → Alerter F
  unfolding evict evaluate_rules is_suppressed
  evaluate ids a host kpis now =
      if is_suppressed a (host_key host) now || is_suppressed a host now
      then a
      else evaluate_rules ids (evict a now) host kpis now a.rules

  unfoldable pub rupture_key : RuptureEvent F → String
  rupture_key ev = "exponential_failure:" & (ev.host & (":" & ev.metric))

  unfoldable pub rupture_alert : (String → F → String) → String → RuptureEvent F → Time → Alert F
  rupture_alert describe id ev now = record {
    id = id;
    name = "exponential_failure";
    description = describe ev.metric ev.rupture_index;
    severity = "critical";
    status = Status.active;
    host = ev.host;
    metric = ev.metric;
    value = ev.rupture_index;
    threshold = fl.milli 3000;
    prediction = "exponential_failure";
    created_at = now;
    updated_at = now;
    resolved_at = none;
    suppressed = false;
    suppressed_by = "";
    group_id = "";
  }

  unfoldable pub fire_rupture :
      (ℕ → String) → (String → F → String) → Alerter F → RuptureEvent F → Time → Alerter F
  unfolding is_suppressed just_fired raise rupture_key rupture_alert
  fire_rupture ids describe a ev now =
      if is_suppressed a ev.host now
      then a
      else if just_fired a (rupture_key ev) now
      then a
      else raise a (rupture_key ev) (rupture_alert describe (ids a.drawn) ev now) now

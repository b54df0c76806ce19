-- ===== src/Alerter/Examples.antt =====
-- The theorems on alerts at concrete inputs, with fixed-point numbers for float64.
use ruptura.Base.{
  ℕ, zero, suc, ◌*◌, ◌+◌, ◌≡◌, ◌≢◌, ◌≤◌, refl, subst, ap, inl, inr, String, true, false, [], ◌∷◌,
  ◌==◌, ==_refl, none, arith, Float, fixed, Dict, lookup, insert, string_eq, minute, second,
}
use Prim.Native.String.{◌++◌ as ◌&◌, count}
use text.Mathlib.TextLemmas.{length-append}
use ruptura.Alerter.{Status, Alert, Rule, Alerter, MaintenanceWindow, new_alerter, send}
use ruptura.Alerter.Registry.{acknowledge, set_status}
use ruptura.Alerter.Evaluate.{
  evaluate_rules, evaluate_rule, raise, evict, RuptureEvent, evaluate, judge, rule_alert,
  just_fired,
}
use ruptura.Alerter.Delivery.{IsDelivery, evaluate-IsDelivery}
use ruptura.Alerter.Index.{IsIndexed}
use ruptura.Alerter.Suppression.{evaluate_in_window}
use ruptura.Alerter.Refire.{judge_once_a_minute}
use ruptura.Alerter.Handled.{Holds, evaluate_keeps_handled}
use ruptura.Alerter.Grouping.{GroupingEngine, new_grouping_engine}

instance abbrev fixed_numbers : Float ℕ
fixed_numbers = fixed

-- The identifiers "a", "aa", "aaa" and so on.
abbrev ids : ℕ → String
ids zero = "a"
ids (suc n) = "a" & ids n

abbrev panic_rule : Rule ℕ
panic_rule = record {
  name = "stress_panic";
  metric = "stress";
  threshold = 800000000;
  severity = "critical";
  message = "System in panic state";
}

abbrev alerter : Alerter ℕ
alerter = new_alerter (panic_rule ∷ []) 1

abbrev stressed : Dict String ℕ
stressed = ("stress", 900000000) ∷ []

evaluate-IsDelivery_example : IsDelivery alerter (evaluate ids alerter "web" stressed minute)
evaluate-IsDelivery_example = evaluate-IsDelivery ids alerter "web" stressed minute (omega arith)

abbrev rupture : RuptureEvent ℕ
rupture = record { host = "web"; metric = "cpu"; rupture_index = 4000000000 }

abbrev describe_metric : String → ℕ → String
describe_metric metric r = metric

alerter-IsIndexed : IsIndexed alerter
unfolding lookup
alerter-IsIndexed key e = refl

-- The alerter on which the panic rule has fired for "web".
abbrev fired_alert : Alert ℕ
fired_alert = rule_alert "first" panic_rule "web" 900000000 minute

abbrev fired_alerter : Alerter ℕ
fired_alerter = record alerter {
  active = ("first", fired_alert) ∷ [];
  rule_host_idx = ("stress_panic:web", "first") ∷ [];
  fired = ("stress_panic:web", minute) ∷ [];
  channel = fired_alert ∷ [];
  drawn = 1;
}

fired_alerter-IsIndexed : IsIndexed fired_alerter
unfolding lookup
fired_alerter-IsIndexed key e = ground arith

judge_once_a_minute_example :
    judge ids
      (judge ids alerter "web" 900000000 minute panic_rule)
      "web"
      850000000
      (minute + 30 * second)
      panic_rule
    ≡ judge ids alerter "web" 900000000 minute panic_rule
unfolding just_fired lookup
judge_once_a_minute_example =
    judge_once_a_minute ids alerter "web" 900000000 850000000 minute (minute + 30 * second)
      panic_rule refl refl refl (omega arith)

by_test : (s t : String) → (s == t) ≡ false → s ≢ t
by_test s t h e = absurd (let same : (s == t) ≡ true = rw e (==_refl t) in cc)

abbrev window : MaintenanceWindow
window = record {
  id = "w1";
  workload_key = "web";
  from = minute;
  until = 10 * minute;
  reason = "upgrade";
}

abbrev maintained : Alerter ℕ
maintained = record alerter { windows = window ∷ [] }

evaluate_in_window_example : evaluate ids maintained "web" stressed (2 * minute) ≡ maintained
evaluate_in_window_example =
    evaluate_in_window ids maintained "web" stressed (2 * minute) window (inl refl)
      (omega arith, omega arith) (inr (inr refl))

-- The alert of a first evaluation, acknowledged.
abbrev raised_alerter : Alerter ℕ
raised_alerter = evaluate ids alerter "web" stressed minute

abbrev seen_alert : Alert ℕ
seen_alert = record (rule_alert "a" panic_rule "web" 900000000 minute) {
  status = Status.acknowledged;
  updated_at = 2 * minute;
}

abbrev handled_alerter : Alerter ℕ
handled_alerter = (acknowledge raised_alerter "a" (2 * minute)).0

acknowledged≢active : Status.acknowledged ≢ Status.active
acknowledged≢active e = cc

unused_first : (n : ℕ) → 1 ≤ n → ids n ≢ "a"
unused_first zero h e = absurd (omega arith)
unused_first (suc zero) h e = by_test "aa" "a" refl e
unused_first (suc (suc n)) h e =
    let one : count ("a" & ("a" & ids n)) ≡ 1 = ap count e in
    absurd (omega (arith, one, length-append "a" ("a" & ids n), length-append "a" (ids n)))

handled_first : (handled_alerter.drawn ≡ 1) × Holds handled_alerter "a" seen_alert
unfolding evaluate evaluate_rules evaluate_rule judge raise send lookup just_fired rule_alert evict
    acknowledge set_status insert
handled_first = (refl, refl)

evaluate_keeps_handled_example :
    Holds
      (evaluate ids handled_alerter "web" (("stress", 100000000) ∷ []) (3 * minute))
      "a"
      seen_alert
    × (handled_alerter.drawn
        ≤ (evaluate ids handled_alerter "web" (("stress", 100000000) ∷ []) (3 * minute)).drawn)
evaluate_keeps_handled_example =
    evaluate_keeps_handled ids "a" seen_alert handled_alerter "web" (("stress", 100000000) ∷ [])
      (3 * minute) (λ n h. unused_first n (subst (λ k. k ≤ n) handled_first.0 h))
      acknowledged≢active handled_first.1

abbrev grouping : GroupingEngine
grouping = record (new_grouping_engine none) {
  groups =
      (
        "g1",
        record {
          id = "g1";
          representative = "zeroth";
          alert_ids = "zeroth" ∷ [];
          suppressed_ids = "first" ∷ [];
          created_at = minute;
        },
      )
      ∷ [];
}

abbrev hidden_alerter : Alerter ℕ
hidden_alerter = record fired_alerter {
  active = ("first", record fired_alert { suppressed = true; suppressed_by = "zeroth" }) ∷ [];
}

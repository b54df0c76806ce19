-- ===== src/Alerter/Rules.antt =====
-- alerter.go: the default rules, and the rule list that users edit.
pub mod Edits
use ruptura.Base.{
  ℕ, String, Bool, true, false, List, [], ◌∷◌, ◌++◌, if◌then◌else◌, ◌==◌, string_eq, Float,
}
use ruptura.Alerter.{Rule, Alerter}

-- One entry of defaultRules: its threshold is in thousandths.
module _ {F : Type 0} ⦃fl : Float F⦄ where
  abbrev rule : String → String → ℕ → String → String → Rule F
  rule name metric threshold severity message = record {
    name = name;
    metric = metric;
    threshold = fl.milli threshold;
    severity = severity;
    message = message;
  }

  unfoldable pub default_rules : List (Rule F)
  default_rules =
      rule "stress_nervous" "stress" 300 "info" "System is nervous"
      ∷ rule "stress_stressed" "stress" 600 "warning" "System is stressed"
      ∷ rule "stress_panic" "stress" 800 "critical" "System in panic state"
      ∷ rule "fatigue_tired" "fatigue" 300 "info" "System is tired"
      ∷ rule "fatigue_exhausted" "fatigue" 600 "warning" "System is exhausted"
      ∷ rule "fatigue_burnout" "fatigue" 800 "critical" "Burnout imminent — schedule restart"
      ∷ rule "pressure_rising" "pressure" 600 "warning"
          "Atmospheric pressure rising — storm approaching"
      ∷ rule "pressure_storm" "pressure" 700 "critical" "Storm in ~2 hours — scale up recommended"
      ∷ rule "humidity_humid" "humidity" 100 "info" "Error humidity elevated"
      ∷ rule "humidity_storm" "humidity" 500 "critical" "Error storm — activate circuit breaker"
      ∷ rule "contagion_moderate" "contagion" 300 "warning"
          "Error contagion detected — monitor closely"
      ∷ rule "contagion_epidemic" "contagion" 600 "critical"
          "Epidemic detected — isolate affected services"
      ∷ rule "contagion_pandemic" "contagion" 800 "emergency" "Pandemic — global response required"
      ∷ rule "cpu_high" "cpu_percent" 850 "warning" "CPU usage critical"
      ∷ rule "memory_high" "memory_percent" 900 "warning" "Memory usage critical"
      ∷ rule "resilience_fragile" "resilience" 300 "warning"
          "System fragile — capacity to absorb disruption low"
      ∷ rule "resilience_critical" "resilience" 100 "critical"
          "System critically fragile — any additional load may cascade"
      ∷ rule "entropy_chaotic" "entropy" 500 "warning"
          "High entropy — system in chaotic state, metrics unstable"
      ∷ rule "entropy_turbulent" "entropy" 800 "critical"
          "Turbulent entropy — extreme instability detected"
      ∷ rule "velocity_volatile" "velocity" 600 "warning"
          "High velocity change — system state shifting rapidly"
      ∷ rule "health_score_poor" "health_score" 300 "warning"
          "Health score degraded — system performance below baseline"
      ∷ rule "health_score_critical" "health_score" 150 "critical"
          "Health score critical — immediate attention required"
      ∷ []

module _ {F : Type 0} where
  -- The first rule of that name is replaced.
  unfoldable pub replace_first : String → Rule F → List (Rule F) → List (Rule F) × Bool
  replace_first name updated [] = ([], false)
  replace_first name updated (r ∷ rs) =
      let (rest, found) = replace_first name updated rs in
      if r.name == name then (updated ∷ rs, true) else (r ∷ rest, found)

  -- The first rule of that name is removed.
  unfoldable pub remove_first : String → List (Rule F) → List (Rule F) × Bool
  remove_first name [] = ([], false)
  remove_first name (r ∷ rs) =
      let (rest, found) = remove_first name rs in
      if r.name == name then (rs, true) else (r ∷ rest, found)

  unfoldable pub add_rule : Alerter F → Rule F → Alerter F
  add_rule a r = record a { rules = a.rules ++ r ∷ [] }

  unfoldable pub update_rule : Alerter F → String → Rule F → Alerter F × Bool
  unfolding replace_first
  update_rule a name updated =
      let (rules, found) = replace_first name updated a.rules in (record a { rules = rules }, found)

  unfoldable pub delete_rule : Alerter F → String → Alerter F × Bool
  unfolding remove_first
  delete_rule a name =
      let (rules, found) = remove_first name a.rules in (record a { rules = rules }, found)

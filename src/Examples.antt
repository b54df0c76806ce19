-- ===== src/Examples.antt =====
-- The theorems on events, histories and actions at concrete inputs, with fixed-point numbers for
-- float64.
use ruptura.Base.{
  ℕ, zero, suc, ◌*◌, ◌≤◌, ◌≡◌, String, false, [], ◌∷◌, All, length, ◌==◌, arith, pos, Float, fixed,
  string_eq, minute,
}
use Prim.Native.String.{◌++◌ as ◌&◌}
use ruptura.Actions.{Recommendation, Tier}
use ruptura.Actions.Arbitration.{Arbitrator}
use ruptura.Events.{Event}
use ruptura.History.{Snapshot}
use ruptura.Actions.{RuptureEvent as Rupture}
use ruptura.Actions.Engine.{Engine, default_rules, pending_actions, reject, max_queue_size}
use ruptura.Actions.Engine.Queue
use ruptura.Actions.Engine.Queue.{recommends, approves, pending_actions-reject}
use ruptura.Actions.Safety.Limits.{grants, grants_within_the_hour}

instance abbrev fixed_values : Float ℕ
fixed_values = fixed

-- The identifiers "a", "aa", "aaa" and so on.
abbrev ids : ℕ → String
ids zero = "a"
ids (suc n) = "a" & ids n

abbrev event : Event ℕ
event = record {
  id = "";
  ts = 0;
  workload = "web";
  kind = "warning";
  severity = "warning";
  message = "";
  fused_r = 2000000000;
}

abbrev snapshot : Snapshot ℕ
snapshot = record {
  health_score = 900000000;
  fused_rupture_index = 0;
  stress = 0;
  fatigue = 0;
  contagion = 0;
  pressure = 0;
  mood = 0;
  calibration_progress = 100;
  unavailable_signals = [];
}

abbrev engine : Engine ℕ
engine = record {
  rules = default_rules;
  emergency_stopped = false;
  has_bus = false;
  published = [];
  queue = [];
  rejected = [];
}

abbrev spike : Rupture ℕ
spike = record {
  id = "ev";
  host = "web";
  namespace = "";
  kind = "";
  metric = "cpu";
  r = 6000000000;
  confidence = 900000000;
  profile = "spike";
  timestamp = minute;
}

pending_actions-reject_example :
    let e =
      Queue.run (reject engine "ev-alert") (recommends spike minute ∷ approves "ev-page" ∷ []) in
    All (λ rec. (rec.id == "ev-alert") ≡ false) (pending_actions e)
    × (length e.queue ≤ max_queue_size)
pending_actions-reject_example =
    pending_actions-reject "ev-alert" engine (recommends spike minute ∷ approves "ev-page" ∷ [])
      (omega arith)

grants_within_the_hour_example :
    grants 2 (record { window_start = minute; count = 0 }) (minute ∷ 2 * minute ∷ 3 * minute ∷ [])
    ≡ 2
grants_within_the_hour_example =
    grants_within_the_hour 2 (record { window_start = minute; count = 0 })
      (minute ∷ 2 * minute ∷ 3 * minute ∷ []) (omega arith, (omega arith, (omega arith, tt)))
      (omega arith)

abbrev restart_web : Recommendation ℕ
restart_web = record {
  id = "r1";
  event_id = "ev";
  host = "web";
  namespace = "";
  kind = "";
  node_name = "";
  action_type = "restart";
  tier = Tier.tier1;
  confidence = 900000000;
  r = 6000000000;
  scale_delta = pos 1;
  approved = false;
  timestamp = minute;
}

abbrev arbitrator : Arbitrator ℕ
arbitrator = record { cooldown_window = 10 * minute; last_submitted = []; queue = [] }

abbrev queued : Arbitrator ℕ
queued = record arbitrator { queue = restart_web ∷ [] }

-- ===== src/Actions/Engine.antt =====
-- actions/engine/engine.go: rules, the bounded queue of recommendations, approval and rejection. The
-- YAML decoder is `parse`; `published` lists the topics and events handed to the event bus.
pub mod Queue
use ruptura.Base.{
  ℕ, ◌+◌, String, Bool, true, false, not, ◌&&◌, ◌||◌, List, [], ◌∷◌, ◌++◌, map, select, exists,
  cut_to_last, Option, none, some, if◌then◌else◌, ◌==◌, string_eq, pos, Time, Float,
}
use Prim.Native.String.{◌++◌ as ◌&◌}
use ruptura.Actions.{Tier, RuptureEvent, Recommendation}

pub record Rule (F : Type 0) : Type 0 where
  pub name : String
  pub profile : String
  pub min_r : F
  pub action_type : String

abbrev pub max_queue_size : ℕ
max_queue_size = 256

pub record Engine (F : Type 0) : Type 0 where
  pub rules : List (Rule F)
  pub emergency_stopped : Bool
  pub has_bus : Bool
  pub published : List (String × RuptureEvent F)
  pub queue : List (Recommendation F)
  pub rejected : List String

-- models.AnomalyEvent, the fields that RecommendFromAnomaly reads.
pub record AnomalyEvent (F : Type 0) : Type 0 where
  pub host : String
  pub metric : String
  pub severity : String
  pub score : F
  pub timestamp : Time

module _ {F : Type 0} ⦃fl : Float F⦄ where
  unfoldable pub default_rules : List (Rule F)
  default_rules =
      record {
        name = "default-spike";
        profile = "spike";
        min_r = fl.milli 3000;
        action_type = "alert";
      }
      ∷ record {
        name = "default-fatigue";
        profile = "fatigue";
        min_r = fl.milli 1500;
        action_type = "notify";
      }
      ∷ record { name = "default-any"; profile = ""; min_r = fl.milli 5000; action_type = "page" }
      ∷ []

  -- None stands for the error "failed to unmarshal rules".
  unfoldable pub new_engine : (String → Option (List (Rule F))) → String → Bool → Option (Engine F)
  unfolding default_rules
  new_engine parse rules_yaml has_bus =
      let with_rules : List (Rule F) → Engine F = λ rules. record {
        rules = rules;
        emergency_stopped = false;
        has_bus = has_bus;
        published = [];
        queue = [];
        rejected = [];
      } in
      if rules_yaml == ""
      then some (with_rules default_rules)
      else elim (parse rules_yaml) [ none ↦ none | some rules ↦ some (with_rules rules) ]

  unfoldable pub tier_of : F → Tier
  tier_of confidence =
      if fl.lt (fl.milli 850) confidence
      then Tier.tier1
      else if fl.lt (fl.milli 600) confidence
      then Tier.tier2
      else Tier.tier3

  unfoldable pub applies : RuptureEvent F → Rule F → Bool
  applies event rule =
      (rule.profile == "" || rule.profile == event.profile) && fl.le rule.min_r event.r

  unfoldable pub recommendation : RuptureEvent F → Time → Rule F → Recommendation F
  unfolding tier_of
  recommendation event now rule = record {
    id = event.id & ("-" & rule.action_type);
    event_id = event.id;
    host = event.host;
    namespace = event.namespace;
    kind = event.kind;
    node_name = "";
    action_type = rule.action_type;
    tier = tier_of event.confidence;
    confidence = event.confidence;
    r = event.r;
    scale_delta = pos 1;
    approved = false;
    timestamp = now;
  }

  unfoldable pub recommendations : List (Rule F) → RuptureEvent F → Time → List (Recommendation F)
  unfolding applies recommendation
  recommendations rules event now = map (recommendation event now) (select (applies event) rules)

module _ {F : Type 0} where
  -- The oldest recommendations are evicted when the queue is full.
  unfoldable pub enqueue : Engine F → List (Recommendation F) → Engine F
  enqueue e recs = record e { queue = cut_to_last max_queue_size (e.queue ++ recs) }

  unfoldable pub publish : Engine F → RuptureEvent F → Engine F
  publish e event =
      if e.has_bus
      then record e { published = e.published ++ ("ruptura.rupture." & event.host, event) ∷ [] }
      else e

  unfoldable pub is_rejected : Engine F → String → Bool
  is_rejected e id = exists (λ r. r == id) e.rejected

  unfoldable pub pending_actions : Engine F → List (Recommendation F)
  unfolding is_rejected
  pending_actions e = select (λ rec. not (is_rejected e rec.id)) e.queue

  -- The first recommendation of that identifier is marked.
  unfoldable pub approve_first : String → List (Recommendation F) → List (Recommendation F) × Bool
  approve_first id [] = ([], false)
  approve_first id (rec ∷ recs) =
      let (rest, found) = approve_first id recs in
      if rec.id == id then (record rec { approved = true } ∷ recs, true) else (rec ∷ rest, found)

  unfoldable pub approve : Engine F → String → Engine F × Bool
  unfolding approve_first
  approve e id =
      let (queue, found) = approve_first id e.queue in (record e { queue = queue }, found)

  unfoldable pub reject : Engine F → String → Engine F
  reject e id = record e { rejected = id ∷ e.rejected }

  unfoldable pub emergency_stop : Engine F → Engine F
  emergency_stop e = record e { emergency_stopped = true }

module _ {F : Type 0} ⦃fl : Float F⦄ where
  unfoldable pub recommend : Engine F → RuptureEvent F → Time → Engine F × List (Recommendation F)
  unfolding recommendations enqueue publish
  recommend e event now =
      let recs : List (Recommendation F) = recommendations e.rules event now in
      (enqueue (publish e event) recs, recs)

  -- `id` is the identifier drawn for the rupture event.
  unfoldable pub recommend_from_anomaly :
      Engine F → AnomalyEvent F → String → Time → Engine F × List (Recommendation F)
  unfolding recommend
  recommend_from_anomaly e ev id now =
      if not (ev.severity == "critical")
      then (e, [])
      else recommend e
          (record {
            id = id;
            host = ev.host;
            namespace = "";
            kind = "";
            metric = ev.metric;
            r = ev.score;
            confidence = fl.milli 750;
            profile = if fl.le ev.score (fl.milli 5000) then "plateau" else "spike";
            timestamp = ev.timestamp;
          })
          now

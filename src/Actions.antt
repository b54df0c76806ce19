-- ===== src/Actions.antt =====
-- workdir/internal/actions: the recommendations, and the parts that queue, limit and order them.
pub mod Engine
pub mod Safety
pub mod Arbitration
use ruptura.Base.{ℕ, String, Bool, ℤ, Time}

-- engine/engine.go: ActionTier
pub data Tier : Type 0 where
  tier1 tier2 tier3 : Tier

unfoldable pub tier_number : Tier → ℕ
tier_number tier1 = 1
tier_number tier2 = 2
tier_number tier3 = 3

-- engine/engine.go: RuptureEvent
pub record RuptureEvent (F : Type 0) : Type 0 where
  pub id : String
  pub host : String
  pub namespace : String
  pub kind : String
  pub metric : String
  pub r : F
  pub confidence : F
  pub profile : String
  pub timestamp : Time

-- engine/engine.go: ActionRecommendation
pub record Recommendation (F : Type 0) : Type 0 where
  pub id : String
  pub event_id : String
  pub host : String
  pub namespace : String
  pub kind : String
  pub node_name : String
  pub action_type : String
  pub tier : Tier
  pub confidence : F
  pub r : F
  pub scale_delta : ℤ
  pub approved : Bool
  pub timestamp : Time

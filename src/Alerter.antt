-- ===== src/Alerter.antt =====
-- workdir/internal/alerter/alerter.go: the state of the alerter, with alerts, rules and maintenance
-- windows. Random identifiers come from a stream of which `drawn` entries are used.
pub mod Rules
pub mod Windows
pub mod Evaluate
pub mod Registry
pub mod Grouping
pub mod Delivery
pub mod Index
pub mod Suppression
pub mod Refire
pub mod Handled
pub mod Examples
use ruptura.Base.{
  ℕ, ◌+◌, String, Bool, true, false, List, [], ◌∷◌, ◌++◌, length, Option, some, none, ltb,
  if◌then◌else◌, Dict, Time,
}

pub data Status : Type 0 where
  active acknowledged silenced resolved : Status

pub record Alert (F : Type 0) : Type 0 where
  pub id : String
  pub name : String
  pub description : String
  pub severity : String
  pub status : Status
  pub host : String
  pub metric : String
  pub value : F
  pub threshold : F
  pub prediction : String
  pub created_at : Time
  pub updated_at : Time
  pub resolved_at : Option Time
  pub suppressed : Bool
  pub suppressed_by : String
  pub group_id : String

pub record Rule (F : Type 0) : Type 0 where
  pub name : String
  pub metric : String
  pub threshold : F
  pub severity : String
  pub message : String

pub record MaintenanceWindow : Type 0 where
  pub id : String
  pub workload_key : String
  pub from : Time
  pub until : Time
  pub reason : String

-- `channel` holds the alerts sent and not yet received; `capacity` is its buffer size.
pub record Alerter (F : Type 0) : Type 0 where
  pub rules : List (Rule F)
  pub active : Dict String (Alert F)
  pub rule_host_idx : Dict String String
  pub fired : Dict String Time
  pub channel : List (Alert F)
  pub capacity : ℕ
  pub dropped : ℕ
  pub windows : List MaintenanceWindow
  pub drawn : ℕ

module _ {F : Type 0} where
  abbrev pub new_alerter : List (Rule F) → ℕ → Alerter F
  new_alerter rules buffer_size = record {
    rules = rules;
    active = [];
    rule_host_idx = [];
    fired = [];
    channel = [];
    capacity = buffer_size;
    dropped = 0;
    windows = [];
    drawn = 0;
  }

  -- The select with a default: a full channel drops the alert and counts it.
  unfoldable pub send : Alerter F → Alert F → Alerter F
  send a alert =
      if ltb (length a.channel) a.capacity
      then record a { channel = a.channel ++ alert ∷ [] }
      else record a { dropped = a.dropped + 1 }

  -- A receive on Alerts().
  unfoldable pub receive : Alerter F → List (Alert F) → Alerter F × Option (Alert F)
  receive a [] = (a, none)
  receive a (alert ∷ rest) = (record a { channel = rest }, some alert)

-- ===== src/Actions/Safety.antt =====
-- actions/safety/safety.go: the rate limiter, cooldowns, the emergency stop and rollback.
pub mod Limits
use ruptura.Base.{
  ℕ, ◌+◌, ◌-◌, String, Bool, true, false, Option, none, some, ltb, if◌then◌else◌, ◌==◌, string_eq,
  nat_eq, Dict, [], lookup, insert, delete, Time, Duration, hour, before, Float,
}
use Prim.Native.String.{◌++◌ as ◌&◌}
use ruptura.Actions.{Tier}

pub record HostState : Type 0 where
  pub window_start : Time
  pub count : ℕ

pub record RateLimiter : Type 0 where
  pub max_per_hour : ℕ
  pub state : Dict String HostState

unfoldable pub new_rate_limiter : ℕ → RateLimiter
new_rate_limiter max_per_hour = record {
  max_per_hour = if max_per_hour == 0 then 6 else max_per_hour;
  state = [];
}

-- The state of a host, or the fresh one that LoadOrStore stores.
unfoldable pub load_or_store : RateLimiter → String → Time → HostState
load_or_store l host now = elim (lookup host l.state) [
  | none ↦ record { window_start = now; count = 0 }
  | some s ↦ s
]

-- Allow, under the lock of one host.
unfoldable pub spend : ℕ → HostState → Time → HostState × Bool
spend max_per_hour s now =
    let s' : HostState =
      if ltb hour (now - s.window_start) then record { window_start = now; count = 0 } else s in
    if ltb s'.count max_per_hour then (record s' { count = s'.count + 1 }, true) else (s', false)

unfoldable pub allow_tier1 : RateLimiter → String → Time → RateLimiter × Bool
unfolding load_or_store spend
allow_tier1 l host now =
    let (s, allowed) = spend l.max_per_hour (load_or_store l host now) now in
    (record l { state = insert host s l.state }, allowed)

unfoldable pub allow : RateLimiter → String → Tier → Time → RateLimiter × Bool
unfolding allow_tier1
allow l host Tier.tier1 now = allow_tier1 l host now
allow l host Tier.tier2 now = (l, true)
allow l host Tier.tier3 now = (l, true)

unfoldable pub reset : RateLimiter → String → RateLimiter
reset l host = record l { state = delete host l.state }

pub record CooldownTracker : Type 0 where
  pub cooldowns : Dict String Time

abbrev pub action_key : String → String → String
action_key host action = host & (":" & action)

unfoldable pub in_cooldown : CooldownTracker → String → String → Time → Bool
in_cooldown c host action_type now = elim (lookup (action_key host action_type) c.cooldowns) [
  | none ↦ false
  | some at ↦ before now at
]

unfoldable pub record_cooldown :
    CooldownTracker → String → String → Duration → Time → CooldownTracker
record_cooldown c host action_type cooldown now = record {
  cooldowns = insert (action_key host action_type) (now + cooldown) c.cooldowns;
}

pub record EmergencyStop : Type 0 where
  pub stopped : Bool

unfoldable pub stop : EmergencyStop → EmergencyStop
stop e = record { stopped = true }

unfoldable pub reset_stop : EmergencyStop → EmergencyStop
reset_stop e = record { stopped = false }

pub record RollbackTrigger (F : Type 0) : Type 0 where
  pub last_r : Dict String F

module _ {F : Type 0} ⦃fl : Float F⦄ where
  unfoldable pub record_r : RollbackTrigger F → String → String → F → RollbackTrigger F
  record_r t host action_id r = record { last_r = insert (action_key host action_id) r t.last_r }

  unfoldable pub should_rollback : RollbackTrigger F → String → String → F → Bool
  should_rollback t host action_id r_new = elim (lookup (action_key host action_id) t.last_r) [
    | none ↦ false
    | some r ↦ fl.lt r r_new
  ]

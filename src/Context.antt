-- ===== src/Context.antt =====
-- workdir/internal/context: the contexts that operators set by hand (manual.go), and the times around a
-- deployment in which detection is suppressed (deployment.go).
pub mod Expiry
pub mod Examples
use ruptura.Base.{
  ◌+◌, ◌*◌, String, Bool, true, false, not, ◌&&◌, ◌||◌, List, [], ◌∷◌, ◌++◌, map, select, exists,
  Option, some, none, ltb, string_eq, Dict, lookup, insert, delete, Time, Duration, second, is_zero,
  after, before,
}

-- manual.go: ContextType
pub data ContextType : Type 0 where
  load_test maintenance_window incident_active abnormal_traffic : ContextType

pub record ContextEntry : Type 0 where
  pub id : String
  pub kind : ContextType
  pub service : String
  pub note : String
  pub created_at : Time
  pub expires_at : Time

abbrev pub Entries : Type 0
Entries = Dict String ContextEntry

-- False stands for the error "id exists".
unfoldable pub add : Entries → ContextEntry → Entries × Bool
add s e = elim (lookup e.id s) [ none ↦ (insert e.id e s, true) | some _ ↦ (s, false) ]

unfoldable pub get_entry : Entries → String → Option ContextEntry
get_entry s id = lookup id s

-- False stands for the error "not found".
unfoldable pub delete_entry : Entries → String → Entries × Bool
delete_entry s id = elim (lookup id s) [ none ↦ (s, false) | some _ ↦ (delete id s, true) ]

abbrev pub is_live : Time → ContextEntry → Bool
is_live now e = is_zero e.expires_at || after e.expires_at now

abbrev pub is_expired : Time → ContextEntry → Bool
is_expired now e = not (is_zero e.expires_at) && before e.expires_at now

unfoldable pub list_entries : Entries → Time → List ContextEntry
list_entries s now = select (is_live now) (map (λ ke. ke.1) s)

unfoldable pub prune_entries : Entries → Time → Entries
prune_entries s now = select (λ ke. not (is_expired now ke.1)) s

-- deployment.go
pub record DeploymentEvent : Type 0 where
  pub id : String
  pub service : String
  pub started_at : Time

pub record DeploymentDetector : Type 0 where
  pub events : List DeploymentEvent
  pub pre_sup : Duration
  pub post_sup : Duration

abbrev pub new_deployment_detector : DeploymentDetector
new_deployment_detector = record { events = []; pre_sup = 60 * second; post_sup = 300 * second }

unfoldable pub register : DeploymentDetector → DeploymentEvent → DeploymentDetector
register d e = record d { events = d.events ++ e ∷ [] }

-- t.After(start.Add(-pre)) && t.Before(start.Add(post))
unfoldable pub spans : DeploymentDetector → Time → DeploymentEvent → Bool
spans d t e = ltb e.started_at (t + d.pre_sup) && before t (e.started_at + d.post_sup)

unfoldable pub is_suppressed_at : DeploymentDetector → Time → Bool
unfolding spans
is_suppressed_at d t = exists (spans d t) d.events

unfoldable pub active_events : DeploymentDetector → Time → List DeploymentEvent
unfolding spans
active_events d now = select (spans d now) d.events

-- ===== src/Fusion/Examples.antt =====
-- The theorems on fusion.go at concrete readings, in fixed point numbers.
use ruptura.Base.{
  ℕ, ◌+◌, ◌*◌, ◌≡◌, ◌↔◌, refl, some, [], ◌∷◌, Float, fixed, lookup, string_eq, Time, minute, second,
}
use ruptura.Fusion.{Engine, HostData, fused, fused_r}
use ruptura.Fusion.Ready.{IsReady, fused_r_returns}

instance abbrev fixed_float : Float ℕ
fixed_float = fixed

abbrev web : HostData ℕ
web = record {
  metric_val = 3000000000;
  log_val = 2000000000;
  trace_val = 0;
  infra_val = 0;
  metric_ts = minute;
  log_ts = minute + second;
  trace_ts = 0;
  infra_ts = 0;
}

abbrev node : HostData ℕ
node = record {
  metric_val = 0;
  log_val = 0;
  trace_val = 0;
  infra_val = 5000000000;
  metric_ts = 0;
  log_ts = 0;
  trace_ts = 0;
  infra_ts = minute;
}

abbrev hosts : Engine ℕ
hosts = ("web", web) ∷ ("node", node) ∷ []

web-known : lookup "web" hosts ≡ some web
unfolding lookup
web-known = refl

node-known : lookup "node" hosts ≡ some node
unfolding lookup
node-known = refl

fused_r_returns_example :
    ((v : ℕ) × (t : Time) × (fused_r hosts "web" (2 * minute) (2 * minute) ≡ fused v t))
    ↔ IsReady (2 * minute) web
fused_r_returns_example = fused_r_returns hosts "web" web (2 * minute) (2 * minute) web-known

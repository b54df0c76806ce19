-- ===== src/Operator/Validate.antt =====
-- workdir/operator/validate.go and the checks of inputs.go: the problems of a spec. `quoted` is the
-- verb %q, `decimal` is %d, and time.ParseDuration and url.Parse are parameters, `none` their error.
-- A spec has the fields that the checks read.
use Prim.Native.String.{◌++◌ as ◌&◌}
use text.Mathlib.Text.{starts_with}
use ruptura.Base.{
  ℕ, ◌+◌, String, Bool, true, false, not, ◌&&◌, ◌||◌, Option, none, some, List, [], ◌∷◌, ◌++◌,
  exists, flat_map, length, nat_beq, if◌then◌else◌, ◌==◌, string_eq, ltb, ℤ, pos_part,
}

pub record KeySelector : Type 0 where
  pub name : String
  pub key : String

pub record ValueSource : Type 0 where
  pub secret_key_ref : Option KeySelector
  pub config_map_key_ref : Option KeySelector

pub record ClientTls : Type 0 where
  pub ca : Option ValueSource
  pub cert : Option ValueSource
  pub key : Option ValueSource

pub record ServerTls : Type 0 where
  pub cert : Option ValueSource
  pub key : Option ValueSource
  pub client_ca : Option ValueSource

pub record BasicAuth : Type 0 where
  pub username : Option ValueSource
  pub password : Option ValueSource

pub record Authorization : Type 0 where
  pub bearer_token : Option ValueSource
  pub basic_auth : Option BasicAuth
  pub service_account_token : Bool

pub record PrometheusSource : Type 0 where
  pub url : String
  pub tls : Option ClientTls
  pub authorization : Option Authorization

-- `alertmanager_url` is the URL of Alertmanager, none where that is nil.
pub record AlertChannel : Type 0 where
  pub name : String
  pub alertmanager_url : Option String

-- A value that may be given: its field, where it comes from and whether only a Secret may hold it.
pub record ValueRule : Type 0 where
  pub field : String
  pub source : Option ValueSource
  pub secret_only : Bool

abbrev pub is_set : {A : Type 0} → Option A → Bool
is_set none = false
is_set (some a) = true

abbrev pub is_named : KeySelector → Bool
is_named ref = not ((ref.name == "") || (ref.key == ""))

-- The problems of a source with these references.
abbrev pub ref_problems : String → Bool → Option KeySelector → Option KeySelector → List String
ref_problems field secret_only none none =
    (field & ": set exactly one of secretKeyRef and configMapKeyRef") ∷ []
ref_problems field secret_only (some s) (some c) =
    (field & ": set exactly one of secretKeyRef and configMapKeyRef") ∷ []
ref_problems field true none (some c) = (field & ": must come from a Secret") ∷ []
ref_problems field secret_only (some s) none =
    if is_named s then [] else (field & ": name and key are required") ∷ []
ref_problems field false none (some c) =
    if is_named c then [] else (field & ": name and key are required") ∷ []

abbrev pub check_value_source : ValueRule → List String
check_value_source rule = elim (rule.source) [
  | none ↦ []
  | some src ↦
      ref_problems (rule.field) (rule.secret_only) (src.secret_key_ref) (src.config_map_key_ref)
]

-- checkChannels, from an index on and with the names seen before
unfoldable pub channel_problems :
    (quoted : String → String) (decimal : ℕ → String)
    → ℕ
    → List String
    → List AlertChannel
    → List String
channel_problems quoted decimal i seen [] = []
channel_problems quoted decimal i seen (channel ∷ channels) =
    let rest = channel_problems quoted decimal (i + 1) (channel.name ∷ seen) channels in
    let place = "alerting.channels[" & decimal i & "]" in
    (if channel.name == "" then (place & ": name is required") ∷ [] else [])
    ++ ((if exists (λ name. name == channel.name) seen
          then (place & ": duplicate name " & quoted (channel.name)) ∷ []
          else [])
        ++ ((elim (channel.alertmanager_url) [
          | none ↦ (place & ": alertmanager.url is required") ∷ []
          | some url ↦ if url == "" then (place & ": alertmanager.url is required") ∷ [] else []
        ])
            ++ rest))

unfoldable pub check_channels :
    (quoted : String → String) (decimal : ℕ → String) → List AlertChannel → List String
check_channels quoted decimal channels = channel_problems quoted decimal 0 [] channels

unfoldable pub check_choice :
    (quoted : String → String) → String → String → List String → List String → List String
check_choice quoted field value available planned =
    if (value == "") || exists (λ v. v == value) available
    then []
    else if exists (λ v. v == value) planned
    then (field & ": " & quoted value & " is not available in this version") ∷ []
    else (field & ": unknown value " & quoted value) ∷ []

pub record OtlpInput : Type 0 where
  pub tls : Option ServerTls

pub record InputConfig : Type 0 where
  pub profile : String
  pub prometheus : Option PrometheusSource
  pub otlp : Option OtlpInput

abbrev pub rule_of : String → Option ValueSource → Bool → ValueRule
rule_of field source secret_only = record {
  field = field;
  source = source;
  secret_only = secret_only;
}

abbrev pub tls_rules : Option ClientTls → List ValueRule
tls_rules none = []
tls_rules (some tls) =
    rule_of "input.prometheus.tls.ca" (tls.ca) false
    ∷ rule_of "input.prometheus.tls.cert" (tls.cert) false
    ∷ rule_of "input.prometheus.tls.key" (tls.key) true
    ∷ []

abbrev pub basic_rules : Option BasicAuth → List ValueRule
basic_rules none = []
basic_rules (some basic) =
    rule_of "input.prometheus.authorization.basicAuth.username" (basic.username) false
    ∷ rule_of "input.prometheus.authorization.basicAuth.password" (basic.password) true
    ∷ []

abbrev pub authorization_rules : Option Authorization → List ValueRule
authorization_rules none = []
authorization_rules (some a) =
    rule_of "input.prometheus.authorization.bearerToken" (a.bearer_token) true
    ∷ basic_rules (a.basic_auth)

abbrev pub prometheus_rules : PrometheusSource → List ValueRule
prometheus_rules p = tls_rules (p.tls) ++ authorization_rules (p.authorization)

abbrev pub otlp_rules : ServerTls → List ValueRule
otlp_rules tls =
    rule_of "input.otlp.tls.cert" (tls.cert) false
    ∷ rule_of "input.otlp.tls.key" (tls.key) true
    ∷ rule_of "input.otlp.tls.clientCA" (tls.client_ca) false
    ∷ []

abbrev pub problem_if : Bool → String → List String
problem_if wrong text = if wrong then text ∷ [] else []

abbrev pub one_if : Bool → ℕ
one_if true = 1
one_if false = 0

-- How many of the three ways to authenticate are set.
abbrev pub methods : Authorization → ℕ
methods a =
    one_if (is_set (a.bearer_token))
    + (one_if (is_set (a.basic_auth)) + one_if (a.service_account_token))

-- (a == nil) != (b == nil)
abbrev pub differ : Bool → Bool → Bool
differ true b = not b
differ false b = b

abbrev pub tls_problems : String → Option ClientTls → List String
tls_problems url none = []
tls_problems url (some tls) =
    problem_if (differ (is_set (tls.cert)) (is_set (tls.key)))
      "input.prometheus.tls: cert and key go together"
    ++ problem_if (starts_with url "http://") "input.prometheus.tls: the url must use https"

abbrev pub basic_problems : Option BasicAuth → List String
basic_problems none = []
basic_problems (some basic) =
    problem_if (not (is_set (basic.username)) || not (is_set (basic.password)))
      "input.prometheus.authorization.basicAuth: username and password are required"

abbrev pub authorization_problems : Option Authorization → List String
authorization_problems none = []
authorization_problems (some a) =
    problem_if (not (nat_beq (methods a) 1))
      "input.prometheus.authorization: set exactly one of bearerToken, basicAuth and serviceAccountToken"
    ++ basic_problems (a.basic_auth)

abbrev pub prometheus_problems : Option PrometheusSource → List String
prometheus_problems none = []
prometheus_problems (some p) =
    flat_map check_value_source (prometheus_rules p)
    ++ (tls_problems (p.url) (p.tls) ++ authorization_problems (p.authorization))

abbrev pub otlp_problems : Option ServerTls → List String
otlp_problems none = []
otlp_problems (some tls) =
    problem_if (not (is_set (tls.cert)) || not (is_set (tls.key)))
      "input.otlp.tls: cert and key are required"
    ++ flat_map check_value_source (otlp_rules tls)

abbrev pub otlp_tls : Option OtlpInput → Option ServerTls
otlp_tls none = none
otlp_tls (some o) = o.tls

unfoldable pub check_inputs : InputConfig → List String
check_inputs input = prometheus_problems (input.prometheus) ++ otlp_problems (otlp_tls (input.otlp))

-- The scheme and the host of a parsed URL.
pub record Url : Type 0 where
  pub scheme : String
  pub host : String

pub record RupturaInstanceSpec : Type 0 where
  pub mode : String
  pub scope : String
  pub input : InputConfig
  pub sensitivity : String
  pub horizon : String
  pub channels : List AlertChannel
  pub level : String

abbrev pub available_scopes : List String
available_scopes = "pod" ∷ "workload" ∷ "namespace" ∷ []

abbrev pub planned_scopes : List String
planned_scopes =
    "container" ∷ "service" ∷ "node" ∷ "cluster" ∷ "application" ∷ "customResource" ∷ []

abbrev pub available_profiles : List String
available_profiles = "minimal" ∷ "standard" ∷ []

abbrev pub planned_profiles : List String
planned_profiles = "full" ∷ "deep" ∷ []

abbrev pub deployment_modes : List String
deployment_modes = "Deployment" ∷ []

abbrev pub sensitivities : List String
sensitivities = "conservative" ∷ "balanced" ∷ "aggressive" ∷ []

abbrev pub log_levels : List String
log_levels = "debug" ∷ "info" ∷ "warn" ∷ "error" ∷ []

-- strings.Join
abbrev pub joined : String → List String → String
joined sep [] = ""
joined sep (text ∷ []) = text
joined sep (text ∷ next ∷ texts) = text & (sep & joined sep (next ∷ texts))

-- Whether a duration is read and positive.
abbrev pub is_positive : Option ℤ → Bool
is_positive none = false
is_positive (some d) = ltb 0 (pos_part d)

abbrev pub is_web_url : Option Url → Bool
is_web_url none = false
is_web_url (some u) = ((u.scheme == "http") || (u.scheme == "https")) && not (u.host == "")

abbrev pub url_problems :
    (quoted : String → String) → (String → Option Url) → Option PrometheusSource → List String
url_problems quoted parse_url none = []
url_problems quoted parse_url (some p) =
    problem_if (not (is_web_url (parse_url (p.url))))
      ("input.prometheus.url: " & quoted (p.url) & " is not an http or https URL")

module _ (quoted : String → String) (decimal : ℕ → String) (parse_duration : String → Option ℤ)
    (parse_url : String → Option Url) where
  unfoldable pub problems_of : RupturaInstanceSpec → List String
  problems_of spec =
      check_choice quoted "deployment.mode" (spec.mode) deployment_modes []
      ++ (check_choice quoted "level.scope" (spec.scope) available_scopes planned_scopes
          ++ (check_choice quoted "input.profile" (spec.input.profile) available_profiles
                planned_profiles
              ++ (check_choice quoted "analysis.sensitivity" (spec.sensitivity) sensitivities []
                  ++ (check_choice quoted "logging.level" (spec.level) log_levels []
                      ++ (problem_if
                            (not (spec.horizon == "")
                              && not (is_positive (parse_duration (spec.horizon))))
                            ("analysis.horizon: invalid duration " & quoted (spec.horizon))
                          ++ (url_problems quoted parse_url (spec.input.prometheus)
                              ++ (check_inputs (spec.input)
                                  ++ check_channels quoted decimal (spec.channels))))))))

  -- none is nil
  unfoldable pub validate_spec : RupturaInstanceSpec → Option String
  validate_spec spec =
      let problems = problems_of spec in
      if nat_beq (length problems) 0 then none else some (joined "; " problems)

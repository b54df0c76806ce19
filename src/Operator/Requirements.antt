-- ===== src/Operator/Requirements.antt =====
-- workdir/operator/validate.go, inputs.go: what a spec must be to be deployed, written without the
-- checks, their rules and their lists.
use text.Mathlib.Text.{starts_with}
use ruptura.Base.{
  ℕ, ◌<◌, ◌≡◌, ◌≢◌, ◌⊎◌, String, true, false, Option, none, some, [], ◌∷◌, string_eq, ℤ, pos,
}
use ruptura.Operator.Validate.{
  KeySelector, ValueSource, ClientTls, ServerTls, BasicAuth, Authorization, PrometheusSource,
  OtlpInput, RupturaInstanceSpec, Url,
}
use ruptura.Operator.Deployable.{AreChannels, IsChoice}

-- What is given has a property, and nothing need be given.
abbrev pub Given : {A : Type 0} → (A → Type 0) → Option A → Type 0
Given P none = Unit
Given P (some a) = P a

-- Something is given, and it has a property.
abbrev pub IsPresent : {A : Type 0} → (A → Type 0) → Option A → Type 0
IsPresent {A} P o = (a : A) × (o ≡ some a) × P a

abbrev pub IsComplete : KeySelector → Type 0
IsComplete ref = (ref.name ≢ "") × (ref.key ≢ "")

abbrev pub IsFromSecret : ValueSource → Type 0
IsFromSecret src = IsPresent IsComplete (src.secret_key_ref) × (src.config_map_key_ref ≡ none)

abbrev pub IsFromConfigMap : ValueSource → Type 0
IsFromConfigMap src = IsPresent IsComplete (src.config_map_key_ref) × (src.secret_key_ref ≡ none)

abbrev pub IsFromEither : ValueSource → Type 0
IsFromEither src = IsFromSecret src ⊎ IsFromConfigMap src

-- The certificate and the key are both given or both not, the key comes from a Secret, and the URL is
-- not one without TLS.
abbrev pub IsClientTls : String → ClientTls → Type 0
IsClientTls url tls =
    Given IsFromEither (tls.ca)
    × ((tls.cert ≡ none) × (tls.key ≡ none)
        ⊎ IsPresent IsFromEither (tls.cert) × IsPresent IsFromSecret (tls.key))
    × (starts_with url "http://" ≡ false)

abbrev pub IsBasic : BasicAuth → Type 0
IsBasic basic = IsPresent IsFromEither (basic.username) × IsPresent IsFromSecret (basic.password)

-- A bearer token from a Secret, or a name and a password, or the token of the service account.
abbrev pub IsAuthorization : Authorization → Type 0
IsAuthorization a =
    IsPresent IsFromSecret (a.bearer_token)
      × (a.basic_auth ≡ none)
      × (a.service_account_token ≡ false)
    ⊎ (a.bearer_token ≡ none) × IsPresent IsBasic (a.basic_auth) × (a.service_account_token ≡ false)
    ⊎ (a.bearer_token ≡ none) × (a.basic_auth ≡ none) × (a.service_account_token ≡ true)

abbrev pub IsWebUrl : Url → Type 0
IsWebUrl u = (u.scheme ≡ "http" ⊎ u.scheme ≡ "https") × (u.host ≢ "")

abbrev pub IsPrometheus : (String → Option Url) → PrometheusSource → Type 0
IsPrometheus parse_url p =
    IsPresent IsWebUrl (parse_url (p.url))
    × Given (IsClientTls (p.url)) (p.tls)
    × Given IsAuthorization (p.authorization)

abbrev pub IsServerTls : ServerTls → Type 0
IsServerTls tls =
    IsPresent IsFromEither (tls.cert)
    × IsPresent IsFromSecret (tls.key)
    × Given IsFromEither (tls.client_ca)

abbrev pub IsOtlp : OtlpInput → Type 0
IsOtlp o = Given IsServerTls (o.tls)

-- What a spec must be to be deployed.
abbrev pub IsDeployable : (String → Option ℤ) → (String → Option Url) → RupturaInstanceSpec → Type 0
IsDeployable parse_duration parse_url spec =
    IsChoice (spec.mode) ("Deployment" ∷ [])
    × IsChoice (spec.scope) ("pod" ∷ "workload" ∷ "namespace" ∷ [])
    × IsChoice (spec.input.profile) ("minimal" ∷ "standard" ∷ [])
    × IsChoice (spec.sensitivity) ("conservative" ∷ "balanced" ∷ "aggressive" ∷ [])
    × IsChoice (spec.level) ("debug" ∷ "info" ∷ "warn" ∷ "error" ∷ [])
    × ((spec.horizon ≡ "") ⊎ ((n : ℕ) × (parse_duration (spec.horizon) ≡ some (pos n)) × (0 < n)))
    × Given (IsPrometheus parse_url) (spec.input.prometheus)
    × Given IsOtlp (spec.input.otlp)
    × AreChannels [] (spec.channels)

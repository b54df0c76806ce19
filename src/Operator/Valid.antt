-- ===== src/Operator/Valid.antt =====
-- workdir/operator/validate.go, inputs.go: which specs are deployed.
use Prim.Native.String.{◌++◌ as ◌&◌}
use text.Mathlib.Text.{starts_with}
use ruptura.Base.{
  ℕ, ◌≡◌, ◌⊎◌, ◌↔◌, refl, String, Bool, true, false, not, ◌&&◌, ◌||◌, Option, none, some, inl, inr,
  List, [], ◌∷◌, ◌++◌, flat_map, length, Bool-cases, if◌then◌else◌, ◌==◌, string_eq, nat_beq, ℤ,
  arith,
}
use ruptura.Operator.Validate.{
  ClientTls, ServerTls, BasicAuth, Authorization, PrometheusSource, is_set, prometheus_rules,
  otlp_rules, problem_if, methods, differ, tls_problems, basic_problems, authorization_problems,
  prometheus_problems, otlp_problems, otlp_tls, check_inputs, Url, RupturaInstanceSpec,
  available_scopes, planned_scopes, available_profiles, planned_profiles, deployment_modes,
  sensitivities, log_levels, joined, is_positive, is_web_url, url_problems, problems_of,
  validate_spec, check_value_source, check_channels,
}
use ruptura.Operator.Deployable.{
  AreChannels, append-empty, when_empty, IsChoice, check_choice-IsChoice,
  channel_problems-AreChannels, AreKept, kept_iff,
}

-- The certificate and the key are given together, and the URL is not one without TLS.
abbrev pub AcceptsTls : String → Option ClientTls → Type 0
AcceptsTls url none = Unit
AcceptsTls url (some tls) =
    (is_set (tls.cert) ≡ is_set (tls.key)) × (starts_with url "http://" ≡ false)

abbrev pub AcceptsBasic : Option BasicAuth → Type 0
AcceptsBasic none = Unit
AcceptsBasic (some basic) = (is_set (basic.username) ≡ true) × (is_set (basic.password) ≡ true)

-- One way to authenticate, and with a name and a password where it is the basic one.
abbrev pub AcceptsAuthorization : Option Authorization → Type 0
AcceptsAuthorization none = Unit
AcceptsAuthorization (some a) = (methods a ≡ 1) × AcceptsBasic (a.basic_auth)

abbrev pub AcceptsPrometheus : Option PrometheusSource → Type 0
AcceptsPrometheus none = Unit
AcceptsPrometheus (some p) =
    AreKept (prometheus_rules p)
    × AcceptsTls (p.url) (p.tls)
    × AcceptsAuthorization (p.authorization)

abbrev pub AcceptsOtlp : Option ServerTls → Type 0
AcceptsOtlp none = Unit
AcceptsOtlp (some tls) =
    ((is_set (tls.cert) ≡ true) × (is_set (tls.key) ≡ true)) × AreKept (otlp_rules tls)

problem_iff : (wrong : Bool) (text : String) → (problem_if wrong text ≡ []) ↔ (wrong ≡ false)
problem_iff = when_empty

differ_iff : (a b : Bool) → (differ a b ≡ false) ↔ (a ≡ b)
differ_iff true true = (λ h. refl, λ h. refl)
differ_iff true false = (λ h. absurd (cc), λ h. absurd (cc))
differ_iff false true = (λ h. absurd (cc), λ h. absurd (cc))
differ_iff false false = (λ h. refl, λ h. refl)

both_iff : (a b : Bool) → ((not a || not b) ≡ false) ↔ ((a ≡ true) × (b ≡ true))
both_iff true true = (λ h. (refl, refl), λ h. refl)
both_iff true false = (λ h. absurd (cc), λ h. absurd (let e = h.1 in cc))
both_iff false b = (λ h. absurd (cc), λ h. absurd (let e = h.0 in cc))

tls_iff : (url : String) (tls : Option ClientTls) → (tls_problems url tls ≡ []) ↔ AcceptsTls url tls
tls_iff url none = (λ h. tt, λ h. refl)
tls_iff url (some tls) = (
  λ h.
      let (pair, web) =
        (append-empty (problem_if (differ (is_set (tls.cert)) (is_set (tls.key))) _) _).0 h in
      ((differ_iff _ _).0 ((problem_iff _ _).0 pair), (problem_iff _ _).0 web),
  λ h.
      (append-empty (problem_if (differ (is_set (tls.cert)) (is_set (tls.key))) _) _).1
        ((problem_iff _ _).1 ((differ_iff _ _).1 h.0), (problem_iff _ _).1 h.1),
)

AcceptsBasic-iff : (basic : Option BasicAuth) → (basic_problems basic ≡ []) ↔ AcceptsBasic basic
AcceptsBasic-iff none = (λ h. tt, λ h. refl)
AcceptsBasic-iff (some basic) =
    (λ h. (both_iff _ _).0 ((problem_iff _ _).0 h), λ h. (problem_iff _ _).1 ((both_iff _ _).1 h))

one_iff : (n : ℕ) → (not (nat_beq n 1) ≡ false) ↔ (n ≡ 1)
one_iff n = ground arith

authorization_iff :
    (a : Option Authorization) → (authorization_problems a ≡ []) ↔ AcceptsAuthorization a
authorization_iff none = (λ h. tt, λ h. refl)
authorization_iff (some a) = (
  λ h.
      let (one, basic) = (append-empty (problem_if (not (nat_beq (methods a) 1)) _) _).0 h in
      (
        (one_iff (methods a)).0 ((problem_iff _ _).0 one),
        (AcceptsBasic-iff (a.basic_auth)).0 basic,
      ),
  λ h.
      (append-empty (problem_if (not (nat_beq (methods a) 1)) _) _).1 (
        (problem_iff _ _).1 ((one_iff (methods a)).1 h.0),
        (AcceptsBasic-iff (a.basic_auth)).1 h.1,
      ),
)

AcceptsPrometheus-iff :
    (p : Option PrometheusSource) → (prometheus_problems p ≡ []) ↔ AcceptsPrometheus p
AcceptsPrometheus-iff none = (λ h. tt, λ h. refl)
AcceptsPrometheus-iff (some p) = (
  λ h.
      let (rules, h1) = (append-empty (flat_map check_value_source (prometheus_rules p)) _).0 h in
      let (tls, auth) = (append-empty (tls_problems (p.url) (p.tls)) _).0 h1 in
      (
        (kept_iff (prometheus_rules p)).0 rules,
        (tls_iff (p.url) (p.tls)).0 tls,
        (authorization_iff (p.authorization)).0 auth,
      ),
  λ h. (append-empty (flat_map check_value_source (prometheus_rules p)) _).1 (
    (kept_iff (prometheus_rules p)).1 h.0,
    (append-empty (tls_problems (p.url) (p.tls)) _).1
        ((tls_iff (p.url) (p.tls)).1 h.1, (authorization_iff (p.authorization)).1 h.2),
  ),
)

AcceptsOtlp-iff : (tls : Option ServerTls) → (otlp_problems tls ≡ []) ↔ AcceptsOtlp tls
AcceptsOtlp-iff none = (λ h. tt, λ h. refl)
AcceptsOtlp-iff (some tls) = (
  λ h.
      let (pair, rules) = (append-empty (problem_if _ _) _).0 h in
      ((both_iff _ _).0 ((problem_iff _ _).0 pair), (kept_iff (otlp_rules tls)).0 rules),
  λ h.
      (append-empty (problem_if _ _) _).1
        ((problem_iff _ _).1 ((both_iff _ _).1 h.0), (kept_iff (otlp_rules tls)).1 h.1),
)

abbrev pub AcceptsUrl : (String → Option Url) → Option PrometheusSource → Type 0
AcceptsUrl parse_url none = Unit
AcceptsUrl parse_url (some p) = is_web_url (parse_url (p.url)) ≡ true

url_iff :
    (quoted : String → String) (parse_url : String → Option Url) (p : Option PrometheusSource)
    → (url_problems quoted parse_url p ≡ []) ↔ AcceptsUrl parse_url p
url_iff quoted parse_url none = (λ h. tt, λ h. refl)
url_iff quoted parse_url (some p) = elim (Bool-cases (is_web_url (parse_url (p.url)))) [
  | inl web ↦ rw web (λ h. refl, λ h. refl)
  | inr other ↦ rw other (λ h. absurd (cc), λ h. absurd (cc))
]

horizon_iff :
    (set positive : Bool) → ((not set && not positive) ≡ false) ↔ ((set ≡ true) ⊎ (positive ≡ true))
horizon_iff true positive = (λ h. inl refl, λ h. refl)
horizon_iff false true = (λ h. inr refl, λ h. refl)
horizon_iff false false =
    (λ h. absurd (cc), λ h. elim h [ inl e ↦ absurd (cc) | inr e ↦ absurd (cc) ])

-- What the checks let pass, in the order of the checks.
abbrev pub IsAccepted : (String → Option ℤ) → (String → Option Url) → RupturaInstanceSpec → Type 0
IsAccepted parse_duration parse_url spec =
    IsChoice (spec.mode) deployment_modes
    × (IsChoice (spec.scope) available_scopes
        × (IsChoice (spec.input.profile) available_profiles
            × (IsChoice (spec.sensitivity) sensitivities
                × (IsChoice (spec.level) log_levels
                    × ((((spec.horizon == "") ≡ true)
                          ⊎ (is_positive (parse_duration (spec.horizon)) ≡ true))
                        × (AcceptsUrl parse_url (spec.input.prometheus)
                            × ((AcceptsPrometheus (spec.input.prometheus)
                                  × AcceptsOtlp (otlp_tls (spec.input.otlp)))
                                × AreChannels [] (spec.channels))))))))

and_iff :
    {P Q : Type 0} (xs ys : List String) → (xs ≡ []) ↔ P → (ys ≡ []) ↔ Q → (xs ++ ys ≡ []) ↔ (P × Q)
and_iff xs ys p q = (
  λ h. let (a, b) = (append-empty xs ys).0 h in (p.0 a, q.0 b),
  λ h. (append-empty xs ys).1 (p.1 h.0, q.1 h.1),
)

either_iff :
    (set positive : Bool) (text : String)
    → (problem_if (not set && not positive) text ≡ []) ↔ ((set ≡ true) ⊎ (positive ≡ true))
either_iff set positive text = (
  λ h. (horizon_iff set positive).0 ((problem_iff _ text).0 h),
  λ h. (problem_iff _ text).1 ((horizon_iff set positive).1 h),
)

none_iff :
    (texts : List String)
    → ((if nat_beq (length texts) 0 then none else some (joined "; " texts)) ≡ none) ↔ (texts ≡ [])
none_iff [] = (λ h. refl, λ h. refl)
none_iff (text ∷ texts) =
    let some_texts : nat_beq (length (text ∷ texts)) 0 ≡ false = ground arith in
    rw some_texts (λ h. absurd (cc), λ h. absurd (cc))

-- validateSpec returns nil exactly for the specs that the checks let pass.
pub validate_spec-IsAccepted :
    (quoted : String → String) (decimal : ℕ → String) (parse_duration : String → Option ℤ)
    (parse_url : String → Option Url) (spec : RupturaInstanceSpec)
    → (validate_spec quoted decimal parse_duration parse_url spec ≡ none)
      ↔ IsAccepted parse_duration parse_url spec
unfolding validate_spec problems_of check_inputs check_channels
validate_spec-IsAccepted quoted decimal parse_duration parse_url spec =
    let all =
      and_iff _ _ (check_choice-IsChoice quoted "deployment.mode" (spec.mode) deployment_modes []) (
        and_iff _ _
          (check_choice-IsChoice quoted "level.scope" (spec.scope) available_scopes planned_scopes)
          (and_iff _ _
            (check_choice-IsChoice quoted "input.profile" (spec.input.profile) available_profiles
              planned_profiles)
            (and_iff _ _
              (check_choice-IsChoice quoted "analysis.sensitivity" (spec.sensitivity) sensitivities
                [])
              (and_iff _ _ (check_choice-IsChoice quoted "logging.level" (spec.level) log_levels [])
                (and_iff _ _
                  (either_iff (spec.horizon == "") (is_positive (parse_duration (spec.horizon)))
                    ("analysis.horizon: invalid duration " & quoted (spec.horizon)))
                  (and_iff _ _ (url_iff quoted parse_url (spec.input.prometheus)) (
                    and_iff _ _
                      (and_iff _ _ (AcceptsPrometheus-iff (spec.input.prometheus))
                        (AcceptsOtlp-iff (otlp_tls (spec.input.otlp))))
                      (channel_problems-AreChannels quoted decimal 0 [] (spec.channels))))))))) in
    let none_left = none_iff (problems_of quoted decimal parse_duration parse_url spec) in
    (λ h. all.0 (none_left.0 h), λ h. none_left.1 (all.1 h))

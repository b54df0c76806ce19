-- ===== src/Operator/Deployed.antt =====
-- workdir/operator/validate.go: validateSpec compared with what a spec must be.
use ruptura.Base.{
  ℕ, ◌<◌, ◌≡◌, ◌↔◌, refl, subst, String, true, not, ◌&&◌, ◌||◌, Option, none, some, inl, inr, List,
  [], ◌∷◌, ◌++◌, ◌==◌, ==_iff, string_eq, ℤ, pos, negsuc, arith,
}
use ruptura.Operator.Validate.{
  ValueRule, ServerTls, PrometheusSource, OtlpInput, RupturaInstanceSpec, Url, tls_rules,
  authorization_rules, otlp_tls, is_positive, is_web_url, validate_spec,
}
use ruptura.Operator.Deployable.{AreKept}
use ruptura.Operator.Valid.{AcceptsPrometheus, AcceptsOtlp, AcceptsUrl, validate_spec-IsAccepted}
use ruptura.Operator.Requirements.{
  Given, IsPresent, IsFromSecret, IsFromEither, IsWebUrl, IsPrometheus, IsServerTls, IsOtlp,
  IsDeployable,
}
use ruptura.Operator.References.{IsSource-secret, IsSource-either, IsPresent-iff, client_iff}
use ruptura.Operator.Ways.{ways_iff}

web_iff :
    (u : Url)
    → ((((u.scheme == "http") || (u.scheme == "https")) && not (u.host == "")) ≡ true) ↔ IsWebUrl u
web_iff u = ground (arith, ==_iff (u.scheme) "http", ==_iff (u.scheme) "https", ==_iff (u.host) "")

is_web_url-IsPresent : (found : Option Url) → (is_web_url found ≡ true) ↔ IsPresent IsWebUrl found
is_web_url-IsPresent none = (λ h. absurd (cc), λ h. absurd (let e = h.1 in cc))
is_web_url-IsPresent (some u) = (
  λ h. (u, refl, (web_iff u).0 h),
  λ h. let (v, e, web) = h in let same : v ≡ u = cc in (web_iff u).1 (subst IsWebUrl same web),
)

AreKept-append :
    (rules more : List ValueRule) → AreKept (rules ++ more) ↔ (AreKept rules × AreKept more)
AreKept-append [] more = (λ h. (tt, h), λ h. h.1)
AreKept-append (rule ∷ rules) more = (
  λ h. let (ours, theirs) = (AreKept-append rules more).0 h.1 in ((h.0, ours), theirs),
  λ h. (h.0.0, (AreKept-append rules more).1 (h.0.1, h.1)),
)

source_iff :
    (parse_url : String → Option Url) (p : Option PrometheusSource)
    → (AcceptsUrl parse_url p × AcceptsPrometheus p) ↔ Given (IsPrometheus parse_url) p
source_iff parse_url none = (λ h. tt, λ h. (tt, tt))
source_iff parse_url (some p) =
    let split = AreKept-append (tls_rules (p.tls)) (authorization_rules (p.authorization)) in
    (
      λ h.
          let (web, (rules, tls, auth)) = h in
          let (of_tls, of_auth) = split.0 rules in
          (
            (is_web_url-IsPresent (parse_url (p.url))).0 web,
            (client_iff (p.url) (p.tls)).0 (of_tls, tls),
            (ways_iff (p.authorization)).0 (of_auth, auth),
          ),
      λ h.
          let (web, given_tls, given_auth) = h in
          let (of_tls, tls) = (client_iff (p.url) (p.tls)).1 given_tls in
          let (of_auth, auth) = (ways_iff (p.authorization)).1 given_auth in
          (
            (is_web_url-IsPresent (parse_url (p.url))).1 web,
            (split.1 (of_tls, of_auth), tls, auth),
          ),
    )

server_iff : (tls : Option ServerTls) → AcceptsOtlp tls ↔ Given IsServerTls tls
server_iff none = (λ h. tt, λ h. tt)
server_iff (some tls) = (
  λ h.
      let ((certs, keys), (cert, (key, (ca, end)))) = h in
      (
        (IsPresent-iff IsFromEither (tls.cert)).0 (certs, (IsSource-either (tls.cert)).0 cert),
        (IsPresent-iff IsFromSecret (tls.key)).0 (keys, (IsSource-secret (tls.key)).0 key),
        (IsSource-either (tls.client_ca)).0 ca,
      ),
  λ h.
      let (cert_set, key_set, ca) = h in
      let (certs, cert) = (IsPresent-iff IsFromEither (tls.cert)).1 cert_set in
      let (keys, key) = (IsPresent-iff IsFromSecret (tls.key)).1 key_set in
      (
        (certs, keys),
        (
          (IsSource-either (tls.cert)).1 cert,
          ((IsSource-secret (tls.key)).1 key, ((IsSource-either (tls.client_ca)).1 ca, tt)),
        ),
      ),
)

IsOtlp-iff : (o : Option OtlpInput) → AcceptsOtlp (otlp_tls o) ↔ Given IsOtlp o
IsOtlp-iff none = (λ h. tt, λ h. tt)
IsOtlp-iff (some o) = server_iff (o.tls)

is_positive-some :
    (d : Option ℤ) → (is_positive d ≡ true) ↔ ((n : ℕ) × (d ≡ some (pos n)) × (0 < n))
is_positive-some none = (λ h. absurd (cc), λ h. absurd (let e = h.1 in cc))
is_positive-some (some (pos n)) = (
  λ h. (n, refl, ground arith),
  λ h. let (m, e, more) = h in let same : m ≡ n = cc in ground arith,
)
is_positive-some (some (negsuc n)) = (λ h. absurd (cc), λ h. absurd (let e = h.1 in cc))

-- validateSpec returns nil exactly for these specs: each choice is unset or one that this version
-- has, the horizon is unset or a positive duration, a URL of Prometheus is one of http or https with a
-- host, its certificate and key are both given or both not and only where the URL is not one of http,
-- just one way to authenticate is given, OTLP's TLS has a certificate and a key, every given key,
-- password and token has a name and a key in a Secret alone and every other given value in either a
-- Secret or a ConfigMap, and the channels have different names and each a URL.
pub validate_spec-IsDeployable :
    (quoted : String → String) (decimal : ℕ → String) (parse_duration : String → Option ℤ)
    (parse_url : String → Option Url) (spec : RupturaInstanceSpec)
    → (validate_spec quoted decimal parse_duration parse_url spec ≡ none)
      ↔ IsDeployable parse_duration parse_url spec
validate_spec-IsDeployable quoted decimal parse_duration parse_url spec =
    let accepted = validate_spec-IsAccepted quoted decimal parse_duration parse_url spec in
    let source = source_iff parse_url (spec.input.prometheus) in
    let otlp = IsOtlp-iff (spec.input.otlp) in
    let positive = is_positive-some (parse_duration (spec.horizon)) in
    let unset = ==_iff (spec.horizon) "" in
    (
      λ h.
          let (mode, (scope, (profile, (sens, (level, (horizon, (web, ((prom, otl), chans)))))))) =
            accepted.0 h in
          (
            mode,
            scope,
            profile,
            sens,
            level,
            elim horizon [ inl e ↦ inl (unset.0 e) | inr e ↦ inr (positive.0 e) ],
            source.0 (web, prom),
            otlp.0 otl,
            chans,
          ),
      λ h.
          let (mode, scope, profile, sens, level, horizon, prometheus, given_otlp, chans) = h in
          let (web, prom) = source.1 prometheus in
          accepted.1 (
            mode,
            (
              scope,
              (
                profile,
                (
                  sens,
                  (
                    level,
                    (
                      elim horizon [ inl e ↦ inl (unset.1 e) | inr e ↦ inr (positive.1 e) ],
                      (web, ((prom, otlp.1 given_otlp), chans)),
                    ),
                  ),
                ),
              ),
            ),
          ),
    )

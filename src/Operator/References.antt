-- ===== src/Operator/References.antt =====
-- workdir/operator/inputs.go: where the values of a spec come from, in terms of the checks.
use ruptura.Base.{
  ◌≡◌, ◌⊎◌, ◌↔◌, refl, subst, String, true, false, Option, none, some, inl, inr, string_eq,
}
use ruptura.Operator.Validate.{
  KeySelector, ValueSource, ClientTls, BasicAuth, is_set, tls_rules, basic_rules,
}
use ruptura.Operator.Deployable.{IsRef, IsSource, AreKept}
use ruptura.Operator.Valid.{AcceptsTls, AcceptsBasic}
use ruptura.Operator.Requirements.{
  Given, IsPresent, IsComplete, IsFromSecret, IsFromEither, IsClientTls, IsBasic,
}

secret_iff : (s c : Option KeySelector) → IsRef true s c ↔ (IsPresent IsComplete s × (c ≡ none))
secret_iff none none = (λ h. absurd h, λ h. absurd (let e = h.0.1 in cc))
secret_iff none (some c) = (λ h. absurd h, λ h. absurd (let e = h.1 in cc))
secret_iff (some s) (some c) = (λ h. absurd h, λ h. absurd (let e = h.1 in cc))
secret_iff (some s) none = (
  λ h. ((s, refl, h), refl),
  λ h. let ((t, e, full), gone) = h in let same : t ≡ s = cc in subst IsComplete same full,
)

either_iff :
    (s c : Option KeySelector)
    → IsRef false s c ↔ (IsPresent IsComplete s × (c ≡ none) ⊎ IsPresent IsComplete c × (s ≡ none))
either_iff none none = (
  λ h. absurd h,
  λ h. elim h [ inl a ↦ absurd (let e = a.0.1 in cc) | inr a ↦ absurd (let e = a.0.1 in cc) ],
)
either_iff (some s) (some c) = (
  λ h. absurd h,
  λ h. elim h [ inl a ↦ absurd (let e = a.1 in cc) | inr a ↦ absurd (let e = a.1 in cc) ],
)
either_iff (some s) none = (
  λ h. inl ((s, refl, h), refl),
  λ h. elim h [
    | inl ((t, e, full), gone) ↦ let same : t ≡ s = cc in subst IsComplete same full
    | inr a ↦ absurd (let e = a.1 in cc)
  ],
)
either_iff none (some c) = (
  λ h. inr ((c, refl, h), refl),
  λ h. elim h [
    | inl a ↦ absurd (let e = a.1 in cc)
    | inr ((t, e, full), gone) ↦ let same : t ≡ c = cc in subst IsComplete same full
  ],
)

pub IsSource-secret : (o : Option ValueSource) → IsSource true o ↔ Given IsFromSecret o
IsSource-secret none = (λ h. tt, λ h. tt)
IsSource-secret (some src) = secret_iff (src.secret_key_ref) (src.config_map_key_ref)

pub IsSource-either : (o : Option ValueSource) → IsSource false o ↔ Given IsFromEither o
IsSource-either none = (λ h. tt, λ h. tt)
IsSource-either (some src) = either_iff (src.secret_key_ref) (src.config_map_key_ref)

pub IsPresent-iff :
    {A : Type 0} (P : A → Type 0) (o : Option A) → ((is_set o ≡ true) × Given P o) ↔ IsPresent P o
IsPresent-iff P none = (λ h. absurd (let e = h.0 in cc), λ h. absurd (let e = h.1 in cc))
IsPresent-iff P (some a) = (
  λ h. (a, refl, h.1),
  λ h. let (b, e, held) = h in let same : b ≡ a = cc in (refl, subst P same held),
)

pair_iff :
    {A : Type 0} (P Q : A → Type 0) (cert key : Option A)
    → ((is_set cert ≡ is_set key) × Given P cert × Given Q key)
      ↔ ((cert ≡ none) × (key ≡ none) ⊎ IsPresent P cert × IsPresent Q key)
pair_iff P Q none none = (λ h. inl (refl, refl), λ h. (refl, tt, tt))
pair_iff P Q (some a) none = (
  λ h. absurd (let e = h.0 in cc),
  λ h. elim h [ inl a ↦ absurd (let e = a.0 in cc) | inr a ↦ absurd (let e = a.1.1 in cc) ],
)
pair_iff P Q none (some b) = (
  λ h. absurd (let e = h.0 in cc),
  λ h. elim h [ inl a ↦ absurd (let e = a.1 in cc) | inr a ↦ absurd (let e = a.0.1 in cc) ],
)
pair_iff P Q (some a) (some b) = (
  λ h. inr ((a, refl, h.1), (b, refl, h.2)),
  λ h. elim h [
    | inl a ↦ absurd (let e = a.0 in cc)
    | inr both ↦
        (refl, ((IsPresent-iff P (some a)).1 both.0).1, ((IsPresent-iff Q (some b)).1 both.1).1)
  ],
)

pub client_iff :
    (url : String) (tls : Option ClientTls)
    → (AreKept (tls_rules tls) × AcceptsTls url tls) ↔ Given (IsClientTls url) tls
client_iff url none = (λ h. tt, λ h. (tt, tt))
client_iff url (some tls) =
    let pair = pair_iff IsFromEither IsFromSecret (tls.cert) (tls.key) in
    (
      λ h.
          let ((ca, (cert, (key, end))), (both, web)) = h in
          (
            (IsSource-either (tls.ca)).0 ca,
            pair.0 (both, (IsSource-either (tls.cert)).0 cert, (IsSource-secret (tls.key)).0 key),
            web,
          ),
      λ h.
          let (ca, certs, web) = h in
          let (both, cert, key) = pair.1 certs in
          (
            (
              (IsSource-either (tls.ca)).1 ca,
              ((IsSource-either (tls.cert)).1 cert, ((IsSource-secret (tls.key)).1 key, tt)),
            ),
            (both, web),
          ),
    )

pub IsBasic-iff :
    (basic : BasicAuth)
    → (AreKept (basic_rules (some basic)) × AcceptsBasic (some basic)) ↔ IsBasic basic
IsBasic-iff basic = (
  λ h.
      let ((name, (word, end)), (named, worded)) = h in
      (
        (IsPresent-iff IsFromEither (basic.username)).0
            (named, (IsSource-either (basic.username)).0 name),
        (IsPresent-iff IsFromSecret (basic.password)).0
            (worded, (IsSource-secret (basic.password)).0 word),
      ),
  λ h.
      let (named, name) = (IsPresent-iff IsFromEither (basic.username)).1 h.0 in
      let (worded, word) = (IsPresent-iff IsFromSecret (basic.password)).1 h.1 in
      (
        (
          (IsSource-either (basic.username)).1 name,
          ((IsSource-secret (basic.password)).1 word, tt),
        ),
        (named, worded),
      ),
)

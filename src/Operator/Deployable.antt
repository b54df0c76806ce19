-- ===== src/Operator/Deployable.antt =====
-- workdir/operator/validate.go: the choices, the channels and the references of a spec.
use ruptura.Base.{
  ℕ, ◌+◌, ◌≡◌, ◌≢◌, ◌⊎◌, ◌↔◌, refl, sym, ◌∙◌, String, Bool, true, false, Option, none, some, inl,
  inr, List, [], ◌∷◌, ◌++◌, flat_map, exists, Has, All, Bool-cases, if◌then◌else◌, ◌==◌, ==_iff,
  string_eq, arith,
}
use ruptura.Operator.Validate.{
  KeySelector, ValueSource, ValueRule, AlertChannel, ref_problems, check_value_source,
  channel_problems, check_choice, is_named, rule_of,
}

-- The names of the channels are different and not those before, and each has a name and a URL.
abbrev pub AreChannels : List String → List AlertChannel → Type 0
AreChannels seen [] = Unit
AreChannels seen (channel ∷ channels) =
    (channel.name ≢ "")
    × (¬ Has (channel.name) seen)
    × ((url : String) × (channel.alertmanager_url ≡ some url) × (url ≢ ""))
    × AreChannels (channel.name ∷ seen) channels

pub append-empty : (xs ys : List String) → (xs ++ ys ≡ []) ↔ ((xs ≡ []) × (ys ≡ []))
append-empty [] ys = (λ h. (refl, h), λ h. h.1)
append-empty (x ∷ xs) ys = (λ h. absurd (cc), λ h. absurd (let e = h.0 in cc))

pub when_empty : (b : Bool) (text : String) → ((if b then text ∷ [] else []) ≡ []) ↔ (b ≡ false)
when_empty true text = (λ h. absurd (cc), λ h. absurd (cc))
when_empty false text = (λ h. refl, λ h. refl)

seen_iff :
    (name : String) (seen : List String)
    → (exists (λ other. other == name) seen ≡ true) ↔ Has name seen
seen_iff name [] = (λ h. absurd (cc), λ h. absurd h)
seen_iff name (other ∷ seen) = ground (arith, ==_iff other name, seen_iff name seen)

pub not_true : (b : Bool) → (b ≢ true) → b ≡ false
not_true true h = absurd (h refl)
not_true false h = refl

url_problem :
    (found : Option String) (text : String)
    → ((elim found as (λ o. List String) [
      | none ↦ text ∷ []
      | some url ↦ if url == "" then text ∷ [] else []
    ])
        ≡ [])
      ↔ ((url : String) × (found ≡ some url) × (url ≢ ""))
url_problem none text = (λ h. absurd (cc), λ h. absurd (let e = h.1 in cc))
url_problem (some url) text = (
  λ h. (
    url,
    refl,
    λ e. let bad : true ≡ false = sym ((==_iff url "").1 e) ∙ (when_empty _ _).0 h in cc,
  ),
  λ h.
      let (other, e, set) = h in
      let same : url ≡ other = cc in
      (when_empty _ _).1 (not_true _ (λ empty. set (sym same ∙ (==_iff url "").0 empty))),
)

-- A value that is not given or one of those available.
abbrev pub IsChoice : String → List String → Type 0
IsChoice value available = (value ≡ "") ⊎ Has value available

no-IsChoice :
    (value : String) (available : List String)
    → (value == "") ≡ false
    → exists (λ v. v == value) available ≡ false
    → ¬ IsChoice value available
no-IsChoice value available set absent (inl e) =
    let bad : true ≡ false = sym ((==_iff value "").1 e) ∙ set in absurd (cc)
no-IsChoice value available set absent (inr there) =
    let bad : true ≡ false = sym ((seen_iff value available).1 there) ∙ absent in absurd (cc)

pub check_choice-IsChoice :
    (quoted : String → String) (field value : String) (available planned : List String)
    → (check_choice quoted field value available planned ≡ []) ↔ IsChoice value available
unfolding check_choice
check_choice-IsChoice quoted field value available planned = elim (Bool-cases (value == "")) [
  | inl unset ↦ rw unset (λ h. inl ((==_iff value "").0 unset), λ h. refl)
  | inr set ↦ elim (Bool-cases (exists (λ v. v == value) available)) [
    | inl there ↦ rw (set, there) (λ h. inr ((seen_iff value available).0 there), λ h. refl)
    | inr absent ↦ elim (Bool-cases (exists (λ v. v == value) planned)) [
      | inl later ↦
          rw (set, absent, later)
            (λ h. absurd (cc), λ h. absurd (no-IsChoice value available set absent h))
      | inr unknown ↦
          rw (set, absent, unknown)
            (λ h. absurd (cc), λ h. absurd (no-IsChoice value available set absent h))
    ]
  ]
]

pub channel_problems-AreChannels :
    (quoted : String → String) (decimal : ℕ → String) (i : ℕ) (seen : List String)
    (channels : List AlertChannel)
    → (channel_problems quoted decimal i seen channels ≡ []) ↔ AreChannels seen channels
unfolding channel_problems
channel_problems-AreChannels quoted decimal i seen [] = (λ h. tt, λ h. refl)
channel_problems-AreChannels quoted decimal i seen (channel ∷ channels) = (
  λ h.
      let (name, h1) = (append-empty _ _).0 h in
      let (fresh, h2) = (append-empty _ _).0 h1 in
      let (url, h3) = (append-empty _ _).0 h2 in
      (
        λ e.
            let bad : true ≡ false =
              sym ((==_iff (channel.name) "").1 e) ∙ (when_empty _ _).0 name in
            cc,
        λ there.
            let bad : true ≡ false =
              sym ((seen_iff (channel.name) seen).1 there) ∙ (when_empty _ _).0 fresh in
            cc,
        (url_problem (channel.alertmanager_url) _).0 url,
        (channel_problems-AreChannels quoted decimal (i + 1) (channel.name ∷ seen) channels).0 h3,
      ),
  λ h.
      let (name, fresh, url, others) = h in
      (append-empty _ _).1 (
        (when_empty _ _).1 (not_true _ (λ e. name ((==_iff (channel.name) "").0 e))),
        (append-empty _ _).1 (
          (when_empty _ _).1 (not_true _ (λ e. fresh ((seen_iff (channel.name) seen).0 e))),
          (append-empty _ _).1 (
            (url_problem (channel.alertmanager_url) _).1 url,
            (channel_problems-AreChannels quoted decimal (i + 1) (channel.name ∷ seen) channels).1
                others,
          ),
        ),
      ),
)

-- What the two references of a source must be: a name and a key, from a Secret or, where that may
-- be, from a ConfigMap.
abbrev pub IsRef : Bool → Option KeySelector → Option KeySelector → Type 0
IsRef secret_only none none = ⊥
IsRef secret_only (some s) (some c) = ⊥
IsRef true none (some c) = ⊥
IsRef secret_only (some s) none = (s.name ≢ "") × (s.key ≢ "")
IsRef false none (some c) = (c.name ≢ "") × (c.key ≢ "")

named_iff :
    (ref : KeySelector) (text : String)
    → ((if is_named ref then [] else text ∷ []) ≡ []) ↔ ((ref.name ≢ "") × (ref.key ≢ ""))
named_iff ref text = ground (arith, ==_iff (ref.name) "", ==_iff (ref.key) "")

ref_problems-IsRef :
    (field : String) (secret_only : Bool) (s c : Option KeySelector)
    → (ref_problems field secret_only s c ≡ []) ↔ IsRef secret_only s c
ref_problems-IsRef field true none none = (λ h. absurd (cc), λ h. absurd h)
ref_problems-IsRef field false none none = (λ h. absurd (cc), λ h. absurd h)
ref_problems-IsRef field true (some s) (some c) = (λ h. absurd (cc), λ h. absurd h)
ref_problems-IsRef field false (some s) (some c) = (λ h. absurd (cc), λ h. absurd h)
ref_problems-IsRef field true none (some c) = (λ h. absurd (cc), λ h. absurd h)
ref_problems-IsRef field true (some s) none = named_iff s _
ref_problems-IsRef field false (some s) none = named_iff s _
ref_problems-IsRef field false none (some c) = named_iff c _

abbrev pub IsSource : Bool → Option ValueSource → Type 0
IsSource secret_only none = Unit
IsSource secret_only (some src) = IsRef secret_only (src.secret_key_ref) (src.config_map_key_ref)

IsSource-iff :
    (field : String) (source : Option ValueSource) (secret_only : Bool)
    → (check_value_source (rule_of field source secret_only) ≡ []) ↔ IsSource secret_only source
IsSource-iff field none secret_only = (λ h. tt, λ h. refl)
IsSource-iff field (some src) secret_only =
    ref_problems-IsRef field secret_only (src.secret_key_ref) (src.config_map_key_ref)

-- Every rule of a list is kept.
abbrev pub AreKept : List ValueRule → Type 0
AreKept = All (λ rule. IsSource (rule.secret_only) (rule.source))

pub kept_iff : (rules : List ValueRule) → (flat_map check_value_source rules ≡ []) ↔ AreKept rules
kept_iff [] = (λ h. tt, λ h. refl)
kept_iff (rule ∷ rules) = (
  λ h.
      let (one, others) = (append-empty (check_value_source rule) _).0 h in
      (
        (IsSource-iff (rule.field) (rule.source) (rule.secret_only)).0 one,
        (kept_iff rules).0 others,
      ),
  λ h.
      (append-empty (check_value_source rule) _).1 (
        (IsSource-iff (rule.field) (rule.source) (rule.secret_only)).1 h.0,
        (kept_iff rules).1 h.1,
      ),
)

-- ===== src/Operator/Ways.antt =====
-- workdir/operator/inputs.go: the ways to authenticate, in terms of the checks.
use ruptura.Base.{
  ◌+◌, ◌≡◌, ◌⊎◌, ◌↔◌, refl, Bool, true, false, Option, none, some, inl, inr, string_eq, arith,
}
use ruptura.Operator.Validate.{
  ValueSource, BasicAuth, Authorization, is_set, one_if, basic_rules, authorization_rules,
}
use ruptura.Operator.Deployable.{IsSource, AreKept}
use ruptura.Operator.Valid.{AcceptsBasic, AcceptsAuthorization}
use ruptura.Operator.Requirements.{Given, IsPresent, IsFromSecret, IsBasic, IsAuthorization}
use ruptura.Operator.References.{IsSource-secret, IsBasic-iff}

-- The kinds of authorization, by what is given.
abbrev IsOneWay : Option ValueSource → Option BasicAuth → Bool → Type 0
IsOneWay bearer basic service =
    IsPresent IsFromSecret bearer × (basic ≡ none) × (service ≡ false)
    ⊎ (bearer ≡ none) × IsPresent IsBasic basic × (service ≡ false)
    ⊎ (bearer ≡ none) × (basic ≡ none) × (service ≡ true)

abbrev AcceptsOneWay : Option ValueSource → Option BasicAuth → Bool → Type 0
AcceptsOneWay bearer basic service =
    (IsSource true bearer × AreKept (basic_rules basic))
    × ((one_if (is_set bearer) + (one_if (is_set basic) + one_if service) ≡ 1) × AcceptsBasic basic)

one_way :
    (bearer : Option ValueSource) (basic : Option BasicAuth) (service : Bool)
    → AcceptsOneWay bearer basic service
    → IsOneWay bearer basic service
one_way (some src) none false h =
    inl ((src, refl, (IsSource-secret (some src)).0 h.0.0), refl, refl)
one_way none (some basic) false h =
    inr (inl (refl, (basic, refl, (IsBasic-iff basic).0 (h.0.1, h.1.1)), refl))
one_way none none true h = inr (inr (refl, refl, refl))
one_way none none false h = absurd (let e = h.1.0 in omega (arith, e))
one_way (some src) none true h = absurd (let e = h.1.0 in omega (arith, e))
one_way none (some basic) true h = absurd (let e = h.1.0 in omega (arith, e))
one_way (some src) (some basic) service h =
    absurd (let e : 1 + (1 + one_if service) ≡ 1 = h.1.0 in omega (arith, e))

one_way_back :
    (bearer : Option ValueSource) (basic : Option BasicAuth) (service : Bool)
    → IsOneWay bearer basic service
    → AcceptsOneWay bearer basic service
one_way_back bearer basic service (inl ((src, e, held), none_given, unset)) =
    rw (e, none_given, unset) (((IsSource-secret (some src)).1 held, tt), (refl, tt))
one_way_back bearer basic service (inr (inl (none_given, (b, e, held), unset))) =
    let (kept, accepted) = (IsBasic-iff b).1 held in
    rw (e, none_given, unset) ((tt, kept), (refl, accepted))
one_way_back bearer basic service (inr (inr (no_bearer, no_basic, set))) =
    rw (no_bearer, no_basic, set) ((tt, tt), (refl, tt))

pub ways_iff :
    (a : Option Authorization)
    → (AreKept (authorization_rules a) × AcceptsAuthorization a) ↔ Given IsAuthorization a
ways_iff none = (λ h. tt, λ h. (tt, tt))
ways_iff (some a) = (
  one_way (a.bearer_token) (a.basic_auth) (a.service_account_token),
  one_way_back (a.bearer_token) (a.basic_auth) (a.service_account_token),
)

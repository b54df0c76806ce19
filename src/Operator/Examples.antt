-- ===== src/Operator/Examples.antt =====
-- The theorems on the operator at a cluster that stores one lease, whose version grows by a letter.
use Prim.Native.String.{◌++◌ as ◌&◌}
use ruptura.Base.{
  ◌+◌, ◌≤◌, ◌≡◌, ◌≢◌, ◌↔◌, refl, true, inl, inr, String, List, [], ◌∷◌, All, IsUnique, Option, some,
  none, Bool-cases, if◌then◌else◌, ◌==◌, ==_iff, string_eq, Time,
}
use ruptura.Operator.{
  Lease, got, not_found, SendResult, sent, conflict, Method, post, put, Api, Clock, holds, held_by,
  claim, write, held, claim_result, lease_duration, Condition, conditions, wants,
}
use ruptura.Operator.Claim.{IsApi, IsFree, claim-excludes}
use ruptura.Operator.Validate.{
  Url, RupturaInstanceSpec, validate_spec, problems_of, check_inputs, check_channels,
  channel_problems, check_choice,
}
use ruptura.Operator.Requirements.{IsDeployable}
use ruptura.Operator.Deployed.{validate_spec-IsDeployable}
use ruptura.Operator.Transition.{types_of, IsKept, conditions-IsKept}

abbrev next_version : Lease → Lease → Lease
next_version old l = record l { resource_version = old.resource_version & "v" }

abbrev first_version : Lease → Lease
first_version l = record l { resource_version = "v" }

abbrev cluster_send : Option Lease → Method → Lease → SendResult × Option Lease
cluster_send none post l = (sent, some (first_version l))
cluster_send (some old) post l = (conflict, some old)
cluster_send none put l = (conflict, none)
cluster_send (some old) put l =
    if old.resource_version == l.resource_version
    then (sent, some (next_version old l))
    else (conflict, some old)

abbrev cluster : Api (Option Lease)
cluster = record { get = λ s. elim s [ none ↦ not_found | some l ↦ got l ]; send = cluster_send }

cluster-IsApi : IsApi cluster
cluster-IsApi = record { post_sent = at_post; put_sent = at_put }
  where
    at_post :
        (s : Option Lease) (l : Lease)
        → (cluster_send s post l).0 ≡ sent
        → (cluster.get s ≡ not_found)
          × ((stored : Lease) × (cluster.get (cluster_send s post l).1 ≡ got stored)
              × (stored.spec ≡ l.spec))
    at_post none l h = (refl, (first_version l, refl, refl))
    at_post (some old) l h = absurd (cc)

    at_put :
        (s : Option Lease) (l : Lease)
        → (cluster_send s put l).0 ≡ sent
        → ((old : Lease) × (cluster.get s ≡ got old) × (old.resource_version ≡ l.resource_version))
          × ((stored : Lease) × (cluster.get (cluster_send s put l).1 ≡ got stored)
              × (stored.spec ≡ l.spec))
    at_put none l h = absurd (cc)
    at_put (some old) l h = elim (Bool-cases (old.resource_version == l.resource_version)) [
      | inr other ↦ absurd (let lost = rw (cluster_send, other) at h in cc)
      | inl same ↦
          rw (cluster_send, same)
            (
              (old, refl, (==_iff old.resource_version l.resource_version).0 same),
              (next_version old l, refl, refl),
            )
    ]

abbrev clock : Clock
clock = record { parse = λ text. some 7; format = λ t. "7" }

abbrev empty : Option Lease
empty = none

claims : (claim clock cluster "ruptura-system" "shop" "main" empty empty 7).0 ≡ holds
unfolding claim write held claim_result
claims = refl

claim-excludes_example :
    IsFree clock "ruptura-system" 7 (cluster.get empty)
    × ((other ns' name' : String) (t : Option Lease) (time : Time)
        → other ≢ "ruptura-system"
        → time ≤ 7 + lease_duration
        → claim clock cluster other ns' name'
            (claim clock cluster "ruptura-system" "shop" "main" empty empty 7).1
            t
            time
          ≡ (held_by "ruptura-system", t))
claim-excludes_example =
    claim-excludes clock cluster cluster-IsApi "ruptura-system" "shop" "main" empty empty 7 7
      (λ e. absurd (cc)) refl (λ a b at there same. absurd (cc)) claims

abbrev earlier : List Condition
earlier = conditions [] "Running" "" 1 1 "09:00"

earlier-IsUnique : IsUnique (types_of earlier)
unfolding conditions wants
earlier-IsUnique = (
  λ h. elim h [ inl e ↦ cc | inr h' ↦ elim h' [ inl e ↦ cc | inr none_left ↦ none_left ] ],
  (λ h. elim h [ inl e ↦ cc | inr none_left ↦ none_left ], (λ h. h, tt)),
)

conditions-IsKept_example :
    All (IsKept earlier "10:00") (conditions earlier "Pending" "starting" 0 2 "10:00")
    × (types_of (conditions earlier "Pending" "starting" 0 2 "10:00")
        ≡ "Available" ∷ "Progressing" ∷ "Degraded" ∷ [])
conditions-IsKept_example =
    conditions-IsKept earlier "Pending" "starting" 0 2 "10:00" earlier-IsUnique

abbrev instance_spec : RupturaInstanceSpec
instance_spec = record {
  mode = "Deployment";
  scope = "";
  input = record {
    profile = "standard";
    prometheus = some (record {
      url = "https://thanos";
      tls = none;
      authorization =
          some (record { bearer_token = none; basic_auth = none; service_account_token = true });
    });
    otlp = none;
  };
  sensitivity = "balanced";
  horizon = "";
  channels = record { name = "ops"; alertmanager_url = some "https://am" } ∷ [];
  level = "";
}

abbrev url_of : String → Option Url
url_of text = some (record { scheme = "https"; host = text })

validate_spec-IsDeployable_example :
    (validate_spec (λ s. s) (λ n. "0") (λ s. none) url_of instance_spec ≡ none)
    ↔ IsDeployable (λ s. none) url_of instance_spec
validate_spec-IsDeployable_example =
    validate_spec-IsDeployable (λ s. s) (λ n. "0") (λ s. none) url_of instance_spec

no_problems : validate_spec (λ s. s) (λ n. "0") (λ s. none) url_of instance_spec ≡ none
unfolding validate_spec problems_of check_inputs check_channels channel_problems check_choice
no_problems = refl

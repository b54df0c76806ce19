-- ===== src/Operator.antt =====
-- workdir/operator: the lease of an instance (ownership.go) and its status conditions (conditions.go).
pub mod Claim
pub mod Transition
pub mod Validate
mod Deployable
mod Valid
mod Requirements
mod References
mod Ways
mod Deployed
mod Examples
use Prim.Native.String.{◌++◌ as ◌&◌}
use ruptura.Base.{
  ℕ, ◌+◌, ◌*◌, String, Bool, true, false, not, ◌&&◌, List, [], ◌∷◌, map, Option, some, none,
  if◌then◌else◌, ◌==◌, string_eq, Dict, Time, Duration, second, minute, ltb, nat_beq, ℤ, pos,
  pos_part, after,
}

abbrev pub lease_duration : Duration
lease_duration = 2 * minute

pub record LeaseSpec : Type 0 where
  pub holder_identity : String
  pub lease_duration_seconds : ℤ
  pub renew_time : String

-- The fields of ObjectMeta that a lease uses.
pub record Lease : Type 0 where
  pub name : String
  pub namespace : String
  pub resource_version : String
  pub labels : Dict String String
  pub spec : LeaseSpec

-- What the cluster's API answers: the client is k8sClient, whose requests go over the network.
pub data GetResult : Type 0 where
  got : Lease → GetResult
  not_found : GetResult
  get_failed : String → GetResult

pub data SendResult : Type 0 where
  sent conflict : SendResult
  send_failed : String → SendResult

pub data Method : Type 0 where
  post put : Method

-- S is the state of the cluster, of which an instance has one lease.
pub record Api (S : Type 0) : Type 0 where
  pub get : S → GetResult
  pub send : S → Method → Lease → SendResult × S

-- time.Parse(time.RFC3339Nano, _), `none` on an error, and the format of `held`.
pub record Clock : Type 0 where
  pub parse : String → Option Time
  pub format : Time → String

-- `claim` returns "", the identity of another holder, or an error.
pub data Outcome : Type 0 where
  holds : Outcome
  held_by : String → Outcome
  failed : String → Outcome

module _ (clock : Clock) where
  abbrev pub held_spec : String → Time → LeaseSpec
  held_spec identity now = record {
    holder_identity = identity;
    lease_duration_seconds = pos 120;
    renew_time = clock.format now;
  }

  unfoldable pub held : Lease → String → Time → Lease
  held lease identity now = record lease { spec = held_spec identity now }

  -- A duration that is not positive counts as leaseDuration.
  abbrev duration_of : LeaseSpec → Duration
  duration_of spec =
      let seconds = pos_part spec.lease_duration_seconds in
      if nat_beq seconds 0 then lease_duration else seconds * second

  unfoldable pub expired : LeaseSpec → Time → Bool
  expired spec now = elim (clock.parse spec.renew_time) [
    | none ↦ true
    | some renewed ↦ after now (renewed + duration_of spec)
  ]

unfoldable pub claim_result : SendResult → Outcome
claim_result sent = holds
claim_result conflict = held_by "another operator"
claim_result (send_failed e) = failed e

abbrev new_lease : String → String → Lease
new_lease ns name = record {
  name = name & "-operator";
  namespace = ns;
  resource_version = "";
  labels =
      ("app.kubernetes.io/managed-by", "ruptura-operator")
      ∷ ("app.kubernetes.io/instance", name)
      ∷ [];
  spec = record { holder_identity = ""; lease_duration_seconds = pos 0; renew_time = "" };
}

module _ {S : Type 0} (clock : Clock) (api : Api S) where
  -- The request that writes a lease, and its answer.
  unfoldable pub write : S → Method → Lease → Outcome × S
  unfolding claim_result
  write s method lease = let (answer, s') = api.send s method lease in (claim_result answer, s')

  -- `read` is the state in which the lease is read, and `s` the one in which it is written. `identity`
  -- is the namespace of the operator, `ns` and `name` those of the instance.
  unfoldable pub claim : String → String → String → S → S → Time → Outcome × S
  unfolding write held expired
  claim identity ns name read s now = elim (api.get read) [
    | not_found ↦ write s post (held clock (new_lease ns name) identity now)
    | get_failed e ↦ (failed e, s)
    | got lease ↦
        let holder = lease.spec.holder_identity in
        if not (holder == "") && (not (holder == identity) && not (expired clock lease.spec now))
        then (held_by holder, s)
        else write s put (held clock lease identity now)
  ]

pub record Condition : Type 0 where
  pub type_ : String
  pub status : String
  pub reason : String
  pub message : String
  pub last_transition_time : String
  pub observed_generation : ℕ

-- The local type `want` of `conditions`.
pub record Want : Type 0 where
  pub kind : String
  pub status : String
  pub reason : String
  pub message : String

abbrev want : String → String → String → String → Want
want kind status reason message = record {
  kind = kind;
  status = status;
  reason = reason;
  message = message;
}

unfoldable pub wants : String → String → ℕ → List Want
wants phase message ready =
    if phase == "Running"
    then want "Available" "True" "EngineReady" "The engine is ready"
      ∷ want "Progressing" "False" "Reconciled" "The instance matches its spec"
      ∷ want "Degraded" "False" "Reconciled" ""
      ∷ []
    else if phase == "Pending"
    then want "Available" "False" "EngineNotReady" message
      ∷ want "Progressing" "True" "Deploying" message
      ∷ want "Degraded" "False" "Deploying" ""
      ∷ []
    else if phase == "Degraded"
    then (if ltb 0 ready
        then want "Available" "True" "PreviousEngineServing" message
        else want "Available" "False" "EngineNotReady" message)
      ∷ want "Progressing" "False" "ChangeNotApplied" message
      ∷ want "Degraded" "True" "ChangeNotApplied" message
      ∷ []
    else want "Available" "False" "InvalidSpec" message
      ∷ want "Progressing" "False" "InvalidSpec" message
      ∷ want "Degraded" "True" "InvalidSpec" message
      ∷ []

abbrev pub is_same : Want → Condition → Bool
is_same w p = (p.type_ == w.kind) && ((p.status == w.status) && not (p.last_transition_time == ""))

-- The inner loop over the previous conditions: the last one that is the same decides.
unfoldable pub since : List Condition → Want → String → String
since [] w stamp = stamp
since (p ∷ previous) w stamp =
    since previous w (if is_same w p then p.last_transition_time else stamp)

-- `stamp` is the time of the call as text.
unfoldable pub conditions : List Condition → String → String → ℕ → ℕ → String → List Condition
unfolding wants since
conditions previous phase message ready generation stamp =
    map
      (λ (w : Want). record {
        type_ = w.kind;
        status = w.status;
        reason = w.reason;
        message = w.message;
        last_transition_time = since previous w stamp;
        observed_generation = generation;
      })
      (wants phase message ready)

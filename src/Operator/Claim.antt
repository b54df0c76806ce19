-- ===== src/Operator/Claim.antt =====
-- ownership.go: an operator takes over an instance only if no other operator holds it.
use ruptura.Base.{
  ◌+◌, ◌≤◌, ◌≡◌, ◌≢◌, refl, sym, ap, subst, ◌⊎◌, inl, inr, String, true, false, not, ◌&&◌, some,
  Bool-cases, ◌==◌, ==_iff, ==_ne, string_eq, Time, arith,
}
use ruptura.Operator.{
  LeaseSpec, Lease, GetResult, got, not_found, get_failed, SendResult, sent, conflict, send_failed,
  post, put, Api, Clock, holds, held_by, held_spec, held, expired, claim_result, write, claim,
  lease_duration,
}

-- No other operator than `identity` holds the lease.
abbrev pub IsFree : Clock → String → Time → GetResult → Type 0
IsFree clock identity now result =
    (result ≡ not_found)
    ⊎ ((l : Lease) × (result ≡ got l)
        × ((l.spec.holder_identity ≡ "")
            ⊎ ((l.spec.holder_identity ≡ identity) ⊎ (expired clock l.spec now ≡ true))))

module _ {S : Type 0} where
  -- Optimistic concurrency as the API of Kubernetes documents it: a lease that was read has a version,
  -- a POST succeeds only where there is no lease, a PUT only on the version that it names, and what
  -- they write is then there.
  pub record IsApi (api : Api S) : Type 0 where
    pub post_sent :
        (s : S) (l : Lease)
        → (api.send s post l).0 ≡ sent
        → (api.get s ≡ not_found)
          × ((stored : Lease) × (api.get (api.send s post l).1 ≡ got stored)
              × (stored.spec ≡ l.spec))
    pub put_sent :
        (s : S) (l : Lease)
        → (api.send s put l).0 ≡ sent
        → ((old : Lease) × (api.get s ≡ got old) × (old.resource_version ≡ l.resource_version))
          × ((stored : Lease) × (api.get (api.send s put l).1 ≡ got stored)
              × (stored.spec ≡ l.spec))

  -- Between two states of the cluster a version names one content of the lease.
  abbrev pub IsVersioned : Api S → S → S → Type 0
  IsVersioned api read s =
      (a b : Lease)
      → api.get read ≡ got a
      → api.get s ≡ got b
      → b.resource_version ≡ a.resource_version
      → b.spec ≡ a.spec

GetResult-cases :
    (r : GetResult)
    → (r ≡ not_found) ⊎ (((e : String) × (r ≡ get_failed e)) ⊎ ((l : Lease) × (r ≡ got l)))
GetResult-cases not_found = inl refl
GetResult-cases (get_failed e) = inr (inl (e, refl))
GetResult-cases (got l) = inr (inr (l, refl))

claim_result-holds : (r : SendResult) → claim_result r ≡ holds → r ≡ sent
unfolding claim_result
claim_result-holds sent h = refl
claim_result-holds conflict h = absurd (cc)
claim_result-holds (send_failed e) h = absurd (cc)

module _ {S : Type 0} (clock : Clock) (api : Api S) where
  held_spec-excludes :
      (identity other ns name : String) (now renewed time : Time) (l : Lease) (read s : S)
      → identity ≢ ""
      → clock.parse (clock.format now) ≡ some renewed
      → l.spec ≡ held_spec clock identity now
      → api.get read ≡ got l
      → other ≢ identity
      → time ≤ renewed + lease_duration
      → claim clock api other ns name read s time ≡ (held_by identity, s)
  unfolding claim expired
  held_spec-excludes identity other ns name now renewed time l read s named parsed spec there away
        soon =
      let holder : l.spec.holder_identity ≡ identity =
        ap (λ (x : LeaseSpec). x.holder_identity) spec in
      let fresh : expired clock l.spec time ≡ false = rw (spec, expired, parsed) (ground arith) in
      let some_holder : (identity == "") ≡ false = ==_ne identity "" named in
      let not_other : (identity == other) ≡ false = ==_ne identity other (λ e. away (sym e)) in
      rw (claim, there, fresh, holder, some_holder, not_other)

module _ {S : Type 0} (clock : Clock) (api : Api S) (lawful : IsApi api) where
  claim-IsFree :
      (identity ns name : String) (read s : S) (now : Time)
      → IsVersioned api read s
      → (claim clock api identity ns name read s now).0 ≡ holds
      → IsFree clock identity now (api.get s)
        × ((l : Lease) × (api.get (claim clock api identity ns name read s now).1 ≡ got l)
            × (l.spec ≡ held_spec clock identity now))
  unfolding claim write held
  claim-IsFree identity ns name read s now versioned won = elim (GetResult-cases (api.get read)) [
    | inl missing ↦
        let done = rw (claim, missing, write) at won in
        let (free, there) = lawful.post_sent s _ (claim_result-holds _ done) in
        rw (claim, missing, write) (inl free, there)
    | inr (inl (e, broken)) ↦ absurd (let lost = rw (claim, broken) at won in cc)
    | inr (inr (lease, found)) ↦
        elim (Bool-cases (
          not (lease.spec.holder_identity == "")
          && (not (lease.spec.holder_identity == identity)
              && not (expired clock lease.spec now)))) [
                | inl taken ↦ absurd (let lost = rw (claim, found, taken) at won in cc)
                | inr free ↦
                    let done = rw (claim, found, free, write) at won in
                    let ((old, at, same), there) =
                      lawful.put_sent s _ (claim_result-holds _ done) in
                    let spec : old.spec ≡ lease.spec = versioned lease old found at same in
                    let open_lease : (lease.spec.holder_identity ≡ "")
                        ⊎ ((lease.spec.holder_identity ≡ identity)
                            ⊎ (expired clock lease.spec now ≡ true)) =
                      ground (
                        arith,
                        ==_iff lease.spec.holder_identity "",
                        ==_iff lease.spec.holder_identity identity,
                      ) in
                    rw (claim, found, free, write)
                      (
                        inr (
                          old,
                          at,
                          subst
                              (λ (t : LeaseSpec).
                                (t.holder_identity ≡ "")
                                ⊎ ((t.holder_identity ≡ identity) ⊎ (expired clock t now ≡ true)))
                              (sym spec) open_lease,
                        ),
                        there,
                      )
              ]
  ]

  -- If `claim` says that an operator holds an instance, then no other one held it when the claim was
  -- written: there was no lease, or it named nobody or this operator, or it had expired. The lease that
  -- is then stored keeps every other operator out until two minutes after the time that it was renewed:
  -- until then its claim returns the holder and writes nothing.
  pub claim-excludes :
      (identity ns name : String) (read s : S) (now renewed : Time)
      → identity ≢ ""
      → clock.parse (clock.format now) ≡ some renewed
      → IsVersioned api read s
      → (claim clock api identity ns name read s now).0 ≡ holds
      → IsFree clock identity now (api.get s)
        × ((other ns' name' : String) (t : S) (time : Time)
            → other ≢ identity
            → time ≤ renewed + lease_duration
            → claim clock api other ns' name' (claim clock api identity ns name read s now).1 t time
              ≡ (held_by identity, t))
  claim-excludes identity ns name read s now renewed named parsed versioned won =
      let (free, (l, there, spec)) = claim-IsFree identity ns name read s now versioned won in
      (
        free,
        λ other ns' name' t time away soon.
            held_spec-excludes clock api identity other ns' name' now renewed time l _ t named
              parsed spec there away soon,
      )

-- ===== src/Fusion/Ready.antt =====
-- fusion.go: when FusedR gives a value, and what it is where only the infrastructure pipeline is fresh.
use ruptura.Base.{
  ℕ, ◌+◌, ◌-◌, ◌≤◌, ◌≡◌, refl, ◌≢◌, ◌↔◌, ◌⊎◌, inl, inr, String, Bool, false, ◌||◌, some, Bool-cases,
  nat_beq, ltb, lookup, string_eq, Time, Float, arith,
}
use ruptura.Fusion.{
  Engine, HostData, fused, stale_threshold, max_lag, latest_of, is_lagging, clear_stale, one_if,
  fresh_ts, fuse, fuse_fresh, fused_r, fused_four, zero_f, max_fused_r, lags, later_of,
}

-- Two signals are within 30 seconds of each other, if both were ever received.
abbrev pub AreClose : Time → Time → Type 0
AreClose a b = (a ≡ 0) ⊎ ((b ≡ 0) ⊎ (a ≤ b + max_lag) × (b ≤ a + max_lag))

-- The signal was received, and not more than five minutes ago.
abbrev pub IsFresh : Time → Time → Type 0
IsFresh now ts = (ts ≢ 0) × (now ≤ ts + stale_threshold)

pub record IsReady {F : Type 0} (now : Time) (h : HostData F) : Type 0 where
  pub metric_log : AreClose h.metric_ts h.log_ts
  pub metric_trace : AreClose h.metric_ts h.trace_ts
  pub log_trace : AreClose h.log_ts h.trace_ts
  pub some_fresh :
      IsFresh now h.metric_ts
      ⊎ (IsFresh now h.log_ts ⊎ (IsFresh now h.trace_ts ⊎ IsFresh now h.infra_ts))

or_false : (a b c : Bool) → ((a || (b || c)) ≡ false) ↔ ((a ≡ false) × (b ≡ false) × (c ≡ false))
or_false a b c = ground arith

lags_iff : (latest ts : Time) → (lags latest ts ≡ false) ↔ ((ts ≡ 0) ⊎ (latest ≤ ts + max_lag))
lags_iff latest ts = ground arith

later_of_cases : (a b : Time) → (later_of a b ≡ a) × (b ≤ a) ⊎ (later_of a b ≡ b) × (a ≤ b)
later_of_cases a b = ground arith

one_if-IsFresh :
    (now ts : Time)
    → IsFresh now ts × (one_if (fresh_ts now ts) ≡ 1)
      ⊎ (¬ IsFresh now ts) × (one_if (fresh_ts now ts) ≡ 0)
one_if-IsFresh now ts = ground arith

module _ {F : Type 0} where
  not_lagging :
      (h : HostData F)
      → (is_lagging h ≡ false) ↔ (
          AreClose h.metric_ts h.log_ts
          × AreClose h.metric_ts h.trace_ts
          × AreClose h.log_ts h.trace_ts)
  unfolding is_lagging
  not_lagging h = ground (
    arith,
    or_false (lags (latest_of h) h.metric_ts) (lags (latest_of h) h.log_ts)
        (lags (latest_of h) h.trace_ts),
    lags_iff (latest_of h) h.metric_ts,
    lags_iff (latest_of h) h.log_ts,
    lags_iff (latest_of h) h.trace_ts,
    later_of_cases h.metric_ts h.log_ts,
    later_of_cases (later_of h.metric_ts h.log_ts) h.trace_ts,
  )

  -- The active signals that FusedR counts.
  abbrev fresh_count : Time → HostData F → ℕ
  fresh_count now h =
      one_if (fresh_ts now h.metric_ts)
      + one_if (fresh_ts now h.log_ts)
      + one_if (fresh_ts now h.trace_ts)
      + one_if (fresh_ts now h.infra_ts)

  count-IsFresh :
      (now : Time) (h : HostData F)
      → (nat_beq (fresh_count now h) 0 ≡ false) ↔ (
          IsFresh now h.metric_ts
          ⊎ (IsFresh now h.log_ts ⊎ (IsFresh now h.trace_ts ⊎ IsFresh now h.infra_ts)))
  count-IsFresh now h = ground (
    arith,
    one_if-IsFresh now h.metric_ts,
    one_if-IsFresh now h.log_ts,
    one_if-IsFresh now h.trace_ts,
    one_if-IsFresh now h.infra_ts,
  )

module _ {F : Type 0} ⦃fl : Float F⦄ where
  -- For a host that is known, FusedR returns a value and no error if and only if any two of the metric,
  -- log and trace signals that were ever received are within 30 seconds of each other, and one of the
  -- four signals was received and is not older than five minutes.
  pub fused_r_returns :
      (e : Engine F) (host : String) (h : HostData F) (now later : Time)
      → lookup host e ≡ some h
      → ((v : F) × (t : Time) × (fused_r e host now later ≡ fused v t)) ↔ IsReady now h
  unfolding fused_r fuse_fresh clear_stale
  fused_r_returns e host h now later known =
      rw (fused_r, known)
        (elim (Bool-cases (is_lagging h)) [
          | inl lagging ↦ rw lagging (
            λ (v, t, bad). absurd (cc),
            λ ready. absurd (
                let calm : is_lagging h ≡ false =
                  (not_lagging h).1 (ready.metric_log, ready.metric_trace, ready.log_trace) in
                cc),
          )
          | inr calm ↦
              let (ml, mt, lt) = (not_lagging h).0 calm in
              elim (Bool-cases (nat_beq (fresh_count now h) 0)) [
                | inl silent ↦
                    rw (calm, fuse_fresh, silent)
                      (
                        λ (v, t, bad). absurd (cc),
                        λ ready.
                            absurd (let heard = (count-IsFresh now h).1 ready.some_fresh in cc),
                      )
                | inr heard ↦
                    rw (calm, fuse_fresh, heard)
                      (
                        λ returned. record {
                          metric_log = ml;
                          metric_trace = mt;
                          log_trace = lt;
                          some_fresh = (count-IsFresh now h).0 heard;
                        },
                        λ ready. (_, _, refl),
                      )
              ]
        ])

  -- A host of which only the infrastructure signal was ever received, not more than five minutes ago,
  -- gets the value 0 at the zero time and no error.
  pub fused_r_infra_only :
      (e : Engine F) (host : String) (r : F) (ts now later : Time)
      → lookup host e
        ≡ some (record {
          metric_val = zero_f;
          log_val = zero_f;
          trace_val = zero_f;
          infra_val = r;
          metric_ts = 0;
          log_ts = 0;
          trace_ts = 0;
          infra_ts = ts;
        })
      → IsFresh now ts
      → now ≤ later
      → IsFresh later ts
      → fl.lt max_fused_r zero_f ≡ false
      → fused_r e host now later ≡ fused zero_f 0
  unfolding fused_r is_lagging fuse_fresh clear_stale fuse fused_four
  fused_r_infra_only e host r ts now later known fresh order fresh_later bound =
      let soon : ltb stale_threshold (now - ts) ≡ false = ground arith in
      let late : ltb stale_threshold (later - ts) ≡ false = ground arith in
      let set : nat_beq ts 0 ≡ false = ground arith in
      rw (
        fused_r, known, fuse_fresh, fuse, clear_stale, fused_four, set, soon, set, late, set, bound,
      )

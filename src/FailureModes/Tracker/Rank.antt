-- ===== src/FailureModes/Tracker/Rank.antt =====
-- The ranking of Worst: which of the estimates it considers comes out.
use ruptura.Base.{
  ◌+◌, ◌*◌, ◌≡◌, refl, ap, subst, inl, inr, ◌≢◌, String, List, [], ◌∷◌, Option, some, none, arith,
  All, Has, All-Has, Bool-cases, Float, ℤ, pos, lt_ℤ, ◌≤ℤ◌, ≤ℤ_refl, ≤ℤ_trans, lt_ℤ→lt, not_lt_ℤ→le,
  Time, minute, lookup, string_eq, pos_part, neg_part,
}
use ruptura.FailureModes.Estimate.{Estimate, cpu_throttling, urgency, condition_urgency_etf}
use ruptura.FailureModes.Tracker.{Tracker}
use ruptura.FailureModes.Tracker.Worst.{consider_all, candidates, release_estimates, worst}

module _ {F : Type 0} ⦃fl : Float F⦄ where
  -- `e` is at least as urgent as each of `es`.
  abbrev pub Outranks : Estimate F → List (Estimate F) → Type 0
  Outranks e es = All (λ x. urgency e ≤ℤ urgency x) es

  Outranks-trans :
      (e f : Estimate F) (es : List (Estimate F))
      → urgency e ≤ℤ urgency f
      → Outranks f es
      → Outranks e es
  Outranks-trans e f [] h k = tt
  Outranks-trans e f (x ∷ xs) h k =
      (≤ℤ_trans (urgency e) (urgency f) (urgency x) h k.0, Outranks-trans e f xs h k.1)

  consider_all-some :
      (w : Estimate F) (es : List (Estimate F))
      → (e : Estimate F) × (consider_all (some w) es ≡ some e)
        × (urgency e ≤ℤ urgency w)
        × Outranks e es
        × Has e (w ∷ es)
  consider_all-some w [] = (w, refl, ≤ℤ_refl (urgency w), tt, inl refl)
  consider_all-some w (x ∷ xs) = elim (Bool-cases (lt_ℤ (urgency x) (urgency w))) [
    | inl sooner ↦
        let (e, found, below, rest, has) = consider_all-some x xs in
        let above : urgency e ≤ℤ urgency w =
          omega (arith, lt_ℤ→lt (urgency x) (urgency w) sooner, below) in
        rw sooner (e, found, above, (below, rest), inr has)
    | inr later ↦
        let (e, found, below, rest, has) = consider_all-some w xs in
        let above : urgency e ≤ℤ urgency x =
          ≤ℤ_trans (urgency e) (urgency w) (urgency x) below
            (not_lt_ℤ→le (urgency x) (urgency w) later) in
        rw later (e, found, below, (above, rest), skip e w x xs has)
  ]
    where
      skip : (e w x : Estimate F) (xs : List (Estimate F)) → Has e (w ∷ xs) → Has e (w ∷ x ∷ xs)
      skip e w x xs (inl p) = inl p
      skip e w x xs (inr p) = inr (inr p)

  -- What Worst is to say of a list of estimates: nothing of none, else one of them that is at least
  -- as urgent as every other.
  pub data Verdict (es : List (Estimate F)) (r : Option (Estimate F)) : Type 0 where
    nothing : es ≡ [] → r ≡ none → Verdict es r
    most_urgent : (e : Estimate F) → r ≡ some e → Has e es → Outranks e es → Verdict es r

  consider_all-Verdict : (es : List (Estimate F)) → Verdict es (consider_all none es)
  consider_all-Verdict [] = nothing refl refl
  consider_all-Verdict (w ∷ xs) =
      let (e, found, below, rest, has) = consider_all-some w xs in
      most_urgent e found has (below, rest)

  -- The estimates that Worst considers for a workload.
  abbrev pub considered : Tracker F → String → Time → List (Estimate F)
  considered t workload now =
      let (r, regression, divergent) = release_estimates (lookup workload t.releases) now in
      candidates t workload now regression divergent

  -- Worst reports an estimate that it considers and that no other outranks, and reports nothing only
  -- if there is nothing to consider.
  pub worst-Verdict :
      (t : Tracker F) (workload : String) (now : Time)
      → Verdict (considered t workload now) (worst t workload now).1
  unfolding worst
  worst-Verdict t workload now = consider_all-Verdict (considered t workload now)

  throttling_urgency :
      (e : Estimate F) → e.mode ≡ cpu_throttling → urgency e ≡ pos condition_urgency_etf
  unfolding urgency
  throttling_urgency e h = rw h

  verdict_urgency :
      (es : List (Estimate F)) (r : Option (Estimate F)) (e c : Estimate F)
      → Verdict es r
      → r ≡ some e
      → Has c es
      → urgency e ≤ℤ urgency c
  verdict_urgency es r e c (nothing empty none_found) found has = absurd (cc)
  verdict_urgency es r e c (most_urgent f found_f has_f ranks) found has =
      let same : f ≡ e = cc in
      subst (λ x. urgency x ≤ℤ urgency c) same
        (All-Has (λ x. urgency f ≤ℤ urgency x) c es ranks has)

  -- When Worst reports an estimate: if some considered estimate leaves at most ten minutes, the reported
  -- one is not throttling; and if throttling is considered, the reported one leaves at most ten minutes
  -- and one nanosecond.
  pub worst_priority :
      (t : Tracker F) (workload : String) (now : Time) (e c : Estimate F)
      → (worst t workload now).1 ≡ some e
      → Has c (considered t workload now)
      → (urgency c ≤ℤ pos (10 * minute) → e.mode ≢ cpu_throttling)
        × (c.mode ≡ cpu_throttling → urgency e ≤ℤ pos (10 * minute + 1))
  worst_priority t workload now e c found has = (
    λ imminent throttled. absurd (omega (arith, at_most, clock (throttling_urgency e throttled))),
    λ throttled. omega (arith, at_most, clock (throttling_urgency c throttled)),
  )
    where
      at_most : urgency e ≤ℤ urgency c
      at_most = verdict_urgency _ _ e c (worst-Verdict t workload now) found has

      clock : {a b : ℤ} → a ≡ b → (pos_part a ≡ pos_part b) × (neg_part a ≡ neg_part b)
      clock p = (ap pos_part p, ap neg_part p)

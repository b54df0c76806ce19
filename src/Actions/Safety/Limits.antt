-- ===== src/Actions/Safety/Limits.antt =====
-- safety.go: what Allow grants to one host.
use ruptura.Base.{
  ℕ, ◌+◌, ◌-◌, ◌≤◌, ◌≡◌, inl, inr, List, [], ◌∷◌, All, length, ltb, ltb→lt, le→ltb-false,
  Bool-cases, if◌then◌else◌, Time, hour, arith,
}
use ruptura.Actions.Safety.{HostState, spend}

-- The number of grants over the calls at some times.
unfoldable pub grants : ℕ → HostState → List Time → ℕ
grants most s [] = 0
grants most s (now ∷ times) =
    let (s', allowed) = spend most s now in
    let rest = grants most s' times in if allowed then rest + 1 else rest

-- Calls no later than an hour after the host's window started are granted as long as the count is
-- below the limit, and never after: with n calls, the lesser of n and what is left.
pub grants_within_the_hour :
    (most : ℕ) (s : HostState) (times : List Time)
    → All (λ now. now ≤ s.window_start + hour) times
    → s.count ≤ most
    → grants most s times
      ≡ (if ltb (length times) (most - s.count) then length times else most - s.count)
unfolding grants spend
grants_within_the_hour most s [] h c = ground arith
grants_within_the_hour most s (now ∷ times) h c =
    rw (le→ltb-false hour (now - s.window_start) (omega (arith, h.0)))
      (elim (Bool-cases (ltb s.count most)) [
        | inl room ↦
            let spent : HostState = record s { count = s.count + 1 } in
            let ih =
              grants_within_the_hour most spent times h.1
                (omega (arith, ltb→lt s.count most room)) in
            rw room (rw ih (ground (arith, ltb→lt s.count most room)))
        | inr full ↦ rw full (rw (grants_within_the_hour most s times h.1 c) (ground (arith, full)))
      ])

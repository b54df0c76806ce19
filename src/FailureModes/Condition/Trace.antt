-- ===== src/FailureModes/Condition/Trace.antt =====
-- What a sequence of samples does to a throttling condition. A history holds, newest first, the time
-- of each sample and whether its ratio reached the threshold.
use ruptura.Base.{
  ℕ, ◌-◌, ◌≤◌, ◌<◌, ◌≡◌, refl, ◌⊎◌, inl, inr, Bool, true, false, List, [], ◌∷◌, arith, Time,
}
use ruptura.FailureModes.Condition.{
  Condition, new_condition, advance, condition_raise_after, condition_clear_after,
  condition_max_gap,
}

abbrev pub History : Type 0
History = List (Time × Bool)

abbrev pub newest : History → Time
newest [] = 0
newest ((at, _) ∷ _) = at

-- The detector after a history.
pub run : History → Condition
run [] = new_condition
run ((at, throttled) ∷ older) = advance (run older) at throttled

-- From `since` to the newest sample every sample was on side `b` of the threshold, and no silence
-- between two of them was longer than the maximal gap.
abbrev pub RunSince : Bool → History → Time → Type 0
RunSince b [] since = ⊥
RunSince b ((at, c) ∷ older) since =
    (c ≡ b) × ((since ≡ at) ⊎ ((at - newest older ≤ condition_max_gap) × RunSince b older since))

abbrev pub IsTimed : History → Type 0
IsTimed [] = Unit
IsTimed ((at, _) ∷ older) = (0 < at) × (newest older ≤ at) × IsTimed older

record Inv (h : History) (c : Condition) : Type 0 where
  last_newest : c.last ≡ newest h
  above_run : (c.run_start ≡ 0) ⊎ RunSince true h c.run_start
  below_run : (c.below_since ≡ 0) ⊎ RunSince false h c.below_since

advance-Inv :
    (c : Condition) (at : Time) (b : Bool) (older : History)
    → 0 < at
    → IsTimed older
    → Inv older c
    → Inv ((at, b) ∷ older) (advance c at b)
unfolding advance
advance-Inv c at true [] pos_at t v = ground arith
advance-Inv c at false [] pos_at t v = ground arith
advance-Inv c at true ((x, y) ∷ older) pos_at t v = ground arith
advance-Inv c at false ((x, y) ∷ older) pos_at t v = ground arith

run-Inv : (h : History) → IsTimed h → Inv h (run h)
unfolding run new_condition
run-Inv [] t = record { last_newest = refl; above_run = inl refl; below_run = inl refl }
run-Inv ((at, b) ∷ older) t = advance-Inv (run older) at b older t.0 t.2 (run-Inv older t.2)

-- A switch of `active` shows in the run that the detector has kept.
raises :
    (c : Condition) (at : Time) (b : Bool)
    → 0 < at
    → c.active ≡ false
    → (advance c at b).active ≡ true
    → let start = (advance c at b).run_start in (0 < start) × (condition_raise_after ≤ at - start)
unfolding advance
raises c at true p e h = ground arith
raises c at false p e h = ground arith

clears :
    (c : Condition) (at : Time) (b : Bool)
    → 0 < at
    → c.active ≡ true
    → (advance c at b).active ≡ false
    → let since = (advance c at b).below_since in (0 < since) × (condition_clear_after ≤ at - since)
unfolding advance
clears c at true p e h = ground arith
clears c at false p e h = ground arith

started {ℓ} : {P : Type ℓ} (n : ℕ) → 0 < n → (n ≡ 0) ⊎ P → P
started n p (inl e) = absurd (omega arith)
started n p (inr r) = r

-- For samples in order of time, all after the zero time: when a sample raises the condition, samples
-- at or above the threshold reach back at least ten minutes from it, and when it clears the condition,
-- samples below reach back at least five, in both cases with no silence longer than two minutes.
pub advance-switches :
    (h : History) (at : Time) (b : Bool)
    → IsTimed ((at, b) ∷ h)
    → ((run h).active ≡ false
        → (run ((at, b) ∷ h)).active ≡ true
        → (since : Time) × RunSince true ((at, b) ∷ h) since × (condition_raise_after ≤ at - since))
      × ((run h).active ≡ true
          → (run ((at, b) ∷ h)).active ≡ false
          → (since : Time) × RunSince false ((at, b) ∷ h) since
            × (condition_clear_after ≤ at - since))
unfolding run
advance-switches h at b t = (
  λ e e'.
      let (up, long) = raises (run h) at b t.0 e e' in
      ((run ((at, b) ∷ h)).run_start, started _ up v.above_run, long),
  λ e e'.
      let (down, long) = clears (run h) at b t.0 e e' in
      ((run ((at, b) ∷ h)).below_since, started _ down v.below_run, long),
)
  where
    v : Inv ((at, b) ∷ h) (advance (run h) at b)
    v = advance-Inv (run h) at b h t.0 t.2 (run-Inv h t.2)

RunSince-le :
    (b : Bool) (h : History) (since : Time) → IsTimed h → RunSince b h since → since ≤ newest h
RunSince-le b [] since t r = absurd r
RunSince-le b ((at, c) ∷ older) since t (e, inl here) = omega arith
RunSince-le b ((at, c) ∷ older) since t (e, inr (gap, r)) =
    omega (arith, RunSince-le b older since t.2 r)

above_start-le : (h : History) → IsTimed h → (run h).run_start ≤ newest h
above_start-le h t = elim (run-Inv h t).above_run [
  | inl none_yet ↦ omega arith
  | inr r ↦ RunSince-le true h _ t r
]

-- One sample on the upper side keeps the start of the run, or begins one.
keeps_start :
    (c : Condition) (at last : Time)
    → 0 < at
    → c.last ≡ last
    → c.run_start ≤ at
    → let start = (advance c at true).run_start in
      (0 < start)
      × (start ≤ at)
      × (at - last ≤ condition_max_gap → 0 < c.run_start → start ≡ c.run_start)
unfolding advance
keeps_start c at last p e h = (ground arith, ground arith, λ gap q. ground arith)

-- the detector knows of every run
run_starts :
    (h : History) (since : Time)
    → IsTimed h
    → RunSince true h since
    → (0 < (run h).run_start) × ((run h).run_start ≤ since)
unfolding run
run_starts [] since t r = absurd r
run_starts ((at, b) ∷ older) since t (e, r) = rw e (elim r [
  | inl here ↦ (k.0, rw here k.1)
  | inr (gap, run) ↦ let (p, q) = run_starts older since t.2 run in (k.0, omega (arith, k.2 gap p))
])
  where
    k :
        let start = (advance (run older) at true).run_start in
        (0 < start)
        × (start ≤ at)
        × (at - newest older ≤ condition_max_gap
            → 0 < (run older).run_start
            → start ≡ (run older).run_start)
    k =
        keeps_start (run older) at (newest older) t.0 (run-Inv older t.2).last_newest
          (omega (arith, above_start-le older t.2))

stays_raised :
    (c : Condition) (at : Time)
    → condition_raise_after ≤ at - (advance c at true).run_start
    → (advance c at true).active ≡ true
unfolding advance
stays_raised c at h = ground arith

-- For samples in order of time, all after the zero time: samples at or above the threshold that reach
-- back at least ten minutes from the newest, with no silence longer than two minutes, leave the
-- condition raised, whatever came before them.
pub run_raises :
    (h : History) (at since : Time)
    → IsTimed ((at, true) ∷ h)
    → RunSince true ((at, true) ∷ h) since
    → condition_raise_after ≤ at - since
    → (run ((at, true) ∷ h)).active ≡ true
unfolding run
run_raises h at since t r long =
    stays_raised (run h) at (omega (arith, run_starts ((at, true) ∷ h) since t r))

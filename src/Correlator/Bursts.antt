-- ===== src/Correlator/Bursts.antt =====
-- correlator.go: a burst makes at most one correlation event.
use Prim.Native.Nat.{zero, suc}
use Prim.Native.String.{◌++◌ as ◌&◌}
use ruptura.Base.{
  ℕ, ◌+◌, ◌≤◌, ◌≡◌, refl, inl, inr, String, Bool, false, ◌||◌, List, [], ◌∷◌, ◌++◌, select, Option,
  some, none, Option-cases, Bool-cases, if◌then◌else◌, ltb, ◌==◌, string_eq, lookup, Time, Float,
  arith,
}
use ruptura.Ring.{set_at, repeat}
use ruptura.Correlator.{
  CorrelationEvent, BurstEvent, PendingBurst, Engine, Maths, new_engine, new_ring, push_ring,
  is_due, event_of, correlate, try_correlate, observe_kpi, evict_stale_pending, observe_burst, prev,
}

-- 1 for the burst called x.
abbrev pub one_for : String → String → ℕ
one_for x id = if id == x then 1 else 0

module _ {F : Type 0} (x : String) where
  -- The stored events of the bursts called x.
  abbrev pub named : List (Option (CorrelationEvent F)) → ℕ
  named [] = 0
  named (none ∷ slots) = named slots
  named (some ev ∷ slots) = one_for x ev.burst_id + named slots

  -- The pending bursts called x that made no event yet.
  abbrev waiting : List (PendingBurst F) → ℕ
  waiting [] = 0
  waiting (pb ∷ pbs) = (if pb.correlated then 0 else one_for x pb.burst.id) + waiting pbs

  named-set_at :
      (i : ℕ) (ev : CorrelationEvent F) (slots : List (Option (CorrelationEvent F)))
      → named (set_at i (some ev) slots) ≤ one_for x ev.burst_id + named slots
  named-set_at i ev [] = omega arith
  named-set_at zero ev (none ∷ slots) = omega arith
  named-set_at zero ev (some old ∷ slots) = omega arith
  named-set_at (suc i) ev (none ∷ slots) = named-set_at i ev slots
  named-set_at (suc i) ev (some old ∷ slots) = omega (arith, named-set_at i ev slots)

  waiting-append :
      (pbs more : List (PendingBurst F)) → waiting (pbs ++ more) ≡ waiting pbs + waiting more
  waiting-append [] more = omega arith
  waiting-append (pb ∷ pbs) more = omega (arith, waiting-append pbs more)

  waiting-select :
      (p : PendingBurst F → Bool) (pbs : List (PendingBurst F))
      → waiting (select p pbs) ≤ waiting pbs
  waiting-select p [] = omega arith
  waiting-select p (pb ∷ pbs) = elim (Bool-cases (p pb)) [
    | inl kept ↦ rw kept (omega (arith, waiting-select p pbs))
    | inr dropped ↦ rw dropped (omega (arith, waiting-select p pbs))
  ]

  module _ ⦃fl : Float F⦄ where
    -- The events of x that are stored, with the bursts of x that may still make one.
    abbrev total : Engine F → ℕ
    total e = named e.store.slots + waiting e.pending_bursts

    total-evict : (e : Engine F) (now : Time) → total (evict_stale_pending e now) ≤ total e
    unfolding evict_stale_pending
    total-evict e now = omega (arith, waiting-select _ e.pending_bursts)

    total-burst :
        (e : Engine F) (burst : BurstEvent F) (now later : Time)
        → total (observe_burst e burst now later) ≤ total e + one_for x burst.id
    unfolding observe_burst
    total-burst e burst now later =
        let pb : PendingBurst F = record { burst = burst; added_at = now; correlated = false } in
        omega (
          arith,
          total-evict (record e { pending_bursts = e.pending_bursts ++ pb ∷ [] }) later,
          waiting-append e.pending_bursts (pb ∷ []),
        )

    module _ (ids : ℕ → String) (m : Maths F) where
      total-correlate :
          (e : Engine F) (host : String) (delta : F) (ts : Time) (pbs : List (PendingBurst F))
          → named (correlate ids m e host delta ts pbs).0.store.slots
              + waiting (correlate ids m e host delta ts pbs).1
            ≤ named e.store.slots + waiting pbs
      unfolding correlate push_ring event_of
      total-correlate e host delta ts [] = omega arith
      total-correlate e host delta ts (pb ∷ pbs) = elim (Bool-cases (is_due ts pb)) [
        | inr skipped ↦ rw skipped (omega (arith, total-correlate e host delta ts pbs))
        | inl due ↦
            let open_one : pb.correlated ≡ false = ground arith in
            let ev = event_of ids m e host delta ts pb in
            let stored = record e { store = push_ring e.store ev; drawn = e.drawn + 1 } in
            rw (due, open_one)
              (omega (
                arith,
                total-correlate stored host delta ts pbs,
                named-set_at e.store.pos_ ev e.store.slots,
              ))
      ]

      total-try_correlate :
          (e : Engine F) (host : String) (current : F) (ts : Time)
          → total (try_correlate ids m e host current ts) ≤ total e
      unfolding try_correlate
      total-try_correlate e host current ts =
          elim (Option-cases (lookup (host & ":health_score") e.kpi_history)) [
            | inl unknown ↦ rw (try_correlate, unknown) (omega arith)
            | inr (r, known) ↦
                let delta = fl.sub (prev r) current in
                elim (Bool-cases (ltb r.n 2 || fl.lt delta (fl.milli 10000))) [
                  | inl small ↦ rw (try_correlate, known, small) (omega arith)
                  | inr fell ↦
                      rw (try_correlate, known, fell)
                        (total-correlate e host delta ts e.pending_bursts)
                ]
          ]

      total-kpi :
          (e : Engine F) (host kpi : String) (value : F) (ts : Time)
          → total (observe_kpi ids m e host kpi value ts) ≤ total e
      unfolding observe_kpi
      total-kpi e host kpi value ts = elim (Bool-cases (kpi == "health_score")) [
        | inl health ↦ rw health (total-try_correlate _ host value ts)
        | inr other ↦ rw other (omega arith)
      ]

-- What the engine observes.
pub data Observation (F : Type 0) : Type 0 where
  kpi : (host name : String) → F → Time → Observation F
  burst : BurstEvent F → (now later : Time) → Observation F

module _ {F : Type 0} where
  -- The bursts called x among the observations.
  abbrev pub bursts_called : String → List (Observation F) → ℕ
  bursts_called x [] = 0
  bursts_called x (kpi host name value ts ∷ more) = bursts_called x more
  bursts_called x (burst b now later ∷ more) = one_for x b.id + bursts_called x more

module _ {F : Type 0} ⦃fl : Float F⦄ (ids : ℕ → String) (m : Maths F) where
  abbrev pub after_observations : Engine F → List (Observation F) → Engine F
  after_observations e [] = e
  after_observations e (kpi host name value ts ∷ more) =
      after_observations (observe_kpi ids m e host name value ts) more
  after_observations e (burst b now later ∷ more) =
      after_observations (observe_burst e b now later) more

  total-observations :
      (x : String) (e : Engine F) (observed : List (Observation F))
      → total x (after_observations e observed) ≤ total x e + bursts_called x observed
  total-observations x e [] = omega arith
  total-observations x e (kpi host name value ts ∷ more) = omega (
    arith,
    total-kpi x ids m e host name value ts,
    total-observations x (observe_kpi ids m e host name value ts) more,
  )
  total-observations x e (burst b now later ∷ more) =
      omega (
        arith,
        total-burst x e b now later,
        total-observations x (observe_burst e b now later) more,
      )

named-repeat : (F : Type 0) (x : String) (n : ℕ) → named {F = F} x (repeat n none) ≡ 0
named-repeat F x zero = refl
named-repeat F x (suc n) = named-repeat F x n

module _ {F : Type 0} ⦃fl : Float F⦄ (ids : ℕ → String) (m : Maths F) where
  -- Whatever a new engine observes, its store holds no more correlation events of a burst than bursts of
  -- that identifier were observed, so that a burst makes at most one event however often the score falls.
  pub named-after_observations :
      (x : String) (observed : List (Observation F))
      → named x (after_observations ids m new_engine observed).store.slots
        ≤ bursts_called x observed
  unfolding new_engine new_ring
  named-after_observations x observed =
      omega (arith, total-observations ids m x new_engine observed, named-repeat F x 1000)

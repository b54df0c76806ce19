-- ===== src/EventBus/Interleaving.antt =====
-- eventbus.go: what becomes of the events of a NatsBus under any interleaving of its goroutines.
use ruptura.Base.{
  ◌+◌, ◌≤◌, ◌≡◌, inl, inr, String, Bool, List, [], ◌∷◌, length, Option, Option-cases, Time, arith,
}
use ruptura.EventBus.{Event, MemBus, publish}
use ruptura.EventBus.Thins.{Thins, nothing}
use ruptura.EventBus.Nats.{
  NatsBus, new_nats_bus, queue_capacity, pick, publish_nats, receive, tick, stop,
}
use ruptura.EventBus.Flow.{
  Step, publishes, selects, takes, puts, receives, ticks, stops, closes, published_by, after_step,
  after_steps, tally, on_the_way, tally_all,
}
use ruptura.EventBus.Moves.{
  tally-append, IsStep, IsStep-refl, IsStep-if, IsStep-selects, IsStep-takes, IsStep-puts,
  IsStep-receive, IsStep-tick, IsStep-stop, IsStep-close,
}

module _ {P : Type 0} (marshal : P → Option String) where
  tally-published_by :
      (p : Event → Bool) (s : Step P) (more : List (Step P))
      → tally p (published_by marshal (s ∷ more))
        ≡ tally p (published_by marshal (s ∷ [])) + tally p (published_by marshal more)
  tally-published_by p (publishes topic org_id payload now later) more =
      elim (Option-cases (marshal payload)) [
        | inl failed ↦ rw (published_by, failed) (omega (arith))
        | inr (raw, encoded) ↦
            rw (published_by, encoded)
              (tally-append p
                (record { topic = topic; org_id = org_id; timestamp = later; payload = raw } ∷ [])
                (published_by marshal more))
      ]
  tally-published_by p (selects n) more = omega arith
  tally-published_by p (takes n) more = omega arith
  tally-published_by p (puts n) more = omega arith
  tally-published_by p receives more = omega arith
  tally-published_by p ticks more = omega arith
  tally-published_by p stops more = omega arith
  tally-published_by p closes more = omega arith

module _ {H P : Type 0} (marshal : P → Option String) where
  -- Publish waits before its select with the event, if its payload has an encoding.
  IsStep-publishes :
      (b : NatsBus H) (topic org_id : String) (payload : P) (now later : Time)
      → IsStep b
          (after_step marshal b (publishes topic org_id payload now later))
          (published_by marshal (publishes topic org_id payload now later ∷ []))
  unfolding publish_nats publish
  IsStep-publishes b topic org_id payload now later = elim (Option-cases (marshal payload)) [
    | inl failed ↦ rw (after_step, publish_nats, publish, published_by, failed) (IsStep-refl b)
    | inr (raw, encoded) ↦
        rw (after_step, publish_nats, publish, published_by, encoded, encoded)
          (record {
            is_bounded = λ h. h;
            is_ordered = λ h. h;
            is_counted = λ p. omega (
              arith,
              tally-append p b.selecting (
                  record { topic = topic; org_id = org_id; timestamp = later; payload = raw } ∷ []),
            );
          })
  ]

  after_step-IsStep :
      (b : NatsBus H) (s : Step P)
      → IsStep b (after_step marshal b s) (published_by marshal (s ∷ []))
  after_step-IsStep b (publishes topic org_id payload now later) =
      IsStep-publishes b topic org_id payload now later
  after_step-IsStep b (selects n) = elim (Option-cases (pick n b.selecting)) [
    | inl nowhere ↦ rw (after_step, nowhere) (IsStep-refl b)
    | inr (q, there) ↦ rw (after_step, there) (IsStep-selects b n q.0 q.1 there)
  ]
  after_step-IsStep b (takes n) = elim (Option-cases (pick n b.dropping)) [
    | inl nowhere ↦ rw (after_step, nowhere) (IsStep-refl b)
    | inr (q, there) ↦ rw (after_step, there) (IsStep-takes b n q.0 q.1 there)
  ]
  after_step-IsStep b (puts n) = elim (Option-cases (pick n b.holding)) [
    | inl nowhere ↦ rw (after_step, nowhere) (IsStep-refl b)
    | inr (q, there) ↦ rw (after_step, there) (IsStep-puts b n q.0 q.1 there)
  ]
  after_step-IsStep b receives = IsStep-if b (receive b) b.running (IsStep-receive b)
  after_step-IsStep b ticks = IsStep-if b (tick b) b.running (IsStep-tick b)
  after_step-IsStep b stops = IsStep-if b (stop b) b.running (IsStep-stop b)
  after_step-IsStep b closes = IsStep-close b

  after_steps-IsStep :
      (b : NatsBus H) (steps : List (Step P))
      → IsStep b (after_steps marshal b steps) (published_by marshal steps)
  after_steps-IsStep b [] = IsStep-refl b
  after_steps-IsStep b (s ∷ more) =
      let one = after_step-IsStep b s in
      let rest = after_steps-IsStep (after_step marshal b s) more in
      record {
        is_bounded = λ h. rest.is_bounded (one.is_bounded h);
        is_ordered = λ h. rest.is_ordered (one.is_ordered h);
        is_counted = λ p.
            omega (arith, one.is_counted p, rest.is_counted p, tally-published_by marshal p s more);
      }

  -- After any sequence of steps of the goroutines that publish, the flusher and Close, each select,
  -- receive and send a step of its own, the queue holds at most 4096 events. What was sent, what the
  -- flusher holds and what is queued are, one after the other, some of the events that entered the
  -- queue, in the order in which they entered. And of the published events that pass any test, as many
  -- have entered the queue, are with a goroutine still inside Publish or panicked with it on the closed
  -- channel as were published, so that none enters twice or vanishes before it enters.
  pub after_steps-Thins :
      (local : MemBus H) (steps : List (Step P))
      → (length (after_steps marshal (record new_nats_bus { local = local }) steps).queue
          ≤ queue_capacity)
        × Thins
            (on_the_way (after_steps marshal (record new_nats_bus { local = local }) steps))
            (after_steps marshal (record new_nats_bus { local = local }) steps).entered
        × ((p : Event → Bool)
            → tally_all p (after_steps marshal (record new_nats_bus { local = local }) steps)
              ≡ tally p (published_by marshal steps))
  after_steps-Thins local steps =
      let all = after_steps-IsStep (record new_nats_bus { local = local }) steps in
      (all.is_bounded (omega arith), all.is_ordered nothing, λ p. omega (arith, all.is_counted p))

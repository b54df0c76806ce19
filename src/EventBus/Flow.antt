-- ===== src/EventBus/Flow.antt =====
-- eventbus.go: the steps of the goroutines of a NatsBus, one at a time and in any order.
use ruptura.Base.{
  ℕ, ◌+◌, String, Bool, List, [], ◌∷◌, ◌++◌, select, length, Option, some, none, if◌then◌else◌,
  Time,
}
use ruptura.EventBus.{Event}
use ruptura.EventBus.Nats.{
  NatsBus, pick, publish_nats, select_queue, drop_oldest, send_queue, receive, tick, stop, close,
}

-- A step of one goroutine: the start of a call of Publish, with its two readings of the clock; the
-- select, the receive or the send of the one at a place; a step of the flusher; or Close.
pub data Step (P : Type 0) : Type 0 where
  publishes : (topic org_id : String) → (payload : P) → (now later : Time) → Step P
  selects takes puts : ℕ → Step P
  receives ticks stops closes : Step P

module _ {P : Type 0} (marshal : P → Option String) where
  -- The events of the calls of Publish, where the payload has an encoding.
  abbrev pub published_by : List (Step P) → List Event
  published_by [] = []
  published_by (publishes topic org_id payload now later ∷ more) =
      let rest = published_by more in
      elim (marshal payload) [
        | none ↦ rest
        | some raw ↦
            record { topic = topic; org_id = org_id; timestamp = later; payload = raw } ∷ rest
      ]
  published_by (selects n ∷ more) = published_by more
  published_by (takes n ∷ more) = published_by more
  published_by (puts n ∷ more) = published_by more
  published_by (receives ∷ more) = published_by more
  published_by (ticks ∷ more) = published_by more
  published_by (stops ∷ more) = published_by more
  published_by (closes ∷ more) = published_by more

module _ {H P : Type 0} (marshal : P → Option String) where
  -- A step at a place where there is no goroutine, or of the flusher that has returned, is none.
  abbrev pub after_step : NatsBus H → Step P → NatsBus H
  after_step b (publishes topic org_id payload now later) =
      elim (publish_nats marshal b topic org_id payload now later) [
        | none ↦ b
        | some called ↦ called.1
      ]
  after_step b (selects n) = elim (pick n b.selecting) [
    | none ↦ b
    | some picked ↦ select_queue (record b { selecting = picked.1 }) picked.0
  ]
  after_step b (takes n) = elim (pick n b.dropping) [
    | none ↦ b
    | some picked ↦ drop_oldest b (record b { dropping = picked.1 }) picked.0
  ]
  after_step b (puts n) = elim (pick n b.holding) [
    | none ↦ b
    | some picked ↦ send_queue b (record b { holding = picked.1 }) picked.0
  ]
  after_step b receives = if b.running then receive b else b
  after_step b ticks = if b.running then tick b else b
  after_step b stops = if b.running then stop b else b
  after_step b closes = close b

  abbrev pub after_steps : NatsBus H → List (Step P) → NatsBus H
  after_steps b [] = b
  after_steps b (s ∷ more) = after_steps (after_step b s) more

-- How many events pass a test.
abbrev pub tally : (Event → Bool) → List Event → ℕ
tally p events = length (select p events)

module _ {H : Type 0} where
  -- What was sent, what the flusher holds and what is queued, from the oldest.
  abbrev pub on_the_way : NatsBus H → List Event
  on_the_way b = b.sent ++ (b.pending ++ b.queue)

  -- How many events pass a test, of those that have entered the queue, those of the goroutines that are
  -- still inside Publish, and those of the goroutines that panicked.
  abbrev pub tally_all : (Event → Bool) → NatsBus H → ℕ
  tally_all p b =
      tally p b.entered
      + (tally p b.selecting + (tally p b.dropping + (tally p b.holding + tally p b.panicked)))

-- ===== src/EventBus/Nats.antt =====
-- workdir/internal/eventbus/eventbus.go: NatsBus, whose publishers and flusher share a channel without a
-- lock, as steps of these goroutines.
use ruptura.Base.{
  ℕ, zero, suc, String, Bool, true, false, List, [], ◌∷◌, ◌++◌, length, Option, some, none, ltb,
  if◌then◌else◌, Time,
}
use ruptura.EventBus.{Event, MemBus, new_mem_bus, subscribe, publish}

abbrev pub queue_capacity : ℕ
queue_capacity = 4096

-- `queue` and `closed` are the channel, `pending` is the slice of the flusher, `running` whether it has
-- not returned, and `sent` what publishBatch was given. The goroutines inside Publish stand by their
-- events: those before the select, those that take the oldest event out of the full queue, those that
-- put theirs in after that, and those that panicked on the closed channel. `entered` is a note of all
-- the events that were put in the queue, in order, which the code does not keep.
pub record NatsBus (H : Type 0) : Type 0 where
  pub local : MemBus H
  pub queue : List Event
  pub closed : Bool
  pub pending : List Event
  pub running : Bool
  pub sent : List Event
  pub selecting : List Event
  pub dropping : List Event
  pub holding : List Event
  pub panicked : List Event
  pub entered : List Event

abbrev pub new_nats_bus : {H : Type 0} → NatsBus H
new_nats_bus = record {
  local = new_mem_bus;
  queue = [];
  closed = false;
  pending = [];
  running = true;
  sent = [];
  selecting = [];
  dropping = [];
  holding = [];
  panicked = [];
  entered = [];
}

-- One of the goroutines at a place, and the others there.
abbrev pub pick : ℕ → List Event → Option (Event × List Event)
pick n [] = none
pick zero (e ∷ others) = some (e, others)
pick (suc n) (e ∷ more) = elim (pick n more) [
  | none ↦ none
  | some picked ↦ some (picked.0, e ∷ picked.1)
]

module _ {H P : Type 0} (marshal : P → Option String) where
  -- NatsBus.Publish up to its select, with its two readings of the clock: the local handlers that it
  -- calls, and the bus with a goroutine before the select.
  unfoldable pub publish_nats :
      NatsBus H → String → String → P → Time → Time → Option (List (H × Event) × NatsBus H)
  unfolding publish
  publish_nats b topic org_id payload now later =
      elim (publish marshal b.local topic org_id payload now) [
        | none ↦ none
        | some calls ↦
            let raw : String = elim (marshal payload) [ none ↦ "" | some raw ↦ raw ] in
            let e : Event = record {
              topic = topic;
              org_id = org_id;
              timestamp = later;
              payload = raw;
            } in
            some (calls, record b { selecting = b.selecting ++ e ∷ [] })
      ]

module _ {H : Type 0} where
  unfoldable pub subscribe_nats : NatsBus H → String → H → NatsBus H
  unfolding subscribe
  subscribe_nats b prefix h = record b { local = subscribe b.local prefix h }

  -- A send that goes through.
  abbrev pub put : NatsBus H → Event → NatsBus H
  put b e = record b { queue = b.queue ++ e ∷ []; entered = b.entered ++ e ∷ [] }

  abbrev pub panic : NatsBus H → Event → NatsBus H
  panic b e = record b { panicked = b.panicked ++ e ∷ [] }

  -- The select of Publish: a send that does not wait, and the way into the default.
  unfoldable pub select_queue : NatsBus H → Event → NatsBus H
  select_queue b e =
      if b.closed
      then panic b e
      else if ltb (length b.queue) queue_capacity
      then put b e
      else record b { dropping = b.dropping ++ e ∷ [] }

  -- `<-b.queue` in the default: it waits while the queue is empty and open. `waiting` is the bus where
  -- it waits.
  unfoldable pub drop_oldest : NatsBus H → NatsBus H → Event → NatsBus H
  drop_oldest waiting b e = elim b.queue [
    | [] ↦ if b.closed then record b { holding = b.holding ++ e ∷ [] } else waiting
    | _ ∷ rest ↦ record b { queue = rest; holding = b.holding ++ e ∷ [] }
  ]

  -- `b.queue <- e` in the default: it waits while the queue is full and open.
  unfoldable pub send_queue : NatsBus H → NatsBus H → Event → NatsBus H
  send_queue waiting b e =
      if b.closed
      then panic b e
      else if ltb (length b.queue) queue_capacity
      then put b e
      else waiting

  -- publishBatch(pending), which keeps no event whose request fails.
  abbrev pub publish_batch : NatsBus H → NatsBus H
  publish_batch b = record b { pending = []; sent = b.sent ++ b.pending }

  -- The flusher takes an event from the queue; the closed and empty one ends it.
  unfoldable pub receive : NatsBus H → NatsBus H
  receive b = elim b.queue [
    | [] ↦ if b.closed then record (publish_batch b) { running = false } else b
    | e ∷ rest ↦ record b { queue = rest; pending = b.pending ++ e ∷ [] }
  ]

  -- The flusher at a tick.
  unfoldable pub tick : NatsBus H → NatsBus H
  tick b = elim b.pending [ [] ↦ b | _ ∷ _ ↦ publish_batch b ]

  -- The flusher when its context is done: it returns with what it holds.
  unfoldable pub stop : NatsBus H → NatsBus H
  stop b = record b { pending = []; running = false }

  -- Close up to its wait for the flusher. On a bus that is closed it panics, and changes nothing.
  unfoldable pub close : NatsBus H → NatsBus H
  close b = record b { closed = true }

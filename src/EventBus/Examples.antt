-- ===== src/EventBus/Examples.antt =====
-- The theorems on the event buses at concrete histories.
use ruptura.Base.{ℕ, ◌≤◌, ◌≡◌, refl, String, Bool, List, [], ◌∷◌, map, length, Option, some}
use ruptura.EventBus.{Event, MemBus, new_mem_bus, publish, matched}
use ruptura.EventBus.Live.{Call, subscribes, cancels, run, publish-live}
use ruptura.EventBus.Thins.{Thins}
use ruptura.EventBus.Nats.{
  NatsBus, new_nats_bus, queue_capacity, publish_nats, select_queue, receive, tick, close,
}
use ruptura.EventBus.Flow.{
  Step, publishes, selects, receives, ticks, closes, after_steps, on_the_way, published_by, tally,
  tally_all,
}
use ruptura.EventBus.Interleaving.{after_steps-Thins}

abbrev encode : String → Option String
encode text = some text

-- Two subscriptions, of which the first is cancelled.
abbrev history : List (Call ℕ)
history = subscribes "ruptura." 7 ∷ subscribes "ruptura.alert" 8 ∷ cancels 1 ∷ []

publish-live_example :
    publish encode (run new_mem_bus history) "ruptura.alert.fire" "" "{}" 5
    ≡ some (
        (8, record { topic = "ruptura.alert.fire"; org_id = ""; timestamp = 5; payload = "{}" })
        ∷ [])
publish-live_example = publish-live encode history "ruptura.alert.fire" "" "{}" 5

-- Two publishers select in the other order, the flusher takes one event, and the bus is closed while a
-- third publisher is before its select.
abbrev steps : List (Step String)
steps =
    publishes "a" "" "1" 1 1
    ∷ publishes "b" "" "2" 2 2
    ∷ selects 1
    ∷ selects 0
    ∷ receives
    ∷ ticks
    ∷ publishes "c" "" "3" 3 3
    ∷ closes
    ∷ selects 0
    ∷ receives
    ∷ receives
    ∷ []

abbrev local_bus : MemBus ℕ
local_bus = new_mem_bus

abbrev last_bus : NatsBus ℕ
last_bus = after_steps encode (record new_nats_bus { local = local_bus }) steps

sent_and_panicked :
    (map (λ e. e.payload) (last_bus.sent) ≡ "2" ∷ "1" ∷ [])
    × (map (λ e. e.payload) (last_bus.panicked) ≡ "3" ∷ [])
unfolding publish_nats publish select_queue receive tick close matched
sent_and_panicked = (refl, refl)

after_steps-Thins_example :
    (length (after_steps encode (record new_nats_bus { local = local_bus }) steps).queue
      ≤ queue_capacity)
    × Thins
        (on_the_way (after_steps encode (record new_nats_bus { local = local_bus }) steps))
        (after_steps encode (record new_nats_bus { local = local_bus }) steps).entered
    × ((p : Event → Bool)
        → tally_all p (after_steps encode (record new_nats_bus { local = local_bus }) steps)
          ≡ tally p (published_by encode steps))
after_steps-Thins_example = after_steps-Thins encode local_bus steps

-- ===== src/EventBus.antt =====
-- workdir/internal/eventbus: MemBus, which calls the handlers of a process, here without NatsBus (eventbus.go),
-- and KafkaBus, which also writes the events to a broker (kafka.go).
pub mod Live
pub mod Thins
pub mod Nats
pub mod Flow
mod Moves
mod Interleaving
mod Examples
use text.Mathlib.Text.{starts_with}
use ruptura.Base.{
  ℕ, ◌+◌, String, List, [], ◌∷◌, ◌++◌, map, select, drop, length, Option, some, none, ltb,
  if◌then◌else◌, ◌==◌, nat_eq, Time,
}

pub record Event : Type 0 where
  pub topic : String
  pub org_id : String
  pub timestamp : Time
  pub payload : String

-- H is the type of the handlers.
pub record Sub (H : Type 0) : Type 0 where
  pub prefix : String
  pub handler : H
  pub id : ℕ

pub record MemBus (H : Type 0) : Type 0 where
  pub subs : List (Sub H)
  pub seq : ℕ

abbrev pub new_mem_bus : {H : Type 0} → MemBus H
new_mem_bus = record { subs = []; seq = 0 }

module _ {H : Type 0} where
  unfoldable pub matched : String → List (Sub H) → List H
  matched topic subs = map (λ s. s.handler) (select (λ s. starts_with topic s.prefix) subs)

  -- The bus after Subscribe; the number of the subscription stands for the cancel function.
  unfoldable pub subscribe : MemBus H → String → H → MemBus H
  subscribe b prefix h =
      let id = b.seq + 1 in
      record { subs = b.subs ++ (record { prefix = prefix; handler = h; id = id }) ∷ []; seq = id }

  -- `append(subs[:i], subs[i+1:]...)` at the first subscription of that number.
  unfoldable pub remove_sub : ℕ → List (Sub H) → List (Sub H)
  remove_sub id [] = []
  remove_sub id (s ∷ subs) = let rest = remove_sub id subs in if s.id == id then subs else s ∷ rest

  -- The cancel function of a subscription.
  unfoldable pub cancel : MemBus H → ℕ → MemBus H
  unfolding remove_sub
  cancel b id = record b { subs = remove_sub id b.subs }

-- What the buses wait on: json.Marshal, `none` on an error, for payloads of a type P.
module _ {H P : Type 0} (marshal : P → Option String) where
  -- The handlers that are called, in order, with the event they get; `none` on an error.
  unfoldable pub publish : MemBus H → String → String → P → Time → Option (List (H × Event))
  unfolding matched
  publish b topic org_id payload now = elim (marshal payload) [
    | none ↦ none
    | some raw ↦
        let e : Event = record { topic = topic; org_id = org_id; timestamp = now; payload = raw } in
        some (map (λ h. (h, e)) (matched topic b.subs))
  ]

-- `written` is what the connection was given; it is absent after Close.
pub record KafkaBus (H : Type 0) : Type 0 where
  pub local : MemBus H
  pub written : Option (List String)

module _ {H P : Type 0} (marshal : P → Option String) where
  unfoldable pub publish_kafka :
      KafkaBus H → String → String → P → Time → Option (List (H × Event) × KafkaBus H)
  unfolding publish
  publish_kafka b topic org_id payload now =
      elim (publish marshal b.local topic org_id payload now) [
        | none ↦ none
        | some calls ↦ elim (marshal payload) [
          | none ↦ none
          | some raw ↦
              let written : Option (List String) = elim b.written [
                | none ↦ none
                | some bytes ↦ some (bytes ++ raw ∷ [])
              ] in
              some (calls, record b { written = written })
        ]
      ]

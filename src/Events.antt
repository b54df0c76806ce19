-- ===== src/Events.antt =====
-- workdir/internal/events/events.go: the bus of fleet events. The text of fmt.Sprintf("ev_%06d", n)
-- is `name n`, and that of a band's message `describe type workload r`.
pub mod Log
pub mod Bands
use ruptura.Base.{
  ℕ, zero, suc, ◌+◌, String, Bool, not, ◌&&◌, ◌||◌, List, [], ◌∷◌, ◌++◌, map, length, take, first,
  last_n, cut_to_last, Option, none, some, get_or, ltb, if◌then◌else◌, string_eq, nat_eq, Dict,
  lookup, insert, delete, Time, is_zero, Float,
}

abbrev pub max_events : ℕ
max_events = 300

-- The buffer of a subscriber's channel.
abbrev pub subscriber_buffer : ℕ
subscriber_buffer = 64

pub record Event (F : Type 0) : Type 0 where
  pub id : String
  pub ts : Time
  pub workload : String
  pub kind : String
  pub severity : String
  pub message : String
  pub fused_r : F

-- A channel is its number and the events in its buffer; `opened` numbers the next one.
pub record Bus (F : Type 0) : Type 0 where
  pub events : List (Event F)
  pub seq : ℕ
  pub last_fused_r : Dict String F
  pub subscribers : Dict ℕ (List (Event F))
  pub opened : ℕ

-- The events newest first.
abbrev pub newest_first {ℓ} : {A : Type ℓ} → List A → List A
newest_first [] = []
newest_first (x ∷ xs) = newest_first xs ++ x ∷ []

module _ {F : Type 0} where
  abbrev pub new_bus : Bus F
  new_bus = record { events = []; seq = 0; last_fused_r = []; subscribers = []; opened = 0 }

  unfoldable pub subscribe : Bus F → Bus F × ℕ
  subscribe b =
      (record b { subscribers = insert b.opened [] b.subscribers; opened = b.opened + 1 }, b.opened)

  unfoldable pub unsubscribe : Bus F → ℕ → Bus F
  unsubscribe b ch = record b { subscribers = delete ch b.subscribers }

  -- A slow subscriber misses the event.
  unfoldable pub offer : Event F → ℕ × List (Event F) → ℕ × List (Event F)
  offer ev (ch, waiting) =
      if ltb (length waiting) subscriber_buffer then (ch, waiting ++ ev ∷ []) else (ch, waiting)

  unfoldable pub stamp : (ℕ → String) → ℕ → Time → Event F → Event F
  stamp name seq now ev = record ev { id = name seq; ts = if is_zero ev.ts then now else ev.ts }

  unfoldable pub push : (ℕ → String) → Bus F → Event F → Time → Bus F
  unfolding stamp offer
  push name b ev now =
      let stamped : Event F = stamp name (b.seq + 1) now ev in
      record b {
        seq = b.seq + 1;
        events = cut_to_last max_events (b.events ++ stamped ∷ []);
        subscribers = map (offer stamped) b.subscribers;
      }

  unfoldable pub recent : Bus F → ℕ → List (Event F)
  recent b n = take n (newest_first b.events)

-- A row of ObserveFusedR's table of transitions.
pub record Band (F : Type 0) : Type 0 where
  pub low : F
  pub high : F
  pub severity : String
  pub kind : String

module _ {F : Type 0} ⦃fl : Float F⦄ where
  unfoldable pub bands : List (Band F)
  bands =
      record { low = fl.milli 0; high = fl.milli 1500; severity = "info"; kind = "recovered" }
      ∷ record { low = fl.milli 1500; high = fl.milli 3000; severity = "warning"; kind = "warning" }
      ∷ record {
        low = fl.milli 3000;
        high = fl.milli 5000;
        severity = "critical";
        kind = "critical";
      }
      ∷ record {
        low = fl.milli 5000;
        high = fl.milli 99000;
        severity = "emergency";
        kind = "emergency";
      }
      ∷ []

  unfoldable pub inside : F → Band F → Bool
  inside r band = fl.le band.low r && fl.lt r band.high

  unfoldable pub outside : F → Band F → Bool
  outside r band = fl.lt r band.low || fl.le band.high r

  unfoldable pub previous_r : Bus F → String → F
  previous_r b workload = elim (lookup workload b.last_fused_r) [ none ↦ fl.milli 0 | some r ↦ r ]

  unfoldable pub observe_fused_r :
      (ℕ → String) → (String → String → F → String) → Bus F → String → F → Time → Bus F
  unfolding push bands inside outside previous_r
  observe_fused_r name describe b workload r now =
      let seen : Bus F = record b { last_fused_r = insert workload r b.last_fused_r } in
      elim (first (inside r) bands) [
        | none ↦ seen
        | some band ↦
            if outside (previous_r b workload) band
            then push name seen
                (record {
                  id = "";
                  ts = now;
                  workload = workload;
                  kind = band.kind;
                  severity = band.severity;
                  message = describe band.kind workload r;
                  fused_r = r;
                })
                now
            else seen
      ]

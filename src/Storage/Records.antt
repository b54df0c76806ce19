-- ===== src/Storage/Records.antt =====
-- storage.go: failures, outcomes, propagation snapshots, ruptures, actions, contexts, suppressions
-- and revoked tokens. A payload is its bytes; `set` encodes it once more, as the source does.
use ruptura.Base.{
  ℕ, suc, ◌*◌, Bool, true, false, not, ◌||◌, Option, none, some, List, [], ◌∷◌, ◌++◌, map, length,
  select, drop, take, nat_beq, if◌then◌else◌, Time, Duration, Dict, lookup, insert,
}
use ruptura.Storage.{
  Bytes, bytes_eq, less, colon, ts_key, Database, Json, Result, ok, error, unmarshal_error,
  no_timestamp, set, set_raw, get, delete, items_of,
}
use ruptura.Storage.Series.{day, keyed, metrics_ttl}

abbrev pub failure_ttl : Duration
failure_ttl = 35 * day

abbrev pub propagation_ttl : Duration
propagation_ttl = 1 * day

-- "ff:", "fo:", "prop:", "r:", "ac:", "ctx:", "sup:", "rev:" and "history:"
abbrev pub ff_tag : Bytes
ff_tag = b'f' ∷ b'f' ∷ colon ∷ []

abbrev pub fo_tag : Bytes
fo_tag = b'f' ∷ b'o' ∷ colon ∷ []

abbrev pub prop_tag : Bytes
prop_tag = b'p' ∷ b'r' ∷ b'o' ∷ b'p' ∷ colon ∷ []

abbrev pub r_tag : Bytes
r_tag = b'r' ∷ colon ∷ []

abbrev pub ac_tag : Bytes
ac_tag = b'a' ∷ b'c' ∷ colon ∷ []

abbrev pub ctx_tag : Bytes
ctx_tag = b'c' ∷ b't' ∷ b'x' ∷ colon ∷ []

abbrev pub sup_tag : Bytes
sup_tag = b's' ∷ b'u' ∷ b'p' ∷ colon ∷ []

abbrev pub rev_tag : Bytes
rev_tag = b'r' ∷ b'e' ∷ b'v' ∷ colon ∷ []

abbrev pub history_segment : Bytes
history_segment = b'h' ∷ b'i' ∷ b's' ∷ b't' ∷ b'o' ∷ b'r' ∷ b'y' ∷ []

-- strings.LastIndex(text, ":"), none for -1
abbrev pub last_index : Bytes → Option ℕ
last_index [] = none
last_index (c ∷ cs) = elim (last_index cs) [
  | some i ↦ some (suc i)
  | none ↦ if nat_beq c colon then some 0 else none
]

-- out[workload] = append(out[workload], at)
abbrev pub append_at : Bytes → Time → Dict Bytes (List Time) → Dict Bytes (List Time)
append_at workload at out = elim (lookup workload out) [
  | none ↦ insert workload (at ∷ []) out
  | some times ↦ insert workload (times ++ at ∷ []) out
]

module _ (B : Database) (json : Json Time) where
  unfoldable pub put_failure : Bytes → Time → B.State → Result B.State
  put_failure workload at s = set B json (ts_key (keyed ff_tag (workload ∷ [])) at) at failure_ttl s

-- The callback of ListFailures over the items; the source also hands out the map so far with an
-- error.
abbrev pub failures_in :
    Json Time → Dict Bytes (List Time) → List (Bytes × Bytes) → Result (Dict Bytes (List Time))
failures_in json out [] = ok out
failures_in json out (item ∷ items) = elim (json.unmarshal item.1) [
  | none ↦ error unmarshal_error
  | some nanos ↦ elim (last_index (drop (length ff_tag) item.0)) [
    | none ↦ error no_timestamp
    | some cut ↦
        failures_in json (append_at (take cut (drop (length ff_tag) item.0)) nanos out) items
  ]
]

module _ (B : Database) (json : Json Time) where
  unfoldable pub list_failures : B.State → Result (Dict Bytes (List Time))
  list_failures s = failures_in json [] (items_of B ff_tag s)

-- When a failure was, and how early it was warned.
pub record Outcome : Type 0 where
  pub at : Time
  pub lead : Duration

-- The callback of ListOutcomes over the items.
abbrev pub outcomes_in : Json Outcome → List Outcome → List (Bytes × Bytes) → Result (List Outcome)
outcomes_in json out [] = ok out
outcomes_in json out (item ∷ items) = elim (json.unmarshal item.1) [
  | none ↦ error unmarshal_error
  | some outcome ↦ outcomes_in json (out ++ outcome ∷ []) items
]

module _ (B : Database) (json : Json Outcome) where
  unfoldable pub put_outcome : Time → Duration → B.State → Result B.State
  put_outcome at lead s =
      set B json (ts_key fo_tag at) (record { at = at; lead = lead }) failure_ttl s

  unfoldable pub list_outcomes : B.State → Result (List Outcome)
  list_outcomes s = outcomes_in json [] (items_of B fo_tag s)

-- The values under a prefix whose keys are from one key to another.
abbrev pub values_between : Bytes → Bytes → List (Bytes × Bytes) → List Bytes
values_between seek_key end_key items =
    map (λ item. item.1) (select (λ item. not (less item.0 seek_key || less end_key item.0)) items)

module _ (B : Database) where
  unfoldable pub put_propagation_snapshot : Time → Bytes → B.State → Result B.State
  put_propagation_snapshot ts payload s = set_raw B (ts_key prop_tag ts) payload propagation_ttl s

  unfoldable pub list_propagation_snapshots : Time → Time → B.State → List Bytes
  list_propagation_snapshots from to s =
      values_between (ts_key prop_tag from) (ts_key prop_tag to) (items_of B prop_tag s)

  unfoldable pub list_rupture_history : Bytes → Time → Time → B.State → List Bytes
  list_rupture_history host from to s =
      let prefix = keyed r_tag (host ∷ history_segment ∷ []) in
      values_between (ts_key prefix from) (ts_key prefix to) (items_of B prefix s)

  unfoldable pub list_actions : B.State → List Bytes
  list_actions s = map (λ item. item.1) (items_of B ac_tag s)

  unfoldable pub list_contexts : B.State → List Bytes
  list_contexts s = map (λ item. item.1) (items_of B ctx_tag s)

  unfoldable pub delete_context : Bytes → B.State → Result B.State
  delete_context id s = delete B (ctx_tag ++ id) s

  unfoldable pub list_suppressions : B.State → List Bytes
  list_suppressions s = map (λ item. item.1) (items_of B sup_tag s)

  unfoldable pub delete_suppression : Bytes → B.State → Result B.State
  delete_suppression id s = delete B (sup_tag ++ id) s

module _ (B : Database) (json : Json Bytes) where
  unfoldable pub put_rupture : Bytes → Bytes → B.State → Result B.State
  put_rupture id payload s = set B json (r_tag ++ id) payload metrics_ttl s

  unfoldable pub get_rupture : Bytes → B.State → Result Bytes
  get_rupture id s = get B json (r_tag ++ id) s

  unfoldable pub put_rupture_history : Bytes → Time → Bytes → B.State → Result B.State
  put_rupture_history host ts payload s =
      set B json (ts_key (keyed r_tag (host ∷ history_segment ∷ [])) ts) payload metrics_ttl s

  unfoldable pub put_action : Bytes → Bytes → B.State → Result B.State
  put_action id payload s = set B json (ac_tag ++ id) payload metrics_ttl s

  unfoldable pub get_action : Bytes → B.State → Result Bytes
  get_action id s = get B json (ac_tag ++ id) s

  unfoldable pub put_context : Bytes → Bytes → B.State → Result B.State
  put_context id payload s = set B json (ctx_tag ++ id) payload 0 s

  unfoldable pub get_context : Bytes → B.State → Result Bytes
  get_context id s = get B json (ctx_tag ++ id) s

  unfoldable pub put_suppression : Bytes → Bytes → B.State → Result B.State
  put_suppression id payload s = set B json (sup_tag ++ id) payload 0 s

module _ (B : Database) (json : Json Unit) where
  -- A time to live that is not positive is 0.
  unfoldable pub revoke_token : Bytes → Duration → B.State → Result B.State
  revoke_token jti ttl s =
      if nat_beq (length jti) 0 || nat_beq ttl 0 then ok s else set B json (rev_tag ++ jti) tt ttl s

  unfoldable pub is_token_revoked : Bytes → B.State → Bool
  is_token_revoked jti s = elim (get B json (rev_tag ++ jti) s) [ ok _ ↦ true | error _ ↦ false ]

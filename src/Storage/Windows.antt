-- ===== src/Storage/Windows.antt =====
-- storage.go: which log entries of a service a query gives.
use ruptura.Base.{
  ℕ, zero, suc, ◌+◌, ◌-◌, ◌<◌, ◌≤◌, ◌≡◌, ◌⊎◌, refl, sym, ap, ◌∙◌, Bool, true, false, not, ◌&&◌, inl,
  inr, List, [], ◌∷◌, map, select, All, length, take, nat_beq, leb, Bool-cases, if◌then◌else◌, Time,
  arith,
}
use ruptura.Storage.{Bytes, less, has_prefix, ts_key, Database, IsLawful, IsAscending, under}
use ruptura.Storage.Keys.{less_trans}
use ruptura.Storage.Series.{keyed}
use ruptura.Storage.Logs.{
  l_tag, sanitize_key_segment, logs_until, reverse, query_logs_raw, query_logs,
}

-- Whether a key is in a window, its end left out.
abbrev pub inside : Bytes → Bytes → Bytes → Bool
inside start_key end_key key = not (less key start_key) && less key end_key

-- The first entries up to what is left of the limit; 0 is no limit.
abbrev up_to : ℕ → ℕ → List Bytes → List Bytes
up_to limit count values = if nat_beq limit 0 then values else take (limit - count) values

take_nothing : (n : ℕ) → ◌≡◌ {A = List Bytes} (take n []) []
take_nothing zero = refl
take_nothing (suc n) = refl

up_to_nothing : (limit count : ℕ) → up_to limit count [] ≡ []
up_to_nothing limit count = elim (Bool-cases (nat_beq limit 0)) [
  | inl none_set ↦ rw none_set refl
  | inr set ↦ rw set (take_nothing (limit - count))
]

up_to_more :
    (limit count : ℕ) (v : Bytes) (values : List Bytes)
    → (nat_beq limit 0 ≡ true) ⊎ (count + 1 < limit)
    → up_to limit count (v ∷ values) ≡ v ∷ up_to limit (count + 1) values
up_to_more limit count v values (inl unlimited) = rw unlimited refl
up_to_more limit count v values (inr room) =
    let set : nat_beq limit 0 ≡ false = ground arith in
    let left : limit - count ≡ suc (limit - (count + 1)) = omega arith in rw (set, left) refl

up_to_last :
    (limit count : ℕ) (v : Bytes) (values : List Bytes)
    → count + 1 ≡ limit
    → up_to limit count (v ∷ values) ≡ v ∷ []
up_to_last limit count v values full =
    let set : nat_beq limit 0 ≡ false = ground arith in
    let left : limit - count ≡ suc zero = omega arith in rw (set, left) refl

none_inside :
    (prefix start_key end_key key : Bytes) (items : List (Bytes × Bytes))
    → less key end_key ≡ false
    → All (λ item. less key item.0 ≡ true) items
    → select (λ item. inside start_key end_key item.0) (under prefix items) ≡ []
none_inside prefix start_key end_key key [] past later = refl
none_inside prefix start_key end_key key (item ∷ items) past later =
    elim (Bool-cases (has_prefix item.0 prefix)) [
      | inl there ↦
          let beyond : less item.0 end_key ≡ false = elim (Bool-cases (less item.0 end_key)) [
            | inl early ↦
                let bad : true ≡ false = sym (less_trans key item.0 end_key later.0 early) ∙ past in
                absurd (cc)
            | inr beyond ↦ beyond
          ] in
          let out : inside start_key end_key item.0 ≡ false = ground arith in
          rw (there, out) (none_inside prefix start_key end_key key items past later.1)
      | inr lost ↦ rw lost refl
    ]

-- The entries of the window, in the order of their keys.
abbrev pub in_window : Bytes → Bytes → Bytes → List (Bytes × Bytes) → List Bytes
in_window prefix start_key end_key items =
    map (λ item. item.1) (select (λ item. inside start_key end_key item.0) (under prefix items))

logs_until-in_window :
    (prefix start_key end_key : Bytes) (limit count : ℕ) (items : List (Bytes × Bytes))
    → IsAscending items
    → (nat_beq limit 0 ≡ true) ⊎ (count < limit)
    → logs_until prefix start_key end_key true limit count items
      ≡ up_to limit count (in_window prefix start_key end_key items)
logs_until-in_window prefix start_key end_key limit count [] asc room =
    sym (up_to_nothing limit count)
logs_until-in_window prefix start_key end_key limit count (item ∷ items) asc room =
    elim (Bool-cases (has_prefix item.0 prefix)) [
      | inr lost ↦ rw (lost) (sym (up_to_nothing limit count))
      | inl there ↦ elim (Bool-cases (less item.0 end_key)) [
        | inr past ↦
            let nothing = none_inside prefix start_key end_key item.0 items past asc.0 in
            elim (Bool-cases (less item.0 start_key)) [
              | inl early ↦ rw (there, past, early, nothing) (sym (up_to_nothing limit count))
              | inr late ↦ rw (there, past, late, nothing) (sym (up_to_nothing limit count))
            ]
        | inl early ↦ elim (Bool-cases (less item.0 start_key)) [
          | inl before_it ↦
              rw (there, early, before_it)
                (logs_until-in_window prefix start_key end_key limit count items asc.1 room)
          | inr from_start ↦ elim (Bool-cases (not (nat_beq limit 0) && leb limit (count + 1))) [
            | inl full ↦
                let last_one : count + 1 ≡ limit = ground arith in
                rw (there, early, from_start, full) (sym (up_to_last limit count item.1 _ last_one))
            | inr more ↦
                let left : (nat_beq limit 0 ≡ true) ⊎ (count + 1 < limit) = ground arith in
                rw (there, early, from_start, more)
                  (ap (λ l. item.1 ∷ l)
                      (logs_until-in_window prefix start_key end_key limit (count + 1) items asc.1
                        left)
                    ∙ sym (up_to_more limit count item.1 _ left))
          ]
        ]
      ]
    ]

-- With any limit, the entries are the first of the window, in reverse.
query_logs-up_to :
    (B : Database) (service : Bytes) (from to : Time) (limit : ℕ) (s : B.State)
    → IsLawful B
    → 0 < length service
    → query_logs B service from to limit s
      ≡ reverse (
          up_to limit 0 (
            in_window
              (keyed l_tag (sanitize_key_segment service ∷ []))
              (ts_key (keyed l_tag (sanitize_key_segment service ∷ [])) from)
              (ts_key (keyed l_tag (sanitize_key_segment service ∷ [])) to)
              (B.scan s (keyed l_tag (sanitize_key_segment service ∷ [])))))
unfolding query_logs query_logs_raw
query_logs-up_to B service from to limit s law named =
    let some_name : nat_beq (length service) 0 ≡ false = ground arith in
    let room : (nat_beq limit 0 ≡ true) ⊎ (0 < limit) = ground arith in
    let prefix = keyed l_tag (sanitize_key_segment service ∷ []) in
    rw (query_logs, some_name)
      (ap reverse (
        logs_until-in_window prefix (ts_key prefix from) (ts_key prefix to) limit 0
          (B.scan s prefix) (law.scan-IsAscending s prefix) room))

take_all : (n : ℕ) (values : List Bytes) → length values ≤ n → take n values ≡ values
take_all n [] h = take_nothing n
take_all zero (v ∷ values) h = absurd (omega arith)
take_all (suc n) (v ∷ values) h = ap (λ l. v ∷ l) (take_all n values (omega arith))

up_to_all :
    (limit : ℕ) (values : List Bytes)
    → (limit ≡ 0) ⊎ (length values ≤ limit)
    → up_to limit 0 values ≡ values
up_to_all limit values (inl unlimited) = rw unlimited refl
up_to_all limit values (inr room) = elim (Bool-cases (nat_beq limit 0)) [
  | inl none_set ↦ rw none_set refl
  | inr set ↦ rw set (take_all (limit - 0) values (omega (arith, room)))
]

-- A query of a named service with the limit 0, or with a limit that the window does not exceed, gives
-- every entry under the service's sanitized name whose key is from the start of the range on and
-- before its end, and the newest of them first.
pub query_logs-in_window :
    (B : Database) (service : Bytes) (from to : Time) (limit : ℕ) (s : B.State)
    → IsLawful B
    → 0 < length service
    → (limit ≡ 0)
      ⊎ (length (
            in_window
              (keyed l_tag (sanitize_key_segment service ∷ []))
              (ts_key (keyed l_tag (sanitize_key_segment service ∷ [])) from)
              (ts_key (keyed l_tag (sanitize_key_segment service ∷ [])) to)
              (B.scan s (keyed l_tag (sanitize_key_segment service ∷ []))))
          ≤ limit)
    → query_logs B service from to limit s
      ≡ reverse (
          in_window
            (keyed l_tag (sanitize_key_segment service ∷ []))
            (ts_key (keyed l_tag (sanitize_key_segment service ∷ [])) from)
            (ts_key (keyed l_tag (sanitize_key_segment service ∷ [])) to)
            (B.scan s (keyed l_tag (sanitize_key_segment service ∷ []))))
query_logs-in_window B service from to limit s law named enough =
    let prefix = keyed l_tag (sanitize_key_segment service ∷ []) in
    let found = in_window prefix (ts_key prefix from) (ts_key prefix to) (B.scan s prefix) in
    query_logs-up_to B service from to limit s law named ∙ ap reverse (up_to_all limit found enough)

-- ===== src/Storage/Ranges.antt =====
-- storage.go: the scan of a range of times.
use ruptura.Base.{
  ℕ, ◌≤◌, ◌≡◌, ◌↔◌, refl, sym, ap, ◌∙◌, subst, true, false, not, some, inl, inr, List, [], ◌∷◌,
  ◌++◌, map, select, All, Has-All, Has, Has-map, Has-select, length, drop, ltb, Bool-cases, Float,
  Time, arith,
}
use ruptura.Storage.{
  Bytes, bytes_eq, less, has_prefix, ts_key, parse_int, Database, Json, IsLawful, IsAscending,
}
use ruptura.Storage.Keys.{less_trans, max_time, less-ts_key, parse_int-ts_key}
use ruptura.Storage.Series.{Sample, value_of, samples_until, range_query}

-- A key from `prefix` on that has not the prefix is after every key that has it.
less-beyond :
    (prefix rest other key : Bytes)
    → less key (prefix ++ rest) ≡ false
    → has_prefix key prefix ≡ false
    → less (prefix ++ other) key ≡ true
less-beyond [] rest other key h none_there = absurd (cc)
less-beyond (p ∷ prefix) rest other [] h none_there = absurd (cc)
less-beyond (p ∷ prefix) rest other (b ∷ key) h none_there =
    ground (arith, less-beyond prefix rest other key)

-- A key between two keys with the prefix has it.
has_prefix-between :
    (prefix rest other key : Bytes)
    → less key (prefix ++ rest) ≡ false
    → less (prefix ++ other) key ≡ false
    → has_prefix key prefix ≡ true
has_prefix-between prefix rest other key low high = elim (Bool-cases (has_prefix key prefix)) [
  | inl there ↦ there
  | inr lost ↦
      let bad : true ≡ false = sym (less-beyond prefix rest other key low lost) ∙ high in
      absurd (cc)
]

-- Everything after an item that is after a key is after that key.
pub All-after :
    (key first_key : Bytes) (items : List (Bytes × Bytes))
    → less key first_key ≡ true
    → All (λ item. less first_key item.0 ≡ true) items
    → All (λ item. less key item.0 ≡ true) items
All-after key first_key [] h later = tt
All-after key first_key (item ∷ items) h later =
    (less_trans key first_key item.0 h later.0, All-after key first_key items h later.1)

-- The items that are not after the end of the range.
abbrev within : Bytes → List (Bytes × Bytes) → List (Bytes × Bytes)
within end_key = select (λ item. not (less end_key item.0))

within_none :
    (end_key : Bytes) (items : List (Bytes × Bytes))
    → All (λ item. less end_key item.0 ≡ true) items
    → within end_key items ≡ []
within_none end_key [] h = refl
within_none end_key (item ∷ items) h = rw (h.0) (within_none end_key items h.1)

module _ {F : Type 0} ⦃fl : Float F⦄ (json : Json F) where
  sample : Bytes → Bytes × Bytes → Sample F
  sample prefix item = (parse_int (drop (length prefix) item.0), value_of json item.1)

  value_of-decoded :
      (text : Bytes) (x : F)
      → json.unmarshal text ≡ some x
      → json.unmarshal text ≡ some (value_of json text)
  value_of-decoded text x e = let same : value_of json text ≡ x = rw (value_of, e) refl in rw same e

  samples_until-within :
      (prefix rest other : Bytes) (items : List (Bytes × Bytes))
      → IsAscending items
      → All (λ item. less item.0 (prefix ++ rest) ≡ false) items
      → samples_until json prefix (prefix ++ other) items
        ≡ map (sample prefix) (within (prefix ++ other) items)
  unfolding sample
  samples_until-within prefix rest other [] asc from_seek = refl
  samples_until-within prefix rest other (item ∷ items) asc from_seek =
      elim (Bool-cases (less (prefix ++ other) item.0)) [
        | inl beyond ↦
            let all = All-after (prefix ++ other) item.0 items beyond asc.0 in
            rw (beyond, within_none (prefix ++ other) items all) refl
        | inr inside ↦ elim (Bool-cases (has_prefix item.0 prefix)) [
          | inl there ↦
              rw (inside, there)
                (ap (λ l. sample prefix item ∷ l)
                  (samples_until-within prefix rest other items asc.1 from_seek.1))
          | inr lost ↦
              let out = less-beyond prefix rest other item.0 from_seek.0 lost in absurd (cc)
        ]
      ]

module _ {F : Type 0} ⦃fl : Float F⦄ (B : Database) (json : Json F) where
  -- The keys with the prefix are the keys of one series: each ends in the digits of its time, and
  -- holds an encoded value.
  unfoldable pub IsSeries : Bytes → B.State → Type 0
  IsSeries prefix s =
      (key text : Bytes)
      → B.find s key ≡ some text
      → has_prefix key prefix ≡ true
      → ((t : ℕ) × (t ≤ max_time) × (key ≡ ts_key prefix t))
        × ((x : F) × (json.unmarshal text ≡ some x))

  -- The value that is stored at a time.
  unfoldable pub Stores : Bytes → B.State → Time → F → Type 0
  Stores prefix s t x =
      (text : Bytes) × (B.find s (ts_key prefix t) ≡ some text) × (json.unmarshal text ≡ some x)

  -- The items of the range.
  range_query-within :
      IsLawful B
      → (prefix : Bytes) (from to : Time) (s : B.State)
      → range_query B json prefix from to s
        ≡ map (sample json prefix) (within (ts_key prefix to) (B.scan s (ts_key prefix from)))
  unfolding range_query
  range_query-within law prefix from to s =
      samples_until-within json prefix _ _ (B.scan s (ts_key prefix from))
        (law.scan-IsAscending s (ts_key prefix from))
        (Has-All _ _ (λ item there. ((law.Has-scan s _ item.0 item.1).0 there).0))

  -- Whatever the keys, the scan gives what each key of the range reads as.
  pub Has-range_query_raw :
      IsLawful B
      → (prefix : Bytes) (from to : Time) (s : B.State) (point : Sample F)
      → Has point (range_query B json prefix from to s) ↔ (
          (key text : Bytes) × (B.find s key ≡ some text)
          × (less key (ts_key prefix from) ≡ false)
          × (less (ts_key prefix to) key ≡ false)
          × ((parse_int (drop (length prefix) key), value_of json text) ≡ point))
  unfolding sample
  Has-range_query_raw law prefix from to s point =
      let items = within (ts_key prefix to) (B.scan s (ts_key prefix from)) in
      rw (range_query-within law prefix from to s) (
        λ h.
            let (item, there, same) = (Has-map (sample json prefix) point items).0 h in
            let (scanned, inside) = (Has-select item _ _).0 there in
            let (seen, held) = (law.Has-scan s (ts_key prefix from) item.0 item.1).0 scanned in
            (item.0, item.1, held, seen, ground arith, same),
        λ h.
            let (key, text, held, seen, upto, same) = h in
            (Has-map (sample json prefix) point items).1 (
              (key, text),
              (Has-select (key, text) _ _).1
                  ((law.Has-scan s _ key text).1 (seen, held), rw upto refl),
              same,
            ),
      )

  range_item :
      (prefix : Bytes) (from to : Time) (s : B.State)
      → IsLawful B
      → IsSeries prefix s
      → from ≤ max_time
      → to ≤ max_time
      → (item : Bytes × Bytes)
      → Has item (within (ts_key prefix to) (B.scan s (ts_key prefix from)))
      → (from ≤ (sample json prefix item).0)
        × ((sample json prefix item).0 ≤ to)
        × Stores prefix s (sample json prefix item).0 (sample json prefix item).1
        × (item.0 ≡ ts_key prefix (sample json prefix item).0)
  unfolding sample IsSeries Stores
  range_item prefix from to s law series small large item h =
      let (there, inside) = (Has-select item _ _).0 h in
      let (seen, held) = (law.Has-scan s (ts_key prefix from) item.0 item.1).0 there in
      let not_after : less (ts_key prefix to) item.0 ≡ false = ground arith in
      let kept = has_prefix-between prefix _ _ item.0 seen not_after in
      let ((t, fits, key), (x, value)) = series item.0 item.1 held kept in
      let time : parse_int (drop (length prefix) item.0) ≡ t =
        ap (λ k. parse_int (drop (length prefix) k)) key ∙ (parse_int-ts_key prefix t fits).0 in
      let low : ltb t from ≡ false =
        sym (less-ts_key prefix t from fits small)
        ∙ subst (λ k. less k (ts_key prefix from) ≡ false) key seen in
      let high : ltb to t ≡ false =
        sym (less-ts_key prefix to t large fits)
        ∙ subst (λ k. less (ts_key prefix to) k ≡ false) key not_after in
      let decoded = value_of-decoded json item.1 x value in
      rw time (
        ground arith,
        ground arith,
        (item.1, subst (λ k. B.find s k ≡ some item.1) key held, decoded),
        key,
      )

  -- Over the keys of one series, the scan of a range of times from 1970 to 2262 gives a time and a
  -- value exactly if the time is in the range, its ends included, and the value is stored at it.
  pub Has-range_query :
      (prefix : Bytes) (from to : Time) (s : B.State)
      → IsLawful B
      → IsSeries prefix s
      → from ≤ max_time
      → to ≤ max_time
      → (t : Time) (x : F)
      → Has (t, x) (range_query B json prefix from to s)
        ↔ ((from ≤ t) × (t ≤ to) × Stores prefix s t x)
  unfolding sample Stores
  Has-range_query prefix from to s law series small large t x =
      let items = within (ts_key prefix to) (B.scan s (ts_key prefix from)) in
      rw (range_query-within law prefix from to s) (
        λ h.
            let (item, there, same) = (Has-map (sample json prefix) (t, x) items).0 h in
            let (low, high, stored, key) =
              range_item prefix from to s law series small large item there in
            subst (λ p. (from ≤ p.0) × (p.0 ≤ to) × Stores prefix s p.0 p.1) same
              (low, high, stored),
        λ h.
            let (low, high, stored) = h in
            let (text, held, decoded) = stored in
            let fits : t ≤ max_time = omega arith in
            let low_key : less (ts_key prefix t) (ts_key prefix from) ≡ false =
              less-ts_key prefix t from fits small ∙ ground arith in
            let high_key : less (ts_key prefix to) (ts_key prefix t) ≡ false =
              less-ts_key prefix to t large fits ∙ ground arith in
            let there : Has (ts_key prefix t, text) items =
              (Has-select (ts_key prefix t, text) _ _).1
                ((law.Has-scan s _ (ts_key prefix t) text).1 (low_key, held), rw high_key refl) in
            let time = (parse_int-ts_key prefix t fits).0 in
            (Has-map (sample json prefix) (t, x) items).1
              ((ts_key prefix t, text), there, rw (value_of, time, decoded) refl),
      )

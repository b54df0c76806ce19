-- ===== src/Storage/Segments.antt =====
-- storage.go: the scan of a prefix, and the keys of the spans of a trace.
use ruptura.Base.{
  ◌≡◌, ◌↔◌, ◌⊎◌, refl, sym, ap, ◌∙◌, subst, true, false, some, inl, inr, List, [], ◌∷◌, ◌++◌,
  select, All, All-Has, Has-All, Has, Has-map, Has-select, append_assoc, nat_beq, Bool-cases, ◌==◌,
  ==_iff, ==_refl, arith,
}
use ruptura.Storage.{
  Bytes, bytes_eq, less, has_prefix, colon, Database, Json, IsLawful, IsAscending, ok, under,
  items_of,
}
use ruptura.Storage.Keys.{has_prefix-append, prefix-append}
use ruptura.Storage.Writes.{find-set}
use ruptura.Storage.Series.{keyed}
use ruptura.Storage.Logs.{
  sp_tag, sanitize_key_segment, span_key, save_span, query_spans_by_trace, logs_ttl,
}

-- A key with the prefix is not before it.
less-prefix : (prefix rest : Bytes) → less (prefix ++ rest) prefix ≡ false
less-prefix [] [] = refl
less-prefix [] (x ∷ rest) = refl
less-prefix (p ∷ prefix) rest = ground (arith, less-prefix prefix rest)

has_prefix-not_before :
    (key prefix : Bytes) → has_prefix key prefix ≡ true → less key prefix ≡ false
has_prefix-not_before key prefix h =
    ap (λ k. less k prefix) (prefix-append key prefix h) ∙ less-prefix prefix _

-- From the prefix on, once a key has not the prefix no later one has it.
under_none :
    (prefix : Bytes) (items : List (Bytes × Bytes))
    → All (λ item. has_prefix item.0 prefix ≡ false) items
    → select (λ item. has_prefix item.0 prefix) items ≡ []
under_none prefix [] h = refl
under_none prefix (item ∷ items) h = rw (h.0) (under_none prefix items h.1)

lost_after :
    (prefix key later : Bytes)
    → less key prefix ≡ false
    → has_prefix key prefix ≡ false
    → less key later ≡ true
    → has_prefix later prefix ≡ false
lost_after [] key later from_seek lost order = absurd (cc)
lost_after (p ∷ prefix) [] later from_seek lost order = absurd (cc)
lost_after (p ∷ prefix) (b ∷ key) [] from_seek lost order = refl
lost_after (p ∷ prefix) (b ∷ key) (c ∷ later) from_seek lost order =
    ground (arith, lost_after prefix key later)

under-select :
    (prefix : Bytes) (items : List (Bytes × Bytes))
    → IsAscending items
    → All (λ item. less item.0 prefix ≡ false) items
    → under prefix items ≡ select (λ item. has_prefix item.0 prefix) items
under-select prefix [] asc from_seek = refl
under-select prefix (item ∷ items) asc from_seek = elim (Bool-cases (has_prefix item.0 prefix)) [
  | inl there ↦ rw there (ap (λ l. item ∷ l) (under-select prefix items asc.1 from_seek.1))
  | inr lost ↦
      let none_left =
        Has-All (λ later. has_prefix later.0 prefix ≡ false) items
          (λ later there.
            lost_after prefix item.0 later.0 from_seek.0 lost
              (All-Has (λ l. less item.0 l.0 ≡ true) later items asc.0 there)) in
      rw (lost, under_none prefix items none_left) refl
]

module _ (B : Database) where
  -- A scan of a prefix gives exactly the entries whose key has it.
  pub Has-items_of :
      (prefix : Bytes) (s : B.State)
      → IsLawful B
      → (key value : Bytes)
      → Has (key, value) (items_of B prefix s)
        ↔ ((has_prefix key prefix ≡ true) × (B.find s key ≡ some value))
  unfolding items_of
  Has-items_of prefix s law key value =
      let from_seek =
        Has-All (λ item. less item.0 prefix ≡ false) (B.scan s prefix)
          (λ item there. ((law.Has-scan s prefix item.0 item.1).0 there).0) in
      rw (under-select prefix (B.scan s prefix) (law.scan-IsAscending s prefix) from_seek) (
        λ h.
            let (there, has_it) = (Has-select (key, value) _ (B.scan s prefix)).0 h in
            (has_it, ((law.Has-scan s prefix key value).0 there).1),
        λ h.
            (Has-select (key, value) _ (B.scan s prefix)).1 (
              (law.Has-scan s prefix key value).1 (has_prefix-not_before key prefix h.0, h.1),
              h.0,
            ),
      )

-- A segment without the separator.
abbrev IsSegment : Bytes → Type 0
IsSegment = All (λ c. nat_beq c colon ≡ false)

sanitize-IsSegment : (s : Bytes) → IsSegment (sanitize_key_segment s)
sanitize-IsSegment [] = tt
sanitize-IsSegment (c ∷ s) = (ground arith, sanitize-IsSegment s)

-- A closed segment is a prefix of a closed segment only where they are the same.
has_prefix-segment :
    (a b rest : Bytes)
    → IsSegment a
    → IsSegment b
    → has_prefix (a ++ colon ∷ rest) (b ++ colon ∷ []) ≡ true
    → a ≡ b
has_prefix-segment [] [] rest ha hb h = refl
has_prefix-segment [] (y ∷ b) rest ha hb h = absurd (ground arith)
has_prefix-segment (x ∷ a) [] rest ha hb h = absurd (ground arith)
has_prefix-segment (x ∷ a) (y ∷ b) rest ha hb h = elim (Bool-cases (nat_beq x y)) [
  | inl same ↦
      let e : x ≡ y = ground arith in
      let inner : has_prefix (a ++ colon ∷ rest) (b ++ colon ∷ []) ≡ true = rw same at h in
      let others = has_prefix-segment a b rest ha.1 hb.1 inner in (λ i. e i ∷ others i)
  | inr other ↦ absurd (let bad : false ≡ true = rw other at h in cc)
]

has_prefix-tag : (tag a b : Bytes) → has_prefix (tag ++ a) (tag ++ b) ≡ has_prefix a b
has_prefix-tag [] a b = refl
has_prefix-tag (t ∷ tag) a b = ground (arith, has_prefix-tag tag a b)

-- The prefix of a trace's spans.
abbrev trace_prefix : Bytes → Bytes
trace_prefix trace_id = keyed sp_tag (sanitize_key_segment trace_id ∷ [])

has_prefix-span_key :
    (trace_id span_id other : Bytes)
    → has_prefix (span_key trace_id span_id) (trace_prefix other) ≡ true
    → sanitize_key_segment trace_id ≡ sanitize_key_segment other
has_prefix-span_key trace_id span_id other h =
    let a = sanitize_key_segment trace_id in
    let flat : (a ++ colon ∷ []) ++ sanitize_key_segment span_id
        ≡ a ++ colon ∷ sanitize_key_segment span_id =
      append_assoc a (colon ∷ []) (sanitize_key_segment span_id) in
    let inner : has_prefix ((a ++ colon ∷ []) ++ sanitize_key_segment span_id)
          (sanitize_key_segment other ++ colon ∷ [])
        ≡ true =
      h in
    has_prefix-segment a (sanitize_key_segment other) (sanitize_key_segment span_id)
      (sanitize-IsSegment trace_id) (sanitize-IsSegment other) (rw flat at inner)

module _ {A : Type 0} (B : Database) (json : Json A) where
  -- After a span was saved, a query of a trace gives only what it gave before and the new span, that
  -- one only where the names of the two traces are the same after sanitizing; and there it does give
  -- the new span.
  pub query_spans_by_trace-save_span :
      (span : A) (trace_id span_id other : Bytes) (s after_save : B.State)
      → IsLawful B
      → save_span B json span trace_id span_id s ≡ ok after_save
      → (text : Bytes) × (json.marshal span ≡ some text)
        × ((v : Bytes)
            → Has v (query_spans_by_trace B other after_save)
            → (v ≡ text) × (sanitize_key_segment trace_id ≡ sanitize_key_segment other)
              ⊎ Has v (query_spans_by_trace B other s))
        × (sanitize_key_segment trace_id ≡ sanitize_key_segment other
            → Has text (query_spans_by_trace B other after_save))
  unfolding save_span query_spans_by_trace
  query_spans_by_trace-save_span span trace_id span_id other s t law done =
      let key = span_key trace_id span_id in
      let (text, encoded, after) = find-set B json key span logs_ttl s t law done in
      (
        text,
        encoded,
        λ v h.
            let (item, there, value) =
              (Has-map (λ item. item.1) v (items_of B (trace_prefix other) t)).0 h in
            let (has_it, held) =
              (Has-items_of B (trace_prefix other) t law item.0 item.1).0 there in
            elim (Bool-cases (key == item.0)) [
              | inl same ↦
                  let e : key ≡ item.0 = (==_iff key item.0).0 same in
                  let now : B.find t item.0 ≡ some text = rw same at (after item.0) in
                  let here : has_prefix key (trace_prefix other) ≡ true =
                    ap (λ k. has_prefix k (trace_prefix other)) e ∙ has_it in
                  let both : text ≡ item.1 = cc in
                  inl (sym value ∙ sym both, has_prefix-span_key trace_id span_id other here)
              | inr apart ↦
                  let before : B.find t item.0 ≡ B.find s item.0 = rw apart at (after item.0) in
                  let earlier =
                    (Has-items_of B (trace_prefix other) s law item.0 item.1).1
                      (has_it, sym before ∙ held) in
                  inr (
                    (Has-map (λ item. item.1) v (items_of B (trace_prefix other) s)).1
                      (item, earlier, value))
            ],
        λ same.
            let here : has_prefix key (trace_prefix other) ≡ true =
              subst (λ a. has_prefix key (keyed sp_tag (a ∷ [])) ≡ true) same
                (has_prefix-append (trace_prefix trace_id) (sanitize_key_segment span_id)) in
            let held : B.find t key ≡ some text = after key ∙ rw (==_refl key) refl in
            (Has-map (λ item. item.1) text (items_of B (trace_prefix other) t)).1 (
              (key, text),
              (Has-items_of B (trace_prefix other) t law key text).1 (here, held),
              refl,
            ),
      )

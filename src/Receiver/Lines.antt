-- ===== src/Receiver/Lines.antt =====
-- receiver/dogstatsd.go: the parser against a writer of the format that its comment gives.
use ruptura.Base.{
  ℕ, ◌≡◌, refl, ap, ◌∙◌, true, false, Option, none, some, List, [], ◌∷◌, ◌++◌, map, All, nat_beq,
  Bool-cases, Option-cases, inl, inr, Dict, insert, Float, Time, arith,
}
use ruptura.Storage.{Bytes, bytes_eq, colon}
use ruptura.Receiver.{
  pipe, comma, trim_space, split_at, cut_at, StatsDMetric, missing_colon, missing_type, bad_value,
  parsed, failed, add_tag, add_tags, with_rate, with_part, with_parts, parse_parts,
  parse_stats_d_line,
}

-- A text without a separator.
abbrev pub Lacks : ℕ → Bytes → Type 0
Lacks sep = All (λ c. nat_beq c sep ≡ false)

-- strings.Join
abbrev pub join : ℕ → List Bytes → Bytes
join sep [] = []
join sep (part ∷ []) = part
join sep (part ∷ next ∷ parts) = part ++ (sep ∷ join sep (next ∷ parts))

cut_at-append :
    (sep : ℕ) (front back : Bytes)
    → Lacks sep front
    → cut_at sep (front ++ sep ∷ back) ≡ some (front, back)
cut_at-append sep [] back h = let same : nat_beq sep sep ≡ true = ground arith in rw same refl
cut_at-append sep (c ∷ front) back h = rw (h.0, cut_at-append sep front back h.1) refl

cut_at-none : (sep : ℕ) (text : Bytes) → Lacks sep text → cut_at sep text ≡ none
cut_at-none sep [] h = refl
cut_at-none sep (c ∷ text) h = rw (h.0, cut_at-none sep text h.1) refl

split_at-append :
    (sep : ℕ) (part rest : Bytes)
    → Lacks sep part
    → split_at sep (part ++ sep ∷ rest) ≡ part ∷ split_at sep rest
split_at-append sep [] rest h = let same : nat_beq sep sep ≡ true = ground arith in rw same refl
split_at-append sep (c ∷ part) rest h = rw (h.0, split_at-append sep part rest h.1) refl

split_at-whole : (sep : ℕ) (part : Bytes) → Lacks sep part → split_at sep part ≡ part ∷ []
split_at-whole sep [] h = refl
split_at-whole sep (c ∷ part) h = rw (h.0, split_at-whole sep part h.1) refl

split_at-join :
    (sep : ℕ) (part : Bytes) (parts : List Bytes)
    → All (Lacks sep) (part ∷ parts)
    → split_at sep (join sep (part ∷ parts)) ≡ part ∷ parts
split_at-join sep part [] h = split_at-whole sep part h.0
split_at-join sep part (next ∷ parts) h =
    split_at-append sep part (join sep (next ∷ parts)) h.0
    ∙ ap (λ l. part ∷ l) (split_at-join sep next parts h.1)

-- A tag, and the parts of a line that hold the sample rate and the tags, where there are any.
abbrev pub tag_text : Bytes × Bytes → Bytes
tag_text tag = tag.0 ++ colon ∷ tag.1

abbrev pub tags_text : List (Bytes × Bytes) → Bytes
tags_text tags = b'#' ∷ join comma (map tag_text tags)

abbrev pub line_text : Bytes → Bytes → Bytes → Bytes → List (Bytes × Bytes) → Bytes
line_text name value kind rate tags =
    name ++ colon ∷ join pipe (value ∷ kind ∷ (b'@' ∷ rate) ∷ tags_text tags ∷ [])

abbrev pub IsTrimmed : Bytes → Type 0
IsTrimmed text = trim_space text ≡ text

-- A tag that the format can hold.
abbrev pub IsTag : Bytes × Bytes → Type 0
IsTag tag = Lacks colon tag.0 × IsTrimmed tag.0 × IsTrimmed tag.1 × Lacks comma (tag_text tag)

abbrev pub with_tags : List (Bytes × Bytes) → Dict Bytes Bytes → Dict Bytes Bytes
with_tags [] tags = tags
with_tags (tag ∷ rest) tags = with_tags rest (insert tag.0 tag.1 tags)

add_tag-tag_text :
    (tag : Bytes × Bytes) (tags : Dict Bytes Bytes)
    → IsTag tag
    → add_tag (tag_text tag) tags ≡ insert tag.0 tag.1 tags
add_tag-tag_text tag tags h =
    let (key, key_trimmed, value_trimmed, whole) = h in
    rw (add_tag, cut_at-append colon tag.0 tag.1 key)
      (ap (λ k. insert k (trim_space tag.1) tags) key_trimmed
        ∙ ap (λ v. insert tag.0 v tags) value_trimmed)

add_tags-map :
    (texts : List (Bytes × Bytes)) (tags : Dict Bytes Bytes)
    → All IsTag texts
    → add_tags (map tag_text texts) tags ≡ with_tags texts tags
add_tags-map [] tags h = refl
add_tags-map (tag ∷ texts) tags h =
    ap (add_tags (map tag_text texts)) (add_tag-tag_text tag tags h.0)
    ∙ add_tags-map texts (insert tag.0 tag.1 tags) h.1

tags_lack :
    (texts : List (Bytes × Bytes)) → All IsTag texts → All (Lacks comma) (map tag_text texts)
tags_lack [] h = tt
tags_lack (tag ∷ texts) h = (h.0.3, tags_lack texts h.1)

split_at-tags :
    (tag : Bytes × Bytes) (texts : List (Bytes × Bytes))
    → All IsTag (tag ∷ texts)
    → add_tags (split_at comma (join comma (map tag_text (tag ∷ texts)))) []
      ≡ with_tags (tag ∷ texts) []
split_at-tags tag texts h =
    ap (λ l. add_tags l [])
      (split_at-join comma (tag_text tag) (map tag_text texts) (tags_lack (tag ∷ texts) h))
    ∙ add_tags-map (tag ∷ texts) [] h

module _ {F : Type 0} ⦃fl : Float F⦄ (parse_float : Bytes → Option F) where
  with_part-rate :
      (rate : Bytes) (r : F) (sm : StatsDMetric F)
      → IsTrimmed (b'@' ∷ rate)
      → parse_float rate ≡ some r
      → fl.lt (fl.milli 0) r ≡ true
      → with_part parse_float (trim_space (b'@' ∷ rate)) sm ≡ record sm { sample_rate = r }
  with_part-rate rate r sm trimmed reads positive =
      ap (λ p. with_part parse_float p sm) trimmed ∙ rw (with_rate, reads, positive) refl

  with_part-tags :
      (tag : Bytes × Bytes) (tags : List (Bytes × Bytes)) (sm : StatsDMetric F)
      → IsTrimmed (tags_text (tag ∷ tags))
      → All IsTag (tag ∷ tags)
      → with_part parse_float (trim_space (tags_text (tag ∷ tags))) sm
        ≡ record sm { tags = with_tags (tag ∷ tags) [] }
  with_part-tags tag tags sm trimmed are_tags =
      ap (λ p. with_part parse_float p sm) trimmed
      ∙ ap (λ l. record sm { tags = l }) (split_at-tags tag tags are_tags)

  -- The parser finds the name and the parts of a line.
  parse_stats_d_line-parts :
      (now : Time) (name part : Bytes) (parts : List Bytes)
      → Lacks colon name
      → All (Lacks pipe) (part ∷ parts)
      → parse_stats_d_line parse_float now (name ++ colon ∷ join pipe (part ∷ parts))
        ≡ parse_parts parse_float now name (part ∷ parts)
  unfolding parse_stats_d_line
  parse_stats_d_line-parts now name part parts clean lacks =
      rw (parse_stats_d_line, cut_at-append colon name (join pipe (part ∷ parts)) clean)
        (ap (parse_parts parse_float now name) (split_at-join pipe part parts lacks))

  -- A line that is written from a name without a colon, a value that reads as a number, a type, a
  -- sample rate that reads as a positive number and at least one tag, where no part has a bar, no tag
  -- a comma and no tag's key a colon, and where no blanks stand at the ends, is parsed into these.
  pub parse_stats_d_line-line_text :
      (now : Time) (name value kind rate : Bytes) (tag : Bytes × Bytes)
      (tags : List (Bytes × Bytes)) (v r : F)
      → Lacks colon name × IsTrimmed name × IsTrimmed kind
      → All (Lacks pipe) (value ∷ kind ∷ (b'@' ∷ rate) ∷ tags_text (tag ∷ tags) ∷ [])
      → IsTrimmed (b'@' ∷ rate) × IsTrimmed (tags_text (tag ∷ tags))
      → All IsTag (tag ∷ tags)
      → (parse_float value ≡ some v) × (parse_float rate ≡ some r) × (fl.lt (fl.milli 0) r ≡ true)
      → parse_stats_d_line parse_float now (line_text name value kind rate (tag ∷ tags))
        ≡ parsed (record {
          name = name;
          value = v;
          type_ = kind;
          sample_rate = r;
          tags = with_tags (tag ∷ tags) [];
          timestamp = now;
        })
  parse_stats_d_line-line_text now name value kind rate tag tags v r clean lacks trimmed are_tags
        reads =
      let parts = (b'@' ∷ rate) ∷ tags_text (tag ∷ tags) ∷ [] in
      let (name_clean, name_trimmed, kind_trimmed) = clean in
      let (reads_value, reads_rate, positive) = reads in
      let start : StatsDMetric F = record {
        name = name;
        value = v;
        type_ = kind;
        sample_rate = fl.milli 1000;
        tags = [];
        timestamp = now;
      } in
      let rated : StatsDMetric F = record start { sample_rate = r } in
      let trimmed_ends : record start { name = trim_space name; type_ = trim_space kind } ≡ start =
        ap (λ n. record start { name = n; type_ = trim_space kind }) name_trimmed
        ∙ ap (λ k. record start { type_ = k }) kind_trimmed in
      parse_stats_d_line-parts now name value (kind ∷ parts) name_clean lacks
      ∙ rw (parse_parts, reads_value) refl
      ∙ ap (λ sm. parsed (with_parts parse_float parts sm)) trimmed_ends
      ∙ ap (λ sm. parsed (with_part parse_float (trim_space (tags_text (tag ∷ tags))) sm))
          (with_part-rate rate r start trimmed.0 reads_rate positive)
      ∙ ap parsed (with_part-tags tag tags rated trimmed.1 are_tags)

  -- What further parts leave of a metric.
  abbrev Keeps : StatsDMetric F → StatsDMetric F → Type 0
  Keeps old new =
      (new.name ≡ old.name)
      × (new.value ≡ old.value)
      × (new.type_ ≡ old.type_)
      × (new.timestamp ≡ old.timestamp)

  with_rate-Keeps : (text : Bytes) (sm : StatsDMetric F) → Keeps sm (with_rate parse_float text sm)
  with_rate-Keeps text sm = elim (Option-cases (parse_float text)) [
    | inl no_number ↦ rw (with_rate, no_number) (refl, refl, refl, refl)
    | inr (r, reads) ↦ elim (Bool-cases (fl.lt (fl.milli 0) r)) [
      | inl positive ↦ rw (with_rate, reads, positive) (refl, refl, refl, refl)
      | inr other ↦ rw (with_rate, reads, other) (refl, refl, refl, refl)
    ]
  ]

  with_part-Keeps : (part : Bytes) (sm : StatsDMetric F) → Keeps sm (with_part parse_float part sm)
  with_part-Keeps [] sm = (refl, refl, refl, refl)
  with_part-Keeps (c ∷ text) sm = elim (Bool-cases (nat_beq c b'@')) [
    | inl rate ↦ rw rate (with_rate-Keeps text sm)
    | inr other ↦ elim (Bool-cases (nat_beq c b'#')) [
      | inl tags ↦ rw (other, tags) (refl, refl, refl, refl)
      | inr neither ↦ rw (other, neither) (refl, refl, refl, refl)
    ]
  ]

  with_parts-Keeps :
      (parts : List Bytes) (sm : StatsDMetric F) → Keeps sm (with_parts parse_float parts sm)
  with_parts-Keeps [] sm = (refl, refl, refl, refl)
  with_parts-Keeps (part ∷ parts) sm =
      let first_part = with_part-Keeps (trim_space part) sm in
      let others = with_parts-Keeps parts (with_part parse_float (trim_space part) sm) in
      (
        others.0 ∙ first_part.0,
        others.1 ∙ first_part.1,
        others.2 ∙ first_part.2,
        others.3 ∙ first_part.3,
      )

  -- A line without a colon, without a bar after its first colon, or with a text between the first
  -- colon and the first bar that reads as no number, is refused with the error that says so, in this
  -- order. Every other line is parsed, whatever its further parts are, with the time of the call, the
  -- number that was read, and the name and the type without blanks at their ends.
  pub parse_stats_d_line_outcome :
      (now : Time) (name value kind : Bytes) (parts : List Bytes)
      → Lacks colon name
      → All (Lacks pipe) (value ∷ kind ∷ parts)
      → (parse_stats_d_line parse_float now name ≡ failed missing_colon)
        × (parse_stats_d_line parse_float now (name ++ colon ∷ value) ≡ failed missing_type)
        × (parse_float value ≡ none
            → parse_stats_d_line parse_float now (name ++ colon ∷ join pipe (value ∷ kind ∷ parts))
              ≡ failed bad_value)
        × ((v : F)
            → parse_float value ≡ some v
            → (sm : StatsDMetric F) × (parse_stats_d_line parse_float now
                  (name ++ colon ∷ join pipe (value ∷ kind ∷ parts))
                ≡ parsed sm)
              × (sm.name ≡ trim_space name)
              × (sm.value ≡ v)
              × (sm.type_ ≡ trim_space kind)
              × (sm.timestamp ≡ now))
  unfolding parse_stats_d_line
  parse_stats_d_line_outcome now name value kind parts clean lacks =
      let found = parse_stats_d_line-parts now name value (kind ∷ parts) clean lacks in
      (
        rw (parse_stats_d_line, cut_at-none colon name clean) refl,
        parse_stats_d_line-parts now name value [] clean (lacks.0, tt),
        λ no_number. found ∙ rw (parse_parts, no_number) refl,
        λ v reads.
            let start : StatsDMetric F = record {
              name = trim_space name;
              value = v;
              type_ = trim_space kind;
              sample_rate = fl.milli 1000;
              tags = [];
              timestamp = now;
            } in
            let kept = with_parts-Keeps parts start in
            (
              with_parts parse_float parts start,
              found ∙ rw (parse_parts, reads) refl,
              kept.0,
              kept.1,
              kept.2,
              kept.3,
            ),
      )

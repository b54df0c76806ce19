-- ===== src/Storage/Compaction.antt =====
-- retention.go: what the transaction of a bucket writes, deletes and leaves.
use ruptura.Base.{
  ◌≡◌, ◌≢◌, ◌⊎◌, refl, sym, ◌∙◌, none, some, inl, inr, ◌∷◌, map, Has, Option-cases, Bool-cases,
  Has-snoc, List, [], All, true, false, ap, ◌&&◌, ◌==◌, nat_beq, ==_refl, ==_ne, Float, Duration,
  Time, before, Has-All, ==_iff, ◌≤◌, ◌+◌, leb, length, arith,
}
use ruptura.Storage.{
  Bytes, bytes_eq, Database, Json, IsLawful, set_entry, delete_key, commit, ts_key, has_prefix,
  items_of,
}
use ruptura.Storage.Segments.{Has-items_of}
use ruptura.Storage.Purge.{time_of}
use ruptura.Storage.Removal.{Result-cases, deletes_listed, deletes_other, commit-written}
use ruptura.Storage.Keys.{has_prefix-append, max_time, parse_int-ts_key}
use ruptura.Storage.Retention.{
  Kv, Bucket, truncate, series_of, add_point, group, mean, dest_key, compact_bucket,
  compact_buckets, old_point, old_points, compact_tier,
}

module _ {F : Type 0} ⦃fl : Float F⦄ (B : Database) (json : Json F) where
  -- The transaction of a bucket has no effect, or else the destination holds the mean of the
  -- bucket's values, whatever it held before, the bucket's keys are gone and no other key changed.
  pub compact_bucket-IsAtomic :
      (dest : Bytes) (ttl : Duration) (b : Bucket F) (s : B.State)
      → IsLawful B
      → ¬ Has dest b.keys
      → (compact_bucket B json dest ttl b s ≡ s)
        ⊎ ((text : Bytes) × (json.marshal (mean b.vals) ≡ some text)
            × (B.find (compact_bucket B json dest ttl b s) dest ≡ some text)
            × ((key : Bytes)
                → Has key b.keys
                → B.find (compact_bucket B json dest ttl b s) key ≡ none)
            × ((key : Bytes)
                → key ≢ dest
                → ¬ Has key b.keys
                → B.find (compact_bucket B json dest ttl b s) key ≡ B.find s key))
  unfolding compact_bucket
  compact_bucket-IsAtomic dest ttl b s law apart =
      elim (Option-cases (json.marshal (mean b.vals))) [
        | inl no_text ↦ inl (rw (compact_bucket, no_text) refl)
        | inr (text, encoded) ↦
            elim (Result-cases (commit B (set_entry dest text ttl ∷ map delete_key b.keys) s)) [
              | inl (e, failed) ↦ inl (rw (compact_bucket, encoded, failed) refl)
              | inr (t, done) ↦
                  let now =
                    commit-written B (set_entry dest text ttl ∷ map delete_key b.keys) s t law
                      done in
                  inr (
                    rw (compact_bucket, encoded, done)
                      (
                        text,
                        refl,
                        now dest ∙ deletes_other b.keys dest _ apart ∙ rw (==_refl dest) refl,
                        λ key there. now key ∙ deletes_listed b.keys key _ there,
                        λ key other absent.
                            now key
                            ∙ deletes_other b.keys key _ absent
                            ∙ rw (==_ne dest key (λ e. other (sym e))) refl,
                      ))
            ]
      ]

module _ {F : Type 0} ⦃fl : Float F⦄ (B : Database) (json : Json F) where
  -- A bucket changes no key but its destination and its own.
  find-compact_bucket :
      (dest key : Bytes) (ttl : Duration) (b : Bucket F) (s : B.State)
      → IsLawful B
      → key ≢ dest
      → ¬ Has key b.keys
      → B.find (compact_bucket B json dest ttl b s) key ≡ B.find s key
  unfolding compact_bucket
  find-compact_bucket dest key ttl b s law other absent =
      elim (Option-cases (json.marshal (mean b.vals))) [
        | inl no_text ↦ rw (compact_bucket, no_text) refl
        | inr (text, encoded) ↦
            elim (Result-cases (commit B (set_entry dest text ttl ∷ map delete_key b.keys) s)) [
              | inl (e, failed) ↦ rw (compact_bucket, encoded, failed) refl
              | inr (t, done) ↦
                  let now =
                    commit-written B (set_entry dest text ttl ∷ map delete_key b.keys) s t law
                      done in
                  rw (compact_bucket, encoded, done)
                    (now key
                      ∙ deletes_other b.keys key _ absent
                      ∙ rw (==_ne dest key (λ e. other (sym e))) refl)
            ]
      ]

  -- A key that is not under the prefix of the destinations and in no bucket is left.
  find-compact_buckets :
      (src dest key : Bytes) (ttl : Duration) (buckets : List (Bucket F)) (s : B.State)
      → IsLawful B
      → has_prefix key dest ≡ false
      → All (λ b. ¬ Has key (b.keys)) buckets
      → B.find (compact_buckets B json src dest ttl buckets s) key ≡ B.find s key
  unfolding compact_buckets
  find-compact_buckets src dest key ttl [] s law out absent = refl
  find-compact_buckets src dest key ttl (b ∷ buckets) s law out absent =
      find-compact_buckets src dest key ttl buckets _ law out absent.1
      ∙ find-compact_bucket (dest_key src dest b) key ttl b s law
          (λ e.
            let bad : true ≡ false =
              sym (has_prefix-append dest _) ∙ ap (λ k. has_prefix k dest) (sym e) ∙ out in
            cc)
          absent.0

  add_point-absent :
      (size : Duration) (key : Bytes) (p : Kv F) (buckets : List (Bucket F))
      → key ≢ p.key
      → All (λ b. ¬ Has key (b.keys)) buckets
      → All (λ b. ¬ Has key (b.keys)) (add_point size p buckets)
  add_point-absent size key p [] other absent =
      (λ h. elim h [ inl e ↦ other (sym e) | inr nowhere ↦ nowhere ], tt)
  add_point-absent size key p (b ∷ buckets) other absent =
      elim (Bool-cases
        ((b.series_prefix == series_of p.key) && nat_beq b.floor (truncate p.ts size))) [
          | inl same ↦ rw same (
            λ h. elim ((Has-snoc key (p.key) (b.keys)).0 h) [
              | inl earlier ↦ absent.0 earlier
              | inr e ↦ other (sym e)
            ],
            absent.1,
          )
          | inr apart ↦ rw apart (absent.0, add_point-absent size key p buckets other absent.1)
        ]

  group-absent :
      (size : Duration) (key : Bytes) (points : List (Kv F)) (buckets : List (Bucket F))
      → All (λ p. key ≢ p.key) points
      → All (λ b. ¬ Has key (b.keys)) buckets
      → All (λ b. ¬ Has key (b.keys)) (group size points buckets)
  group-absent size key [] buckets others absent = absent
  group-absent size key (p ∷ points) buckets others absent =
      group-absent size key points (add_point size p buckets) others.1
        (add_point-absent size key p buckets others.0 absent)

  key-old_point :
      (src : Bytes) (cutoff : Time) (item : Bytes × Bytes) (p : Kv F)
      → old_point json src cutoff item ≡ some p
      → p.key ≡ item.0
  key-old_point src cutoff item p e = elim (Option-cases (time_of src (item.0))) [
    | inl untimed ↦ absurd (let bad : none ≡ some p = rw (old_point, untimed) at e in cc)
    | inr (ts, timed) ↦ elim (Bool-cases (before ts cutoff)) [
      | inr recent ↦ absurd (let bad : none ≡ some p = rw (old_point, timed, recent) at e in cc)
      | inl old ↦ elim (Option-cases (json.unmarshal (item.1))) [
        | inl unread ↦
            absurd (let bad : none ≡ some p = rw (old_point, timed, old, unread) at e in cc)
        | inr (v, read) ↦
            let made : some (record { key = item.0; ts = ts; val = v }) ≡ some p =
              rw (old_point, timed, old, read) at e in
            let same : record { key = item.0; ts = ts; val = v } ≡ p = cc in
            ap (λ q. q.key) (sym same)
      ]
    ]
  ]

  old_points-absent :
      (src : Bytes) (cutoff : Time) (key : Bytes) (items : List (Bytes × Bytes))
      → All (λ item. (key ≢ item.0) ⊎ (old_point json src cutoff item ≡ none)) items
      → All (λ p. key ≢ p.key) (old_points json src cutoff items)
  old_points-absent src cutoff key [] h = tt
  old_points-absent src cutoff key (item ∷ items) h =
      elim (Option-cases (old_point json src cutoff item)) [
        | inl none_there ↦ rw (old_points, none_there) (old_points-absent src cutoff key items h.1)
        | inr (p, made) ↦
            rw (old_points, made)
              (
                λ e. elim h.0 [
                  | inl other ↦ other (e ∙ key-old_point src cutoff item p made)
                  | inr none_there ↦ let bad : none ≡ some p = sym none_there ∙ made in absurd (cc)
                ],
                old_points-absent src cutoff key items h.1,
              )
      ]

  -- An item whose key is not older than the cutoff gives no point.
  old_point-young :
      (src series : Bytes) (cutoff t : Time) (value : Bytes)
      → t ≤ max_time
      → cutoff ≤ t
      → old_point json src cutoff (ts_key series t, value) ≡ none
  old_point-young src series cutoff t value fits young =
      elim (Bool-cases (leb (length src + 20) (length (ts_key series t)))) [
        | inr short ↦
            let untimed : time_of src (ts_key series t) ≡ none = rw (time_of, short) refl in
            rw (old_point, untimed) refl
        | inl long ↦
            let late : before t cutoff ≡ false = ground arith in
            let timed : time_of src (ts_key series t) ≡ some t =
              rw (time_of, long) (parse_int-ts_key series t fits).2 in
            rw (old_point, timed, late) refl
      ]

  old_point_unread :
      (src : Bytes) (cutoff : Time) (key value : Bytes)
      → json.unmarshal value ≡ none
      → old_point json src cutoff (key, value) ≡ none
  old_point_unread src cutoff key value unread = elim (Option-cases (time_of src key)) [
    | inl untimed ↦ rw (old_point, untimed) refl
    | inr (ts, timed) ↦ elim (Bool-cases (before ts cutoff)) [
      | inr recent ↦ rw (old_point, timed, recent) refl
      | inl old ↦ rw (old_point, timed, old, unread) refl
    ]
  ]

  spared :
      (src : Bytes) (cutoff : Time) (s : B.State) (key : Bytes)
      → IsLawful B
      → (has_prefix key src ≡ false)
        ⊎ ((series : Bytes) × (t : Time) × (key ≡ ts_key series t) × (t ≤ max_time) × (cutoff ≤ t))
        ⊎ ((value : Bytes) → B.find s key ≡ some value → json.unmarshal value ≡ none)
      → All (λ item. (key ≢ item.0) ⊎ (old_point json src cutoff item ≡ none)) (items_of B src s)
  spared src cutoff s key law kept =
      Has-All (λ item. (key ≢ item.0) ⊎ (old_point json src cutoff item ≡ none)) (items_of B src s)
        (λ item there. elim (Bool-cases (key == item.0)) [
          | inr other ↦
              inl (λ e. let bad : true ≡ false = sym ((==_iff key (item.0)).1 e) ∙ other in cc)
          | inl same ↦
              let e : key ≡ item.0 = (==_iff key (item.0)).0 same in
              let (under_src, held) = (Has-items_of B src s law (item.0) (item.1)).0 there in
              let here : old_point json src cutoff (key, item.1) ≡ none = elim kept [
                | inl apart ↦ absurd (
                    let bad : true ≡ false =
                      sym under_src ∙ ap (λ k. has_prefix k src) (sym e) ∙ apart in
                    cc)
                | inr (inl (series, t, stamped, fits, young)) ↦
                    ap (λ k. old_point json src cutoff (k, item.1)) stamped
                    ∙ old_point-young src series cutoff t item.1 fits young
                | inr (inr unread) ↦
                    old_point_unread src cutoff key item.1 (unread item.1 (ap (B.find s) e ∙ held))
              ] in
              inr (ap (λ k. old_point json src cutoff (k, item.1)) (sym e) ∙ here)
        ])

  -- A pass over a tier leaves every key that has not the prefix of its destinations and besides has
  -- not the prefix of its source, or ends in the digits of a time up to 2262 that is not before the
  -- cutoff, or holds a value that cannot be decoded.
  pub find-compact_tier :
      (src dest : Bytes) (size : Duration) (cutoff : Time) (ttl : Duration) (s : B.State)
      (key : Bytes)
      → IsLawful B
      → has_prefix key dest ≡ false
      → (has_prefix key src ≡ false)
        ⊎ ((series : Bytes) × (t : Time) × (key ≡ ts_key series t) × (t ≤ max_time) × (cutoff ≤ t))
        ⊎ ((value : Bytes) → B.find s key ≡ some value → json.unmarshal value ≡ none)
      → B.find (compact_tier B json src dest size cutoff ttl s) key ≡ B.find s key
  unfolding compact_tier
  find-compact_tier src dest size cutoff ttl s key law out kept =
      find-compact_buckets src dest key ttl
        (group size (old_points json src cutoff (items_of B src s)) []) s law out
        (group-absent size key (old_points json src cutoff (items_of B src s)) []
          (old_points-absent src cutoff key (items_of B src s) (spared src cutoff s key law kept))
          tt)

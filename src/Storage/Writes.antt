-- ===== src/Storage/Writes.antt =====
-- storage.go: what is read after a point was written.
use ruptura.Base.{
  ◌≤◌, ◌≡◌, ◌≢◌, ◌↔◌, ◌⊎◌, refl, sym, ap, ◌∙◌, subst, true, false, some, inl, inr, [], ◌∷◌, Has,
  length, drop, Bool-cases, Option-cases, Float, Time, Duration, ◌==◌, ==_iff, ==_refl,
  if◌then◌else◌, ltb, ==_ne, arith,
}
use ruptura.Storage.{
  Bytes, bytes_eq, less, ts_key, parse_int, Database, Json, IsLawful, IsFaithful, ok, error, set,
  get, set_raw, commit, set_entry,
}
use ruptura.Storage.Keys.{max_time, less-ts_key, parse_int-ts_key}
use ruptura.Storage.Series.{
  Sample, value_of, range_query, keyed, m_tag, metrics_ttl, put_metric, get_metric, list_metrics,
}
use ruptura.Storage.Ranges.{IsSeries, Has-range_query_raw}

module _ {A : Type 0} (B : Database) (json : Json A) where
  -- A write that succeeds changes its key and no other.
  pub find-set :
      (key : Bytes) (value : A) (ttl : Duration) (s t : B.State)
      → IsLawful B
      → set B json key value ttl s ≡ ok t
      → (text : Bytes) × (json.marshal value ≡ some text)
        × ((k : Bytes) → B.find t k ≡ (if key == k then some text else B.find s k))
  unfolding set set_raw commit
  find-set key value ttl s t law done = elim (Option-cases (json.marshal value)) [
    | inl none_there ↦ absurd (let bad : error _ ≡ ok t = rw (set, none_there) at done in cc)
    | inr (text, there) ↦ elim (Option-cases (B.update s (set_entry key text ttl ∷ []))) [
      | inl failed ↦
          absurd (let bad : error _ ≡ ok t = rw (set, set_raw, commit, there, failed) at done in cc)
      | inr (t', committed) ↦
          let e : ok t' ≡ ok t = rw (set, set_raw, commit, there, committed) at done in
          let same : t' ≡ t = cc in
          (
            text,
            there,
            λ k. law.find-update s t (set_entry key text ttl ∷ []) k (committed ∙ ap some same),
          )
    ]
  ]

  pub get-set :
      (key : Bytes) (value : A) (ttl : Duration) (s t : B.State)
      → IsLawful B
      → IsFaithful json
      → set B json key value ttl s ≡ ok t
      → get B json key t ≡ ok value
  unfolding get
  get-set key value ttl s t law faithful done =
      let (text, there, after) = find-set key value ttl s t law done in
      let held : B.find t key ≡ some text = after key ∙ rw (==_refl key) refl in
      rw (get, held, faithful value text there) refl

module _ {F : Type 0} ⦃fl : Float F⦄ (B : Database) (json : Json F) where
  -- A point that is written to a series keeps it a series.
  pub IsSeries-set :
      (prefix : Bytes) (ts : Time) (value : F) (ttl : Duration) (s t : B.State)
      → IsLawful B
      → IsFaithful json
      → ts ≤ max_time
      → IsSeries B json prefix s
      → set B json (ts_key prefix ts) value ttl s ≡ ok t
      → IsSeries B json prefix t
  unfolding IsSeries
  IsSeries-set prefix ts value ttl s t law faithful fits series done key text held there =
      let (new, encoded, after) = find-set B json (ts_key prefix ts) value ttl s t law done in
      elim (Bool-cases (ts_key prefix ts == key)) [
        | inl same ↦
            let e : ts_key prefix ts ≡ key = (==_iff (ts_key prefix ts) key).0 same in
            let now : B.find t key ≡ some new = rw same at (after key) in
            let text_new : new ≡ text = cc in
            (
              (ts, fits, sym e),
              (
                value,
                subst (λ w. json.unmarshal w ≡ some value) text_new (faithful value new encoded),
              ),
            )
        | inr other ↦
            let before : B.find t key ≡ B.find s key = rw other at (after key) in
            series key text (sym before ∙ held) there
      ]

  -- What a range gives after a write.
  points_after :
      (prefix : Bytes) (ts : Time) (value : F) (ttl : Duration) (s t : B.State)
      → IsLawful B
      → IsFaithful json
      → ts ≤ max_time
      → set B json (ts_key prefix ts) value ttl s ≡ ok t
      → (from to : Time) (point : Sample F) → from ≤ max_time
      → to ≤ max_time
      → Has point (range_query B json prefix from to t) ↔ (
          (from ≤ ts) × (ts ≤ to) × (point ≡ (ts, value))
          ⊎ ((key text : Bytes) × (key ≢ ts_key prefix ts)
              × (B.find s key ≡ some text)
              × (less key (ts_key prefix from) ≡ false)
              × (less (ts_key prefix to) key ≡ false)
              × (point ≡ (parse_int (drop (length prefix) key), value_of json text))))
  points_after prefix ts value ttl s t law faithful fits done from to point small large =
      let (new, encoded, after) = find-set B json (ts_key prefix ts) value ttl s t law done in
      let raw = Has-range_query_raw B json law prefix from to t point in
      let time = (parse_int-ts_key prefix ts fits).0 in
      let read : value_of json new ≡ value = rw (value_of, faithful value new encoded) refl in
      (
        λ h.
            let (key, text, held, seen, upto, same) = raw.0 h in
            elim (Bool-cases (ts_key prefix ts == key)) [
              | inl here ↦
                  let e : key ≡ ts_key prefix ts = sym ((==_iff (ts_key prefix ts) key).0 here) in
                  let now : B.find t key ≡ some new = rw here at (after key) in
                  let text_new : new ≡ text = cc in
                  let low : ltb ts from ≡ false =
                    sym (less-ts_key prefix ts from fits small)
                    ∙ subst (λ k. less k (ts_key prefix from) ≡ false) e seen in
                  let high : ltb to ts ≡ false =
                    sym (less-ts_key prefix to ts large fits)
                    ∙ subst (λ k. less (ts_key prefix to) k ≡ false) e upto in
                  let at : parse_int (drop (length prefix) key) ≡ ts =
                    ap (λ k. parse_int (drop (length prefix) k)) e ∙ time in
                  let value_read : value_of json text ≡ value =
                    ap (value_of json) (sym text_new) ∙ read in
                  inl (ground arith, ground arith, sym same ∙ (λ i. (at i, value_read i)))
              | inr other ↦
                  let before : B.find t key ≡ B.find s key = rw other at (after key) in
                  inr (
                    key,
                    text,
                    λ e. absurd (
                        let bad = (==_iff (ts_key prefix ts) key).1 (sym e) in
                        let clash : true ≡ false = sym bad ∙ other in cc),
                    sym before ∙ held,
                    seen,
                    upto,
                    sym same,
                  )
            ],
        λ h. elim h [
          | inl (low, high, is_new) ↦ raw.1 (
            ts_key prefix ts,
            new,
            after (ts_key prefix ts) ∙ rw (==_refl (ts_key prefix ts)) refl,
            less-ts_key prefix ts from fits small ∙ ground arith,
            less-ts_key prefix to ts large fits ∙ ground arith,
            (λ i. (time i, read i)) ∙ sym is_new,
          )
          | inr (key, text, apart, held, seen, upto, same) ↦
              let other = ==_ne (ts_key prefix ts) key (λ e. apart (sym e)) in
              let before : B.find t key ≡ B.find s key = rw other at (after key) in
              raw.1 (key, text, before ∙ held, seen, upto, sym same)
        ],
      )

  -- After a metric value was stored without an error at a time from 1970 to 2262, whatever else is
  -- stored, in a database with the stated laws and an encoding that is decoded again: GetMetric of that
  -- time gives it back, and the list of the host's metric over any range of such times holds the new
  -- point exactly if its time is in the range, its ends included, and besides it exactly what the
  -- other keys from the start of the range to its end held before, each with the number after the
  -- prefix for its time and its decoded value, or the zero value where it cannot be decoded.
  pub list_metrics-put_metric :
      (host metric : Bytes) (ts : Time) (value : F) (s after_put : B.State)
      → IsLawful B
      → IsFaithful json
      → ts ≤ max_time
      → put_metric B json host metric ts value s ≡ ok after_put
      → (get_metric B json host metric ts after_put ≡ ok value)
        × ((from to : Time) (point : Sample F)
            → from ≤ max_time
            → to ≤ max_time
            → Has point (list_metrics B json host metric from to after_put) ↔ (
                (from ≤ ts) × (ts ≤ to) × (point ≡ (ts, value))
                ⊎ ((key text : Bytes) × (key ≢ ts_key (keyed m_tag (host ∷ metric ∷ [])) ts)
                    × (B.find s key ≡ some text)
                    × (less key (ts_key (keyed m_tag (host ∷ metric ∷ [])) from) ≡ false)
                    × (less (ts_key (keyed m_tag (host ∷ metric ∷ [])) to) key ≡ false)
                    × (point ≡ (
                      parse_int (drop (length (keyed m_tag (host ∷ metric ∷ []))) key),
                      value_of json text,
                    )))))
  unfolding put_metric get_metric list_metrics
  list_metrics-put_metric host metric ts value s t law faithful fits done =
      let prefix = keyed m_tag (host ∷ metric ∷ []) in
      (
        get-set B json (ts_key prefix ts) value metrics_ttl s t law faithful done,
        λ from to point small large.
            points_after prefix ts value metrics_ttl s t law faithful fits done from to point small
              large,
      )

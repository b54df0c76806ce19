-- ===== src/Correlator/Detector/Bounds.antt =====
-- bursts.go: every index of a series is in range, and the channel is never overfilled.
use Prim.Native.String.{◌++◌ as ◌&◌}
use ruptura.Base.{
  ℕ, ◌+◌, ◌%◌, ◌≤◌, ◌<◌, ◌≡◌, refl, ◌∙◌, inl, inr, String, Bool, true, false, not, ◌||◌, List, [],
  ◌∷◌, length, length-append, get_or, All, All-insert, All-lookup, Option, some, none, Option-cases,
  Bool-cases, ltb, nat_beq, ◌==◌, string_eq, Dict, lookup, insert, Time, Float, arith,
}
use native.Mathlib.Nat.{mod-lt}
use ruptura.Ring.{set_at}
use ruptura.Ring.Slots.{length-set_at}
use ruptura.Correlator.{BurstEvent, Maths}
use ruptura.Correlator.Detector.{
  BurstSeries, BurstDetector, new_burst_series, new_burst_detector, bucket_count, count_line,
  is_above, find_burst, record_line, emit, observe,
}

-- The arrays have their size, the position is an index of both, and at most all buckets are used.
pub record IsSeries (s : BurstSeries) : Type 0 where
  pub sized : length s.buckets ≡ bucket_count
  pub sized_ts : length s.bucket_ts ≡ bucket_count
  pub inside : s.pos_ < bucket_count
  pub used : s.n ≤ bucket_count

IsSeries-count_line : (s : BurstSeries) (key : ℕ) → IsSeries s → IsSeries (count_line s key)
unfolding count_line
IsSeries-count_line s key h =
    elim (Bool-cases (nat_beq s.n 0 || not (nat_beq (get_or s.bucket_ts s.pos_ 0) key))) [
      | inl rolls ↦
          let next = (s.pos_ + 1) % bucket_count in
          rw rolls (record {
            sized =
                length-set_at next (get_or (set_at next 0 s.buckets) next 0 + 1)
                  (set_at next 0 s.buckets)
                ∙ length-set_at next 0 s.buckets
                ∙ h.sized;
            sized_ts = length-set_at next key s.bucket_ts ∙ h.sized_ts;
            inside = mod-lt (s.pos_ + 1) (omega arith);
            used = ground (arith, h.used);
          })
      | inr stays ↦ rw stays (record {
        sized = length-set_at s.pos_ (get_or s.buckets s.pos_ 0 + 1) s.buckets ∙ h.sized;
        sized_ts = h.sized_ts;
        inside = h.inside;
        used = h.used;
      })
    ]

-- The fields of the active burst are free.
IsSeries-burst :
    (s : BurstSeries) (now_in : Bool) (start : Time) (count : ℕ)
    → IsSeries s
    → IsSeries (record s { in_burst = now_in; burst_start = start; burst_count = count })
IsSeries-burst s now_in start count h = record {
  sized = h.sized;
  sized_ts = h.sized_ts;
  inside = h.inside;
  used = h.used;
}

module _ {F : Type 0} ⦃fl : Float F⦄ (m : Maths F) where
  abbrev Keeps : BurstSeries × Option (BurstEvent F) → Type 0
  Keeps r = IsSeries r.0

  Keeps-find_burst : (s : BurstSeries) (ts : Time) → IsSeries s → Keeps (find_burst m s ts)
  unfolding find_burst
  Keeps-find_burst s ts h = elim (Bool-cases (ltb s.n 5)) [
    | inl few ↦ rw few h
    | inr enough ↦ elim (Bool-cases (s.in_burst)) [
      | inl active ↦ elim (Bool-cases (is_above m s)) [
        | inl above ↦ rw (enough, active, above) (IsSeries-burst s true s.burst_start _ h)
        | inr below ↦ rw (enough, active, below) (IsSeries-burst s false s.burst_start _ h)
      ]
      | inr idle ↦ elim (Bool-cases (is_above m s)) [
        | inl above ↦ rw (enough, idle, above) (IsSeries-burst s true ts _ h)
        | inr below ↦
            rw (enough, idle, below) (IsSeries-burst s false s.burst_start s.burst_count h)
      ]
    ]
  ]

  Keeps-record_line : (s : BurstSeries) (ts : Time) → IsSeries s → Keeps (record_line m s ts)
  unfolding record_line
  Keeps-record_line s ts h = Keeps-find_burst (count_line s _) ts (IsSeries-count_line s _ h)

-- What holds of a detector between two lines.
pub record IsDetector {F : Type 0} (size : ℕ) (d : BurstDetector F) : Type 0 where
  pub every : All (λ ks. IsSeries ks.1) d.series
  pub fits : length d.events ≤ size
  pub same : d.capacity ≡ size

module _ {F : Type 0} where
  IsDetector-emit :
      (size : ℕ) (d : BurstDetector F) (burst : BurstEvent F)
      → IsDetector size d
      → IsDetector size (emit d burst)
  unfolding emit
  IsDetector-emit size d burst h = elim (Bool-cases (ltb (length d.events) d.capacity)) [
    | inl room ↦ rw room (record {
      every = h.every;
      fits = ground (arith, length-append d.events (burst ∷ []), h.same);
      same = h.same;
    })
    | inr full ↦ rw full (record { every = h.every; fits = h.fits; same = h.same })
  ]

IsSeries-new : IsSeries new_burst_series
IsSeries-new = record { sized = refl; sized_ts = refl; inside = omega arith; used = omega arith }

IsSeries-found :
    (series : Dict String BurstSeries) (key : String)
    → All (λ ks. IsSeries ks.1) series
    → IsSeries (elim (lookup key series) [ none ↦ new_burst_series | some s ↦ s ])
IsSeries-found series key every = elim (Option-cases (lookup key series)) [
  | inl missing ↦ rw missing IsSeries-new
  | inr (s, found) ↦ rw found (All-lookup IsSeries key series every found)
]

module _ {F : Type 0} where
  IsDetector-send :
      (size : ℕ) (d : BurstDetector F) (id service level : String) (burst : Option (BurstEvent F))
      → IsDetector size d
      → IsDetector size (elim burst [
        | none ↦ d
        | some b ↦ emit d (record b { id = id; service = service; level = level })
      ])
  IsDetector-send size d id service level none h = h
  IsDetector-send size d id service level (some b) h =
      IsDetector-emit size d (record b { id = id; service = service; level = level }) h

-- A line that is observed, with its service, level and time.
pub data Line : Type 0 where
  line : (service level : String) → Time → Line

module _ {F : Type 0} ⦃fl : Float F⦄ (m : Maths F) (ids : ℕ → String) where
  IsDetector-observe :
      (size : ℕ) (d : BurstDetector F) (service level : String) (ts : Time)
      → IsDetector size d
      → IsDetector size (observe m ids d service level ts)
  unfolding observe
  IsDetector-observe size d service level ts h =
      elim (Bool-cases (level == "error" || level == "warn")) [
        | inr ignored ↦ rw ignored h
        | inl watched ↦
            let key = service & (":" & level) in
            let next =
              record_line m (elim (lookup key d.series) [ none ↦ new_burst_series | some s ↦ s ])
                ts in
            let kept : IsDetector size (record d { series = insert key next.0 d.series }) = record {
              every =
                  All-insert IsSeries key next.0 d.series
                    (Keeps-record_line m _ ts (IsSeries-found d.series key h.every)) h.every;
              fits = h.fits;
              same = h.same;
            } in
            rw watched (IsDetector-send size _ (ids d.drawn) service level next.1 kept)
      ]

  abbrev pub after_lines : BurstDetector F → List Line → BurstDetector F
  after_lines d [] = d
  after_lines d (line service level ts ∷ more) = after_lines (observe m ids d service level ts) more

  IsDetector-lines :
      (size : ℕ) (d : BurstDetector F) (lines : List Line)
      → IsDetector size d
      → IsDetector size (after_lines d lines)
  IsDetector-lines size d [] h = h
  IsDetector-lines size d (line service level ts ∷ more) h =
      IsDetector-lines size (observe m ids d service level ts) more
        (IsDetector-observe size d service level ts h)

  -- Whatever lines a new detector observes, the arrays of every series keep their 31 slots, the position
  -- is an index of them, at most 31 buckets are in use, and the channel holds no more events than its
  -- capacity.
  pub after_lines-IsDetector :
      (size : ℕ) (lines : List Line) → IsDetector size (after_lines (new_burst_detector size) lines)
  after_lines-IsDetector size lines =
      IsDetector-lines size (new_burst_detector size) lines
        (record { every = tt; fits = omega arith; same = refl })

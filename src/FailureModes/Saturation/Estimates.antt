-- ===== src/FailureModes/Saturation/Estimates.antt =====
-- When the memory estimator reports, and what a restart does to it.
use ruptura.Base.{
  ℕ, ◌-◌, ◌≤◌, ◌<◌, ◌≡◌, refl, true, false, List, [], ◌∷◌, length, arith, some, none, Time, Float,
  lt→ltb, Bool-cases, inl, inr,
}
use ruptura.FailureModes.Estimate.{Estimate, saturation}
use ruptura.FailureModes.Slopes.{Point, sustained, pair_slopes, theil_sen}
use ruptura.FailureModes.Saturation.{
  Saturation, push_point, estimate_from, observe, saturation_min_samples, saturation_min_span,
}

module _ {F : Type 0} ⦃fl : Float F⦄ where
  -- The evidence behind an estimate read from `points` at `at`.
  pub record IsGrounded (points : List (Point F)) (at : Time) (e : Estimate F) : Type 0 where
    pub enough : saturation_min_samples ≤ length points
    pub oldest : Point F
    pub newer : List (Point F)
    pub window : points ≡ oldest ∷ newer
    pub spans : saturation_min_span ≤ at - oldest.at
    pub confident : fl.lt e.confidence (fl.milli 800) ≡ false
    pub rising : fl.le (theil_sen (pair_slopes points)).0 (fl.milli 0) ≡ false
    pub lasting : sustained points (theil_sen (pair_slopes points)).0 ≡ true
    pub about : e.mode ≡ saturation

  estimate_from-IsGrounded :
      (points : List (Point F)) (at : Time) (usage : F) {e : Estimate F}
      → estimate_from points at usage ≡ some e
      → IsGrounded points at e
  unfolding estimate_from
  estimate_from-IsGrounded [] at usage h = cc
  estimate_from-IsGrounded (p ∷ ps) at usage h = record {
    enough = ground arith;
    oldest = p;
    newer = ps;
    window = refl;
    spans = ground arith;
    confident = ground arith;
    rising = ground arith;
    lasting = ground arith;
    about = ground arith;
  }

  -- An estimate of a reading is about saturation and rests on a memory limit that is not zero or less,
  -- on at least five readings over at least ten minutes, on a slope that is not zero or less and that
  -- the test of both halves confirms, and on a share of agreeing pairs that is not below 0.8.
  pub observe-IsGrounded :
      (s : Saturation F) (at : Time) (usage limit : F) (restarts : ℕ) {e : Estimate F}
      → (observe s at usage limit restarts).1 ≡ some e
      → (fl.le limit (fl.milli 0) ≡ false)
        × IsGrounded (observe s at usage limit restarts).0.points at e
  unfolding observe
  observe-IsGrounded s at usage limit restarts h = elim (Bool-cases (fl.le limit (fl.milli 0))) [
    | inl no_limit ↦ absurd (cc (rw no_limit at h))
    | inr limited ↦ rw limited (refl, estimate_from-IsGrounded _ at _ (rw limited at h))
  ]

  -- Once a restart count has been seen, a larger one empties the window: the reading that shows it gives
  -- no estimate, at most that reading is kept, and its count becomes the one to compare with.
  pub observe_restart :
      (s : Saturation F) (at : Time) (usage limit : F) (restarts : ℕ)
      → s.seen ≡ true
      → s.restarts < restarts
      → ((observe s at usage limit restarts).1 ≡ none)
        × (length (observe s at usage limit restarts).0.points ≤ 1)
        × ((observe s at usage limit restarts).0.restarts ≡ restarts)
  unfolding observe push_point estimate_from
  observe_restart s at usage limit restarts seen grew = ground (arith, lt→ltb s.restarts restarts)

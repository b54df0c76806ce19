-- ===== src/FailureModes/Saturation/Window.antt =====
-- The window of readings that the memory estimator keeps.
use ruptura.Base.{
  ℕ, zero, suc, ◌-◌, ◌≤◌, ◌<◌, ◌≡◌, refl, ◌∙◌, inl, inr, List, [], ◌∷◌, ◌++◌, length, drop, arith,
  All, Bool-cases, some, ltb, cut_to_last-eq, length-last_n, length-cut_to_last, last, Time, Float,
}
use ruptura.FailureModes.Slopes.{Point}
use ruptura.FailureModes.Saturation.{
  Saturation, cut_stale, push_point, observe, saturation_window, saturation_max_samples,
  after_restarts,
}

module _ {F : Type 0} where
  abbrev next_time : List (Point F) → Time → Time
  next_time [] now = now
  next_time (p ∷ ps) now = p.at

  -- Readings in order of time, none after `now`.
  abbrev pub IsOrdered : List (Point F) → Time → Type 0
  IsOrdered [] now = Unit
  IsOrdered (p ∷ ps) now = (p.at ≤ next_time ps now) × IsOrdered ps now

  -- No reading is older than the window.
  abbrev pub IsFresh : List (Point F) → Time → Type 0
  IsFresh points now = All (λ q. now - q.at ≤ saturation_window) points

  append-IsOrdered :
      (points : List (Point F)) (p : Point F)
      → IsOrdered points p.at
      → IsOrdered (points ++ p ∷ []) p.at
  append-IsOrdered [] p h = omega arith
  append-IsOrdered (q ∷ []) p h = omega arith
  append-IsOrdered (q ∷ r ∷ rest) p h = (h.0, append-IsOrdered (r ∷ rest) p h.1)

  drop-IsOrdered :
      (n : ℕ) (points : List (Point F)) (now : Time)
      → IsOrdered points now
      → IsOrdered (drop n points) now
  drop-IsOrdered zero points now h = h
  drop-IsOrdered (suc n) [] now h = h
  drop-IsOrdered (suc n) (p ∷ ps) now h = drop-IsOrdered n ps now h.1

  drop-IsFresh :
      (n : ℕ) (points : List (Point F)) (now : Time)
      → IsFresh points now
      → IsFresh (drop n points) now
  drop-IsFresh zero points now h = h
  drop-IsFresh (suc n) [] now h = h
  drop-IsFresh (suc n) (p ∷ ps) now h = drop-IsFresh n ps now h.1

  last-append : (points : List (Point F)) (p : Point F) → last (points ++ p ∷ []) ≡ some p
  last-append [] p = refl
  last-append (q ∷ []) p = refl
  last-append (q ∷ r ∷ rest) p = last-append (r ∷ rest) p

  last-drop :
      (n : ℕ) (points : List (Point F)) → n < length points → last (drop n points) ≡ last points
  last-drop zero points h = refl
  last-drop (suc n) [] h = refl
  last-drop (suc n) (p ∷ []) h = absurd (omega arith)
  last-drop (suc n) (p ∷ q ∷ rest) h = last-drop n (q ∷ rest) (omega arith)

  ordered_head-IsFresh :
      (p : Point F) (ps : List (Point F)) (now : Time)
      → IsOrdered (p ∷ ps) now
      → now - p.at ≤ saturation_window
      → IsFresh (p ∷ ps) now
  ordered_head-IsFresh p [] now h fresh = (fresh, tt)
  ordered_head-IsFresh p (q ∷ qs) now h fresh =
      (fresh, ordered_head-IsFresh q qs now h.1 (omega arith))

  cut_stale-IsOrdered :
      (points : List (Point F)) (now : Time)
      → IsOrdered points now
      → IsOrdered (cut_stale now points) now
  cut_stale-IsOrdered [] now h = h
  cut_stale-IsOrdered (p ∷ []) now h = h
  cut_stale-IsOrdered (p ∷ q ∷ rest) now h =
      elim (Bool-cases (ltb saturation_window (now - p.at))) [
        | inl old ↦ rw old (cut_stale-IsOrdered (q ∷ rest) now h.1)
        | inr young ↦ rw young h
      ]

  cut_stale-IsFresh :
      (points : List (Point F)) (p : Point F)
      → IsOrdered points p.at
      → last points ≡ some p
      → IsFresh (cut_stale p.at points) p.at
  cut_stale-IsFresh [] p h e = tt
  cut_stale-IsFresh (q ∷ []) p h e = ground arith
  cut_stale-IsFresh (q ∷ r ∷ rest) p h e = elim (Bool-cases (ltb saturation_window (p.at - q.at))) [
    | inl old ↦ rw old (cut_stale-IsFresh (r ∷ rest) p h.1 e)
    | inr young ↦ rw young (ordered_head-IsFresh q (r ∷ rest) p.at h (ground arith))
  ]

  last-cut_stale :
      (points : List (Point F)) (now : Time) → last (cut_stale now points) ≡ last points
  last-cut_stale [] now = refl
  last-cut_stale (q ∷ []) now = refl
  last-cut_stale (q ∷ r ∷ rest) now = elim (Bool-cases (ltb saturation_window (now - q.at))) [
    | inl old ↦ rw old (last-cut_stale (r ∷ rest) now)
    | inr young ↦ rw young
  ]

  last-nonempty : (points : List (Point F)) (p : Point F) → last points ≡ some p → 0 < length points
  last-nonempty [] p e = cc
  last-nonempty (q ∷ qs) p e = omega arith

  -- What a reading does to a window in order of time, none of it after the reading: the window stays
  -- in order and ends with the reading, holds at most 120 readings, and none of them is more than 30
  -- minutes older than it.
  pub push_point_window :
      (points : List (Point F)) (p : Point F)
      → IsOrdered points p.at
      → IsOrdered (push_point points p) p.at
        × IsFresh (push_point points p) p.at
        × (length (push_point points p) ≤ saturation_max_samples)
        × (last (push_point points p) ≡ some p)
  unfolding push_point
  push_point_window points p h = rw (cut_to_last-eq saturation_max_samples kept) (
    drop-IsOrdered (length kept - saturation_max_samples) kept p.at
        (cut_stale-IsOrdered all p.at ordered),
    drop-IsFresh (length kept - saturation_max_samples) kept p.at
        (cut_stale-IsFresh all p ordered (last-append points p)),
    length-last_n saturation_max_samples kept,
    last-drop (length kept - saturation_max_samples) kept (omega (arith, last-nonempty kept p ends))
        ∙ ends,
  )
    where
      all : List (Point F)
      all = points ++ p ∷ []

      ordered : IsOrdered all p.at
      ordered = append-IsOrdered points p h

      kept : List (Point F)
      kept = cut_stale p.at all

      ends : last kept ≡ some p
      ends = last-cut_stale all p.at ∙ last-append points p

  pub push_point-le :
      (points : List (Point F)) (p : Point F)
      → length (push_point points p) ≤ saturation_max_samples
  unfolding push_point
  push_point-le points p =
      length-cut_to_last saturation_max_samples (cut_stale p.at (points ++ p ∷ []))

module _ {F : Type 0} ⦃fl : Float F⦄ where
  -- A reading never makes the window longer than the maximum.
  pub observe-le :
      (s : Saturation F) (at : Time) (usage limit : F) (n : ℕ)
      → length s.points ≤ saturation_max_samples
      → length (observe s at usage limit n).0.points ≤ saturation_max_samples
  unfolding observe
  observe-le s at usage limit n h = ground (
    arith,
    push_point-le (after_restarts s n).points (record { at = at; usage = fl.div usage limit }),
  )

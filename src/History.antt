-- ===== src/History.antt =====
-- workdir/internal/history/history.go: the short history of every workload. `clock` is the reading of
-- time.Now() that stamps a point, beside the `now` that the caller passes.
use ruptura.Base.{
  ℕ, ◌-◌, ◌≡◌, refl, inl, inr, String, Bool, false, ◌&&◌, not, List, [], ◌∷◌, ◌++◌, cut_to_last,
  last_n, cut_to_last-eq, some, none, ltb, Bool-cases, if◌then◌else◌, ◌==◌, string_eq, Dict, lookup,
  insert, lookup-insert, lookup-insert_self, ==_iff, subst, ap, Time, Duration,
}

abbrev pub max_points : ℕ
max_points = 120

pub record Point (F : Type 0) : Type 0 where
  pub ts : Time
  pub health_score : F
  pub fused_rupture_index : F
  pub stress : F
  pub fatigue : F
  pub contagion : F
  pub pressure : F
  pub mood : F
  pub calibration_pct : ℕ
  pub unavailable_signals : List String

-- The fields of models.KPISnapshot that a point copies.
pub record Snapshot (F : Type 0) : Type 0 where
  pub health_score : F
  pub fused_rupture_index : F
  pub stress : F
  pub fatigue : F
  pub contagion : F
  pub pressure : F
  pub mood : F
  pub calibration_progress : ℕ
  pub unavailable_signals : List String

pub record Manager (F : Type 0) : Type 0 where
  pub data_points : Dict String (List (Point F))
  pub last_push : Dict String Time

module _ {F : Type 0} where
  unfoldable pub point_from_snapshot : Snapshot F → Time → Point F
  point_from_snapshot snap clock = record {
    ts = clock;
    health_score = snap.health_score;
    fused_rupture_index = snap.fused_rupture_index;
    stress = snap.stress;
    fatigue = snap.fatigue;
    contagion = snap.contagion;
    pressure = snap.pressure;
    mood = snap.mood;
    calibration_pct = snap.calibration_progress;
    unavailable_signals = snap.unavailable_signals;
  }

  abbrev pub new_manager : Manager F
  new_manager = record { data_points = []; last_push = [] }

  unfoldable pub get : Manager F → String → List (Point F)
  get m key = elim (lookup key m.data_points) [ none ↦ [] | some points ↦ points ]

  -- Whether the last push for this key is less than `interval` ago.
  unfoldable pub too_soon : Manager F → String → Time → Duration → Bool
  too_soon m key now interval = elim (lookup key m.last_push) [
    | none ↦ false
    | some at ↦ ltb (now - at) interval
  ]

  unfoldable pub maybe_push : Manager F → String → Snapshot F → Time → Duration → Time → Manager F
  unfolding point_from_snapshot get too_soon
  maybe_push m key snap now interval clock = if too_soon m key now interval then m else record m {
    last_push = insert key now m.last_push;
    data_points =
        insert key (cut_to_last max_points (get m key ++ point_from_snapshot snap clock ∷ []))
          m.data_points;
  }

  get_self :
      (m : Manager F) (key : String) (points : List (Point F)) (pushes : Dict String Time)
      → get (record { data_points = insert key points m.data_points; last_push = pushes }) key
        ≡ points
  unfolding get
  get_self m key points pushes = rw (get, lookup-insert_self key points m.data_points) refl

  get_other :
      (m : Manager F) (key j : String) (points : List (Point F)) (pushes : Dict String Time)
      → (key == j) ≡ false
      → get (record { data_points = insert key points m.data_points; last_push = pushes }) j
        ≡ get m j
  unfolding get
  get_other m key j points pushes other =
      let kept : lookup j (insert key points m.data_points) ≡ lookup j m.data_points =
        rw (lookup-insert key j points m.data_points, other) refl in
      ap (λ found. elim found [ none ↦ [] | some points' ↦ points' ]) kept

  -- After a push, the history of the same key, if it was not too soon, is the last 120 of the old
  -- points followed by the new one; every other history, and all of them if it was too soon, are as
  -- before.
  pub get-maybe_push :
      (m : Manager F) (key j : String) (snap : Snapshot F) (now : Time) (interval : Duration)
      (clock : Time)
      → get (maybe_push m key snap now interval clock) j ≡ (
          if not (too_soon m key now interval) && (key == j)
          then last_n max_points (get m j ++ point_from_snapshot snap clock ∷ [])
          else get m j)
  unfolding maybe_push
  get-maybe_push m key j snap now interval clock = elim (Bool-cases (too_soon m key now interval)) [
    | inl soon ↦ rw soon refl
    | inr late ↦ rw late (elim (Bool-cases (key == j)) [
      | inl same ↦
          let is_key : key ≡ j = (==_iff key j).0 same in
          let new : List (Point F) = get m key ++ point_from_snapshot snap clock ∷ [] in
          rw same (
            subst
              (λ i.
                get
                  (record {
                    data_points = insert key (cut_to_last max_points new) m.data_points;
                    last_push = insert key now m.last_push;
                  })
                  i
                ≡ last_n max_points (get m i ++ point_from_snapshot snap clock ∷ []))
              is_key
              (rw (get_self m key (cut_to_last max_points new) (insert key now m.last_push))
                (cut_to_last-eq max_points new)))
      | inr other ↦ rw other (
          get_other m key j
            (cut_to_last max_points (get m key ++ point_from_snapshot snap clock ∷ []))
            (insert key now m.last_push) other)
    ])
  ]

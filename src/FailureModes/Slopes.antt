-- ===== src/FailureModes/Slopes.antt =====
-- band.go, and the slope statistics of saturation.go.
use ruptura.Base.{
  ◌+◌, ◌-◌, ◌*◌, ◌/◌, ◌%◌, Bool, false, not, ◌&&◌, ◌||◌, List, [], ◌∷◌, ◌++◌, length, take, drop,
  get_or, select, sort_by, sort_search, after, ltb, nat_beq, if◌then◌else◌, Float, ℤ, pos, sub_ℕ,
  Time, second,
}

pub record Point (F : Type 0) : Type 0 where
  pub at : Time
  pub usage : F

module _ {F : Type 0} ⦃fl : Float F⦄ where
  -- The slopes from one point to each later one, where time has passed.
  abbrev slopes_from : Point F → List (Point F) → List F
  slopes_from p [] = []
  slopes_from p (q ∷ qs) =
      let dt = fl.seconds (sub_ℕ q.at p.at) in
      let rest = slopes_from p qs in
      if fl.lt (fl.milli 0) dt then fl.div (fl.sub q.usage p.usage) dt ∷ rest else rest

  abbrev all_slopes : List (Point F) → List F
  all_slopes [] = []
  all_slopes (p ∷ ps) = slopes_from p ps ++ all_slopes ps

  unfoldable pub pair_slopes : List (Point F) → List F
  unfolding sort_by
  pair_slopes points = sort_by fl.lt (all_slopes points)

  -- The first and third quartiles.
  unfoldable pub slope_band : List F → F × F
  slope_band [] = (fl.milli 0, fl.milli 0)
  slope_band (x ∷ xs) =
      let n = length (x ∷ xs) in (get_or (x ∷ xs) (n / 4) x, get_or (x ∷ xs) (3 * n / 4) x)

  -- time.Duration(room / slope * float64(time.Second))
  abbrev pub time_to_fill : F → F → ℤ
  time_to_fill room slope = fl.to_int (fl.mul (fl.div room slope) (fl.of_int (pos second)))

  unfoldable pub failure_band : F → F → F → ℤ × ℤ
  failure_band remaining low high =
      let room = if fl.lt remaining (fl.milli 0) then fl.milli 0 else remaining in
      (
        if fl.lt (fl.milli 0) high then time_to_fill room high else pos 0,
        if fl.lt (fl.milli 0) low then time_to_fill room low else pos 0,
      )

  abbrev sum_usage : F → List (Point F) → F
  sum_usage acc [] = acc
  sum_usage acc (p ∷ ps) = sum_usage (fl.add acc p.usage) ps

  unfoldable pub average : List (Point F) → F
  average points = fl.div (sum_usage (fl.milli 0) points) (fl.of_int (pos (length points)))

  unfoldable pub net_rise : List (Point F) → F
  unfolding average
  net_rise points =
      let quarter = length points / 4 in
      let edge = if ltb quarter 1 then 1 else quarter in
      fl.sub (average (drop (length points - edge) points)) (average (take edge points))

  -- One half of the window rose by its share of what the slope predicts. The zero point stands for
  -- an index out of range, which the callers exclude.
  abbrev zero_point : Point F
  zero_point = record { at = 0; usage = fl.milli 0 }

  abbrev end_time : List (Point F) → Time
  end_time points = (get_or points (length points - 1) zero_point).at

  abbrev start_time : List (Point F) → Time
  start_time points = (get_or points 0 zero_point).at

  half_rises : F → List (Point F) → Bool
  unfolding net_rise
  half_rises slope half =
      let span = fl.seconds (sub_ℕ (end_time half) (start_time half)) in
      not (fl.lt (net_rise half) (fl.mul (fl.mul slope span) (fl.milli 200)))

  unfoldable pub sustained : List (Point F) → F → Bool
  unfolding half_rises sort_search
  sustained points slope =
      let mid = start_time points + (end_time points - start_time points) / 2 in
      let n = length points in
      let split = sort_search n (λ i. after (get_or points i zero_point).at mid) in
      if ltb split 2 || ltb (n - split) 2
      then false
      else half_rises slope (take split points) && half_rises slope (drop split points)

  -- The median slope, and the fraction of changing pairs that rise.
  unfoldable pub theil_sen : List F → F × F
  theil_sen [] = (fl.milli 0, fl.milli 0)
  theil_sen (x ∷ xs) =
      let slopes = x ∷ xs in
      let n = length slopes in
      let upper = get_or slopes (n / 2) x in
      let lower = get_or slopes (n / 2 - 1) x in
      let median =
        if nat_beq (n % 2) 0 then fl.div (fl.add lower upper) (fl.of_int (pos 2)) else upper in
      let changing = length (select (λ v. not (fl.eq v (fl.milli 0))) slopes) in
      let positive = length (select (λ v. fl.lt (fl.milli 0) v) slopes) in
      if nat_beq changing 0
      then (median, fl.milli 0)
      else (median, fl.div (fl.of_int (pos positive)) (fl.of_int (pos changing)))

-- ===== src/Drum/Scale.antt =====
-- src/drum/sensing/scale.cpp: sensor values (10 bit) to velocities (7 bit).
pub mod Bounds
mod Tests
use eaves_drum.Base.{
  ℕ, ◌+◌, ◌-◌, ◌*◌, ◌/◌, ◌||◌, ltb, leb, ◌==◌, if◌then◌else◌, u8, u16, u32, pos, FloatArith,
}
use eaves_drum.Drum.Settings.{
  CurveType, linear, exponential1, exponential2, logarithmic1, logarithmic2, max_sensor_value,
}

-- The subtractions run where they cannot go below zero.
unfoldable pub scale : ℕ → ℕ → ℕ → ℕ
scale in_value in_min in_max =
    if (in_value == 0) || ltb in_value in_min
    then 0
    else if leb in_max in_value
    then max_sensor_value
    else u16 (u16 (u32 ((in_value - in_min) * (max_sensor_value - 1)) / (in_max - in_min)) + 1)

-- `((value - 1) >> 3) + 1`, and 128 becomes 127; reached with a positive value only.
unfoldable pub linear_curve : ℕ → ℕ
linear_curve value =
    let result = u16 ((value - 1) / 8 + 1) in u8 (if result == 128 then 127 else result)

module _ (fl : FloatArith) where
  open fl use {of_int, literal, fmul, fdiv, pow, dsub, narrow, round}

  unfoldable pub curve_func : ℕ → ℕ → ℕ
  curve_func input_value base =
      let one = of_int (pos 1) in
      let curve_value = narrow (dsub (pow base (of_int (pos (input_value - 1)))) one) in
      let curve_max = narrow (dsub (pow base (of_int (pos (max_sensor_value - 1)))) one) in
      let output_value = fmul (fdiv curve_value curve_max) (of_int (pos 126)) in
      u8 (round output_value + 1)

  -- the `switch` of `curve` and of `scaleAndCurve`
  unfoldable pub apply_curve : ℕ → CurveType → ℕ
  unfolding linear_curve curve_func
  apply_curve value linear = linear_curve value
  apply_curve value exponential1 = curve_func value (literal 1002 1000)
  apply_curve value exponential2 = curve_func value (literal 1004 1000)
  apply_curve value logarithmic1 = curve_func value (literal 998 1000)
  apply_curve value logarithmic2 = curve_func value (literal 996 1000)

  unfoldable pub curve : ℕ → CurveType → ℕ
  curve value curve_type = if value == 0 then 0 else apply_curve value curve_type

  unfoldable pub scale_and_curve : ℕ → ℕ → ℕ → CurveType → ℕ
  scale_and_curve value min_value max_value curve_type =
      let scaled_value = scale value min_value max_value in
      if scaled_value == 0 then u8 scaled_value else apply_curve scaled_value curve_type

-- ===== src/Drum/Scale/Bounds.antt =====
-- Ranges and monotonicity of the mapping from sensor values to velocities.
use eaves_drum.Base.{
  ℕ, ◌+◌, ◌-◌, ◌*◌, ◌/◌, ◌≤◌, ◌<◌, ◌≡◌, ◌↔◌, ◌⊎◌, arith, if◌then◌else◌, ◌||◌, ltb, leb, ◌==◌,
  FloatArith,
}
use eaves_drum.Drum.Settings.{CurveType, linear}
use eaves_drum.Drum.Scale.{scale, linear_curve, scale_and_curve, curve, apply_curve}

-- The interpolation stays below the top.
div_lt : (a d : ℕ) → a < d → a * 1022 / d < 1022
div_lt a d h = grind arith

div_mono : (a b d : ℕ) → a ≤ b → a * 1022 / d ≤ b * 1022 / d
div_mono a b d h = grind arith

-- The interpolation, with no conversion.
steps : ℕ → ℕ → ℕ → ℕ
steps i lo hi = (i - lo) * 1022 / (hi - lo)

steps-lt : (i lo hi : ℕ) → lo ≤ i → i < hi → steps i lo hi < 1022
unfolding steps
steps-lt i lo hi h k = div_lt (i - lo) (hi - lo) (omega arith)

steps_mono : (i j lo hi : ℕ) → i ≤ j → steps i lo hi ≤ steps j lo hi
unfolding steps
steps_mono i j lo hi h = div_mono (i - lo) (j - lo) (hi - lo) (omega arith)

-- No conversion of `scale` changes a value that occurs there.
scale_exact :
    (i lo hi : ℕ)
    → i < 65536
    → scale i lo hi
      ≡ (if (i == 0) || ltb i lo then 0 else if leb hi i then 1023 else steps i lo hi + 1)
unfolding scale steps
scale_exact i lo hi w = ground (arith, steps-lt i lo hi)

-- `scale` stays in the sensor's range, and gives 0 exactly for a value that is 0 or below the
-- lower threshold.
pub scale_range :
    (i lo hi : ℕ)
    → i < 65536
    → (scale i lo hi ≤ 1023) × ((scale i lo hi ≡ 0) ↔ ((i ≡ 0) ⊎ (i < lo)))
scale_range i lo hi w =
    rw (scale_exact i lo hi w) (ground (arith, steps-lt i lo hi), (ground arith, ground arith))

-- `scale` is monotone in the value.
pub scale_mono : (i j lo hi : ℕ) → j < 65536 → i ≤ j → scale i lo hi ≤ scale j lo hi
scale_mono i j lo hi w h =
    rw (scale_exact i lo hi (omega arith), scale_exact j lo hi w)
      (ground (arith, steps-lt i lo hi, steps-lt j lo hi, steps_mono i j lo hi))

-- The linear curve maps 1 to 1023 onto 1 to 127.
pub linear_curve_range : (v : ℕ) → 0 < v → v ≤ 1023 → (0 < linear_curve v) × (linear_curve v ≤ 127)
unfolding linear_curve
linear_curve_range v h k = ground arith

pub linear_curve_mono : (v w : ℕ) → w ≤ 1023 → v ≤ w → linear_curve v ≤ linear_curve w
unfolding linear_curve
linear_curve_mono v w k h = ground arith

-- `scaleAndCurve` gives what `curve` gives for the scaled value, for every curve type.
pub scale_and_curve-eq-curve :
    (fl : FloatArith) (v lo hi : ℕ) (c : CurveType)
    → scale_and_curve fl v lo hi c ≡ curve fl (scale v lo hi) c
unfolding scale_and_curve curve
scale_and_curve-eq-curve fl v lo hi c = ground arith

module _ (fl : FloatArith) (lo hi : ℕ) where
  -- For a `uint16_t` value, the velocity of the linear curve is at most 127, and it is 0 exactly
  -- if the value is 0 or below the lower threshold.
  pub velocity_range :
      (v : ℕ)
      → v < 65536
      → (scale_and_curve fl v lo hi linear ≤ 127)
        × ((scale_and_curve fl v lo hi linear ≡ 0) ↔ ((v ≡ 0) ⊎ (v < lo)))
  unfolding scale_and_curve apply_curve
  velocity_range v h =
      let r = scale_range v lo hi h in
      let c = linear_curve_range (scale v lo hi) in
      (ground (arith, r, c), (ground (arith, r, c), ground (arith, r, c)))

  -- Under the linear curve, of two `uint16_t` values the greater never gives the smaller velocity.
  pub velocity_mono :
      (v w : ℕ)
      → w < 65536
      → v ≤ w
      → scale_and_curve fl v lo hi linear ≤ scale_and_curve fl w lo hi linear
  unfolding scale_and_curve apply_curve
  velocity_mono v w h k = ground (
    arith,
    scale_mono v w lo hi h k,
    scale_range w lo hi h,
    linear_curve_mono (scale v lo hi) (scale w lo hi),
  )

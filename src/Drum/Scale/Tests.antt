-- ===== src/Drum/Scale/Tests.antt =====
-- Runs of scale.cpp, and its theorems at concrete values.
use eaves_drum.Base.{ℕ, ◌≤◌, ◌<◌, ◌≡◌, ◌↔◌, ◌⊎◌, refl, arith}
use eaves_drum.Drum.Settings.{linear}
use eaves_drum.Drum.Scale.{scale, scale_and_curve, apply_curve}
use eaves_drum.Drum.Scale.Bounds.{velocity_range, velocity_mono}
use eaves_drum.Drum.Examples.{whole}

scales : scale 310 20 600 ≡ 512
unfolding scale
scales = refl

full_velocity : scale_and_curve whole 600 20 600 linear ≡ 127
unfolding scale_and_curve scale apply_curve
full_velocity = refl

velocity_range_example :
    (scale_and_curve whole 310 20 600 linear ≤ 127)
    × ((scale_and_curve whole 310 20 600 linear ≡ 0) ↔ (◌≡◌ {A = ℕ} 310 0 ⊎ (310 < 20)))
velocity_range_example = velocity_range whole 20 600 310 (omega arith)

velocity_mono_example :
    scale_and_curve whole 310 20 600 linear ≤ scale_and_curve whole 400 20 600 linear
velocity_mono_example = velocity_mono whole 20 600 310 400 (omega arith) (omega arith)

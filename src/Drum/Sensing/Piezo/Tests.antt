-- ===== src/Drum/Sensing/Piezo/Tests.antt =====
-- Runs of a snare with two piezos, and the theorems at them.
use eaves_drum.Base.{ℕ, zero, suc, ◌≤◌, ◌<◌, ◌≡◌, ◌⊎◌, refl, true, false, some, [], ◌∷◌, pos, arith}
use eaves_drum.Drum.Settings.{same}
use eaves_drum.Drum.Scale.{scale, curve, apply_curve}
use eaves_drum.Drum.Pin.{read_input}
use eaves_drum.Drum.Pad.{
  mask_state, get_active_pin_count, hit_event, get_active_zone_count, is_connector_active,
}
use eaves_drum.Drum.Sensing.{read_input_values, reset_hit_info}
use eaves_drum.Drum.Sensing.Sample.{NoHits, QuietFrom}
use eaves_drum.Drum.Sensing.Piezo.{
  sense, sense_active, advance, scan, scan_velocities, determine_hit_zone,
}
use eaves_drum.Drum.Sensing.Piezo.HitZone.{weighted, preferred, determine_hit_zone_lem}
use eaves_drum.Drum.Sensing.Piezo.Hits.{HitAt, sense-hits}
use eaves_drum.Drum.Sensing.Piezo.Velocity.{sense_velocity}
use eaves_drum.Drum.Sensing.Piezo.Masking.{run, mask_time_is_quiet}
use eaves_drum.Drum.Examples.{scanning, struck, whole, analog, two_pins, reads}

scanning-QuietFrom :
    QuietFrom (get_active_zone_count scanning.settings.zones_type (some two_pins)) scanning
unfolding get_active_zone_count
scanning-QuietFrom = refl

struck-QuietFrom :
    QuietFrom (get_active_zone_count struck.settings.zones_type (some two_pins)) struck
unfolding get_active_zone_count
struck-QuietFrom = refl

is_active : is_connector_active (some two_pins) ≡ true
unfolding is_connector_active
is_active = refl

-- The sample that ends the scan time.
strikes : sense whole (reads 300 90) 4200 scanning two_pins ≡ some (struck, two_pins)
unfolding sense advance scan is_connector_active sense_active read_input_values get_active_pin_count
    mathlib.Core.Option.bind read_input determine_hit_zone get_active_zone_count scan_velocities
    scale curve apply_curve
strikes = refl

-- Two samples in the mask time, one of them as loud as a hit.
masked :
    run whole ((5000, reads 900 90) ∷ (9000, reads 0 0) ∷ []) (struck, two_pins)
    ≡ some (
      record struck {
        sensor_values = same 0;
        hits = same false;
        hit_velocities = same 0;
        cymbal = record { is_choked = false; last_event_type = hit_event };
      },
      two_pins,
    )
unfolding run sense advance is_connector_active sense_active read_input_values get_active_pin_count
    mathlib.Core.Option.bind read_input get_active_zone_count reset_hit_info
masked = refl

determine_hit_zone_lem_example :
    let z = determine_hit_zone (record { z0 = 300; z1 = 290; z2 = 0 }) 2 (pos 10) in
    (z < 2)
    × (weighted (record { z0 = 300; z1 = 290; z2 = 0 }) (pos 10) 0
        ≤ weighted (record { z0 = 300; z1 = 290; z2 = 0 }) (pos 10) z)
    × ((z ≡ preferred (pos 10))
        ⊎ (weighted (record { z0 = 300; z1 = 290; z2 = 0 }) (pos 10) (preferred (pos 10))
            < weighted (record { z0 = 300; z1 = 290; z2 = 0 }) (pos 10) z))
determine_hit_zone_lem_example =
    determine_hit_zone_lem (record { z0 = 300; z1 = 290; z2 = 0 }) (omega arith) (omega arith) 2 0
      (pos 10) (omega arith) (omega arith) (omega arith) (omega arith) (omega arith)

sense-hits_example : NoHits struck ⊎ HitAt whole 2 4200 scanning struck
unfolding get_active_zone_count
sense-hits_example =
    sense-hits whole (reads 300 90) 4200 scanning two_pins (struck, two_pins) is_active
      scanning-QuietFrom strikes

mask_time_is_quiet_example :
    (struck.sensing_state ≡ mask_state)
    × NoHits (record struck { sensor_values = same 0; hits = same false; hit_velocities = same 0 })
mask_time_is_quiet_example =
    mask_time_is_quiet whole 5000 (reads 900 90) ((9000, reads 0 0) ∷ []) struck two_pins
      (
        record struck { sensor_values = same 0; hits = same false; hit_velocities = same 0 },
        two_pins,
      )
      is_active refl struck-QuietFrom (omega arith, (omega arith, tt)) masked

analog_lt : (i : ℕ) → analog 300 90 i < 65536
analog_lt zero = omega arith
analog_lt (suc i) = omega arith

sense_velocity_example : (0 < 84) × (84 ≤ 127)
sense_velocity_example =
    sense_velocity whole (reads 300 90) 4200 scanning two_pins (struck, two_pins) is_active
      (record { channels = λ m i. omega arith; pins = analog_lt }) (omega arith) (omega arith)
      strikes scanning-QuietFrom refl 0 (omega arith) refl

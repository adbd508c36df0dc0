-- ===== src/Drum/Sensing/PiezoSwitch/Tests.antt =====
-- A cymbal with a piezo and two switches at the end of a scan, and the theorems there.
use mathlib.Core.Option
use eaves_drum.Base.{◌≡◌, ◌⊎◌, refl, true, false, some}
use eaves_drum.Drum.Scale.{scale, scale_and_curve, apply_curve}
use eaves_drum.Drum.Pin.{read_input}
use eaves_drum.Drum.Pad.{
  DrumPad, hit_event, mask_state, scan_state, get_active_pin_count, get_active_zone_count,
  is_connector_active,
}
use eaves_drum.Drum.Sensing.{
  read_input_values, reset_hit_info, is_zone_switch_pressed, find_max_value_index,
}
use eaves_drum.Drum.Sensing.Sample.{NoHits, QuietFrom}
use eaves_drum.Drum.Sensing.PiezoSwitch.{sense_switched}
use eaves_drum.Drum.Sensing.PiezoSwitch.Hits.{SwitchHitAt, sense_switched-hits}
use eaves_drum.Drum.Examples.{whole, two_pins, snare, reads}

-- A scan that began at 1000 us, with 400 recorded for the bow and an edge pressed twice.
abbrev scanning : DrumPad
scanning = record snare {
  sensing_state = scan_state;
  hit_time_us = 1000;
  max_zone_values = record { z0 = 400; z1 = 2; z2 = 0 };
}

-- The pad after the end of the scan.
abbrev struck : DrumPad
struck = record scanning {
  sensor_values = record { z0 = 300; z1 = 90; z2 = 0 };
  max_zone_values = record { z0 = 400; z1 = 3; z2 = 0 };
  hit_velocities = record { z0 = 0; z1 = 84; z2 = 0 };
  hits = record { z0 = false; z1 = true; z2 = false };
  scan_time_end_us = 4200;
  sensing_state = mask_state;
  cymbal = record { is_choked = false; last_event_type = hit_event };
}

is_active : is_connector_active (some two_pins) ≡ true
unfolding is_connector_active
is_active = refl

scanning-QuietFrom :
    QuietFrom (get_active_zone_count scanning.settings.zones_type (some two_pins)) scanning
unfolding get_active_zone_count
scanning-QuietFrom = refl

strikes : sense_switched whole (reads 300 90) 4200 scanning two_pins ≡ some (struck, two_pins)
unfolding sense_switched is_connector_active get_active_zone_count get_active_pin_count
    read_input_values mathlib.Core.Option.bind read_input scale scale_and_curve apply_curve
    is_zone_switch_pressed find_max_value_index
strikes = refl

sense_switched-hits_example :
    NoHits struck
    ⊎ SwitchHitAt whole
        (get_active_zone_count scanning.settings.zones_type (some two_pins))
        4200
        (reset_hit_info
          (get_active_zone_count scanning.settings.zones_type (some two_pins))
          scanning)
        struck
sense_switched-hits_example =
    sense_switched-hits whole (reads 300 90) 4200 scanning two_pins (struck, two_pins) is_active
      scanning-QuietFrom strikes

-- ===== src/Drum/Sensing/Latency.antt =====
-- src/drum/sensing/latency.cpp: `LatencySensing`, which times the first hit of a latency test. The
-- test's state is from src/monitor.h.
pub mod Once
mod Tests
use mathlib.Core.Option
use eaves_drum.Base.{ℕ, Bool, true, false, not, Option, none, some, leb, if◌then◌else◌, for_range}
use eaves_drum.Drum.Settings.{Zones, put}
use eaves_drum.Drum.Pin.{DrumPin, Inputs, InputFlags, read_input}
use eaves_drum.Drum.Connector.{DrumConnector}
use eaves_drum.Drum.Pad.{DrumPad, is_connector_active, get_active_zone_count}

pub data LatencyTestState : Type 0 where
  inactive wait_for_hit sending_result : LatencyTestState

pub record LatencyTestInfo : Type 0 where
  pub start_time_us : ℕ
  pub state : LatencyTestState
  pub threshold : ℕ
  pub preview : Bool

unfoldable pub reset_state : ℕ → DrumPad → DrumPad
reset_state n pad = record pad {
  hits = for_range n 0 (λ zone hits. put hits zone false) pad.hits;
  hit_velocities = for_range n 0 (λ zone vs. put vs zone 0) pad.hit_velocities;
  sensor_values = for_range n 0 (λ zone vs. put vs zone 0) pad.sensor_values;
  cymbal = record (pad.cymbal) { is_choked = false };
}

abbrev calibrated : InputFlags
calibrated = record { auto_calibrate = true; invert = false }

-- The part of `sense` after the pin was read.
unfoldable pub detect_first : ℕ → DrumPad → LatencyTestInfo → ℕ → DrumPad × LatencyTestInfo
detect_first now pad info value =
    let read : DrumPad = record pad { sensor_values = put pad.sensor_values 0 value } in
    elim info.state [
      | wait_for_hit ↦
          if leb info.threshold value
          then (
            record read { hits = put read.hits 0 true; hit_time_us = now },
            if info.preview then info else record info { state = sending_result },
          )
          else (read, info)
      | _ ↦ (read, info)
    ]

unfoldable pub sense_latency :
    Inputs
    → ℕ
    → DrumPad
    → DrumConnector
    → LatencyTestInfo
    → Option (DrumPad × DrumConnector × LatencyTestInfo)
unfolding reset_state detect_first
sense_latency io now pad c info =
    let n = get_active_zone_count pad.settings.zones_type (some c) in
    if is_connector_active (some c)
    then Option.map
        (λ (r : ℕ × DrumPin).
          let s = detect_first now (reset_state n pad) info r.0 in
          (s.0, record c { pins = put c.pins 0 r.1 }, s.1))
        (read_input io c.pins.z0 calibrated)
    else some (pad, c, info)

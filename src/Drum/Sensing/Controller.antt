-- ===== src/Drum/Sensing/Controller.antt =====
-- src/drum/sensing/controller.cpp: `ControllerSensing`, for the pedal of a hi-hat. Arduino's `map`
-- is a parameter.
pub mod Chick
pub mod Closing
pub mod Noise
mod Tests
use mathlib.Core.Option
use eaves_drum.Base.{
  ℕ, ◌+◌, ◌-◌, ◌*◌, ◌/◌, Bool, true, false, not, ◌&&◌, ◌||◌, Option, none, some, ltb, leb, ◌==◌,
  min, if◌then◌else◌, u8, u16, sub32, ℤ, pos, negsuc, pos_part, neg_part, ◌-ℤ◌, int16, FloatArith,
}
use eaves_drum.Drum.Settings.{Zones, at, put, max_sensor_value}
use eaves_drum.Drum.Scale.{scale_and_curve}
use eaves_drum.Drum.Pin.{DrumPin, Inputs, InputFlags, read_input}
use eaves_drum.Drum.Connector.{DrumConnector}
use eaves_drum.Drum.Pad.{
  DrumPad, HiHatData, HiHatState, open_state, almost_closed, closed, is_connector_active,
}

-- The tolerance is a `uint8_t` here.
unfoldable pub reduce_noise : ℕ → ℕ → ℕ → ℕ
reduce_noise new_value old_value move_detect_tolerance =
    let tolerance = u8 move_detect_tolerance in
    let signal_diff = (old_value - new_value) + (new_value - old_value) in
    if not (new_value == old_value)
      && (leb tolerance signal_diff || ((new_value == 0) || leb max_sensor_value new_value))
    then min new_value max_sensor_value
    else old_value

-- Where the pedal is, by its thresholds.
pub record Position : Type 0 where
  pub is_closed : Bool
  pub is_almost_closed : Bool

abbrev pub is_open_state : HiHatState → Bool
is_open_state open_state = true
is_open_state _ = false

abbrev pub is_almost_state : HiHatState → Bool
is_almost_state almost_closed = true
is_almost_state _ = false

abbrev pub is_closed_state : HiHatState → Bool
is_closed_state closed = true
is_closed_state _ = false

-- `(velocity < 0) ? 0 : velocity`, stored as a `uint8_t`
abbrev pub clamp_velocity : ℤ → ℕ
clamp_velocity v = u8 (pos_part v)

module _ (arduino_map : ℕ → ℕ → ℕ → ℕ → ℕ → ℤ) where
  -- The first test: open to almost closed.
  start_closing : Position → ℕ → HiHatData → HiHatData
  start_closing p now hihat =
      if (p.is_closed || p.is_almost_closed) && is_open_state hihat.state
      then record hihat { almost_closed_time_ms = now; state = almost_closed }
      else hihat

  -- The second: almost closed to closed, with a chick.
  finish_closing : Position → ℕ → DrumPad → DrumPad
  finish_closing p now pad =
      if p.is_closed && is_almost_state pad.hihat.state
      then (let closing_time = sub32 now pad.hihat.almost_closed_time_ms in
          let velocity =
            clamp_velocity
              (arduino_map closing_time pad.settings.chick_detect_timeout_ms 0 1 127) in
          record pad {
            hit_velocities = put pad.hit_velocities 0 velocity;
            hits = put pad.hits 0 (ltb 0 velocity);
            hihat = record (pad.hihat) { state = closed };
          })
      else pad

  -- The third: opening.
  opening : Position → HiHatData → HiHatData
  opening p hihat =
      if (not p.is_closed && is_closed_state hihat.state)
        || (not (p.is_closed || p.is_almost_closed) && is_almost_state hihat.state)
      then record hihat { state = open_state }
      else hihat

  -- `hiHatPedalPositionAndChickSensing`, the position known.
  unfoldable pub move_to : Position → ℕ → DrumPad → DrumPad
  unfolding start_closing finish_closing opening
  move_to p now pad =
      let closing : DrumPad = record pad {
        hits = put pad.hits 0 false;
        hit_velocities = put pad.hit_velocities 0 0;
        hihat = start_closing p now pad.hihat;
      } in
      let chick = finish_closing p now closing in record chick { hihat = opening p chick.hihat }

  module _ (fl : FloatArith) where
    -- `pedalValuePercent` and the comparisons with the thresholds
    unfoldable pub pedal_percent : DrumPad → ℕ → ℕ
    pedal_percent pad pedal_value =
        let lo = pad.settings.zone_thresholds_min.z0 in
        let range = u16 (pad.settings.zone_thresholds_max.z0 + 65536 - lo) in
        fl.fdiv (fl.fmul (fl.of_int (int16 (pos pedal_value) -ℤ pos lo)) (fl.literal 100 1))
          (fl.of_int (pos range))

    unfoldable pub position : DrumPad → ℕ → Position
    unfolding pedal_percent
    position pad pedal_value =
        let percent = pedal_percent pad pedal_value in
        let is_closed = fl.fge percent pad.settings.closed_threshold in
        record {
          is_closed = is_closed;
          is_almost_closed = not is_closed && fl.fge percent pad.settings.almost_closed_threshold;
        }

    unfoldable pub sense_position : ℕ → ℕ → DrumPad → DrumPad
    sense_position now_us pedal_value pad = move_to (position pad pedal_value) (now_us / 1000) pad

    -- `hiHatPedalCCSensing`
    unfoldable pub sense_cc : ℕ → DrumPad → DrumPad
    sense_cc pedal_value pad =
        let cc =
          scale_and_curve fl pedal_value pad.settings.zone_thresholds_min.z0
            pad.settings.zone_thresholds_max.z0 pad.settings.curve_type in
        if cc == pad.hihat.pedal_cc
        then record pad { hihat = record (pad.hihat) { is_moving = false } }
        else record pad { hihat = record (pad.hihat) { pedal_cc = cc; is_moving = true } }

    abbrev inverted : InputFlags
    inverted = record { auto_calibrate = false; invert = true }

    -- The value that was read, denoised and stored.
    unfoldable pub store_pedal : DrumPad → ℕ → DrumPad
    store_pedal pad raw =
        let denoised = reduce_noise raw pad.sensor_values.z0 pad.settings.move_detect_tolerance in
        record pad { sensor_values = put (put pad.sensor_values 0 denoised) 1 raw }

    unfoldable pub sense : Inputs → ℕ → DrumPad → DrumConnector → Option (DrumPad × DrumConnector)
    unfolding store_pedal sense_position sense_cc
    sense io now pad c =
        if is_connector_active (some c)
        then Option.map
            (λ (r : ℕ × DrumPin).
              let read = store_pedal pad r.0 in
              (
                sense_cc read.sensor_values.z0 (sense_position now read.sensor_values.z0 read),
                record c { pins = put c.pins 0 r.1 },
              ))
            (read_input io c.pins.z0 inverted)
        else some (pad, c)

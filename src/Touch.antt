-- ===== src/Touch.antt =====
-- src/boards/rp2040/touch.cpp: a touch sensor that calibrates itself and is debounced. The registers
-- of the sensor are left out: `none` stands for no new value. The two products with a `double` are
-- parameters.
pub mod Debounced
mod Tests
use eaves_drum.Base.{
  ℕ, ◌+◌, ◌/◌, Bool, true, false, not, ◌&&◌, Option, none, some, ltb, ◌==◌, if◌then◌else◌, u32,
  sub32,
}

abbrev pub touch_undefined : ℕ
touch_undefined = 4294967295

abbrev pub calibration_duration_ms : ℕ
calibration_duration_ms = 2000

abbrev pub min_switch_time_us : ℕ
min_switch_time_us = 1000

abbrev pub oversampling_count : ℕ
oversampling_count = 2

pub record TouchCalibrationInfo : Type 0 where
  pub needs_calibration : Bool
  pub start_time_ms : ℕ
  pub min_value : ℕ
  pub max_value : ℕ

pub record TouchSensorInfo : Type 0 where
  pub calibration : TouchCalibrationInfo
  pub switch_on_threshold : ℕ
  pub switch_off_threshold : ℕ
  pub is_on : Bool
  pub switch_start_us : ℕ

unfoldable pub start_calibration : TouchSensorInfo → ℕ → TouchSensorInfo
start_calibration t now_ms = record t {
  calibration = record {
    needs_calibration = true;
    start_time_ms = now_ms;
    min_value = touch_undefined;
    max_value = 0;
  };
  switch_on_threshold = touch_undefined;
  switch_off_threshold = 0;
}

-- What `addSensor` keeps of a sensor.
unfoldable pub add_sensor : ℕ → TouchSensorInfo
unfolding start_calibration
add_sensor now_ms =
    start_calibration
      (record {
        calibration = record {
          needs_calibration = true;
          start_time_ms = 0;
          min_value = touch_undefined;
          max_value = 0;
        };
        switch_on_threshold = 0;
        switch_off_threshold = 0;
        is_on = false;
        switch_start_us = 0;
      })
      now_ms

unfoldable pub track_range : TouchCalibrationInfo → ℕ → TouchCalibrationInfo
track_range c value =
    if ltb value c.min_value
    then record c { min_value = value }
    else if ltb c.max_value value
    then record c { max_value = value }
    else c

unfoldable pub check_state_switched : TouchSensorInfo → Bool → ℕ → TouchSensorInfo
check_state_switched t new_state now_us =
    if t.switch_start_us == 0
    then record t { switch_start_us = now_us }
    else if ltb min_switch_time_us (sub32 now_us t.switch_start_us)
    then record t { is_on = new_state; switch_start_us = 0 }
    else t

unfoldable pub switch_by_value : TouchSensorInfo → ℕ → ℕ → TouchSensorInfo
unfolding check_state_switched
switch_by_value t value now_us =
    if not t.is_on && ltb t.switch_on_threshold value
    then check_state_switched t true now_us
    else if t.is_on && ltb value t.switch_off_threshold
    then check_state_switched t false now_us
    else record t { switch_start_us = 0 }

-- `on_level` and `off_level` are `avg + deviation * 1.5` and `avg + deviation * 1.1` as `uint32_t`.
module _ (on_level off_level : ℕ → ℕ → ℕ) where
  unfoldable pub update_calibration : TouchSensorInfo → ℕ → ℕ → TouchSensorInfo
  unfolding track_range
  update_calibration t value now_ms =
      let c = track_range t.calibration value in
      let avg = u32 (c.min_value + c.max_value) / 2 in
      let deviation = sub32 c.max_value c.min_value / 2 in
      if ltb calibration_duration_ms (sub32 now_ms c.start_time_ms)
      then record t {
        calibration = record c { needs_calibration = false };
        switch_on_threshold = on_level avg deviation;
        switch_off_threshold = off_level avg deviation;
      }
      else record t { calibration = c }

  -- `readSensor`; what it returns is `is_on`.
  unfoldable pub read_sensor : TouchSensorInfo → Option ℕ → ℕ → ℕ → TouchSensorInfo
  read_sensor t none now_ms now_us = t
  read_sensor t (some raw) now_ms now_us =
      let value = raw / oversampling_count in
      let calibrated =
        if t.calibration.needs_calibration then update_calibration t value now_ms else t in
      switch_by_value calibrated value now_us

-- ===== src/Drum/Sensing/PiezoSwitch.antt =====
-- src/drum/sensing/sensing_piezo_switch.cpp: `PiezoSwitchSensing`, for cymbals with one piezo and a
-- switch for each further zone.
pub mod HitZone
pub mod Hits
mod Tests
use mathlib.Core.Option
use eaves_drum.Base.{
  ℕ, ◌+◌, ◌-◌, ◌*◌, Bool, true, false, not, ◌&&◌, Option, none, some, ltb, leb, ◌==◌, if◌then◌else◌,
  for_range, u16, sub32, add32, FloatArith,
}
use eaves_drum.Drum.Settings.{Zones, at, put, DrumSettings}
use eaves_drum.Drum.Scale.{scale_and_curve}
use eaves_drum.Drum.Connector.{DrumConnector}
use eaves_drum.Drum.Pad.{
  DrumPad, hit_event, SensingState, peak_detect, scan_state, mask_state, decay_state,
  get_active_zone_count, is_connector_active,
}
use eaves_drum.Drum.Sensing.{
  Environment, reset_hit_info, read_input_values, is_choked, handle_choked, find_max_value_index,
  is_zone_switch_pressed,
}
use eaves_drum.Drum.Sensing.Piezo.{
  update_max_zone, with_state, on_peak, decay_progress, decay_threshold,
}

-- The piezo keeps its greatest value; a switch counts the samples in which it is pressed.
unfoldable pub count_presses : ℕ → DrumPad → DrumPad
unfolding update_max_zone
count_presses n pad = record pad {
  max_zone_values =
      for_range (n - 1) 1
        (λ zone m. if is_zone_switch_pressed pad zone then put m zone (u16 (at m zone + 1)) else m)
        (update_max_zone pad.settings pad.sensor_values 0 pad.max_zone_values);
}

unfoldable pub detect_hit : Environment → ℕ → ℕ → ℕ → DrumPad → DrumPad × Bool
unfolding count_presses
detect_hit env n now threshold pad =
    if not (leb threshold pad.sensor_values.z0) && not (is_choked env pad n)
    then (pad, false)
    else (
      count_presses n (record pad {
        hit_time_us = now;
        max_zone_values = for_range n 0 (λ zone m. put m zone 0) pad.max_zone_values;
      }),
      true,
    )

-- The zone whose switch was pressed in the most samples, or else the piezo's.
unfoldable pub switched_zone : ℕ → Zones ℕ → ℕ
switched_zone n counters =
    if leb n 1
    then 0
    else (let index = find_max_value_index (λ i. at counters (i + 1)) (n - 1) 0 in
        if ltb 0 (at counters (index + 1)) then index + 1 else 0)

module _ (fl : FloatArith) where
  unfoldable pub finish_switch_scan : ℕ → ℕ → DrumPad → DrumPad × SensingState
  unfolding switched_zone handle_choked
  finish_switch_scan n now pad =
      let pad' = record pad { scan_time_end_us = now } in
      let hit_index = switched_zone n pad.max_zone_values in
      if pad.max_zone_values.z0 == 0 then handle_choked pad' else (
        record pad' {
          hit_velocities = put pad.hit_velocities hit_index (
              scale_and_curve fl pad.max_zone_values.z0 pad.settings.zone_thresholds_min.z0
                pad.settings.zone_thresholds_max.z0 pad.settings.curve_type);
          hits = put pad.hits hit_index true;
          cymbal = record (pad.cymbal) { last_event_type = hit_event };
        },
        mask_state,
      )

  unfoldable pub switch_scan : ℕ → ℕ → DrumPad → DrumPad × SensingState
  unfolding finish_switch_scan count_presses
  switch_scan n now pad =
      let pad' = count_presses n pad in
      if ltb (sub32 now pad.hit_time_us) pad.settings.scan_time_us
      then (pad', scan_state)
      else finish_switch_scan n now pad'

  -- The float threshold, converted to `uint16_t` at the assignment.
  unfoldable pub detect_hit_with_decay : Environment → ℕ → ℕ → ℕ → DrumPad → DrumPad × Bool
  unfolding detect_hit decay_threshold
  detect_hit_with_decay env n now progress pad =
      detect_hit env n now
        (decay_threshold fl pad.max_zone_values.z0 pad.settings.zone_thresholds_min.z0 progress) pad

  -- One sample in each state, the inputs read.
  unfoldable pub switch_advance : SensingState → Environment → ℕ → ℕ → DrumPad → DrumPad
  unfolding switch_scan detect_hit_with_decay
  switch_advance peak_detect env n now pad =
      on_peak peak_detect (detect_hit env n now pad.settings.zone_thresholds_min.z0 pad)
  switch_advance scan_state env n now pad = with_state (switch_scan n now pad)
  switch_advance mask_state env n now pad =
      if ltb (sub32 now pad.scan_time_end_us) (pad.settings.mask_time_ms * 1000)
      then pad
      else record pad {
        sensing_state = if ltb 0 pad.settings.decay_time_ms then decay_state else peak_detect;
      }
  switch_advance decay_state env n now pad =
      let since = sub32 now (add32 pad.scan_time_end_us (pad.settings.mask_time_ms * 1000)) in
      if ltb since (pad.settings.decay_time_ms * 1000)
      then on_peak decay_state
          (detect_hit_with_decay env n now (decay_progress fl since pad.settings) pad)
      else record pad { sensing_state = peak_detect }

  unfoldable pub sense_switched :
      Environment → ℕ → DrumPad → DrumConnector → Option (DrumPad × DrumConnector)
  unfolding reset_hit_info switch_advance
  sense_switched env now pad c =
      let n = get_active_zone_count pad.settings.zones_type (some c) in
      if is_connector_active (some c)
      then Option.map
          (λ (s : DrumPad × DrumConnector). (switch_advance s.0.sensing_state env n now s.0, s.1))
          (read_input_values env (reset_hit_info n pad) c)
      else some (pad, c)

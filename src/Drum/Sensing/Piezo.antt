-- ===== src/Drum/Sensing/Piezo.antt =====
-- src/drum/sensing/sensing.cpp: `PiezoSensing`, for pads with a piezo in each zone.
pub mod HitZone
pub mod Hits
pub mod Velocity
pub mod Masking
mod Tests
use eaves_drum.Base.{
  ℕ, ◌+◌, ◌-◌, ◌*◌, ◌/◌, Bool, true, false, not, ◌&&◌, ◌||◌, Option, none, some, ltb, leb, ◌==◌,
  if◌then◌else◌, for_range, u16, u32, sub32, add32, ℤ, pos, negsuc, pos_part, neg_part, FloatArith,
}
use mathlib.Core.Option
use eaves_drum.Drum.Settings.{Zones, at, put, same, DrumSettings}
use eaves_drum.Drum.Scale.{scale, curve}
use eaves_drum.Drum.Connector.{DrumConnector}
use eaves_drum.Drum.Pad.{
  DrumPad, CymbalData, hit_event, SensingState, peak_detect, scan_state, mask_state, decay_state,
  get_active_zone_count, is_connector_active,
}
use eaves_drum.Drum.Sensing.{
  Environment, reset_hit_info, read_input_values, is_choked, handle_choked, find_max_value_index,
}

-- The threshold is checked as a choked pad may hold the value 0.
unfoldable pub update_max_zone : DrumSettings → Zones ℕ → ℕ → Zones ℕ → Zones ℕ
update_max_zone settings sensor_values zone m =
    let v = at sensor_values zone in
    if ltb (at m zone) v && leb (at settings.zone_thresholds_min zone) v then put m zone v else m

unfoldable pub update_max_sensor_value : ℕ → DrumPad → DrumPad
unfolding update_max_zone
update_max_sensor_value n pad = record pad {
  max_zone_values =
      for_range n 0 (update_max_zone pad.settings pad.sensor_values) pad.max_zone_values;
}

any_peak : ℕ → Zones ℕ → Zones ℕ → Bool
any_peak n values thresholds =
    for_range n 0 (λ zone found. found || leb (at thresholds zone) (at values zone)) false

-- The scan time starts at a peak, and also at a choke, as a hit might still be detected.
unfoldable pub detect_peak : Environment → ℕ → ℕ → Zones ℕ → DrumPad → DrumPad × Bool
unfolding any_peak update_max_sensor_value
detect_peak env n now thresholds pad =
    if not (any_peak n pad.sensor_values thresholds) && not (is_choked env pad n)
    then (pad, false)
    else (
      update_max_sensor_value n (record pad {
        hit_time_us = now;
        max_zone_values = for_range n 0 (λ zone m. put m zone 0) pad.max_zone_values;
      }),
      true,
    )

-- `v * MAX_PREFERENCE_MULT * percent / 100` in `uint32_t`, added to `v` in `uint16_t`
abbrev prefer : ℕ → ℕ → ℕ
prefer v percent = u16 (v + u32 (u32 (v * 5) * percent) / 100)

-- Head or rim is preferred by a weight on its velocity.
unfoldable pub determine_hit_zone : Zones ℕ → ℕ → ℤ → ℕ
unfolding find_max_value_index
determine_hit_zone e n head_rim_bias = if leb n 1 then 0 else elim head_rim_bias [
  | negsuc b ↦ find_max_value_index (at (put e 0 (prefer e.z0 (b + 1)))) n 0
  | pos b ↦ find_max_value_index (at (if ltb 0 b then put e 1 (prefer e.z1 b) else e)) n 1
]

abbrev pub with_state : DrumPad × SensingState → DrumPad
with_state r = record (r.0) { sensing_state = r.1 }

abbrev pub on_peak : SensingState → DrumPad × Bool → DrumPad
on_peak otherwise r = record (r.0) { sensing_state = if r.1 then scan_state else otherwise }

module _ (fl : FloatArith) where
  unfoldable pub scan_velocities : ℕ → DrumPad → Zones ℕ × Zones ℕ
  scan_velocities n pad =
      for_range {State = Zones ℕ × Zones ℕ} n 0
        (λ zone s.
          let v =
            scale (at pad.max_zone_values zone) (at pad.settings.zone_thresholds_min zone)
              (at pad.settings.zone_thresholds_max zone) in
          (put s.0 zone v, put s.1 zone (curve fl v pad.settings.curve_type)))
        (same 0, pad.hit_velocities)

  -- The end of the scan time: the zone that was hit, or else a choke.
  unfoldable pub finish_scan : ℕ → ℕ → DrumPad → DrumPad × SensingState
  unfolding handle_choked
  finish_scan n now pad =
      let s = scan_velocities n pad in
      let pad' = record pad { scan_time_end_us = now; hit_velocities = s.1 } in
      let hit_index = determine_hit_zone s.0 n pad.settings.head_rim_bias in
      if at pad.max_zone_values hit_index == 0 then handle_choked pad' else (
        record pad' {
          hits = put pad.hits hit_index true;
          cymbal = record (pad.cymbal) { last_event_type = hit_event };
        },
        mask_state,
      )

  unfoldable pub scan : ℕ → ℕ → DrumPad → DrumPad × SensingState
  unfolding finish_scan update_max_sensor_value
  scan n now pad =
      let pad' = update_max_sensor_value n pad in
      if ltb (sub32 now pad.hit_time_us) pad.settings.scan_time_us
      then (pad', scan_state)
      else finish_scan n now pad'

  -- The threshold of a zone falls from its last maximum to its minimum while the decay goes on.
  unfoldable pub decay_threshold : ℕ → ℕ → ℕ → ℕ
  decay_threshold max_value threshold_min progress =
      if ltb threshold_min max_value
      then u16 (
          fl.to_uint (
            fl.fsub (fl.of_int (pos max_value))
              (fl.fmul (fl.of_int (pos (max_value - threshold_min))) progress)))
      else threshold_min

  decay_thresholds : ℕ → ℕ → DrumPad → Zones ℕ
  unfolding decay_threshold
  decay_thresholds n progress pad =
      for_range n 0
        (λ zone t. put t zone (
          decay_threshold (at pad.max_zone_values zone) (at pad.settings.zone_thresholds_min zone)
            progress))
        (same 0)

  unfoldable pub detect_peak_with_decay : Environment → ℕ → ℕ → ℕ → DrumPad → DrumPad × Bool
  unfolding detect_peak decay_thresholds
  detect_peak_with_decay env n now progress pad =
      detect_peak env n now (decay_thresholds n progress pad) pad

  -- The float `timeSinceDecayBeginUs / (decayTimeMs * 1000)`
  abbrev pub decay_progress : ℕ → DrumSettings → ℕ
  decay_progress since settings =
      fl.fdiv (fl.of_int (pos since)) (fl.of_int (pos (settings.decay_time_ms * 1000)))

  -- One sample in each state, the inputs read.
  unfoldable pub advance : SensingState → Environment → ℕ → ℕ → DrumPad → DrumPad
  advance peak_detect env n now pad =
      on_peak peak_detect (detect_peak env n now pad.settings.zone_thresholds_min pad)
  advance scan_state env n now pad = with_state (scan n now pad)
  advance mask_state env n now pad =
      if ltb (sub32 now pad.scan_time_end_us) (pad.settings.mask_time_ms * 1000)
      then pad
      else record pad {
        sensing_state = if ltb 0 pad.settings.decay_time_ms then decay_state else peak_detect;
      }
  advance decay_state env n now pad =
      let since = sub32 now (add32 pad.scan_time_end_us (pad.settings.mask_time_ms * 1000)) in
      if ltb since (pad.settings.decay_time_ms * 1000)
      then on_peak decay_state
          (detect_peak_with_decay env n now (decay_progress since pad.settings) pad)
      else record pad { sensing_state = peak_detect }

  -- `sense` with a connector that has pins; `none` is a division by zero.
  unfoldable pub sense_active :
      Environment → ℕ → DrumPad → DrumConnector → Option (DrumPad × DrumConnector)
  unfolding reset_hit_info
  sense_active env now pad c =
      let n = get_active_zone_count pad.settings.zones_type (some c) in
      Option.map (λ (s : DrumPad × DrumConnector). (advance s.0.sensing_state env n now s.0, s.1))
        (read_input_values env (reset_hit_info n pad) c)

  unfoldable pub sense :
      Environment → ℕ → DrumPad → DrumConnector → Option (DrumPad × DrumConnector)
  sense env now pad c =
      if is_connector_active (some c) then sense_active env now pad c else some (pad, c)

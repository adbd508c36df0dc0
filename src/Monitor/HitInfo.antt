-- ===== src/Monitor/HitInfo.antt =====
-- src/monitor.h, src/monitor.cpp: the description of a hit that is sent to the web interface. A value
-- that an initializer leaves out is 0 or false.
use eaves_drum.Base.{ℕ, Bool, true, false, sub32, if◌then◌else◌, for_range, u16, FloatArith}
use eaves_drum.Drum.Settings.{Zones, at, put, same, PadType, ZonesType, ChokeType, max_sensor_value}
use eaves_drum.Drum.Pad.{DrumPad}
use eaves_drum.Drum.Sensing.Latency.{LatencyTestInfo}

-- The indices of the trigger are set when the message is sent: see Record.
pub record MonitorHitInfo : Type 0 where
  pub pad_index : ℕ
  pub velocities : Zones ℕ
  pub hits : Zones Bool
  pub is_choked : Bool
  pub zone_thresholds_min : Zones ℕ
  pub zone_thresholds_max : Zones ℕ
  pub mask_time_ms : ℕ
  pub decay_time_ms : ℕ
  pub latency_us : ℕ
  pub pad_type : PadType
  pub zones_type : ZonesType
  pub choke_type : ChokeType

unfoldable pub create_generic_hit_info : DrumPad → MonitorHitInfo
create_generic_hit_info pad = record {
  pad_index = pad.index;
  velocities = same 0;
  hits = same false;
  is_choked = pad.cymbal.is_choked;
  zone_thresholds_min = same 0;
  zone_thresholds_max = same 0;
  mask_time_ms = 0;
  decay_time_ms = 0;
  latency_us = 0;
  pad_type = pad.settings.pad_type;
  zones_type = pad.settings.zones_type;
  choke_type = pad.settings.choke_type;
}

-- One round of the loop of `prepareDrumHitInfo`.
unfoldable pub copy_zone : DrumPad → ℕ → MonitorHitInfo → MonitorHitInfo
copy_zone pad i info = record info {
  hits = put info.hits i (at pad.hits i);
  velocities = put info.velocities i (at pad.hit_velocities i);
  zone_thresholds_min = put info.zone_thresholds_min i (at pad.settings.zone_thresholds_min i);
  zone_thresholds_max = put info.zone_thresholds_max i (at pad.settings.zone_thresholds_max i);
}

-- For a pad with `n` active zones.
unfoldable pub prepare_drum_hit_info : ℕ → DrumPad → MonitorHitInfo
unfolding create_generic_hit_info copy_zone
prepare_drum_hit_info n pad = for_range n 0 (copy_zone pad) (record (create_generic_hit_info pad) {
  mask_time_ms = pad.settings.mask_time_ms;
  decay_time_ms = pad.settings.decay_time_ms;
})

unfoldable pub prepare_latency_test_hit_info : ℕ → LatencyTestInfo → DrumPad → MonitorHitInfo
unfolding create_generic_hit_info
prepare_latency_test_hit_info now test pad = record (create_generic_hit_info pad) {
  hits = put (same false) 0 true;
  velocities = same 0;
  zone_thresholds_min = put (same 0) 0 test.threshold;
  zone_thresholds_max = put (same 0) 0 max_sensor_value;
  latency_us = if test.preview then 0 else sub32 now test.start_time_us;
}

-- The second zone describes the chick; its thresholds are `float`s that are stored as `uint16_t`.
unfoldable pub prepare_pedal_hit_info : FloatArith → DrumPad → MonitorHitInfo
unfolding create_generic_hit_info
prepare_pedal_hit_info fl pad = record (create_generic_hit_info pad) {
  hits = put (put (same false) 0 true) 1 pad.hits.z0;
  velocities = put (put (same 0) 0 pad.hihat.pedal_cc) 1 pad.hit_velocities.z0;
  zone_thresholds_min =
      put (put (same 0) 0 pad.settings.zone_thresholds_min.z0) 1
        (u16 (fl.to_uint pad.settings.almost_closed_threshold));
  zone_thresholds_max =
      put (put (same 0) 0 pad.settings.zone_thresholds_max.z0) 1
        (u16 (fl.to_uint pad.settings.closed_threshold));
}

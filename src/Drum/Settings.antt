-- ===== src/Drum/Settings.antt =====
-- src/drum/drum_settings.h and src/drum/types.h.
use eaves_drum.Base.{ℕ, Bool, true, ℤ, ◌==◌}

pub data PadType : Type 0 where
  drum cymbal pedal : PadType

pub data ZonesType : Type 0 where
  zones1_controller : ZonesType
  zones1_piezo : ZonesType
  zones2_piezos : ZonesType
  zones2_piezo_and_switch : ZonesType
  zones3_piezos : ZonesType
  zones3_piezo_and_switches_2trs : ZonesType
  zones3_piezo_and_switches_1trs : ZonesType

pub data ChokeType : Type 0 where
  no_choke switch_edge switch_cup touch_sensor : ChokeType

pub data CurveType : Type 0 where
  linear exponential1 exponential2 logarithmic1 logarithmic2 : CurveType

pub data DecayType : Type 0 where
  linear_decay : DecayType

abbrev pub max_sensor_value : ℕ
max_sensor_value = 1023

abbrev pub midi_note_unassigned : ℕ
midi_note_unassigned = 255

-- An array of three, one for each zone. No index above two occurs: see Pad.
pub record Zones (A : Type 0) : Type 0 where
  pub z0 : A
  pub z1 : A
  pub z2 : A

abbrev pub at : {A : Type 0} → Zones A → ℕ → A
at z ℕ.zero = z.z0
at z (ℕ.suc ℕ.zero) = z.z1
at z (ℕ.suc (ℕ.suc i)) = z.z2

abbrev pub put : {A : Type 0} → Zones A → ℕ → A → Zones A
put z ℕ.zero v = record z { z0 = v }
put z (ℕ.suc ℕ.zero) v = record z { z1 = v }
put z (ℕ.suc (ℕ.suc ℕ.zero)) v = record z { z2 = v }
put z (ℕ.suc (ℕ.suc (ℕ.suc i))) v = z

abbrev pub same : {A : Type 0} → A → Zones A
same a = record { z0 = a; z1 = a; z2 = a }

-- The two thresholds of the pedal are `float`s.
pub record DrumSettings : Type 0 where
  pub pad_type : PadType
  pub zones_type : ZonesType
  pub choke_type : ChokeType
  pub curve_type : CurveType
  pub zone_thresholds_min : Zones ℕ
  pub zone_thresholds_max : Zones ℕ
  pub scan_time_us : ℕ
  pub mask_time_ms : ℕ
  pub decay_time_ms : ℕ
  pub decay_type : DecayType
  pub head_rim_bias : ℤ
  pub cross_note_enabled : Bool
  pub almost_closed_threshold : ℕ
  pub closed_threshold : ℕ
  pub move_detect_tolerance : ℕ
  pub chick_detect_timeout_ms : ℕ

unfoldable pub get_zone_count : ZonesType → ℕ
get_zone_count zones1_controller = 1
get_zone_count zones1_piezo = 1
get_zone_count zones2_piezos = 2
get_zone_count zones2_piezo_and_switch = 2
get_zone_count zones3_piezos = 3
get_zone_count zones3_piezo_and_switches_1trs = 3
get_zone_count zones3_piezo_and_switches_2trs = 3

unfoldable pub has_zone_threshold_max : ZonesType → ℕ → Bool
has_zone_threshold_max zones2_piezos zone = true
has_zone_threshold_max zones3_piezos zone = true
has_zone_threshold_max _ zone = zone == 0

unfoldable pub get_required_pin_count : ZonesType → ℕ
unfolding get_zone_count
get_required_pin_count zones3_piezo_and_switches_1trs = 2
get_required_pin_count t = get_zone_count t

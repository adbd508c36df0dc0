-- ===== src/Config/Settings.antt =====
-- src/config/config_settings.cpp: a pad's settings, from JSON and to JSON. `none` is a value of
-- another type, or out of range.
pub mod Thresholds
pub mod Lookup
pub mod Saved
use eaves_drum.Base.{
  ℕ, zero, suc, ◌+◌, Bool, true, false, ◌&&◌, Option, none, some, String, List, [], ◌∷◌, ◌++◌, ltb,
  ◌==◌, if◌then◌else◌, for_range, ℤ,
}
use eaves_drum.Config.Json.{Json}
use eaves_drum.Config.Names.{
  map_string_to_pad_type, map_string_to_zones_type, map_string_to_choke_type,
  map_string_to_curve_type, map_string_to_decay_type, map_pad_type_to_string,
  map_zones_type_to_string, map_choke_type_to_string, map_curve_type_to_string,
  map_decay_type_to_string,
}
use eaves_drum.Drum.Settings.{
  PadType, drum, cymbal, pedal, ZonesType, zones1_controller, zones1_piezo, zones2_piezos,
  zones2_piezo_and_switch, zones3_piezos, zones3_piezo_and_switches_2trs,
  zones3_piezo_and_switches_1trs, DrumSettings, at, put, get_zone_count, has_zone_threshold_max,
}
use eaves_drum.Drum.Pad.{DrumPad, reinitialize_settings}

-- `SETTING_FROM_JSON`
abbrev pub or_keep : {A : Type 0} → Option A → A → A
or_keep none old = old
or_keep (some v) old = v

abbrev pub byte_limit : ℕ
byte_limit = 256

abbrev pub word_limit : ℕ
word_limit = 65536

pub data DrumSettingId : Type 0 where
  pad_type_id zones_type_id choke_type_id enabled_id curve_type_id scan_time_id mask_time_id
        decay_time_id decay_type_id zone_thresholds_id almost_closed_id closed_id move_detect_id
        chick_detect_id head_rim_bias_id cross_note_id :
      DrumSettingId

abbrev pub generic_items : List DrumSettingId
generic_items = pad_type_id ∷ enabled_id ∷ zones_type_id ∷ []

abbrev pub drum_or_cymbal_items : List DrumSettingId
drum_or_cymbal_items =
    generic_items
    ++ (curve_type_id ∷ scan_time_id ∷ mask_time_id ∷ decay_time_id ∷ decay_type_id
        ∷ zone_thresholds_id ∷ [])

abbrev pub pedal_control_items : List DrumSettingId
pedal_control_items =
    generic_items
    ++ (zone_thresholds_id ∷ almost_closed_id ∷ closed_id ∷ move_detect_id ∷ chick_detect_id
        ∷ curve_type_id ∷ [])

-- What a pad with piezos alone adds, by its type and its number of zones.
unfoldable pub piezo_items : PadType → ℕ → List DrumSettingId
piezo_items drum zones =
    (if zones == 2 then cross_note_id ∷ [] else [])
    ++ (if ltb 1 zones then head_rim_bias_id ∷ [] else [])
piezo_items cymbal zones = choke_type_id ∷ []
piezo_items pedal zones = []

unfoldable pub get_supported_settings : ZonesType → PadType → List DrumSettingId
unfolding piezo_items
get_supported_settings zones1_controller p = pedal_control_items
get_supported_settings zones1_piezo p = drum_or_cymbal_items ++ piezo_items p 1
get_supported_settings zones2_piezos p = drum_or_cymbal_items ++ piezo_items p 2
get_supported_settings zones3_piezos p = drum_or_cymbal_items ++ piezo_items p 3
get_supported_settings zones2_piezo_and_switch p = drum_or_cymbal_items ++ (choke_type_id ∷ [])
get_supported_settings zones3_piezo_and_switches_2trs p =
    drum_or_cymbal_items ++ (choke_type_id ∷ [])
get_supported_settings zones3_piezo_and_switches_1trs p =
    drum_or_cymbal_items ++ (choke_type_id ∷ [])

module _ (js : Json) where
  -- One round of the loop over the zones.
  unfoldable pub zone_from : js.Node → ℕ → DrumSettings → DrumSettings
  zone_from node zone s =
      let t = js.element node zone in
      let low = js.as_unsigned word_limit (js.member t "min") in
      let high = js.as_unsigned word_limit (js.member t "max") in
      if js.is_object t
      then record s {
        zone_thresholds_min =
            put s.zone_thresholds_min zone (or_keep low (at s.zone_thresholds_min zone));
        zone_thresholds_max =
            put s.zone_thresholds_max zone (or_keep high (at s.zone_thresholds_max zone));
      }
      else s

  unfoldable pub thresholds_from : js.Node → DrumSettings → DrumSettings
  unfolding zone_from
  thresholds_from node s = if js.is_array node then for_range 3 0 (zone_from node) s else s

  -- The first five members are names, if they are there; `equals` is `equalsIgnoreCase`.
  unfoldable pub type_from : {A : Type 0} → (String → A) → js.Node → A → A
  type_from from_name node old = if js.as_truth node then from_name (js.to_text node) else old

  unfoldable pub types_from : (String → String → Bool) → js.Node → DrumSettings → DrumSettings
  unfolding type_from
  types_from equals node s = record s {
    pad_type = type_from (map_string_to_pad_type equals) (js.member node "padType") s.pad_type;
    zones_type =
        type_from (map_string_to_zones_type equals) (js.member node "zonesType") s.zones_type;
    choke_type =
        type_from (map_string_to_choke_type equals) (js.member node "chokeType") s.choke_type;
    curve_type =
        type_from (map_string_to_curve_type equals) (js.member node "curveType") s.curve_type;
    decay_type =
        type_from (map_string_to_decay_type equals) (js.member node "decayType") s.decay_type;
  }

  unfoldable pub numbers_from : js.Node → DrumSettings → DrumSettings
  numbers_from node s = record s {
    scan_time_us = or_keep (js.as_unsigned word_limit (js.member node "scanTimeUs")) s.scan_time_us;
    mask_time_ms = or_keep (js.as_unsigned byte_limit (js.member node "maskTimeMs")) s.mask_time_ms;
    decay_time_ms =
        or_keep (js.as_unsigned byte_limit (js.member node "decayTimeMs")) s.decay_time_ms;
    almost_closed_threshold =
        or_keep (js.as_float (js.member node "almostClosedThreshold")) s.almost_closed_threshold;
    closed_threshold = or_keep (js.as_float (js.member node "closedThreshold")) s.closed_threshold;
    move_detect_tolerance =
        or_keep (js.as_unsigned word_limit (js.member node "moveDetectTolerance"))
          s.move_detect_tolerance;
    chick_detect_timeout_ms =
        or_keep (js.as_unsigned byte_limit (js.member node "chickDetectTimeoutMs"))
          s.chick_detect_timeout_ms;
    cross_note_enabled =
        or_keep (js.as_bool (js.member node "crossNoteEnabled")) s.cross_note_enabled;
    head_rim_bias = or_keep (js.as_int8 (js.member node "headRimBias")) s.head_rim_bias;
  }

  unfoldable pub apply_pad_settings : (String → String → Bool) → DrumPad → js.Node → DrumPad
  unfolding types_from thresholds_from numbers_from reinitialize_settings
  apply_pad_settings equals pad node = reinitialize_settings (record pad {
    settings =
        numbers_from node
          (thresholds_from (js.member node "zoneThresholds") (types_from equals node pad.settings));
  })

  -- An entry of `zoneThresholds`.
  unfoldable pub zone_to : DrumSettings → ℕ → js.Object
  unfolding has_zone_threshold_max
  zone_to s zone =
      let low =
        js.set_member js.empty_object "min" (js.of_number (at s.zone_thresholds_min zone)) in
      if has_zone_threshold_max s.zones_type zone
      then js.set_member low "max" (js.of_number (at s.zone_thresholds_max zone))
      else low

  unfoldable pub thresholds_to : DrumSettings → js.Array
  unfolding zone_to get_zone_count
  thresholds_to s =
      for_range (get_zone_count s.zones_type) 0
        (λ zone a. js.append a (js.of_object (zone_to s zone))) js.empty_array

  unfoldable pub convert_pad_setting_to_json : DrumSettings → DrumSettingId → js.Object → js.Object
  unfolding thresholds_to map_pad_type_to_string map_zones_type_to_string map_choke_type_to_string
      map_curve_type_to_string map_decay_type_to_string
  convert_pad_setting_to_json s pad_type_id o =
      js.set_member o "padType" (js.of_text (map_pad_type_to_string s.pad_type))
  convert_pad_setting_to_json s zones_type_id o =
      js.set_member o "zonesType" (js.of_text (map_zones_type_to_string s.zones_type))
  convert_pad_setting_to_json s choke_type_id o =
      js.set_member o "chokeType" (js.of_text (map_choke_type_to_string s.choke_type))
  convert_pad_setting_to_json s enabled_id o = o
  convert_pad_setting_to_json s curve_type_id o =
      js.set_member o "curveType" (js.of_text (map_curve_type_to_string s.curve_type))
  convert_pad_setting_to_json s decay_type_id o =
      js.set_member o "decayType" (js.of_text (map_decay_type_to_string s.decay_type))
  convert_pad_setting_to_json s zone_thresholds_id o =
      js.set_member o "zoneThresholds" (js.of_array (thresholds_to s))
  convert_pad_setting_to_json s scan_time_id o =
      js.set_member o "scanTimeUs" (js.of_number s.scan_time_us)
  convert_pad_setting_to_json s mask_time_id o =
      js.set_member o "maskTimeMs" (js.of_number s.mask_time_ms)
  convert_pad_setting_to_json s decay_time_id o =
      js.set_member o "decayTimeMs" (js.of_number s.decay_time_ms)
  convert_pad_setting_to_json s almost_closed_id o =
      js.set_member o "almostClosedThreshold" (js.of_float s.almost_closed_threshold)
  convert_pad_setting_to_json s closed_id o =
      js.set_member o "closedThreshold" (js.of_float s.closed_threshold)
  convert_pad_setting_to_json s move_detect_id o =
      js.set_member o "moveDetectTolerance" (js.of_number s.move_detect_tolerance)
  convert_pad_setting_to_json s chick_detect_id o =
      js.set_member o "chickDetectTimeoutMs" (js.of_number s.chick_detect_timeout_ms)
  convert_pad_setting_to_json s head_rim_bias_id o =
      js.set_member o "headRimBias" (js.of_integer s.head_rim_bias)
  convert_pad_setting_to_json s cross_note_id o =
      js.set_member o "crossNoteEnabled" (js.of_bool s.cross_note_enabled)

  -- The loop over the supported settings.
  unfoldable pub convert_each : DrumSettings → List DrumSettingId → js.Object → js.Object
  unfolding convert_pad_setting_to_json
  convert_each s [] o = o
  convert_each s (id ∷ ids) o = convert_each s ids (convert_pad_setting_to_json s id o)

  unfoldable pub convert_pad_settings_to_json : DrumSettings → js.Object → js.Object
  unfolding convert_each get_supported_settings
  convert_pad_settings_to_json s o =
      convert_each s (get_supported_settings s.zones_type s.pad_type) o

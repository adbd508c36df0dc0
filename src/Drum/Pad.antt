-- ===== src/Drum/Pad.antt =====
-- src/drum/drum_pad.h: the state of a pad, and what it derives from its connector. A pointer to
-- another object of the kit is the object's index there.
pub mod Zoned
mod Tests
use eaves_drum.Base.{
  ℕ, Bool, true, false, ◌||◌, Option, none, some, String, min, ltb, ◌==◌, if◌then◌else◌,
}
use eaves_drum.Drum.Settings.{
  Zones, ZonesType, zones3_piezo_and_switches_1trs, DrumSettings, PadType, ChokeType, touch_sensor,
  get_zone_count,
}
use eaves_drum.Drum.Connector.{DrumConnector}

pub data HiHatState : Type 0 where
  open_state almost_closed closed : HiHatState

pub data LastCymbalEventType : Type 0 where
  no_event hit_event choke_event : LastCymbalEventType

-- src/drum/sensing/sensing.h
pub data SensingState : Type 0 where
  peak_detect scan_state mask_state decay_state : SensingState

pub record HiHatData : Type 0 where
  pub pedal_cc : ℕ
  pub state : HiHatState
  pub is_moving : Bool
  pub almost_closed_time_ms : ℕ

pub record CymbalData : Type 0 where
  pub is_choked : Bool
  pub last_event_type : LastCymbalEventType

pub record DrumPad : Type 0 where
  pub hihat : HiHatData
  pub cymbal : CymbalData
  pub hit_time_us : ℕ
  pub scan_time_end_us : ℕ
  pub sensor_values : Zones ℕ
  pub max_zone_values : Zones ℕ
  pub hit_velocities : Zones ℕ
  pub hits : Zones Bool
  pub index : ℕ
  pub name : String
  pub role : String
  pub group : String
  pub auto_calibrate : Bool
  pub enabled : Bool
  pub settings : DrumSettings
  pub pedal_pad : Option ℕ
  pub connector : Option ℕ
  pub touch : Option ℕ
  pub sensing_state : SensingState
  pub mappings : Option ℕ

-- The pins of the connector that the pad uses.
unfoldable pub get_active_pin_count : ZonesType → Option DrumConnector → ℕ
unfolding get_zone_count
get_active_pin_count t none = 0
get_active_pin_count zones3_piezo_and_switches_1trs (some c) = min c.pins_count 2
get_active_pin_count t (some c) = min c.pins_count (get_zone_count t)

unfoldable pub get_active_zone_count : ZonesType → Option DrumConnector → ℕ
unfolding get_active_pin_count
get_active_zone_count zones3_piezo_and_switches_1trs c =
    let pins = get_active_pin_count zones3_piezo_and_switches_1trs c in
    if pins == 2 then 3 else pins
get_active_zone_count t c = get_active_pin_count t c

unfoldable pub is_connector_active : Option DrumConnector → Bool
is_connector_active none = false
is_connector_active (some c) = ltb 0 c.pins_count

unfoldable pub is_hit : DrumPad → Bool
is_hit pad = pad.hits.z0 || (pad.hits.z1 || pad.hits.z2)

-- A touch sensor stays with its pad only under the choke type that uses it.
unfoldable pub reinitialize_settings : DrumPad → DrumPad
reinitialize_settings pad = elim pad.settings.choke_type [
  | touch_sensor ↦ pad
  | _ ↦ record pad { touch = none }
]

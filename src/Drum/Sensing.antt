-- ===== src/Drum/Sensing.antt =====
-- src/drum/sensing: what a pad makes of its connector's pins, sample by sample. Times are the
-- `uint32_t` microseconds of the firmware's boards; an array is its three zones.
pub mod Sample
pub mod Piezo
pub mod Controller
pub mod PiezoSwitch
pub mod Latency
use eaves_drum.Base.{
  ℕ, zero, suc, ◌+◌, ◌-◌, ◌*◌, ◌/◌, Bool, true, false, not, ◌&&◌, ◌||◌, Option, none, some, ltb,
  leb, ◌==◌, if◌then◌else◌, for_range, u16, u32, ℤ, pos, negsuc, FloatArith,
}
use mathlib.Core.Option
use eaves_drum.Drum.Settings.{
  Zones, at, put, same, DrumSettings, PadType, drum, cymbal, pedal, ZonesType,
  zones3_piezo_and_switches_1trs, ChokeType, no_choke, switch_edge, switch_cup, touch_sensor,
}
use eaves_drum.Drum.Pin.{DrumPin, Inputs, InputFlags, read_input}
use eaves_drum.Drum.Connector.{DrumConnector}
use eaves_drum.Drum.Pad.{
  DrumPad, CymbalData, LastCymbalEventType, no_event, hit_event, choke_event, SensingState,
  peak_detect, scan_state, mask_state, decay_state, get_active_pin_count, get_active_zone_count,
}

-- What a sample reads: the pins, and the touch sensor at the first pin of a connector.
pub record Environment : Type 0 where
  pub inputs : Inputs
  pub read_touch_sensor : ℕ → Bool

unfoldable pub reset_hit_info : ℕ → DrumPad → DrumPad
reset_hit_info zone_count pad = record pad {
  hits = for_range zone_count 0 (λ zone hits. put hits zone false) pad.hits;
  hit_velocities = for_range zone_count 0 (λ zone vs. put vs zone 0) pad.hit_velocities;
  cymbal = record (pad.cymbal) { is_choked = false };
}

abbrev is_drum : PadType → Bool
is_drum drum = true
is_drum _ = false

abbrev is_cymbal : PadType → Bool
is_cymbal cymbal = true
is_cymbal _ = false

abbrev pub is_1trs : ZonesType → Bool
is_1trs zones3_piezo_and_switches_1trs = true
is_1trs _ = false

-- Where the value of a pin goes. The second pin of a one-jack cymbal is its edge or its cup, by the
-- threshold of the cup.
unfoldable pub store_input : DrumPad → ℕ → ℕ → DrumPad
store_input pad pin_index value =
    if is_1trs pad.settings.zones_type && (pin_index == 1)
    then (let sensor = if leb pad.settings.zone_thresholds_min.z2 value then 2 else 1 in
        record pad { sensor_values = put (put pad.sensor_values sensor value) (3 - sensor) 0 })
    else record pad { sensor_values = put pad.sensor_values pin_index value }

-- One round of `readInputValues`, which calibrates the pin; `none` is a division by zero.
unfoldable pub read_pin :
    Environment → ℕ → DrumPad × DrumConnector → Option (DrumPad × DrumConnector)
unfolding store_input
read_pin env i (pad, c) =
    let flags : InputFlags = record {
      auto_calibrate = is_drum pad.settings.pad_type && pad.auto_calibrate;
      invert = false;
    } in
    Option.map (λ (r : ℕ × DrumPin). (store_input pad i r.0, record c { pins = put c.pins i r.1 }))
      (read_input env.inputs (at c.pins i) flags)

read_pins : Environment → ℕ → ℕ → DrumPad × DrumConnector → Option (DrumPad × DrumConnector)
unfolding read_pin
read_pins env zero i s = some s
read_pins env (suc n) i s = Option.bind (read_pin env i s) (read_pins env n (i + 1))

unfoldable pub read_input_values :
    Environment → DrumPad → DrumConnector → Option (DrumPad × DrumConnector)
unfolding read_pins
read_input_values env pad c =
    read_pins env (get_active_pin_count pad.settings.zones_type (some c)) 0 (pad, c)

unfoldable pub is_zone_switch_pressed : DrumPad → ℕ → Bool
is_zone_switch_pressed pad zone =
    leb (at pad.settings.zone_thresholds_min zone) (at pad.sensor_values zone)

is_switch_choked : DrumPad → ℕ → ℕ → Bool
unfolding is_zone_switch_pressed
is_switch_choked pad active_zone_count zone =
    if ltb zone active_zone_count then is_zone_switch_pressed pad zone else false

choked_by : ChokeType → Environment → DrumPad → ℕ → Bool
unfolding is_switch_choked
choked_by no_choke env pad n = false
choked_by touch_sensor env pad n = elim pad.touch [
  | none ↦ false
  | some t ↦ env.read_touch_sensor t
]
choked_by switch_edge env pad n = is_switch_choked pad n 1
choked_by switch_cup env pad n = is_switch_choked pad n 2

unfoldable pub is_choked : Environment → DrumPad → ℕ → Bool
unfolding choked_by
is_choked env pad active_zone_count =
    is_cymbal pad.settings.pad_type && choked_by pad.settings.choke_type env pad active_zone_count

unfoldable pub handle_choked : DrumPad → DrumPad × SensingState
handle_choked pad = elim pad.cymbal.last_event_type [
  | choke_event ↦ (pad, peak_detect)
  | _ ↦ (
    record pad { cymbal = record { is_choked = true; last_event_type = choke_event } },
    mask_state,
  )
]

-- `findMaxValueIndex`: the loop keeps the greatest value so far and its index.
unfoldable pub find_max_value_index : (ℕ → ℕ) → ℕ → ℕ → ℕ
find_max_value_index values zone_count prefered_index =
    (for_range {State = ℕ × ℕ} zone_count 0
      (λ index best. if ltb best.0 (values index) then (values index, index) else best)
      (values prefered_index, prefered_index)).1

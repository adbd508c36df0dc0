-- ===== src/Config/Muxes.antt =====
-- src/config/config_mux.cpp: a multiplexer, from JSON and to JSON.
pub mod Saved
use eaves_drum.Base.{
  ℕ, zero, suc, ◌+◌, ◌%◌, Bool, true, false, not, ◌&&◌, ◌||◌, Option, none, some, List, [], ◌∷◌,
  ltb, leb, ◌==◌, if◌then◌else◌, for_range, get_or, set, take, replicate, String,
}
use eaves_drum.Config.Json.{Json}
use eaves_drum.Config.Names.{named}
use eaves_drum.Drum.Pin.{pin_unused}
use eaves_drum.Drum.Mux.{DrumMux, init_mux}

pub data MuxType : Type 0 where
  hc4051 hc4067 unknown_mux : MuxType

-- `getMuxType`
unfoldable pub get_mux_type : DrumMux → MuxType
get_mux_type mux = if get_or mux.select_pins 3 pin_unused == pin_unused then hc4051 else hc4067

unfoldable pub map_string_to_mux_type : (String → String → Bool) → String → MuxType
unfolding named
map_string_to_mux_type equals value =
    named equals value (("HC4051", hc4051) ∷ ("HC4067", hc4067) ∷ []) unknown_mux

unfoldable pub map_mux_type_to_string : MuxType → String
map_mux_type_to_string hc4051 = "HC4051"
map_mux_type_to_string hc4067 = "HC4067"
map_mux_type_to_string unknown_mux = "Unknown"

-- How many select pins a type requires.
abbrev pub required_pins : MuxType → ℕ
required_pins hc4051 = 3
required_pins hc4067 = 4
required_pins unknown_mux = 0

-- `false`, a multiplexer, or a write beyond the array of four pins, whose loop index of eight bits
-- never reaches the size.
pub data MuxResult : Type 0 where
  rejected : MuxResult
  accepted : DrumMux → MuxResult
  overrun : MuxResult

module _ (js : Json) where
  unfoldable pub select_pins_from : js.Node → List ℕ
  select_pins_from node =
      for_range (js.size node) 0 (λ i pins. set pins i (js.to_byte (js.element node i)))
        (replicate 4 pin_unused)

  unfoldable pub enable_pin_from : js.Node → ℕ
  enable_pin_from node = if js.is_null node then pin_unused else js.to_byte node

  unfoldable pub select_pins_to : DrumMux → js.Array
  select_pins_to mux =
      for_range mux.select_pins_count 0
        (λ i a. js.append a (js.of_number (get_or mux.select_pins i pin_unused))) js.empty_array

  -- The members of `pins`; without select pins there is no array of them.
  unfoldable pub mux_pins_to : DrumMux → js.Object
  unfolding select_pins_to
  mux_pins_to mux =
      let analog = js.set_member js.empty_object "analogIn" (js.of_number mux.analog_in_pin) in
      let enable =
        if mux.enable_pin == pin_unused
        then analog
        else js.set_member analog "enable" (js.of_number mux.enable_pin) in
      if mux.select_pins_count == 0
      then enable
      else js.set_member enable "select" (js.of_array (select_pins_to mux))

  unfoldable pub convert_mux_config_to_json : DrumMux → js.Object → js.Object
  unfolding mux_pins_to get_mux_type map_mux_type_to_string
  convert_mux_config_to_json mux o =
      js.set_member
        (js.set_member o "type" (js.of_text (map_mux_type_to_string (get_mux_type mux)))) "pins"
        (js.of_object (mux_pins_to mux))

module _ (js : Json) (equals : String → String → Bool) (init_digital init_analog : ℕ → Bool) where
  -- From the checks of the numbers of pins on.
  unfoldable pub mux_from_pins : DrumMux → MuxType → js.Node → MuxResult
  mux_from_pins mux type node =
      let select = js.member node "select" in
      let analog = js.member node "analogIn" in
      let required = required_pins type in
      if not (js.is_array select)
      then rejected
      else if not (js.size select % 256 == required)
      then rejected
      else if leb 256 (js.size select)
      then overrun
      else if js.is_null analog
      then rejected
      else accepted (
          init_mux init_digital init_analog mux required
            (take required (select_pins_from js select)) (js.to_byte analog)
            (enable_pin_from js (js.member node "enable")))

  unfoldable pub mux_of_type : DrumMux → MuxType → js.Node → MuxResult
  unfolding mux_from_pins
  mux_of_type mux unknown_mux node = rejected
  mux_of_type mux hc4051 node = mux_from_pins mux hc4051 node
  mux_of_type mux hc4067 node = mux_from_pins mux hc4067 node

  -- `mux` is the object as it is declared: its members are not initialized.
  unfoldable pub apply_mux_config : DrumMux → js.Node → MuxResult
  unfolding mux_of_type map_string_to_mux_type
  apply_mux_config mux node =
      let type = map_string_to_mux_type equals (js.to_text (js.member node "type")) in
      let pins = js.member node "pins" in
      let result = mux_of_type mux type pins in if js.is_object pins then result else rejected

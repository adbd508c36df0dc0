-- ===== src/Config/Connectors.antt =====
-- src/config/config_connectors.cpp: a connector's pins, from JSON and to JSON.
pub mod Saved
use eaves_drum.Base.{
  ℕ, zero, suc, ◌+◌, ◌%◌, Bool, true, false, not, ◌&&◌, ◌||◌, Option, none, some, List, [], ◌∷◌,
  ltb, leb, ◌==◌, if◌then◌else◌, for_range, length, get_elem?, String,
}
use eaves_drum.Config.Json.{Json}
use eaves_drum.Drum.Settings.{at}
use eaves_drum.Drum.Pin.{DrumPin, no_pin, direct_pin, mux_pin, is_pin_valid}
use eaves_drum.Drum.Connector.{DrumConnector, new_connector, set_pins}

abbrev pub max_pins : ℕ
max_pins = 3

abbrev pub max_connector_count : ℕ
max_connector_count = 32

-- `channel_counts` has the number of channels of each multiplexer of the kit.
module _ (js : Json) (channel_counts : List ℕ) where
  -- `getPinsConfig` for an entry that is no number, from the multiplexer's channels.
  unfoldable pub mux_pin_config : Option ℕ → ℕ → ℕ → DrumPin
  unfolding no_pin mux_pin
  mux_pin_config none mux_index channel = no_pin
  mux_pin_config (some count) mux_index channel =
      if leb count channel then no_pin else mux_pin mux_index mux_index channel

  unfoldable pub get_mux_pin_config : js.Node → DrumPin
  unfolding mux_pin_config no_pin
  get_mux_pin_config node =
      let mux_node = js.member node "mux" in
      let channel_node = js.member node "channel" in
      let mux_index = js.to_byte mux_node in
      if js.is_null mux_node || js.is_null channel_node
      then no_pin
      else mux_pin_config (get_elem? channel_counts mux_index) mux_index (js.to_byte channel_node)

  -- By whether the entry is a number.
  unfoldable pub pin_config_as : Option ℕ → js.Node → DrumPin
  unfolding direct_pin get_mux_pin_config
  pin_config_as (some index) node = direct_pin index
  pin_config_as none node = get_mux_pin_config node

  unfoldable pub get_pins_config : js.Node → DrumPin
  unfolding pin_config_as no_pin
  get_pins_config node =
      if js.is_null node then no_pin else pin_config_as (js.as_unsigned 256 node) node

  -- The loop of `applyPinsConfig`, from the entry `i` on; `none` is the early return.
  unfoldable pub pins_from : js.Node → ℕ → ℕ → Option (List DrumPin)
  unfolding get_pins_config is_pin_valid
  pins_from node zero i = some []
  pins_from node (suc k) i =
      let pin = get_pins_config (js.element node i) in
      let rest = pins_from node k (i + 1) in
      elim rest [ none ↦ none | some pins ↦ if is_pin_valid pin then some (pin ∷ pins) else none ]

  unfoldable pub pin_count_of : js.Node → ℕ
  pin_count_of node = let n = js.size node % 256 in if ltb max_pins n then max_pins else n

  -- The connector, and what is returned.
  unfoldable pub set_read_pins : DrumConnector → ℕ → Option (List DrumPin) → DrumConnector × Bool
  set_read_pins c count none = (c, false)
  set_read_pins c count (some pins) = (set_pins c pins count, true)

  unfoldable pub apply_pins_config : DrumConnector → js.Node → DrumConnector × Bool
  unfolding pins_from pin_count_of set_read_pins
  apply_pins_config c node =
      let count = pin_count_of node in
      if count == 0 then (c, false) else set_read_pins c count (pins_from node count 0)

  -- The node of a pin.
  unfoldable pub pin_to : DrumPin → js.Node
  pin_to pin = elim pin.mux [
    | none ↦ js.of_number pin.index
    | some m ↦ js.of_object (
        js.set_member (js.set_member js.empty_object "mux" (js.of_number pin.mux_index)) "channel"
          (js.of_number pin.index))
  ]

  unfoldable pub convert_pins_to_json : DrumConnector → js.Array → js.Array
  unfolding pin_to
  convert_pins_to_json c a =
      for_range c.pins_count 0 (λ i pins. js.append pins (pin_to (at c.pins i))) a

-- ===== src/Config/Kit.antt =====
-- src/config/config_connectors.cpp, config_mux.cpp and config_pad.cpp: what a document adds to a kit.
-- The equality of texts is a parameter; log text is left out.
pub mod Added
pub mod Enabled
mod Pedal
mod Tests
use mathlib.Core.Option
use eaves_drum.Base.{
  ℕ, zero, suc, ◌+◌, Bool, true, false, not, ◌&&◌, ◌||◌, Option, none, some, List, [], ◌∷◌, ◌++◌,
  ltb, leb, ◌==◌, if◌then◌else◌, length, get_elem?, String, map, u8,
}
use eaves_drum.Config.Json.{Json}
use eaves_drum.Config.Connectors.{apply_pins_config, max_connector_count}
use eaves_drum.Config.Muxes.{MuxResult, rejected, accepted, overrun, apply_mux_config}
use eaves_drum.Config.Settings.{apply_pad_settings, or_keep}
use eaves_drum.Drum.Connector.{DrumConnector, new_connector}
use eaves_drum.Drum.Mux.{DrumMux}
use eaves_drum.Drum.Pad.{DrumPad}
use eaves_drum.Drum.Kit.Tables.{find_from}

abbrev pub max_mux_count : ℕ
max_mux_count = 4

abbrev pub max_pad_count : ℕ
max_pad_count = 20

-- `UNKNOWN_PAD`
abbrev pub unknown_pad : ℕ
unknown_pad = 255

module _ (js : Json) (same : String → String → Bool) where
  -- `getConnectorById`
  unfoldable pub get_connector_by_id : List DrumConnector → String → Option ℕ
  unfolding find_from
  get_connector_by_id cs id = find_from same (λ (c : DrumConnector). c.id) id cs 0

  -- `addConnectorsToDrumKit`: the loop over the members, which ends at a full kit and skips an id that
  -- is present.
  unfoldable pub add_connectors :
      List ℕ → List DrumConnector → List (String × js.Node) → List DrumConnector
  unfolding get_connector_by_id
  add_connectors channel_counts cs [] = cs
  add_connectors channel_counts cs ((id, node) ∷ rest) =
      let c = (apply_pins_config js channel_counts (new_connector id) (js.member node "pins")).0 in
      let skipped = add_connectors channel_counts cs rest in
      let added = add_connectors channel_counts (cs ++ (c ∷ [])) rest in
      if leb max_connector_count (length cs)
      then cs
      else elim (get_connector_by_id cs id) [ some i ↦ skipped | none ↦ added ]

  -- `addMultiplexersToKit`, over the nodes; `none` is the write out of bounds of `applyMuxConfig`.
  unfoldable pub add_muxes :
      (String → String → Bool)
      → (ℕ → Bool)
      → (ℕ → Bool)
      → DrumMux
      → List DrumMux
      → List js.Node
      → Option (List DrumMux)
  add_muxes equals init_digital init_analog fresh muxes [] = some muxes
  add_muxes equals init_digital init_analog fresh muxes (node ∷ rest) =
      let skipped = add_muxes equals init_digital init_analog fresh muxes rest in
      let result = apply_mux_config js equals init_digital init_analog fresh node in
      if leb max_mux_count (length muxes) then some muxes else elim result [
        | rejected ↦ skipped
        | overrun ↦ none
        | accepted mux ↦ add_muxes equals init_digital init_analog fresh (muxes ++ (mux ∷ [])) rest
      ]

  -- `findPedalIndexByName`, by the rounds left and the index, a `uint8_t`. With more than 255 entries
  -- the index wraps; `none` is a loop that goes on for ever.
  unfoldable pub find_pedal_index_by_name : String → js.Node → ℕ → ℕ → Option ℕ
  find_pedal_index_by_name name pads zero i = none
  find_pedal_index_by_name name pads (suc k) i =
      let rest = find_pedal_index_by_name name pads k (u8 (i + 1)) in
      if not (ltb i (js.size pads))
      then some unknown_pad
      else if same (js.to_text (js.member (js.element pads i) "name")) name
      then some i
      else rest

  -- The pedal: 257 rounds reach each index and the end of the loop, if it has one.
  unfoldable pub pedal_from : js.Node → Option String → Option ℕ → Option (Option ℕ)
  unfolding find_pedal_index_by_name
  pedal_from pads none old = some old
  pedal_from pads (some name) old =
      Option.map (λ i. if i == unknown_pad then old else some i)
        (find_pedal_index_by_name name pads 257 0)

  -- `setTouchSensor`: a sensor without pins, or at a multiplexed pin, is refused.
  unfoldable pub set_touch_sensor : List DrumConnector → Option ℕ → Option ℕ → Option ℕ
  set_touch_sensor cs none old = none
  set_touch_sensor cs (some i) old = elim (get_elem? cs i) [
    | none ↦ old
    | some c ↦
        if c.pins_count == 0 then old else elim c.pins.z0.mux [ none ↦ some i | some m ↦ old ]
  ]

  -- The touch sensor, and whether it is known.
  unfoldable pub touch_from : List DrumConnector → Option String → Option ℕ → Option ℕ × Bool
  unfolding get_connector_by_id set_touch_sensor
  touch_from cs none old = (old, true)
  touch_from cs (some id) old =
      let found = get_connector_by_id cs id in
      (set_touch_sensor cs found old, elim found [ none ↦ false | some i ↦ true ])

  -- The connector, which is required, and whether it is known.
  unfoldable pub connector_from : List DrumConnector → Option String → Option ℕ → Option ℕ × Bool
  unfolding get_connector_by_id
  connector_from cs none old = (old, false)
  connector_from cs (some id) old =
      let found = get_connector_by_id cs id in (found, elim found [ none ↦ false | some i ↦ true ])

  -- Name, role, group and calibration.
  unfoldable pub labels_from : String → js.Node → DrumPad → DrumPad
  labels_from unknown node pad = record pad {
    name = or_keep (js.as_text (js.member node "name")) unknown;
    role = or_keep (js.as_text (js.member node "role")) "Default";
    group = or_keep (js.as_text (js.member node "group")) "";
    auto_calibrate = or_keep (js.as_bool (js.member node "autocalibrate")) false;
  }

  -- The labels and the settings, if there are any; `unknown` is the name of a pad without one.
  unfoldable pub settle_pad : (String → String → Bool) → String → js.Node → DrumPad → DrumPad
  unfolding labels_from
  settle_pad equals unknown node pad =
      let labelled = labels_from unknown node pad in
      let settings = js.member node "settings" in
      if js.is_object settings then apply_pad_settings js equals labelled settings else labelled

  -- The rest, from the pedal on.
  unfoldable pub connect_pad : List DrumConnector → js.Node → DrumPad → Option ℕ → DrumPad
  unfolding touch_from connector_from
  connect_pad cs node pad pedal =
      let touch = touch_from cs (js.as_text (js.member node "touchSensor")) pad.touch in
      let connector = connector_from cs (js.as_text (js.member node "connector")) pad.connector in
      record pad {
        pedal_pad = pedal;
        touch = touch.0;
        connector = connector.0;
        enabled =
            js.is_object (js.member node "settings")
            && (touch.1 && (connector.1 && js.as_truth (js.member node "enabled")));
      }

  -- `applyPadConfig` of the entry `index`.
  unfoldable pub apply_pad_config :
      (String → String → Bool)
      → (ℕ → String)
      → List DrumConnector
      → js.Node
      → ℕ
      → DrumPad
      → Option DrumPad
  unfolding pedal_from settle_pad connect_pad
  apply_pad_config equals unknown cs pads index pad =
      let node = js.element pads index in
      let settled = settle_pad equals (unknown index) node pad in
      Option.map (connect_pad cs node settled)
        (pedal_from pads (js.as_text (js.member node "pedal")) settled.pedal_pad)

  -- `addPadsToDrumKit`: the rounds left, from the entry `i` on; `slot` is the kit's array of pads.
  unfoldable pub add_pads :
      (String → String → Bool)
      → (ℕ → String)
      → (ℕ → DrumPad)
      → List DrumConnector
      → js.Node
      → ℕ
      → ℕ
      → List DrumPad
      → Option (List DrumPad)
  unfolding apply_pad_config
  add_pads equals unknown slot cs nodes zero i pads = some pads
  add_pads equals unknown slot cs nodes (suc k) i pads =
      let added =
        Option.bind (apply_pad_config equals unknown cs nodes i (slot (length pads)))
          (λ pad. add_pads equals unknown slot cs nodes k (i + 1) (pads ++ (pad ∷ []))) in
      if leb max_pad_count (length pads) then some pads else added

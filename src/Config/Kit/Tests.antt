-- ===== src/Config/Kit/Tests.antt =====
-- A document with a snare, its connector, and a connector that is there twice.
use eaves_drum.Base.{◌≤◌, ◌≡◌, ◌⊎◌, true, false, some, List, [], ◌∷◌, String, length, arith}
use eaves_drum.Config.Json.{same_text}
use eaves_drum.Config.Examples.{values}
use eaves_drum.Config.Names.{ignoring_case}
use eaves_drum.Config.Kit.{add_connectors, apply_pad_config}
use eaves_drum.Config.Kit.Added.{Differ, add_connectors-Differ}
use eaves_drum.Config.Kit.Enabled.{Complete, Lacks, enabled_pad}
use eaves_drum.Drum.Connector.{DrumConnector, new_connector}
use eaves_drum.Drum.Pad.{DrumPad}
use eaves_drum.Drum.Examples.{snare}

abbrev pin_node : values.Node
pin_node = values.of_object (
    values.set_member values.empty_object "pins"
      (values.of_array (values.append values.empty_array (values.of_number 26))))

abbrev document : List (String × values.Node)
document = ("snare", pin_node) ∷ ("snare", pin_node) ∷ []

add_connectors-Differ_example :
    Differ values same_text (add_connectors values same_text [] [] document)
    × (length (add_connectors values same_text [] [] document) ≤ 32)
add_connectors-Differ_example =
    add_connectors-Differ values same_text [] [] document tt (omega arith)

abbrev settings_node : values.Object
settings_node =
    values.set_member values.empty_object "settings" (values.of_object values.empty_object)

abbrev connected : values.Object
connected = values.set_member settings_node "connector" (values.of_text "snare")

abbrev pads : values.Node
pads = values.of_array (
    values.append values.empty_array
      (values.of_object (values.set_member connected "enabled" (values.of_bool true))))

abbrev connectors : List DrumConnector
connectors = new_connector "snare" ∷ []

enabled_pad_example :
    let node = values.element pads 0 in
    (r : DrumPad) × (apply_pad_config values same_text ignoring_case
        (λ i. "Unknown")
        connectors
        pads
        0
        snare
      ≡ some r)
    × (((r.enabled ≡ true) × Complete values same_text connectors node r)
        ⊎ ((r.enabled ≡ false) × Lacks values same_text connectors node))
unfolding values
enabled_pad_example =
    enabled_pad values same_text ignoring_case (λ i. "Unknown") connectors pads 0 snare
      (omega arith)

-- ===== src/Config/Roles.antt =====
-- src/config/config_drumkit.cpp: `applyDrumKitMappings`, over the table of the kit and its pads.
pub mod Others
mod Tests
use eaves_drum.Base.{
  ℕ, Bool, true, false, Option, none, some, List, [], ◌∷◌, if◌then◌else◌, String, get_or, set,
  length,
}
use eaves_drum.Config.Json.{Json}
use eaves_drum.Config.Mappings.{apply_mappings}
use eaves_drum.Drum.Pad.{DrumPad}
use eaves_drum.Drum.Kit.Evaluate.{DrumMappings}
use eaves_drum.Drum.Kit.Tables.{
  MappingsTable, get_or_create_mappings, new_mappings, get_pad_by_role, find_from,
}

abbrev pub max_mappings_count : ℕ
max_mappings_count = 32

module _ (js : Json) (same : String → String → Bool) where
  -- `pad->setMappings`, if a pad has the role.
  unfoldable pub assign : List DrumPad → Option ℕ → ℕ → List DrumPad
  assign [] pad i = []
  assign (p ∷ ps) none i = p ∷ ps
  assign (p ∷ ps) (some index) i =
      set (p ∷ ps) index (record (get_or (p ∷ ps) index p) { mappings = some i })

  -- The slot that is written: on top of what it has, or of the defaults.
  unfoldable pub merged_mappings : Bool → String → DrumMappings → js.Node → DrumMappings
  merged_mappings replace role old node =
      apply_mappings js (if replace then new_mappings same role else old) node

  -- A round of the loop, by what `getOrCreateMappings` returned.
  unfoldable pub store_role :
      Bool
      → MappingsTable
      → Option ℕ
      → List DrumPad
      → String
      → js.Node
      → MappingsTable × List DrumPad
  store_role replace t none pads role node = (t, pads)
  store_role replace t (some i) pads role node = (
    record t {
      slots =
          set t.slots i
            (merged_mappings replace role (get_or t.slots i (new_mappings same role)) node);
    },
    assign pads (get_pad_by_role same pads (length pads) role) i,
  )

  unfoldable pub apply_role :
      Bool → MappingsTable × List DrumPad → String → js.Node → MappingsTable × List DrumPad
  unfolding store_role
  apply_role replace (t, pads) role node =
      let r = get_or_create_mappings same max_mappings_count t role in
      store_role replace r.0 r.1 pads role node

  unfoldable pub apply_drum_kit_mappings :
      Bool → MappingsTable × List DrumPad → List (String × js.Node) → MappingsTable × List DrumPad
  unfolding apply_role
  apply_drum_kit_mappings replace kit [] = kit
  apply_drum_kit_mappings replace kit ((role, node) ∷ rest) =
      apply_drum_kit_mappings replace (apply_role replace kit role node) rest

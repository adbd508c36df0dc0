-- ===== src/Config/Roles/Tests.antt =====
-- A request for the tom, in a kit whose table has the snare's mappings.
use eaves_drum.Base.{◌≡◌, refl, true, List, [], ◌∷◌, String, replicate, arith}
use text.Mathlib.TextEquality.{eq_iff}
use eaves_drum.Config.Json.{same_text}
use eaves_drum.Config.Examples.{values}
use eaves_drum.Config.Roles.{apply_drum_kit_mappings}
use eaves_drum.Config.Roles.Others.{role_mappings, HasSlots, apply_drum_kit_mappings-others}
use eaves_drum.Drum.Examples.{snare}
use eaves_drum.Drum.Kit.Tables.{MappingsTable, new_mappings}

same-equal : (s t : String) → same_text s t ≡ true → s ≡ t
same-equal s t h = (eq_iff s t).0 h

abbrev table : MappingsTable
table = record {
  slots = new_mappings same_text "snare" ∷ replicate 31 (new_mappings same_text "");
  mappings_count = 1;
}

abbrev request : List (String × values.Node)
request =
    (
      "tom",
      values.of_object (values.set_member values.empty_object "noteMain" (values.of_number 48)),
    )
    ∷ []

apply_drum_kit_mappings-others_example :
    (role_mappings same_text
        (apply_drum_kit_mappings values same_text true (table, snare ∷ []) request).0
        "snare"
      ≡ role_mappings same_text table "snare")
    × HasSlots (apply_drum_kit_mappings values same_text true (table, snare ∷ []) request).0
apply_drum_kit_mappings-others_example =
    apply_drum_kit_mappings-others values same_text same-equal true table (snare ∷ []) "snare"
      request (omega arith, refl) (refl, tt)

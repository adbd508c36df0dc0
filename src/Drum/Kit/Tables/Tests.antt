-- ===== src/Drum/Kit/Tables/Tests.antt =====
-- A table without mappings that is asked for a role.
use eaves_drum.Base.{◌≤◌, ◌≡◌, ◌≢◌, ◌⊎◌, refl, Bool, true, none, String, replicate, arith}
use eaves_drum.Drum.Kit.Tables.{MappingsTable, get_mappings, new_mappings, get_or_create_mappings}
use eaves_drum.Drum.Kit.Tables.Mappings.{get_or_create_lem}

-- All roles are one here.
abbrev same : String → String → Bool
same a b = true

abbrev empty : MappingsTable
empty = record { slots = replicate 32 (new_mappings same ""); mappings_count = 0 }

get_or_create_lem_example :
    let r = get_or_create_mappings same 32 empty "Snare" in
    (get_mappings same r.0 "Snare" ≡ r.1)
    × (r.0.mappings_count ≤ 32)
    × ((r.1 ≢ none) ⊎ (empty.mappings_count ≡ 32))
get_or_create_lem_example =
    get_or_create_lem same 32 empty "Snare" refl (omega arith) refl (omega arith)

-- ===== src/Drum/Kit/Tables.antt =====
-- src/drum/drum_kit.h: the tables of the kit. `none` is a null pointer; a pad, and the mappings of a
-- role, are given by their index. Text is compared by a parameter.
pub mod Mappings
mod Tests
use eaves_drum.Base.{
  ℕ, zero, suc, ◌+◌, Bool, true, false, Option, none, some, String, ltb, leb, ◌==◌, if◌then◌else◌,
  List, [], ◌∷◌, ◌++◌, take, get_or, set, u8, ℤ, pos, negsuc, map, length,
}
use eaves_drum.Drum.Settings.{midi_note_unassigned}
use eaves_drum.Drum.Pad.{DrumPad}
use eaves_drum.Drum.Kit.Evaluate.{DrumMappings}

abbrev pub max_gate_time_ms : ℕ
max_gate_time_ms = 30000

-- `setGateTime` clamps.
unfoldable pub set_gate_time : ℕ → ℕ
set_gate_time gate_time = if ltb max_gate_time_ms gate_time then max_gate_time_ms else gate_time

unfoldable pub get_pad : ℕ → ℕ → Option ℕ
get_pad pads_count index = if ltb index pads_count then some index else none

pub record MappingsTable : Type 0 where
  pub slots : List DrumMappings
  pub mappings_count : ℕ

module _ (same_text : String → String → Bool) where
  -- The first index, from `i` on and in as many rounds as are left, whose text is the one given.
  unfoldable pub find_from : {A : Type 0} → (A → String) → String → List A → ℕ → Option ℕ
  find_from text wanted [] i = none
  find_from text wanted (x ∷ xs) i =
      let rest = find_from text wanted xs (i + 1) in
      if same_text (text x) wanted then some i else rest

  unfoldable pub get_pad_by_name : List DrumPad → ℕ → String → Option ℕ
  unfolding find_from
  get_pad_by_name pads pads_count name =
      find_from (λ (p : DrumPad). p.name) name (take pads_count pads) 0

  unfoldable pub get_pad_by_role : List DrumPad → ℕ → String → Option ℕ
  unfolding find_from
  get_pad_by_role pads pads_count role =
      find_from (λ (p : DrumPad). p.role) role (take pads_count pads) 0

  unfoldable pub get_mappings : MappingsTable → String → Option ℕ
  unfolding find_from
  get_mappings t role =
      find_from (λ (m : DrumMappings). m.role) role (take t.mappings_count t.slots) 0

  unfoldable pub new_mappings : String → DrumMappings
  new_mappings role = record {
    role = role;
    name = "";
    note_main = midi_note_unassigned;
    note_rim = midi_note_unassigned;
    note_cup = midi_note_unassigned;
    note_cross = midi_note_unassigned;
    closed_notes_enabled = negsuc 0;
    note_close_main = midi_note_unassigned;
    note_close_rim = midi_note_unassigned;
    note_close_cup = midi_note_unassigned;
  }

  -- The index that `getOrCreateMappings` returns, and the table.
  unfoldable pub get_or_create_mappings : ℕ → MappingsTable → String → MappingsTable × Option ℕ
  unfolding get_mappings new_mappings
  get_or_create_mappings max_count t role = elim (get_mappings t role) [
    | some i ↦ (t, some i)
    | none ↦ if leb max_count t.mappings_count then (t, none) else (
      record {
        slots = set t.slots t.mappings_count (new_mappings role);
        mappings_count = u8 (t.mappings_count + 1);
      },
      some t.mappings_count,
    )
  ]

  unfoldable pub delete_all_mappings : MappingsTable → List DrumPad → MappingsTable × List DrumPad
  delete_all_mappings t pads =
      (record t { mappings_count = 0 }, map (λ (p : DrumPad). record p { mappings = none }) pads)

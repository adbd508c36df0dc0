-- ===== src/Config/Mappings.antt =====
-- src/config/config_mappings.cpp: the notes of a role, from JSON and to JSON.
pub mod Saved
use eaves_drum.Base.{
  ℕ, zero, suc, ◌+◌, ◌-◌, ◌%◌, Bool, true, false, not, ◌&&◌, Option, none, some, String, ltb, ◌==◌,
  if◌then◌else◌, ℤ, pos, negsuc, u8,
}
use eaves_drum.Config.Json.{Json}
use eaves_drum.Drum.Settings.{midi_note_unassigned}
use eaves_drum.Drum.Kit.Evaluate.{DrumMappings}

-- An `int` as `uint8_t`.
abbrev pub byte : ℤ → ℕ
byte (pos n) = u8 n
byte (negsuc n) = 255 - u8 n

abbrev pub bool_undefined : ℤ
bool_undefined = negsuc 0

abbrev pub bool_value : Bool → ℤ
bool_value true = pos 1
bool_value false = pos 0

abbrev pub above_127 : ℤ → Bool
above_127 (pos n) = ltb 127 n
above_127 (negsuc n) = false

-- `_value > 127 ? 0 : _value`
unfoldable pub note_of : ℤ → ℕ
note_of v = if above_127 v then 0 else byte v

-- The three branches of `NOTE_MAPPING_FROM_JSON`, by what the node holds and whether it is null.
unfoldable pub read_note : Option ℤ → Bool → ℕ → ℕ
unfolding note_of
read_note (some v) explicitly_null old = note_of v
read_note none true old = midi_note_unassigned
read_note none false old = old

-- `BOOL_MAPPING_FROM_JSON`
unfoldable pub read_bool : Option Bool → Bool → ℤ → ℤ
read_bool (some b) explicitly_null old = bool_value b
read_bool none true old = bool_undefined
read_bool none false old = old

-- `STRING_MAPPING_FROM_JSON`
unfoldable pub read_text : Option String → String → String
read_text (some s) old = s
read_text none old = old

abbrev pub is_undefined : ℤ → Bool
is_undefined (pos n) = false
is_undefined (negsuc n) = n == 0

abbrev pub is_true : ℤ → Bool
is_true (pos n) = not (n == 0)
is_true (negsuc n) = true

module _ (js : Json) where
  unfoldable pub explicitly_null : js.Node → Bool
  explicitly_null node = not (js.is_unbound node) && js.is_null node

  unfoldable pub note_from : js.Node → ℕ → ℕ
  unfolding read_note explicitly_null
  note_from node old = read_note (js.as_int node) (explicitly_null node) old

  unfoldable pub bool_from : js.Node → ℤ → ℤ
  unfolding read_bool explicitly_null
  bool_from node old = read_bool (js.as_bool node) (explicitly_null node) old

  unfoldable pub apply_mappings : DrumMappings → js.Node → DrumMappings
  unfolding note_from bool_from read_text
  apply_mappings m node = record m {
    name = read_text (js.as_text (js.member node "name")) m.name;
    note_main = note_from (js.member node "noteMain") m.note_main;
    note_rim = note_from (js.member node "noteRim") m.note_rim;
    note_cup = note_from (js.member node "noteCup") m.note_cup;
    note_cross = note_from (js.member node "noteCross") m.note_cross;
    closed_notes_enabled = bool_from (js.member node "closedNotesEnabled") m.closed_notes_enabled;
    note_close_main = note_from (js.member node "noteCloseMain") m.note_close_main;
    note_close_rim = note_from (js.member node "noteCloseRim") m.note_close_rim;
    note_close_cup = note_from (js.member node "noteCloseCup") m.note_close_cup;
  }

  -- The `TO_JSON` macros.
  -- Arduino's `String` converts to whether it has a buffer.
  unfoldable pub text_to : (String → Bool) → js.Object → String → String → js.Object
  text_to has_buffer o key s = if has_buffer s then js.set_member o key (js.of_text s) else o

  unfoldable pub note_to : js.Object → String → ℕ → js.Object
  note_to o key n = if n == midi_note_unassigned then o else js.set_member o key (js.of_number n)

  unfoldable pub bool_to : js.Object → String → ℤ → js.Object
  bool_to o key b = if is_undefined b then o else js.set_member o key (js.of_bool (is_true b))

  unfoldable pub convert_mappings_to_json : (String → Bool) → DrumMappings → js.Object → js.Object
  unfolding text_to note_to bool_to
  convert_mappings_to_json has_buffer m o =
      let named = text_to has_buffer o "name" m.name in
      let main = note_to named "noteMain" m.note_main in
      let rim = note_to main "noteRim" m.note_rim in
      let cup = note_to rim "noteCup" m.note_cup in
      let cross = note_to cup "noteCross" m.note_cross in
      let closed = bool_to cross "closedNotesEnabled" m.closed_notes_enabled in
      let close_main = note_to closed "noteCloseMain" m.note_close_main in
      let close_rim = note_to close_main "noteCloseRim" m.note_close_rim in
      note_to close_rim "noteCloseCup" m.note_close_cup

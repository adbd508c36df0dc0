-- ===== src/Config/Mappings/Saved.antt =====
-- Mappings that are written and read again.
use eaves_drum.Base.{
  ℕ, ◌≤◌, ◌≡◌, ◌⊎◌, inl, inr, refl, sym, Bool, true, false, not, ◌&&◌, String, ◌==◌, if◌then◌else◌,
  ℤ, arith, Bool-cases,
}
use eaves_drum.Config.Json.{Json, Documented, same_text}
use eaves_drum.Config.Members.{write_if, write_unless}
use eaves_drum.Config.Mappings.{
  bool_undefined, bool_value, note_of, read_note, read_bool, read_text, explicitly_null, note_from,
  bool_from, apply_mappings, text_to, note_to, bool_to, is_undefined, is_true,
  convert_mappings_to_json,
}
use eaves_drum.Drum.Kit.Evaluate.{DrumMappings}
use eaves_drum.Drum.Kit.Tables.{new_mappings}

abbrev pub IsNote : ℕ → Type 0
IsNote n = (n ≤ 127) ⊎ (n ≡ 255)

-- Notes are MIDI notes or unassigned, and the flag is 0, 1 or undefined.
pub record IsValid (m : DrumMappings) : Type 0 where
  pub main : IsNote m.note_main
  pub rim : IsNote m.note_rim
  pub cup : IsNote m.note_cup
  pub cross : IsNote m.note_cross
  pub closed :
      (m.closed_notes_enabled ≡ bool_undefined)
      ⊎ ((b : Bool) × (m.closed_notes_enabled ≡ bool_value b))
  pub close_main : IsNote m.note_close_main
  pub close_rim : IsNote m.note_close_rim
  pub close_cup : IsNote m.note_close_cup

module _ (js : Json) (D : Documented js) where
  note-member :
      (o : js.Object) (k j : String) (n : ℕ)
      → js.member (js.of_object (note_to js o k n)) j
        ≡ (if same_text k j && not (n == 255) then js.of_number n else js.member (js.of_object o) j)
  unfolding note_to
  note-member o k j n = write_unless js D (n == 255) o (js.of_number n) k j

  bool-member :
      (o : js.Object) (k j : String) (b : ℤ)
      → js.member (js.of_object (bool_to js o k b)) j ≡ (
          if same_text k j && not (is_undefined b)
          then js.of_bool (is_true b)
          else js.member (js.of_object o) j)
  unfolding bool_to
  bool-member o k j b = write_unless js D (is_undefined b) o (js.of_bool (is_true b)) k j

  text-member :
      (has_buffer : String → Bool) (o : js.Object) (k j s : String)
      → js.member (js.of_object (text_to js has_buffer o k s)) j
        ≡ (if same_text k j && has_buffer s then js.of_text s else js.member (js.of_object o) j)
  unfolding text_to
  text-member has_buffer o k j s = write_if js D (has_buffer s) o (js.of_text s) k j

  read_missing : (old : ℕ) → note_from js js.missing old ≡ old
  unfolding note_from read_note explicitly_null
  read_missing old = rw (D.int_missing, D.unbound_missing) refl

  read_number : (n old : ℕ) → n ≤ 127 → note_from js (js.of_number n) old ≡ n
  unfolding note_from read_note note_of
  read_number n old h = let e = D.int_number n (omega arith) in rw e (ground arith)

  read_written :
      (n : ℕ)
      → IsNote n
      → note_from js (if not (n == 255) then js.of_number n else js.missing) 255 ≡ n
  read_written n (inl h) = let ne : (n == 255) ≡ false = ground arith in rw ne (read_number n 255 h)
  read_written n (inr h) = rw h (read_missing 255)

  bool_written :
      (b : ℤ)
      → (b ≡ bool_undefined) ⊎ ((c : Bool) × (b ≡ bool_value c))
      → bool_from js
          (if not (is_undefined b) then js.of_bool (is_true b) else js.missing)
          bool_undefined
        ≡ b
  unfolding bool_from read_bool explicitly_null
  bool_written b (inl h) = rw h (simp (D.bool_missing, D.unbound_missing))
  bool_written b (inr (true, h)) = rw h (simp D.bool_bool)
  bool_written b (inr (false, h)) = rw h (simp D.bool_bool)

  text_written :
      (has_buffer : String → Bool) (s : String)
      → (has_buffer s ≡ false → s ≡ "")
      → read_text (js.as_text (if has_buffer s then js.of_text s else js.missing)) "" ≡ s
  unfolding read_text
  text_written has_buffer s h = elim (Bool-cases (has_buffer s)) [
    | inl e ↦ rw e (simp D.text_text)
    | inr e ↦ rw e (simp D.text_missing (sym (h e)))
  ]

  -- For a JSON library as documented, where only an empty text has no buffer: mappings whose notes
  -- are at most 127 or unassigned, and whose flag is true, false or undefined, are read back from
  -- their JSON into new mappings of their role.
  pub apply_mappings-convert_mappings_to_json :
      (has_buffer : String → Bool) (m : DrumMappings)
      → ((s : String) → has_buffer s ≡ false → s ≡ "")
      → IsValid m
      → apply_mappings js
          (new_mappings (λ a b. true) m.role)
          (js.of_object (convert_mappings_to_json js has_buffer m js.empty_object))
        ≡ m
  unfolding apply_mappings convert_mappings_to_json new_mappings
  apply_mappings-convert_mappings_to_json has_buffer m buffer v = simp (
    note-member,
    bool-member,
    text-member,
    D.member-empty,
    text_written has_buffer m.name (buffer m.name),
    read_written m.note_main v.main,
    read_written m.note_rim v.rim,
    read_written m.note_cup v.cup,
    read_written m.note_cross v.cross,
    bool_written m.closed_notes_enabled v.closed,
    read_written m.note_close_main v.close_main,
    read_written m.note_close_rim v.close_rim,
    read_written m.note_close_cup v.close_cup,
  )

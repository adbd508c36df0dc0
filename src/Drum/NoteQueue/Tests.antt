-- ===== src/Drum/NoteQueue/Tests.antt =====
-- Runs of the note queue, and its theorems at a concrete queue.
use eaves_drum.Base.{ℕ, ◌≡◌, refl, [], ◌∷◌, arith, replicate}
use eaves_drum.Drum.NoteQueue.{
  remove_note_from, NoteEvent, NoteQueue, remove_index, remove_note, contents,
}
use eaves_drum.Drum.NoteQueue.Refine.{IsValid, has_note, erase_note, remove_note_lem}

abbrev event : ℕ → ℕ → NoteEvent
event n t = record { note = n; on_time = t }

-- Notes 36 and 38 sound; the other slots hold stale values.
abbrev two_notes : NoteQueue
two_notes = record { pending = event 36 10 ∷ event 38 20 ∷ replicate 30 (event 49 5); size = 2 }

two_notes-IsValid : IsValid two_notes
two_notes-IsValid = record { slots = refl; small = omega arith }

removes_first : contents (remove_note two_notes 36).0 ≡ event 38 20 ∷ []
unfolding remove_note remove_note_from remove_index
removes_first = refl

remove_note_lem_example :
    (contents (remove_note two_notes 38).0 ≡ erase_note 38 (contents two_notes))
    × ((remove_note two_notes 38).1 ≡ has_note 38 (contents two_notes))
    × IsValid (remove_note two_notes 38).0
remove_note_lem_example = remove_note_lem two_notes 38 two_notes-IsValid

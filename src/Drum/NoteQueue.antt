-- ===== src/Drum/NoteQueue.antt =====
-- src/drum/note_event_queue.h: the statically allocated queue of notes whose NoteOff is pending.
pub mod Refine
mod Tests
use eaves_drum.Base.{
  ℕ, zero, suc, ◌+◌, ◌-◌, Bool, true, false, List, u8, ltb, leb, ◌==◌, if◌then◌else◌, get_or, set,
  memmove, take,
}

pub record NoteEvent : Type 0 where
  pub note : ℕ
  pub on_time : ℕ

-- `pending` is the array of 32 slots; the slots from `size` on hold stale values.
pub record NoteQueue : Type 0 where
  pub pending : List NoteEvent
  pub size : ℕ

abbrev pub max_pending_notes : ℕ
max_pending_notes = 32

-- A slot out of range, which no operation reads on a valid queue.
abbrev pub no_event : NoteEvent
no_event = record { note = 0; on_time = 0 }

unfoldable pub add_note : NoteQueue → ℕ → ℕ → NoteQueue
add_note q note time =
    if ltb q.size max_pending_notes
    then record {
      pending = set q.pending q.size (record { note = note; on_time = time });
      size = u8 (q.size + 1);
    }
    else q

unfoldable pub peek_oldest_note : NoteQueue → NoteEvent
peek_oldest_note q = get_or q.pending 0 no_event

-- `size - index - 1` and `--size` are `uint8_t`.
unfoldable pub remove_index : NoteQueue → ℕ → NoteQueue
remove_index q index = record {
  pending = memmove index (index + 1) (u8 (q.size + 511 - index)) q.pending;
  size = u8 (q.size + 255);
}

unfoldable pub remove_oldest_note : NoteQueue → NoteQueue
remove_oldest_note q = remove_index q 0

-- The loop of `removeNote`: the rounds left, and the index `i`.
unfoldable pub remove_note_from : ℕ → ℕ → NoteQueue → ℕ → NoteQueue × Bool
remove_note_from zero i q note = (q, false)
remove_note_from (suc k) i q note =
    let rest = remove_note_from k (i + 1) q note in
    if (get_or q.pending i no_event).note == note then (remove_index q i, true) else rest

unfoldable pub remove_note : NoteQueue → ℕ → NoteQueue × Bool
remove_note q note = remove_note_from q.size 0 q note

unfoldable pub is_empty : NoteQueue → Bool
is_empty q = q.size == 0

unfoldable pub is_full : NoteQueue → Bool
is_full q = leb max_pending_notes q.size

-- The abstract view: the pending notes, oldest first.
abbrev pub contents : NoteQueue → List NoteEvent
contents q = take q.size q.pending

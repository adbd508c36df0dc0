-- ===== src/Drum/Kit/Notes.antt =====
-- src/drum/drum_kit.cpp: the notes that the kit starts, and stops after the gate time. What goes to
-- `midiTransport` is a list of messages, first to last; the channel is always MIDI_CHANNEL. A
-- clock's value is an argument where `millis()` is called.
pub mod Gate
pub mod Runs
mod Tests
use eaves_drum.Base.{
  ℕ, zero, suc, ◌+◌, Bool, true, false, List, [], ◌∷◌, ◌++◌, ltb, ◌==◌, if◌then◌else◌, sub32,
}
use eaves_drum.Drum.Settings.{midi_note_unassigned}
use eaves_drum.Drum.NoteQueue.{
  NoteQueue, add_note, peek_oldest_note, remove_oldest_note, remove_note, is_empty, is_full,
}

pub data MidiMessage : Type 0 where
  note_on : ℕ → ℕ → MidiMessage
  note_off : ℕ → MidiMessage
  after_touch : ℕ → ℕ → MidiMessage
  control_change : ℕ → ℕ → MidiMessage

abbrev pub hihat_cc : ℕ
hihat_cc = 4

unfoldable pub send_note_on_off : ℕ → ℕ → List MidiMessage
send_note_on_off note velocity =
    if note == midi_note_unassigned then [] else note_on note velocity ∷ note_off note ∷ []

-- `sendMidiNoteOnWithDelayedOffMessage`
unfoldable pub send_with_delayed_off : NoteQueue → ℕ → ℕ → ℕ → NoteQueue × List MidiMessage
send_with_delayed_off q note velocity now =
    let r = remove_note q note in
    let stop : List MidiMessage = if r.1 then note_off note ∷ [] else [] in
    let full = is_full r.0 in
    let make_room : List MidiMessage =
      if full then note_off (peek_oldest_note r.0).note ∷ [] else [] in
    let room : NoteQueue = if full then remove_oldest_note r.0 else r.0 in
    (add_note room note now, stop ++ note_on note velocity ∷ make_room)

-- `sendMidiNoteOnMessage`, less the hit indicator and the time of the last hit.
unfoldable pub send_note_on : ℕ → NoteQueue → ℕ → ℕ → ℕ → NoteQueue × List MidiMessage
unfolding send_note_on_off send_with_delayed_off
send_note_on gate_time q note velocity now =
    if note == midi_note_unassigned
    then (q, [])
    else if ltb 0 gate_time
    then send_with_delayed_off q note velocity now
    else (q, send_note_on_off note velocity)

-- The loop of `sendPendingMidiNoteOffMessages`, by the rounds that are left.
unfoldable pub send_pending_from : ℕ → ℕ → NoteQueue → ℕ → NoteQueue × List MidiMessage
send_pending_from zero gate_time q now = (q, [])
send_pending_from (suc k) gate_time q now =
    let rest = send_pending_from k gate_time (remove_oldest_note q) now in
    if is_empty q
    then (q, [])
    else if ltb (sub32 now (peek_oldest_note q).on_time) gate_time
    then (q, [])
    else (rest.0, note_off (peek_oldest_note q).note ∷ rest.1)

-- Each round takes a note from the queue, so its size is fuel enough: see Gate.
unfoldable pub send_pending : ℕ → NoteQueue → ℕ → NoteQueue × List MidiMessage
unfolding send_pending_from
send_pending gate_time q now = send_pending_from q.size gate_time q now

-- ===== src/Drum/Kit/Evaluate.antt =====
-- src/drum/drum_kit.cpp: what the kit sends for a pad after its sample. `DrumMappings` is from
-- src/drum/drum_mappings.h.
pub mod Choke
pub mod Gated
mod Tests
use eaves_drum.Base.{
  ℕ, zero, suc, ◌+◌, Bool, true, false, ◌&&◌, not, Option, none, some, String, ltb, ◌==◌,
  if◌then◌else◌, ℤ, pos, negsuc, List, [], ◌∷◌, ◌++◌, FloatArith,
}
use mathlib.Core.Option
use eaves_drum.Drum.Settings.{
  PadType, drum, cymbal, pedal, ZonesType, zones1_piezo, zones2_piezos, zones3_piezos, Zones, at,
  midi_note_unassigned,
}
use eaves_drum.Drum.Connector.{DrumConnector}
use eaves_drum.Drum.Pad.{DrumPad, HiHatState, closed, get_active_zone_count}
use eaves_drum.Drum.NoteQueue.{NoteQueue}
use eaves_drum.Drum.Sensing.{Environment}
use eaves_drum.Drum.Sensing.Piezo
use eaves_drum.Drum.Sensing.PiezoSwitch.{sense_switched}
use eaves_drum.Drum.Sensing.Controller
use eaves_drum.Drum.Kit.Notes.{
  MidiMessage, note_on, note_off, after_touch, control_change, hihat_cc, send_note_on,
}

pub record DrumMappings : Type 0 where
  pub role : String
  pub name : String
  pub note_main : ℕ
  pub note_rim : ℕ
  pub note_cup : ℕ
  pub note_cross : ℕ
  pub closed_notes_enabled : ℤ  -- -1 is undefined
  pub note_close_main : ℕ
  pub note_close_rim : ℕ
  pub note_close_cup : ℕ

-- The queue of pending notes after a call, and the messages that it sent.
abbrev pub Sent : Type 0
Sent = NoteQueue × List MidiMessage

-- The loop of `sendChokeMessage`: the rounds left, and the zone `i`.
unfoldable pub after_touches : ℕ → ℕ → ℕ → Zones ℕ → List MidiMessage
after_touches zero i pressure notes = []
after_touches (suc k) i pressure notes =
    after_touch (at notes i) pressure ∷ after_touches k (i + 1) pressure notes

-- `sendChokeMessage`
unfoldable pub send_choke : ℕ → Zones ℕ → List MidiMessage
unfolding after_touches
send_choke n notes = after_touches n 0 127 notes ++ after_touches n 0 0 notes

module _ (gate_time now : ℕ) where
  -- The first zone that is hit sounds.
  unfoldable pub send_hit : NoteQueue → DrumPad → Zones ℕ → Sent → Sent
  send_hit q pad notes otherwise =
      if pad.hits.z0
      then send_note_on gate_time q notes.z0 pad.hit_velocities.z0 now
      else if pad.hits.z1
      then send_note_on gate_time q notes.z1 pad.hit_velocities.z1 now
      else if pad.hits.z2
      then send_note_on gate_time q notes.z2 pad.hit_velocities.z2 now
      else otherwise

  unfoldable pub evaluate_drum : NoteQueue → DrumPad → DrumMappings → Sent
  unfolding send_hit
  evaluate_drum q pad m =
      send_hit q pad (record { z0 = m.note_main; z1 = m.note_rim; z2 = m.note_cross }) (q, [])

  unfoldable pub evaluate_cymbal_with_notes : NoteQueue → DrumPad → ℕ → Zones ℕ → Sent
  unfolding send_hit send_choke
  evaluate_cymbal_with_notes q pad n notes =
      send_hit q pad notes (if pad.cymbal.is_choked then (q, send_choke n notes) else (q, []))

  unfoldable pub evaluate_cymbal : NoteQueue → DrumPad → ℕ → DrumMappings → Sent
  evaluate_cymbal q pad n m =
      evaluate_cymbal_with_notes q pad n
        (record { z0 = m.note_main; z1 = m.note_rim; z2 = m.note_cup })

  abbrev has_closed_notes : DrumMappings → Bool
  has_closed_notes m = elim m.closed_notes_enabled [ negsuc k ↦ false | pos k ↦ k == 1 ]

  abbrev is_closed : DrumPad → Bool
  is_closed pedal_pad = elim pedal_pad.hihat.state [ closed ↦ true | _ ↦ false ]

  -- The pad's own notes, those of a closed hi-hat or the others.
  evaluate_hihat_pad : NoteQueue → DrumPad → ℕ → DrumPad → DrumMappings → Sent
  evaluate_hihat_pad q pad n pedal_pad m =
      if is_closed pedal_pad && has_closed_notes m
      then evaluate_cymbal_with_notes q pad n
          (record { z0 = m.note_close_main; z1 = m.note_close_rim; z2 = m.note_close_cup })
      else evaluate_cymbal q pad n m

  unfoldable pub evaluate_hihat :
      NoteQueue → DrumPad → ℕ → DrumPad → DrumMappings → DrumMappings → Sent
  unfolding evaluate_hihat_pad
  evaluate_hihat q pad n pedal_pad m pedal_m =
      let cc : List MidiMessage =
        if pedal_pad.hihat.is_moving
        then control_change hihat_cc pedal_pad.hihat.pedal_cc ∷ []
        else [] in
      let own = evaluate_hihat_pad q pad n pedal_pad m in
      let chick = send_note_on gate_time own.0 pedal_m.note_main pedal_pad.hit_velocities.z0 now in
      if not (pedal_m.note_main == midi_note_unassigned) && pedal_pad.hits.z0
      then (chick.0, cc ++ (own.1 ++ chick.1))
      else (own.0, cc ++ own.1)

-- ===== src/Drum/Kit/Evaluate/Tests.antt =====
-- A closed hi-hat that is hit, a drum, and a choke, with the theorems there.
use eaves_drum.Base.{ℕ, ◌≡◌, refl, true, false, arith, [], ◌∷◌, ◌++◌, replicate, if◌then◌else◌}
use eaves_drum.Drum.Settings.{Zones}
use eaves_drum.Drum.Pad.{DrumPad, closed}
use eaves_drum.Drum.NoteQueue.{remove_note, remove_note_from, is_full}
use eaves_drum.Drum.NoteQueue.Refine.{IsValid}
use eaves_drum.Drum.Kit.Notes.{send_note_on, send_with_delayed_off, note_on, control_change}
use eaves_drum.Drum.Kit.Evaluate.{send_choke, evaluate_cymbal_with_notes, evaluate_hihat}
use eaves_drum.Drum.Kit.Evaluate.Choke.{pressure, heard, zones_of, is_among, choke_releases}
use eaves_drum.Drum.Examples.{silent, mapped, snare}

silent-IsValid : IsValid silent
silent-IsValid = record { slots = refl; small = omega arith }

abbrev hit_pad : DrumPad
hit_pad = record snare {
  hits = record { z0 = true; z1 = false; z2 = false };
  hit_velocities = record { z0 = 84; z1 = 0; z2 = 0 };
}

abbrev closed_pedal : DrumPad
closed_pedal = record snare {
  hihat = record { pedal_cc = 120; state = closed; is_moving = true; almost_closed_time_ms = 0 };
}

-- The pedal moves, and the closed hi-hat's note sounds.
sounds_closed :
    (evaluate_hihat 100 250 silent hit_pad 2 closed_pedal (mapped 46) (mapped 44)).1
    ≡ control_change 4 120 ∷ note_on 42 84 ∷ []
unfolding evaluate_hihat evaluate_cymbal_with_notes send_note_on send_with_delayed_off remove_note
    remove_note_from is_full
sounds_closed = refl

choke_releases_example :
    let bow_edge_cup : Zones ℕ = record { z0 = 49; z1 = 55; z2 = 55 } in
    (heard 55 (send_choke 3 bow_edge_cup)
      ≡ replicate (zones_of 55 3 0 bow_edge_cup) 127 ++ replicate (zones_of 55 3 0 bow_edge_cup) 0)
    × (pressure 55 64 (send_choke 3 bow_edge_cup)
        ≡ (if is_among 55 3 0 bow_edge_cup then 0 else 64))
choke_releases_example = choke_releases 55 64 3 (record { z0 = 49; z1 = 55; z2 = 55 })

heard_twice :
    heard 55 (send_choke 3 (record { z0 = 49; z1 = 55; z2 = 55 })) ≡ 127 ∷ 127 ∷ 0 ∷ 0 ∷ []
unfolding heard send_choke
heard_twice = refl

-- ===== src/Drum/Kit/Notes/Tests.antt =====
-- Runs of the gate, and its theorems at a concrete queue.
use eaves_drum.Base.{ℕ, ◌≡◌, refl, [], ◌∷◌, arith, replicate}
use eaves_drum.Drum.NoteQueue.{
  NoteEvent, NoteQueue, remove_index, remove_note, remove_note_from, remove_oldest_note,
  peek_oldest_note, is_full, is_empty,
}
use eaves_drum.Drum.NoteQueue.Refine.{IsValid}
use eaves_drum.Drum.Kit.Notes.{note_on, note_off, send_with_delayed_off, send_pending}
use eaves_drum.Drum.Kit.Notes.Gate.{
  hear, notes, restart, pending_notes, Expires, send_with_delayed_off_lem, send_pending-Expires,
}
use eaves_drum.Drum.Kit.Notes.Runs.{hit, check, run, contains, Follows, run-Follows}

abbrev event : ℕ → ℕ → NoteEvent
event n t = record { note = n; on_time = t }

abbrev sounding : NoteQueue
sounding = record { pending = event 36 10 ∷ event 38 200 ∷ replicate 30 (event 0 0); size = 2 }

sounding-IsValid : IsValid sounding
sounding-IsValid = record { slots = refl; small = omega arith }

-- A note that sounds is stopped before it starts again.
restarts : (send_with_delayed_off sounding 36 100 250).1 ≡ note_off 36 ∷ note_on 36 100 ∷ []
unfolding send_with_delayed_off remove_note remove_note_from is_full remove_index
restarts = refl

-- At 220 ms the first note has sounded for 210 ms, the second for 20 ms.
stops_first : (send_pending 100 sounding 220).1 ≡ note_off 36 ∷ []
unfolding send_pending is_empty peek_oldest_note remove_oldest_note remove_index
stops_first = refl

send_with_delayed_off_lem_example :
    let r = send_with_delayed_off sounding 36 100 250 in
    (hear (pending_notes sounding) r.1 ≡ pending_notes r.0)
    × (pending_notes r.0 ≡ restart 36 (pending_notes sounding))
    × IsValid r.0
send_with_delayed_off_lem_example = send_with_delayed_off_lem sounding 36 100 250 sounding-IsValid

send_pending-Expires_example : Expires 100 220 sounding (send_pending 100 sounding 220)
send_pending-Expires_example = send_pending-Expires 100 sounding 220 sounding-IsValid

run-Follows_example :
    Follows sounding (run 100 sounding (hit 42 90 210 ∷ check 220 ∷ hit 42 80 260 ∷ []))
unfolding notes contains
run-Follows_example =
    run-Follows 100 sounding (hit 42 90 210 ∷ check 220 ∷ hit 42 80 260 ∷ []) (omega arith)
      sounding-IsValid (refl, (refl, tt))

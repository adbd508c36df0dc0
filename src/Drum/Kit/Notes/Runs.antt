-- ===== src/Drum/Kit/Notes/Runs.antt =====
-- The kit's notes over a whole run, and the uniqueness that the queue relies on.
use eaves_drum.Base.{
  ℕ, ◌<◌, ◌≡◌, refl, ap, ◌∙◌, Bool, false, ◌||◌, inl, inr, List, [], ◌∷◌, ◌++◌, arith, leb, lt→ltb,
  ◌==◌, Bool-cases, length, drop,
}
use eaves_drum.Drum.Settings.{midi_note_unassigned}
use eaves_drum.Drum.NoteQueue.{NoteQueue, max_pending_notes, contents}
use eaves_drum.Drum.NoteQueue.Refine.{IsValid}
use eaves_drum.Drum.Kit.Notes.{MidiMessage, send_note_on, send_pending}
use eaves_drum.Drum.Kit.Notes.Gate.{
  erase, hear, notes, restart, pending_notes, hear-append, notes-append, send_with_delayed_off_lem,
  send_pending-Expires, send_pending_heard,
}

-- What the main loop asks for: a hit's note, or the check for notes whose gate time is over.
pub data Call : Type 0 where
  hit : ℕ → ℕ → ℕ → Call
  check : ℕ → Call

unfoldable pub call : ℕ → NoteQueue → Call → NoteQueue × List MidiMessage
call gate_time q (hit note velocity now) = send_note_on gate_time q note velocity now
call gate_time q (check now) = send_pending gate_time q now

unfoldable pub run : ℕ → NoteQueue → List Call → NoteQueue × List MidiMessage
run gate_time q [] = (q, [])
run gate_time q (c ∷ cs) =
    let r = call gate_time q c in let rest = run gate_time r.0 cs in (rest.0, r.1 ++ rest.1)

-- No note is listed twice.
unfoldable pub contains : ℕ → List ℕ → Bool
contains n [] = false
contains n (m ∷ ms) = (m == n) || contains n ms

abbrev pub IsUnique : List ℕ → Type 0
IsUnique [] = Unit {0}
IsUnique (n ∷ ns) = (contains n ns ≡ false) × IsUnique ns

contains-append :
    (n : ℕ) (xs ys : List ℕ) → contains n (xs ++ ys) ≡ (contains n xs || contains n ys)
unfolding contains
contains-append n [] ys = refl
contains-append n (x ∷ xs) ys = ground (arith, contains-append n xs ys)

contains-erase_ne :
    (n m : ℕ) (ns : List ℕ) → contains n ns ≡ false → contains n (erase m ns) ≡ false
unfolding contains erase
contains-erase_ne n m [] h = refl
contains-erase_ne n m (x ∷ ns) h = ground (arith, contains-erase_ne n m ns)

contains-erase_self : (n : ℕ) (ns : List ℕ) → IsUnique ns → contains n (erase n ns) ≡ false
unfolding contains erase
contains-erase_self n [] u = refl
contains-erase_self n (x ∷ ns) u = ground (arith, contains-erase_self n ns u.1)

erase-IsUnique : (n : ℕ) (ns : List ℕ) → IsUnique ns → IsUnique (erase n ns)
unfolding erase
erase-IsUnique n [] u = tt
erase-IsUnique n (x ∷ ns) u = ground (arith, erase-IsUnique n ns u.1, contains-erase_ne x n ns u.0)

drop-IsUnique : (ns : List ℕ) → IsUnique ns → IsUnique (drop 1 ns)
drop-IsUnique [] u = tt
drop-IsUnique (n ∷ ns) u = u.1

contains-drop : (n : ℕ) (ns : List ℕ) → contains n ns ≡ false → contains n (drop 1 ns) ≡ false
unfolding contains
contains-drop n [] h = refl
contains-drop n (m ∷ ns) h = ground arith

==_comm : (m n : ℕ) → (m == n) ≡ (n == m)
==_comm m n = ground arith

snoc-IsUnique :
    (n : ℕ) (ns : List ℕ) → IsUnique ns → contains n ns ≡ false → IsUnique (ns ++ n ∷ [])
unfolding contains
snoc-IsUnique n [] u h = (refl, tt)
snoc-IsUnique n (m ∷ ns) u h = (
  ground (arith, contains-append m ns (n ∷ []), ==_comm m n),
  snoc-IsUnique n ns u.1 (ground arith),
)

suffix-IsUnique : (xs ys : List ℕ) → IsUnique (xs ++ ys) → IsUnique ys
suffix-IsUnique [] ys u = u
suffix-IsUnique (x ∷ xs) ys u = suffix-IsUnique xs ys u.1

restart-IsUnique : (n : ℕ) (ns : List ℕ) → IsUnique ns → IsUnique (restart n ns)
unfolding restart
restart-IsUnique n ns u =
    let others = erase n ns in
    let v = erase-IsUnique n ns u in
    let absent = contains-erase_self n ns u in
    elim (Bool-cases (leb max_pending_notes (length others))) [
      | inl full ↦
          rw full (
            snoc-IsUnique n (drop 1 others) (drop-IsUnique others v)
              (contains-drop n others absent))
      | inr room ↦ rw room (snoc-IsUnique n others v absent)
    ]

-- What holds between calls, and what a receiver of the messages hears.
pub record Follows (q : NoteQueue) (r : NoteQueue × List MidiMessage) : Type 0 where
  pub heard : hear (pending_notes q) r.1 ≡ pending_notes r.0
  pub unique : IsUnique (pending_notes r.0)
  pub valid : IsValid r.0

pub hit-Follows :
    (gate_time : ℕ) (q : NoteQueue) (note velocity now : ℕ)
    → 0 < gate_time
    → IsValid q
    → IsUnique (pending_notes q)
    → Follows q (send_note_on gate_time q note velocity now)
unfolding send_note_on hear
hit-Follows g q note velocity now h v u = elim (Bool-cases (note == midi_note_unassigned)) [
  | inl e ↦ rw e (record { heard = refl; unique = u; valid = v })
  | inr e ↦
      let (heard, left, valid) = send_with_delayed_off_lem q note velocity now v in
      rw (e, lt→ltb 0 g h)
        (record {
          heard = heard;
          unique = rw left (restart-IsUnique note (pending_notes q) u);
          valid = valid;
        })
]

pub check-Follows :
    (gate_time : ℕ) (q : NoteQueue) (now : ℕ)
    → IsValid q
    → IsUnique (pending_notes q)
    → Follows q (send_pending gate_time q now)
check-Follows g q now v u =
    let x = send_pending-Expires g q now v in
    let split =
      ap notes x.from_front ∙ notes-append x.stopped (contents (send_pending g q now).0) in
    record {
      heard = send_pending_heard g q now v;
      unique = suffix-IsUnique (notes x.stopped) _ (rw split at u);
      valid = x.valid;
    }

call-Follows :
    (gate_time : ℕ) (q : NoteQueue) (c : Call)
    → 0 < gate_time
    → IsValid q
    → IsUnique (pending_notes q)
    → Follows q (call gate_time q c)
unfolding call
call-Follows g q (hit note velocity now) h v u = hit-Follows g q note velocity now h v u
call-Follows g q (check now) h v u = check-Follows g q now v u

-- With a gate time above 0, from a valid queue whose pending notes differ, any run of hits and of
-- checks for expired notes sends messages from which a receiver that heard the pending notes hears
-- exactly the notes pending afterwards, each once, and the queue stays valid.
pub run-Follows :
    (gate_time : ℕ) (q : NoteQueue) (cs : List Call)
    → 0 < gate_time
    → IsValid q
    → IsUnique (pending_notes q)
    → Follows q (run gate_time q cs)
unfolding run hear
run-Follows g q [] h v u = record { heard = refl; unique = u; valid = v }
run-Follows g q (c ∷ cs) h v u =
    let one = call-Follows g q c h v u in
    let r = call g q c in
    let rest = run-Follows g r.0 cs h one.valid one.unique in
    record {
      heard =
          hear-append (pending_notes q) r.1 (run g r.0 cs).1
          ∙ ap (λ s. hear s (run g r.0 cs).1) one.heard
          ∙ rest.heard;
      unique = rest.unique;
      valid = rest.valid;
    }

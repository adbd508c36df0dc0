-- ===== src/Drum/Kit/Notes/Gate.antt =====
-- The queue of pending notes is what a receiver of the messages hears.
use eaves_drum.Base.{
  ℕ, zero, suc, ◌≤◌, ◌<◌, ◌≡◌, refl, ap, ◌∙◌, sym, false, inl, inr, ◌⊎◌, List, [], ◌∷◌, ◌++◌, arith,
  ltb, leb, ◌==◌, if◌then◌else◌, Bool-cases, sub32, length, take, drop, ==_iff, ltb→lt, leb→le,
  lt→ltb, All, get_or-take, drop-cons, ap₂,
}
use eaves_drum.Drum.NoteQueue.{
  NoteEvent, NoteQueue, no_event, max_pending_notes, add_note, peek_oldest_note, remove_oldest_note,
  remove_index, remove_note, is_empty, is_full, contents,
}
use eaves_drum.Drum.NoteQueue.Refine.{
  IsValid, has_note, erase_note, length-contents, contents-add_note, add_note-IsValid,
  contents-remove_index, remove_index-IsValid, remove_note_lem,
}
use eaves_drum.Drum.Kit.Notes.{
  MidiMessage, note_on, note_off, after_touch, control_change, send_with_delayed_off,
  send_pending_from, send_pending,
}

-- The notes that sound at a receiver after some messages, in the order in which they started.
unfoldable pub erase : ℕ → List ℕ → List ℕ
erase n [] = []
erase n (m ∷ ms) = if m == n then ms else m ∷ erase n ms

unfoldable pub hear : List ℕ → List MidiMessage → List ℕ
hear sounding [] = sounding
hear sounding (note_on n v ∷ ms) = hear (sounding ++ n ∷ []) ms
hear sounding (note_off n ∷ ms) = hear (erase n sounding) ms
hear sounding (after_touch n p ∷ ms) = hear sounding ms
hear sounding (control_change c v ∷ ms) = hear sounding ms

-- The notes of the pending events.
unfoldable pub notes : List NoteEvent → List ℕ
notes [] = []
notes (e ∷ es) = e.note ∷ notes es

pub notes-append : (xs ys : List NoteEvent) → notes (xs ++ ys) ≡ notes xs ++ notes ys
unfolding notes
notes-append [] ys = refl
notes-append (x ∷ xs) ys = ap (◌∷◌ x.note) (notes-append xs ys)

notes-erase : (n : ℕ) (es : List NoteEvent) → notes (erase_note n es) ≡ erase n (notes es)
unfolding notes erase erase_note
notes-erase n [] = refl
notes-erase n (e ∷ es) = ground (arith, notes-erase n es)

erase_absent : (n : ℕ) (es : List NoteEvent) → has_note n es ≡ false → erase_note n es ≡ es
unfolding has_note erase_note
erase_absent n [] h = refl
erase_absent n (e ∷ es) h = ground (arith, erase_absent n es)

-- The head of the contents is what `peekOldestNote` gives, and `removeOldestNote` drops it.
peek_lem :
    (q : NoteQueue)
    → IsValid q
    → 0 < q.size
    → contents q ≡ peek_oldest_note q ∷ contents (remove_oldest_note q)
unfolding peek_oldest_note remove_oldest_note
peek_lem q v h =
    let first = drop-cons 0 (contents q) no_event (omega (arith, length-contents v)) in
    let head = get_or-take 0 q.size q.pending no_event h in
    let rest = contents-remove_index v 0 h in first ∙ ap₂ ◌∷◌ head (sym rest)

remove_oldest_note-IsValid :
    (q : NoteQueue) → IsValid q → 0 < q.size → IsValid (remove_oldest_note q)
unfolding remove_oldest_note
remove_oldest_note-IsValid q v h = remove_index-IsValid v 0 h

size-remove_oldest :
    (q : NoteQueue) → IsValid q → 0 < q.size → suc (remove_oldest_note q).size ≡ q.size
unfolding remove_oldest_note remove_index
size-remove_oldest q v h = omega (arith, v.small)

-- The notes after a new note: a note that already sounds starts anew, and the oldest note makes
-- room when 32 others sound.
unfoldable pub restart : ℕ → List ℕ → List ℕ
restart n ns =
    let others = erase n ns in
    (if leb max_pending_notes (length others) then drop 1 others else others) ++ n ∷ []

length-notes : (es : List NoteEvent) → length (notes es) ≡ length es
unfolding notes
length-notes [] = refl
length-notes (e ∷ es) = ap suc (length-notes es)

abbrev pub pending_notes : NoteQueue → List ℕ
pending_notes q = notes (contents q)

notes_of_contents :
    (q : NoteQueue)
    → IsValid q
    → 0 < q.size
    → pending_notes q ≡ (peek_oldest_note q).note ∷ pending_notes (remove_oldest_note q)
unfolding notes
notes_of_contents q v h = ap notes (peek_lem q v h)

erase_head : (n : ℕ) (ns : List ℕ) → erase n (n ∷ ns) ≡ ns
unfolding erase
erase_head n ns = rw ((==_iff n n).1 refl)

-- The steps of a delayed NoteOff, on the notes that sound.
stop_heard :
    (n : ℕ) (q : NoteQueue)
    → IsValid q
    → let r = remove_note q n in
      hear (pending_notes q) (if r.1 then note_off n ∷ [] else []) ≡ pending_notes r.0
unfolding hear
stop_heard n q v =
    let (l, found, w) = remove_note_lem q n v in
    elim (Bool-cases (remove_note q n).1) [
      | inl e ↦ rw e (sym (notes-erase n (contents q)) ∙ ap notes (sym l))
      | inr e ↦ rw e (ap notes (sym (l ∙ erase_absent n (contents q) (sym found ∙ e))))
    ]

room_heard :
    (n : ℕ) (q : NoteQueue)
    → IsValid q
    → let room : NoteQueue = if is_full q then remove_oldest_note q else q in
      (hear
          (pending_notes q ++ n ∷ [])
          (if is_full q then note_off (peek_oldest_note q).note ∷ [] else [])
        ≡ pending_notes room ++ n ∷ [])
      × (pending_notes room ≡ (
          if leb max_pending_notes (length (pending_notes q))
          then drop 1 (pending_notes q)
          else pending_notes q))
      × IsValid room
      × (room.size < 32)
unfolding hear is_full
room_heard n q v =
    let ns = pending_notes q in
    let len : length ns ≡ q.size = length-notes (contents q) ∙ length-contents v in
    elim (Bool-cases (leb max_pending_notes q.size)) [
      | inl full ↦
          let some_left : 0 < q.size = omega (arith, leb→le _ _ full) in
          let e = peek_oldest_note q in
          let head = notes_of_contents q v some_left in
          rw (len, full)
            (
              rw head (erase_head e.note (pending_notes (remove_oldest_note q) ++ n ∷ [])),
              rw head,
              remove_oldest_note-IsValid q v some_left,
              omega (arith, size-remove_oldest q v some_left, v.small),
            )
      | inr room ↦ rw (len, room) (refl, refl, v, ground arith)
    ]

pub hear-append : (s : List ℕ) (xs ys : List MidiMessage) → hear s (xs ++ ys) ≡ hear (hear s xs) ys
unfolding hear
hear-append s [] ys = refl
hear-append s (note_on n v ∷ xs) ys = hear-append (s ++ n ∷ []) xs ys
hear-append s (note_off n ∷ xs) ys = hear-append (erase n s) xs ys
hear-append s (after_touch n p ∷ xs) ys = hear-append s xs ys
hear-append s (control_change c v ∷ xs) ys = hear-append s xs ys

contents-add_room :
    (q : NoteQueue) (n now : ℕ)
    → IsValid q
    → q.size < 32
    → pending_notes (add_note q n now) ≡ pending_notes q ++ n ∷ []
unfolding notes
contents-add_room q n now v h =
    let e = contents-add_note v n now in
    ap notes (rw (lt→ltb q.size 32 h) at e) ∙ notes-append (contents q) _

-- Starting a note with a gate time from a valid queue: a receiver that heard the pending notes
-- hears afterwards exactly what is pending, namely the notes from before with this one restarted
-- and the oldest stopped if 32 others are pending; the queue stays valid.
pub send_with_delayed_off_lem :
    (q : NoteQueue) (n velocity now : ℕ)
    → IsValid q
    → let r = send_with_delayed_off q n velocity now in
      (hear (pending_notes q) r.1 ≡ pending_notes r.0)
      × (pending_notes r.0 ≡ restart n (pending_notes q))
      × IsValid r.0
unfolding send_with_delayed_off restart hear
send_with_delayed_off_lem q n velocity now v =
    let (l, found, w) = remove_note_lem q n v in
    let q₁ = (remove_note q n).0 in
    let (heard, left, valid, small) = room_heard n q₁ w in
    let room : NoteQueue = if is_full q₁ then remove_oldest_note q₁ else q₁ in
    let added = contents-add_room room n now valid small in
    let stopped : pending_notes q₁ ≡ erase n (pending_notes q) =
      ap notes l ∙ notes-erase n (contents q) in
    let stop : List MidiMessage = if (remove_note q n).1 then note_off n ∷ [] else [] in
    let make_room : List MidiMessage =
      if is_full q₁ then note_off (peek_oldest_note q₁).note ∷ [] else [] in
    let start : List MidiMessage = note_on n velocity ∷ make_room in
    (
      hear-append (pending_notes q) stop start
          ∙ ap (λ s. hear s start) (stop_heard n q v)
          ∙ heard
          ∙ sym added,
      added ∙ ap (λ y. y ++ n ∷ []) (left ∙ rw stopped),
      add_note-IsValid valid n now,
    )

-- The messages that stop some notes.
unfoldable pub offs : List NoteEvent → List MidiMessage
offs [] = []
offs (e ∷ es) = note_off e.note ∷ offs es

-- What the loop over expired notes has done when it stops.
pub record Expires (gate_time now : ℕ) (q : NoteQueue) (r : NoteQueue × List MidiMessage)
    : Type 0 where
  pub stopped : List NoteEvent
  pub from_front : contents q ≡ stopped ++ contents r.0
  pub all_expired : All (λ e. gate_time ≤ sub32 now e.on_time) stopped
  pub messages : r.1 ≡ offs stopped
  pub rest_waits : (contents r.0 ≡ []) ⊎ (sub32 now (peek_oldest_note r.0).on_time < gate_time)
  pub valid : IsValid r.0

contents_nil : (q : NoteQueue) → q.size ≡ 0 → contents q ≡ []
contents_nil q e = ap (λ n. take n q.pending) e

nothing-Expires :
    (gate_time now : ℕ) (q : NoteQueue)
    → IsValid q
    → (contents q ≡ []) ⊎ (sub32 now (peek_oldest_note q).on_time < gate_time)
    → Expires gate_time now q (q, [])
unfolding offs
nothing-Expires g now q v w = record {
  stopped = [];
  from_front = refl;
  all_expired = tt;
  messages = refl;
  rest_waits = w;
  valid = v;
}

send_pending_from-Expires :
    (k gate_time : ℕ) (q : NoteQueue) (now : ℕ)
    → IsValid q
    → q.size ≤ k
    → Expires gate_time now q (send_pending_from k gate_time q now)
unfolding send_pending_from is_empty offs
send_pending_from-Expires zero g q now v h =
    nothing-Expires g now q v (inl (contents_nil q (omega arith)))
send_pending_from-Expires (suc k) g q now v h = elim (Bool-cases (q.size == 0)) [
  | inl e ↦ rw e (nothing-Expires g now q v (inl (contents_nil q ((==_iff _ _).0 e))))
  | inr some_left ↦
      let e = peek_oldest_note q in
      elim (Bool-cases (ltb (sub32 now e.on_time) g)) [
        | inl young ↦ rw (some_left, young) (nothing-Expires g now q v (inr (ltb→lt _ _ young)))
        | inr old ↦
            let pos : 0 < q.size = ground arith in
            let q' = remove_oldest_note q in
            let ih =
              send_pending_from-Expires k g q' now (remove_oldest_note-IsValid q v pos)
                (omega (arith, size-remove_oldest q v pos)) in
            rw (some_left, old)
              (record {
                stopped = e ∷ ih.stopped;
                from_front = peek_lem q v pos ∙ ap (◌∷◌ e) ih.from_front;
                all_expired = (ground arith, ih.all_expired);
                messages = ap (◌∷◌ (note_off e.note)) ih.messages;
                rest_waits = ih.rest_waits;
                valid = ih.valid;
              })
      ]
]

-- From a valid queue, `sendPendingMidiNoteOffMessages` stops the notes at the front whose gate
-- time is over, each with one NoteOff and oldest first, and leaves a valid queue that is empty or
-- whose oldest note must still wait.
pub send_pending-Expires :
    (gate_time : ℕ) (q : NoteQueue) (now : ℕ)
    → IsValid q
    → Expires gate_time now q (send_pending gate_time q now)
unfolding send_pending
send_pending-Expires g q now v = send_pending_from-Expires q.size g q now v (omega arith)

hear-offs : (es : List NoteEvent) (ns : List ℕ) → hear (notes es ++ ns) (offs es) ≡ ns
unfolding hear notes offs
hear-offs [] ns = refl
hear-offs (e ∷ es) ns =
    ap (λ s. hear s (offs es)) (erase_head e.note (notes es ++ ns)) ∙ hear-offs es ns

-- After it, too, what sounds is exactly what is pending.
pub send_pending_heard :
    (gate_time : ℕ) (q : NoteQueue) (now : ℕ)
    → IsValid q
    → let r = send_pending gate_time q now in hear (pending_notes q) r.1 ≡ pending_notes r.0
send_pending_heard g q now v =
    let x = send_pending-Expires g q now v in
    let split = ap notes x.from_front ∙ notes-append x.stopped _ in
    rw (split, x.messages) (hear-offs x.stopped _)

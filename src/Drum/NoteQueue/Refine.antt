-- ===== src/Drum/NoteQueue/Refine.antt =====
-- The queue of note_event_queue.h behaves as a bounded list, oldest note first.
use mathlib.Core.List.{append_assoc}
use eaves_drum.Base.{
  take-append-drop, u8, memmove, ltb→lt, ℕ, zero, suc, ◌+◌, ◌-◌, ◌≤◌, ◌<◌, ◌≡◌, refl, sym, ap, ◌∙◌,
  Bool, false, ◌||◌, List, [], ◌∷◌, ◌++◌, inl, inr, arith, ltb, ◌==◌, if◌then◌else◌, Bool-cases,
  length, get_or, take, drop, write_at, length-set, length-write_at, length-take, take-set,
  take-suc, drop-cons, get_or-take, drop-length,
}
use eaves_drum.Drum.NoteQueue.{
  NoteEvent, NoteQueue, no_event, max_pending_notes, add_note, remove_index, remove_note,
  remove_note_from, contents,
}

-- The array has its 32 slots, and `size` counts slots of it.
pub record IsValid (q : NoteQueue) : Type 0 where
  pub slots : length q.pending ≡ max_pending_notes
  pub small : q.size ≤ max_pending_notes

unfoldable pub has_note : ℕ → List NoteEvent → Bool
has_note n [] = false
has_note n (e ∷ es) = (e.note == n) || has_note n es

-- Without the first entry for a note.
unfoldable pub erase_note : ℕ → List NoteEvent → List NoteEvent
erase_note n [] = []
erase_note n (e ∷ es) = if e.note == n then es else e ∷ erase_note n es

take-write_at :
    {A : Type 0} (n : ℕ) (xs ys : List A)
    → n ≤ length xs
    → n ≤ length ys
    → take n (write_at 0 (take n xs) ys) ≡ take n xs
take-write_at zero xs ys h k = refl
take-write_at (suc n) [] ys h k = absurd (omega arith)
take-write_at (suc n) (x ∷ xs) [] h k = absurd (omega arith)
take-write_at (suc n) (x ∷ xs) (y ∷ ys) h k =
    ap (◌∷◌ x) (take-write_at n xs ys (omega arith) (omega arith))

-- Moving the tail of a prefix down by one slot removes one element of the prefix.
take-memmove :
    {A : Type 0} (i n m : ℕ) (xs : List A)
    → i + m ≡ n
    → suc n ≤ length xs
    → take n (write_at i (take m (drop (suc i) xs)) xs)
      ≡ take i (take (suc n) xs) ++ drop (suc i) (take (suc n) xs)
take-memmove i n m [] e h = absurd (omega arith)
take-memmove zero n m (x ∷ xs) e h =
    let e' : m ≡ n = omega arith in rw e' (take-write_at n xs (x ∷ xs) (omega arith) (omega arith))
take-memmove (suc i) zero m (x ∷ xs) e h = absurd (omega arith)
take-memmove (suc i) (suc n) m (x ∷ xs) e h =
    ap (◌∷◌ x) (take-memmove i n m xs (omega arith) (omega arith))

-- The prefix that the code's `uint8_t` counts select after a removal.
take-remove :
    (s i : ℕ) (xs : List NoteEvent)
    → i < s
    → s ≤ length xs
    → s ≤ 32
    → take (u8 (s + 255)) (memmove i (i + 1) (u8 (s + 511 - i)) xs)
      ≡ take i (take s xs) ++ drop (suc i) (take s xs)
take-remove zero i xs h l b = absurd (omega arith)
take-remove (suc n) i xs h l b =
    let e₁ : u8 (suc n + 255) ≡ n = omega arith in
    let e₂ : u8 (suc n + 511 - i) ≡ n - i = omega arith in
    let e₃ : i + 1 ≡ suc i = omega arith in
    rw (e₁, e₂, e₃) (take-memmove i n (n - i) xs (omega arith) l)

module _ {q : NoteQueue} (v : IsValid q) where
  pub length-contents : length (contents q) ≡ q.size
  length-contents = omega (arith, length-take q.size q.pending, v.slots, v.small)

  -- In a valid queue, `addNote` appends the event while there are fewer than 32, and else leaves
  -- the contents.
  pub contents-add_note :
      (note time : ℕ)
      → contents (add_note q note time) ≡ (
          if ltb q.size max_pending_notes
          then contents q ++ record { note = note; on_time = time } ∷ []
          else contents q)
  unfolding add_note
  contents-add_note note time = elim (Bool-cases (ltb q.size max_pending_notes)) [
    | inl room ↦
        let h : q.size < 32 = ltb→lt _ _ room in
        let e : u8 (q.size + 1) ≡ suc q.size = omega arith in
        rw (room, e) (take-set q.size q.pending _ (omega (arith, v.slots)))
    | inr full ↦ rw full
  ]

  pub add_note-IsValid : (note time : ℕ) → IsValid (add_note q note time)
  unfolding add_note
  add_note-IsValid note time =
      ground (arith, length-set q.pending q.size (record { note = note; on_time = time }))

  module _ (i : ℕ) (h : i < q.size) where
    -- In a valid queue, `removeIndex` at an index below the size deletes exactly the entry there.
    pub contents-remove_index :
        contents (remove_index q i) ≡ take i (contents q) ++ drop (suc i) (contents q)
    unfolding remove_index
    contents-remove_index =
        take-remove q.size i q.pending h (omega (arith, v.slots, v.small)) v.small

    pub remove_index-IsValid : IsValid (remove_index q i)
    unfolding remove_index
    remove_index-IsValid = record {
      slots = length-write_at i _ q.pending ∙ v.slots;
      small = omega (arith, v.small);
    }

-- The loop of `removeNote`, started at an index up to which no entry has the note.
record Removes (q : NoteQueue) (note i : ℕ) (r : NoteQueue × Bool) : Type 0 where
  found : r.1 ≡ has_note note (drop i (contents q))
  left : contents r.0 ≡ take i (contents q) ++ erase_note note (drop i (contents q))
  valid : IsValid r.0

remove_note_from-Removes :
    (k i : ℕ) (q : NoteQueue) (note : ℕ)
    → IsValid q
    → i + k ≡ q.size
    → Removes q note i (remove_note_from k i q note)
unfolding remove_note_from has_note erase_note
remove_note_from-Removes zero i q note v e =
    let cs = contents q in
    let n : drop i cs ≡ [] = drop-length i cs (omega (arith, length-contents v)) in
    record { found = rw n; left = rw n (rw n at (sym (take-append-drop i cs))); valid = v }
remove_note_from-Removes (suc k) i q note v e =
    let cs = contents q in
    let x = get_or q.pending i no_event in
    let below : i < length cs = omega (arith, length-contents v) in
    let g : get_or cs i no_event ≡ x = get_or-take i q.size q.pending no_event (omega arith) in
    let d : drop i cs ≡ x ∷ drop (suc i) cs =
      drop-cons i cs no_event below ∙ ap (λ y. y ∷ drop (suc i) cs) g in
    let t : take (suc i) cs ≡ take i cs ++ x ∷ [] =
      take-suc i cs no_event below ∙ ap (λ y. take i cs ++ y ∷ []) g in
    let next : i + 1 ≡ suc i = omega arith in
    let ih = rw next at (remove_note_from-Removes k (i + 1) q note v (omega arith)) in
    elim (Bool-cases (x.note == note)) [
      | inl hit ↦ record {
        found = rw (d, hit);
        left = rw (d, hit) (contents-remove_index v i (omega arith));
        valid = rw hit (remove_index-IsValid v i (omega arith));
      }
      | inr miss ↦ record {
        found = rw (d, miss, next) ih.found;
        left = rw (d, miss, next) (ih.left ∙ rw t (append_assoc (take i cs) (x ∷ []) _));
        valid = rw (miss, next) ih.valid;
      }
    ]

-- In a valid queue, `removeNote` deletes the first entry for the note, reports whether there was
-- one, and keeps the queue valid.
pub remove_note_lem :
    (q : NoteQueue) (note : ℕ)
    → IsValid q
    → (contents (remove_note q note).0 ≡ erase_note note (contents q))
      × ((remove_note q note).1 ≡ has_note note (contents q))
      × IsValid (remove_note q note).0
unfolding remove_note
remove_note_lem q note v =
    let r = remove_note_from-Removes q.size 0 q note v (omega arith) in (r.left, r.found, r.valid)

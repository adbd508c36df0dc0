-- ===== src/Monitor/History/Order.antt =====
-- The ring buffer as the list of its entries, oldest first.
use mathlib.Core.List.{append_assoc, append-nil}
use eaves_drum.Base.{
  ℕ, zero, suc, ◌+◌, ◌-◌, ◌%◌, ◌≤◌, ◌<◌, ◌≡◌, refl, ap, ◌∙◌, sym, Bool, inl, inr, arith, List, [],
  ◌∷◌, ◌++◌, length, take, drop, set, take-set, length-set, length-drop, drop-length, if◌then◌else◌,
  Bool-cases, ltb,
}
use eaves_drum.Drum.Settings.{Zones}
use eaves_drum.Monitor.History.{
  HistoryEntry, MonitorHistory, ordered, write_entry, add_entry_raw, is_full, copy_to, clear_first,
}

-- The buffer has its 200 slots, and the next position is one of them.
pub record IsValid (h : MonitorHistory) : Type 0 where
  pub slots : length h.ring_buffer ≡ 200
  pub next_small : h.next_write_pos < 200

module _ {A : Type 0} where
  drop-set : (n : ℕ) (xs : List A) (v : A) → drop (suc n) (set xs n v) ≡ drop (suc n) xs
  drop-set n [] v = refl
  drop-set zero (x ∷ xs) v = refl
  drop-set (suc n) (x ∷ xs) v = drop-set n xs v

  take_whole : (n : ℕ) (xs : List A) → length xs ≤ n → take n xs ≡ xs
  take_whole zero [] h = refl
  take_whole (suc n) [] h = refl
  take_whole zero (x ∷ xs) h = absurd (omega arith)
  take_whole (suc n) (x ∷ xs) h = ap (◌∷◌ x) (take_whole n xs (omega arith))

  drop-drop_append :
      (n : ℕ) (xs ys : List A) → n < length xs → drop 1 (drop n xs ++ ys) ≡ drop (suc n) xs ++ ys
  drop-drop_append n [] ys h = absurd (omega arith)
  drop-drop_append zero (x ∷ xs) ys h = refl
  drop-drop_append (suc n) (x ∷ xs) ys h = drop-drop_append n xs ys (omega arith)

  rotate_inside :
      (n : ℕ) (xs : List A) (v : A)
      → n < length xs
      → drop (suc n) (set xs n v) ++ take (suc n) (set xs n v)
        ≡ drop 1 (drop n xs ++ take n xs) ++ v ∷ []
  rotate_inside n xs v h =
      rw (drop-set n xs v, take-set n xs v h, drop-drop_append n xs (take n xs) h)
        (sym (append_assoc (drop (suc n) xs) (take n xs) (v ∷ [])))

  rotate_wrapped :
      (n : ℕ) (xs : List A) (v : A)
      → suc n ≡ length xs
      → set xs n v ++ [] ≡ drop 1 (drop n xs ++ take n xs) ++ v ∷ []
  rotate_wrapped n xs v h =
      append-nil (set xs n v)
      ∙ sym (take_whole (suc n) (set xs n v) (omega (arith, length-set xs n v)))
      ∙ take-set n xs v (omega arith)
      ∙ rw (drop-drop_append n xs (take n xs) (omega arith), drop-length (suc n) xs (omega arith))
          refl

-- Writing an entry drops the oldest one and appends the new one.
pub write-ordered :
    (h : MonitorHistory) (time : ℕ) (gap : Bool) (values : Zones ℕ)
    → IsValid h
    → ordered (write_entry h time gap values)
      ≡ drop 1 (ordered h)
        ++ record { time_until_previous_us = time; is_gap = gap; values = values } ∷ []
unfolding write_entry
write-ordered h time gap values v =
    let e : HistoryEntry = record {
      time_until_previous_us = time;
      is_gap = gap;
      values = values;
    } in
    let n = h.next_write_pos in
    elim (Bool-cases (ltb (n + 1) 200)) [
      | inl inside ↦
          let next : (n + 1) % 200 ≡ suc n = ground arith in
          rw next (rotate_inside n h.ring_buffer e (omega (arith, v.slots, v.next_small)))
      | inr wrapped ↦
          let small = v.next_small in
          let last : suc n ≡ 200 = ground arith in
          let next : (n + 1) % 200 ≡ 0 = omega arith in
          rw next (rotate_wrapped n h.ring_buffer e (last ∙ sym v.slots))
    ]

write-IsValid :
    (h : MonitorHistory) (time : ℕ) (gap : Bool) (values : Zones ℕ)
    → IsValid h
    → IsValid (write_entry h time gap values)
unfolding write_entry
write-IsValid h time gap values v = record {
  slots = length-set h.ring_buffer h.next_write_pos _ ∙ v.slots;
  next_small = omega arith;
}

-- Adding an entry to a valid history keeps it valid; in the order of time, a full history keeps
-- its entries, and any other drops the oldest one and appends the new one.
pub add_entry_raw-ordered :
    (h : MonitorHistory) (time : ℕ) (gap : Bool) (values : Zones ℕ)
    → IsValid h
    → let r = add_entry_raw h time gap values in
      IsValid r.0
      × (ordered r.0 ≡ (
          if is_full h
          then ordered h
          else drop 1 (ordered h)
            ++ record { time_until_previous_us = time; is_gap = gap; values = values } ∷ []))
unfolding add_entry_raw
add_entry_raw-ordered h time gap values v = elim (Bool-cases (is_full h)) [
  | inl f ↦ rw f (v, refl)
  | inr f ↦ rw f (write-IsValid h time gap values v, write-ordered h time gap values v)
]

-- The two blocks that are copied are the entries in the order of time.
pub copy_to-ordered : (h : MonitorHistory) → IsValid h → copy_to h ≡ clear_first (ordered h)
unfolding copy_to
copy_to-ordered h v =
    let n = h.next_write_pos in
    let whole =
      take_whole (200 - n) (drop n h.ring_buffer)
        (omega (arith, length-drop n h.ring_buffer, v.slots)) in
    elim (Bool-cases (ltb 0 n)) [
      | inl some_at_start ↦ rw (some_at_start, whole)
      | inr none_at_start ↦
          let z : n ≡ 0 = ground arith in
          rw (none_at_start, whole) (ap clear_first (rw z (sym (append-nil h.ring_buffer))))
    ]

-- ===== src/Monitor/History/Trigger.antt =====
-- A trigger protects its first entry until the history is full.
use eaves_drum.Base.{
  ℕ, zero, suc, ◌+◌, ◌-◌, ◌%◌, ◌<◌, ◌≡◌, ◌≢◌, refl, ap, ◌∙◌, true, false, inl, inr, arith, some,
  List, [], ◌∷◌, ◌++◌, length, take, drop, set, get_or, get_or-take, length-drop, min, dec_lt,
  Bool-cases, ◌==◌, if◌then◌else◌,
}
use eaves_drum.Monitor.History.{
  HistoryEntry, MonitorHistory, ordered, write_entry, add_entry_raw, is_full, get_relative_pos,
  no_entry, set_trigger_start_pos, get_last_entry,
}
use eaves_drum.Monitor.History.Order.{IsValid, add_entry_raw-ordered}

-- Entries added one after the other, and how many of them were written.
pub add_all : MonitorHistory → List HistoryEntry → MonitorHistory × ℕ
add_all h [] = (h, 0)
add_all h (e ∷ es) =
    let r = add_entry_raw h e.time_until_previous_us e.is_gap e.values in
    let rest = add_all r.0 es in (rest.0, if r.1 then rest.1 + 1 else rest.1)

-- How many entries can be written before the trigger's first one would be lost.
pub remaining : ℕ → ℕ → ℕ
remaining t next = (t + 200 - next) % 200

get_or-set_other :
    {A : Type 0} (xs : List A) (i j : ℕ) (v d : A) → i ≢ j → get_or (set xs j v) i d ≡ get_or xs i d
get_or-set_other [] i j v d h = refl
get_or-set_other (x ∷ xs) zero zero v d h = absurd (h refl)
get_or-set_other (x ∷ xs) zero (suc j) v d h = refl
get_or-set_other (x ∷ xs) (suc i) zero v d h = refl
get_or-set_other (x ∷ xs) (suc i) (suc j) v d h = get_or-set_other xs i j v d (λ e. h (ap suc e))

-- What adding entries leaves while a trigger is set at `t`.
record Protects (t k : ℕ) (h : MonitorHistory) (r : MonitorHistory × ℕ) : Type 0 where
  start : r.0.trigger_start_pos ≡ some t
  kept : get_or r.0.ring_buffer t no_entry ≡ get_or h.ring_buffer t no_entry
  written : r.1 ≡ min k (remaining t h.next_write_pos)
  valid : IsValid r.0

remaining_full : (t n : ℕ) → n < 200 → (t == n) ≡ true → remaining t n ≡ 0
unfolding remaining
remaining_full t n h e = ground arith

remaining_next :
    (t n : ℕ)
    → t < 200
    → n < 200
    → (t == n) ≡ false
    → remaining t n ≡ remaining t ((n + 1) % 200) + 1
unfolding remaining
remaining_next t n h k e =
    let ne : t ≢ n = ground arith in
    elim (dec_lt t n) [ yes below ↦ omega arith | no above ↦ omega arith ]

remaining_start : (t n : ℕ) → t < 200 → n ≡ (t + 1) % 200 → remaining t n ≡ 199
unfolding remaining
remaining_start t n h e = elim (dec_lt (t + 1) 200) [
  | yes below ↦ omega arith
  | no above ↦ omega arith
]

add_full :
    (h : MonitorHistory) (e : HistoryEntry) (t : ℕ)
    → h.trigger_start_pos ≡ some t
    → (t == h.next_write_pos) ≡ true
    → add_entry_raw h e.time_until_previous_us e.is_gap e.values ≡ (h, false)
unfolding add_entry_raw is_full
add_full h e t s f = rw (s, is_full, f)

add_free :
    (h : MonitorHistory) (e : HistoryEntry) (t : ℕ)
    → h.trigger_start_pos ≡ some t
    → (t == h.next_write_pos) ≡ false
    → add_entry_raw h e.time_until_previous_us e.is_gap e.values
      ≡ (write_entry h e.time_until_previous_us e.is_gap e.values, true)
unfolding add_entry_raw is_full
add_free h e t s f = rw (s, is_full, f)

write-keeps :
    (h : MonitorHistory) (e : HistoryEntry) (t : ℕ)
    → (t == h.next_write_pos) ≡ false
    → let w = write_entry h e.time_until_previous_us e.is_gap e.values in
      (w.trigger_start_pos ≡ h.trigger_start_pos)
      × (get_or w.ring_buffer t no_entry ≡ get_or h.ring_buffer t no_entry)
      × (w.next_write_pos ≡ (h.next_write_pos + 1) % 200)
unfolding write_entry
write-keeps h e t f =
    let ne : t ≢ h.next_write_pos = ground arith in
    (refl, get_or-set_other h.ring_buffer t h.next_write_pos _ no_entry ne, refl)

add_all-Protects :
    (es : List HistoryEntry) (h : MonitorHistory) (t : ℕ)
    → IsValid h
    → t < 200
    → h.trigger_start_pos ≡ some t
    → Protects t (length es) h (add_all h es)
unfolding add_all
add_all-Protects [] h t v small s = record {
  start = s;
  kept = refl;
  written = ground arith;
  valid = v;
}
add_all-Protects (e ∷ es) h t v small s = elim (Bool-cases (t == h.next_write_pos)) [
  | inl full ↦
      let ih = add_all-Protects es h t v small s in
      let zero_left = remaining_full t h.next_write_pos v.next_small full in
      let step = add_full h e t s full in
      rw step (record {
        start = ih.start;
        kept = ih.kept;
        written = omega (arith, ih.written, zero_left);
        valid = ih.valid;
      })
  | inr free ↦
      let w = write_entry h e.time_until_previous_us e.is_gap e.values in
      let step = add_free h e t s free in
      let k = write-keeps h e t free in
      let valid : IsValid w =
        rw step at ((add_entry_raw-ordered h e.time_until_previous_us e.is_gap e.values v).0) in
      let ih = add_all-Protects es w t valid small (k.0 ∙ s) in
      let one_less = remaining_next t h.next_write_pos small v.next_small free in
      let counted : (add_all w es).1
          ≡ min (length es) (remaining t ((h.next_write_pos + 1) % 200)) =
        ih.written ∙ ap (λ n. min (length es) (remaining t n)) k.2 in
      rw step (record {
        start = ih.start;
        kept = ih.kept ∙ k.1;
        written = omega (arith, counted, one_less);
        valid = ih.valid;
      })
]

-- From a valid history whose last entry precedes the next position: once a trigger is set at the
-- last entry, of any entries added exactly the first 199 are written (all of them if they are
-- fewer), the entry of the trigger's start is kept, and the history stays valid.
pub add_all_after_trigger :
    (es : List HistoryEntry) (h : MonitorHistory) (t : ℕ)
    → IsValid h
    → h.last_write_pos ≡ some t
    → t < 200
    → h.next_write_pos ≡ (t + 1) % 200
    → let r = add_all (set_trigger_start_pos h) es in
      (get_or r.0.ring_buffer t no_entry ≡ get_last_entry h)
      × (r.1 ≡ min (length es) 199)
      × IsValid r.0
unfolding set_trigger_start_pos get_last_entry
add_all_after_trigger es h t v last small next =
    let started : MonitorHistory = record h {
      trigger_start_pos = some t;
      trigger_end_pos = some t;
    } in
    let v' : IsValid started = record { slots = v.slots; next_small = v.next_small } in
    let p = add_all-Protects es started t v' small refl in
    let left : remaining t h.next_write_pos ≡ 199 = remaining_start t h.next_write_pos small next in
    let e : set_trigger_start_pos h ≡ started = ground arith in
    let g : get_last_entry h ≡ get_or h.ring_buffer t no_entry = ground arith in
    rw (e, g) (p.kept, omega (arith, p.written, left), p.valid)

module _ {A : Type 0} where
  get_or-append_left :
      (xs ys : List A) (i : ℕ) (d : A) → i < length xs → get_or (xs ++ ys) i d ≡ get_or xs i d
  get_or-append_left [] ys i d h = absurd (omega arith)
  get_or-append_left (x ∷ xs) ys zero d h = refl
  get_or-append_left (x ∷ xs) ys (suc i) d h = get_or-append_left xs ys i d (omega arith)

  get_or-append_right :
      (xs ys : List A) (i j : ℕ) (d : A) → j ≡ length xs + i → get_or (xs ++ ys) j d ≡ get_or ys i d
  get_or-append_right [] ys i j d e = let e' : j ≡ i = omega arith in ap (λ k. get_or ys k d) e'
  get_or-append_right (x ∷ xs) ys i zero d e = absurd (omega arith)
  get_or-append_right (x ∷ xs) ys i (suc j) d e = get_or-append_right xs ys i j d (omega arith)

  get_or-drop :
      (n i j : ℕ) (xs : List A) (d : A) → j ≡ n + i → get_or (drop n xs) i d ≡ get_or xs j d
  get_or-drop zero i j xs d e = let e' : i ≡ j = omega arith in ap (λ k. get_or xs k d) e'
  get_or-drop (suc n) i j [] d e = refl
  get_or-drop (suc n) i zero (x ∷ xs) d e = absurd (omega arith)
  get_or-drop (suc n) i (suc j) (x ∷ xs) d e = get_or-drop n i j xs d (omega arith)

-- In a valid history, a position below 200, made relative, indexes the same entry in the order of
-- time.
pub relative_start_pos :
    (h : MonitorHistory) (t : ℕ)
    → IsValid h
    → t < 200
    → get_or (ordered h) (get_relative_pos h (some t)) no_entry ≡ get_or h.ring_buffer t no_entry
unfolding get_relative_pos
relative_start_pos h t v small =
    let n = h.next_write_pos in
    let ring = h.ring_buffer in
    let size : length (drop n ring) ≡ 200 - n = omega (arith, length-drop n ring, v.slots) in
    let bound = v.next_small in
    elim (dec_lt t n) [
      | yes early ↦
          let i : (t + (200 - n)) % 200 ≡ length (drop n ring) + t = omega (arith, size) in
          rw i (
            get_or-append_right (drop n ring) (take n ring) t _ no_entry refl
            ∙ get_or-take t n ring no_entry early)
      | no late ↦
          let i : (t + (200 - n)) % 200 ≡ t - n = omega arith in
          rw i (
            get_or-append_left (drop n ring) (take n ring) (t - n) no_entry (omega (arith, size))
            ∙ get_or-drop n (t - n) t ring no_entry (omega arith))
    ]

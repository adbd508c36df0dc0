-- ===== src/Midi/Rockband/Room.antt =====
-- The hits that are held together can be told apart in a report.
use eaves_drum.Base.{
  ℕ, zero, suc, ◌+◌, ◌≤◌, ◌<◌, ◌≡◌, ◌⊎◌, inl, inr, refl, Bool, true, false, ◌&&◌, ◌||◌, some, ltb,
  arith, Bool-cases, Option-cases, dec_lt,
}
use eaves_drum.Midi.Rockband.{
  HitInfo, HitTable, no_hit, is_held, put_hit, is_pad, is_cymbal, count, conflicts, has_conflict,
  oldest, remove_oldest_hit, make_room, hit_pad, send_note_on, note_to_pad_id,
}
use eaves_drum.Midi.Rockband.Counts.{bit, Compatible, count_put, bit_count}
use eaves_drum.Midi.Rockband.Oldest.{BeforeWrap, oldest_held}

any : ℕ → Bool
any i = true

conflict_held :
    (t : HitTable) (p : ℕ) → has_conflict t p ≡ true → (j : ℕ) × (j < 9) × (is_held t j ≡ true)
unfolding has_conflict conflicts
conflict_held t p c = elim (dec_lt 0 (count is_pad (is_held t) 9 0)) [
  | yes some_pad ↦ let (j, lo, hi, k) = bit_count is_pad (is_held t) 9 0 some_pad in (j, hi, k)
  | no no_pad ↦
      let (j, lo, hi, k) = bit_count is_cymbal (is_held t) 9 0 (ground arith) in (j, hi, k)
]

remove-BeforeWrap : (t : HitTable) → BeforeWrap t → BeforeWrap (remove_oldest_hit t)
unfolding remove_oldest_hit
remove-BeforeWrap t small j lt = let k = small j lt in ground arith

remove_decreases :
    (t : HitTable) (p : ℕ)
    → BeforeWrap t
    → has_conflict t p ≡ true
    → count any (is_held t) 9 0 ≡ count any (is_held (remove_oldest_hit t)) 9 0 + 1
unfolding any remove_oldest_hit
remove_decreases t p small c =
    let (j, lt, held) = conflict_held t p c in
    let o = oldest_held t j small lt held in
    let n = count_put any t (oldest t).0 no_hit 9 0 (omega arith) o.0 in ground (arith, n, o.1)

room_with :
    (k : ℕ) (t : HitTable) (p : ℕ)
    → BeforeWrap t
    → count any (is_held t) 9 0 ≤ k
    → has_conflict (make_room k t p) p ≡ false
unfolding make_room
room_with zero t p small enough = elim (Bool-cases (has_conflict t p)) [
  | inl c ↦ let d = remove_decreases t p small c in absurd (omega arith)
  | inr c ↦ c
]
room_with (suc k) t p small enough = elim (Bool-cases (has_conflict t p)) [
  | inl c ↦
      let d = remove_decreases t p small c in
      let ih = room_with k (remove_oldest_hit t) p (remove-BeforeWrap t small) (omega arith) in
      rw c ih
  | inr c ↦ rw c c
]

count_le : (kind held : ℕ → Bool) (n i : ℕ) → count kind held n i ≤ n
unfolding count
count_le kind held zero i = omega arith
count_le kind held (suc n) i = let ih = count_le kind held n (i + 1) in ground arith

-- If no hit was recorded at the clock's last millisecond, nine rounds of removing the oldest hit
-- leave no conflict with the new pad, so that the loop ends.
pub make_room_ends :
    (t : HitTable) (p : ℕ) → BeforeWrap t → has_conflict (make_room 9 t p) p ≡ false
make_room_ends t p small = room_with 9 t p small (count_le any (is_held t) 9 0)

make_room_unheld :
    (k : ℕ) (t : HitTable) (p j : ℕ) → is_held t j ≡ false → is_held (make_room k t p) j ≡ false
unfolding make_room remove_oldest_hit
make_room_unheld zero t p j h = h
make_room_unheld (suc k) t p j h =
    let ih = make_room_unheld k (remove_oldest_hit t) p j (ground arith) in ground (arith, ih)

make_room_free : (k : ℕ) (t : HitTable) (p : ℕ) → has_conflict t p ≡ false → make_room k t p ≡ t
unfolding make_room
make_room_free zero t p c = refl
make_room_free (suc k) t p c = rw c

abbrev Fits : ℕ → ℕ → Type 0
Fits pads cymbals = (pads ≡ 0) ⊎ (cymbals ≡ 0) ⊎ ((pads ≤ 1) × (cymbals ≤ 1))

conflicts-Fits :
    (on is_p is_c : Bool) (pads cymbals pads' cymbals' : ℕ)
    → conflicts is_p is_c pads cymbals ≡ false
    → pads' ≡ pads + bit (is_p && on)
    → cymbals' ≡ cymbals + bit (is_c && on)
    → (is_p && is_c) ≡ false
    → ((is_p || is_c) ≡ true) ⊎ Fits pads cymbals
    → Fits pads' cymbals'
unfolding conflicts
conflicts-Fits on false false pads cymbals pads' cymbals' c p q d k = ground (arith, k)
conflicts-Fits true true false pads cymbals pads' cymbals' c p q d k = ground arith
conflicts-Fits false true false pads cymbals pads' cymbals' c p q d k = ground arith
conflicts-Fits true false true pads cymbals pads' cymbals' c p q d k = ground arith
conflicts-Fits false false true pads cymbals pads' cymbals' c p q d k = ground arith
conflicts-Fits on true true pads cymbals pads' cymbals' c p q d k = absurd (cc)

pad_or_cymbal : (p : ℕ) → (is_pad p && is_cymbal p) ≡ false
unfolding is_pad is_cymbal
pad_or_cymbal p = ground arith

-- A new hit beside hits with which it has no conflict.
put-Compatible :
    (t : HitTable) (p : ℕ) (h : HitInfo)
    → p < 9
    → is_held t p ≡ false
    → has_conflict t p ≡ false
    → ((is_pad p || is_cymbal p) ≡ true) ⊎ Compatible (is_held t)
    → Compatible (is_held (put_hit t p h))
unfolding has_conflict
put-Compatible t p h lt free c k =
    let pads = count_put is_pad t p h 9 0 (omega arith) (omega arith) in
    let cymbals = count_put is_cymbal t p h 9 0 (omega arith) (omega arith) in
    conflicts-Fits (ltb 0 h.time_ms) (is_pad p) (is_cymbal p) (count is_pad (is_held t) 9 0)
      (count is_cymbal (is_held t) 9 0) _ _ c (ground (arith, pads)) (ground (arith, cymbals))
      (pad_or_cymbal p) k

pedal_free : (t : HitTable) (p : ℕ) → (is_pad p || is_cymbal p) ≡ false → has_conflict t p ≡ false
unfolding has_conflict conflicts
pedal_free t p e = ground arith

-- B.
pub hit_pad-Compatible :
    (t : HitTable) (pad velocity now : ℕ)
    → pad < 9
    → BeforeWrap t
    → Compatible (is_held t)
    → Compatible (is_held (hit_pad t pad velocity now))
unfolding hit_pad
hit_pad-Compatible t pad velocity now lt small c = elim (Bool-cases (is_held t pad)) [
  | inl held ↦ rw held c
  | inr free ↦
      let room = make_room 9 t pad in
      let h : HitInfo = record { time_ms = now; velocity = velocity } in
      let unheld = make_room_unheld 9 t pad pad free in
      let ends = make_room_ends t pad small in
      elim (Bool-cases (is_pad pad || is_cymbal pad)) [
        | inl k ↦ rw free (put-Compatible room pad h lt unheld ends (inl k))
        | inr k ↦
            let same = make_room_free 9 t pad (pedal_free t pad k) in
            rw (free, same) (put-Compatible t pad h lt free (pedal_free t pad k) (inr c))
      ]
]

known_pad : (note p : ℕ) → note_to_pad_id note ≡ some p → p < 9
unfolding note_to_pad_id
known_pad note p e = ground arith

-- If no hit was recorded at the clock's last millisecond, a NoteOn keeps the held hits
-- `Compatible`: pads only, cymbals only, or at most one of each.
pub send_note_on-Compatible :
    (t : HitTable) (note velocity now : ℕ)
    → BeforeWrap t
    → Compatible (is_held t)
    → Compatible (is_held (send_note_on t note velocity now))
unfolding send_note_on
send_note_on-Compatible t note velocity now small c = elim (Option-cases (note_to_pad_id note)) [
  | inl e ↦ rw (e, send_note_on) c
  | inr (p, e) ↦
      rw (e, send_note_on) (hit_pad-Compatible t p velocity now (known_pad note p e) small c)
]

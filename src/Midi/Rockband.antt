-- ===== src/Midi/Rockband.antt =====
-- src/midi/midi_transport_rockband.cpp: hits are held for 20 ms and reported as a game controller's
-- buttons. `hitInfos` is a function of the pad's index.
pub mod Counts
pub mod Oldest
pub mod Room
pub mod Report
pub mod Decode
pub mod Keys
pub mod Told
mod Tests
use eaves_drum.Base.{
  ℕ, zero, suc, ◌+◌, ◌<◌, Bool, true, false, not, ◌&&◌, ◌||◌, Option, none, some, List, [], ◌∷◌,
  ltb, leb, ◌==◌, if◌then◌else◌, for_range, sub32,
}

pub record HitInfo : Type 0 where
  pub time_ms : ℕ
  pub velocity : ℕ

abbrev pub HitTable : Type 0
HitTable = ℕ → HitInfo

abbrev pub no_hit : HitInfo
no_hit = record { time_ms = 0; velocity = 0 }

abbrev pub num_pads : ℕ
num_pads = 9

abbrev pub hit_hold_time_ms : ℕ
hit_hold_time_ms = 20

abbrev pub uint32_max : ℕ
uint32_max = 4294967295

-- RBDrumPadId
abbrev pub red_pad : ℕ
red_pad = 0

abbrev pub yellow_pad : ℕ
yellow_pad = 1

abbrev pub blue_pad : ℕ
blue_pad = 2

abbrev pub green_pad : ℕ
green_pad = 3

abbrev pub yellow_cymbal : ℕ
yellow_cymbal = 4

abbrev pub blue_cymbal : ℕ
blue_cymbal = 5

abbrev pub green_cymbal : ℕ
green_cymbal = 6

abbrev pub kick : ℕ
kick = 7

abbrev pub hihat_pedal : ℕ
hihat_pedal = 8

abbrev pub is_one_of : ℕ → List ℕ → Bool
is_one_of n [] = false
is_one_of n (m ∷ ms) = (n == m) || is_one_of n ms

-- The `switch` of `noteToPadId`; -1 is `none`.
unfoldable pub note_to_pad_id : ℕ → Option ℕ
note_to_pad_id note =
    if is_one_of note (38 ∷ 31 ∷ 34 ∷ 37 ∷ 39 ∷ 40 ∷ [])
    then some red_pad
    else if is_one_of note (48 ∷ 50 ∷ [])
    then some yellow_pad
    else if is_one_of note (45 ∷ 47 ∷ [])
    then some blue_pad
    else if is_one_of note (41 ∷ 43 ∷ [])
    then some green_pad
    else if is_one_of note (22 ∷ 26 ∷ 42 ∷ 46 ∷ 54 ∷ [])
    then some yellow_cymbal
    else if is_one_of note (51 ∷ 53 ∷ 56 ∷ 59 ∷ [])
    then some blue_cymbal
    else if is_one_of note (49 ∷ 52 ∷ 55 ∷ 57 ∷ [])
    then some green_cymbal
    else if is_one_of note (33 ∷ 35 ∷ 36 ∷ [])
    then some kick
    else if note == 44
    then some hihat_pedal
    else none

unfoldable pub is_pad : ℕ → Bool
is_pad i = is_one_of i (red_pad ∷ yellow_pad ∷ blue_pad ∷ green_pad ∷ [])

unfoldable pub is_cymbal : ℕ → Bool
is_cymbal i = is_one_of i (yellow_cymbal ∷ blue_cymbal ∷ green_cymbal ∷ [])

abbrev pub is_held : HitTable → ℕ → Bool
is_held t i = ltb 0 (t i).time_ms

abbrev pub put_hit : HitTable → ℕ → HitInfo → HitTable
put_hit t i h j = if j == i then h else t j

-- How many of some indices, as many as are left from `i` on, are held and of a kind. `hasConflict`
-- counts pads and cymbals in one loop; no index is both.
unfoldable pub count : (ℕ → Bool) → (ℕ → Bool) → ℕ → ℕ → ℕ
count kind held zero i = 0
count kind held (suc n) i =
    let rest = count kind held n (i + 1) in if kind i && held i then rest + 1 else rest

-- The tests of `hasConflict` on the numbers of pads and cymbals.
unfoldable pub conflicts : Bool → Bool → ℕ → ℕ → Bool
conflicts new_is_pad new_is_cymbal num_held_pads num_held_cymbals =
    if not new_is_pad && not new_is_cymbal
    then false
    else if new_is_pad && (num_held_cymbals == 0)
    then false
    else if new_is_cymbal && (num_held_pads == 0)
    then false
    else if new_is_pad && ((num_held_pads == 0) && (num_held_cymbals == 1))
    then false
    else if new_is_cymbal && ((num_held_cymbals == 0) && (num_held_pads == 1))
    then false
    else true

unfoldable pub has_conflict : HitTable → ℕ → Bool
has_conflict t new_pad =
    conflicts (is_pad new_pad) (is_cymbal new_pad) (count is_pad (is_held t) num_pads 0)
      (count is_cymbal (is_held t) num_pads 0)

-- One round of `removeOldestHit`: the oldest pad and its time so far.
unfoldable pub older : HitTable → ℕ → ℕ × ℕ → ℕ × ℕ
older t i best = if is_held t i && ltb (t i).time_ms best.1 then (i, (t i).time_ms) else best

unfoldable pub oldest : HitTable → ℕ × ℕ
oldest t = for_range num_pads 0 (older t) (0, uint32_max)

unfoldable pub remove_oldest_hit : HitTable → HitTable
remove_oldest_hit t = put_hit t (oldest t).0 no_hit

-- The loop `while (hasConflict(padId))`, by the rounds left.
unfoldable pub make_room : ℕ → HitTable → ℕ → HitTable
make_room zero t new_pad = t
make_room (suc k) t new_pad =
    let rest = make_room k (remove_oldest_hit t) new_pad in
    if has_conflict t new_pad then rest else t

-- A pad that is held ignores further hits. Nine rounds are enough: see Room.
unfoldable pub hit_pad : HitTable → ℕ → ℕ → ℕ → HitTable
hit_pad t pad velocity now =
    if is_held t pad
    then t
    else put_hit (make_room num_pads t pad) pad (record { time_ms = now; velocity = velocity })

unfoldable pub send_note_on : HitTable → ℕ → ℕ → ℕ → HitTable
unfolding note_to_pad_id hit_pad
send_note_on t note velocity now = elim (note_to_pad_id note) [
  | none ↦ t
  | some pad ↦ hit_pad t pad velocity now
]

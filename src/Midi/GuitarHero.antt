-- ===== src/Midi/GuitarHero.antt =====
-- src/midi/guitar_hero_util.h: the six pads of Guitar Hero, and the notes for them.
pub mod Pads
pub mod Spi
pub mod Wii
mod Tests
use eaves_drum.Base.{
  ℕ, zero, suc, Bool, true, false, ◌||◌, Option, none, some, List, [], ◌∷◌, ◌==◌, if◌then◌else◌,
}

abbrev pub num_gh_pads : ℕ
num_gh_pads = 6

-- GHDrumPadId
abbrev pub gh_red : ℕ
gh_red = 0

abbrev pub gh_blue : ℕ
gh_blue = 1

abbrev pub gh_green : ℕ
gh_green = 2

abbrev pub gh_yellow : ℕ
gh_yellow = 3

abbrev pub gh_orange : ℕ
gh_orange = 4

abbrev pub gh_kick : ℕ
gh_kick = 5

abbrev any_of : ℕ → List ℕ → Bool
any_of n [] = false
any_of n (m ∷ ms) = (n == m) || any_of n ms

-- The array `indexToNote`; no index above 5 occurs.
unfoldable pub pad_index_to_note : ℕ → ℕ
pad_index_to_note zero = 38
pad_index_to_note (suc zero) = 48
pad_index_to_note (suc (suc zero)) = 45
pad_index_to_note (suc (suc (suc zero))) = 46
pad_index_to_note (suc (suc (suc (suc zero)))) = 49
pad_index_to_note _ = 36

-- The `switch` of `noteToPadId`; -1 is `none`.
unfoldable pub gh_note_to_pad_id : ℕ → Option ℕ
gh_note_to_pad_id note =
    if any_of note (38 ∷ 31 ∷ 34 ∷ 37 ∷ 39 ∷ 40 ∷ [])
    then some gh_red
    else if any_of note (48 ∷ 47 ∷ [])
    then some gh_blue
    else if any_of note (45 ∷ 41 ∷ 43 ∷ [])
    then some gh_green
    else if any_of note (46 ∷ 50 ∷ 22 ∷ 26 ∷ 42 ∷ 54 ∷ 44 ∷ [])
    then some gh_yellow
    else if any_of note (49 ∷ 52 ∷ 55 ∷ 57 ∷ 51 ∷ 53 ∷ 56 ∷ 59 ∷ [])
    then some gh_orange
    else if any_of note (36 ∷ 33 ∷ 35 ∷ [])
    then some gh_kick
    else none

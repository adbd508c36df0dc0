-- ===== src/Midi/GuitarHero/Pads.antt =====
-- The notes of the six pads.
use eaves_drum.Base.{ℕ, zero, suc, ◌<◌, ◌≡◌, refl, Option, none, some, arith}
use eaves_drum.Midi.GuitarHero.{pad_index_to_note, gh_note_to_pad_id}

pub pad_of_note : (p : ℕ) → p < 6 → gh_note_to_pad_id (pad_index_to_note p) ≡ some p
unfolding gh_note_to_pad_id pad_index_to_note
pad_of_note zero h = refl
pad_of_note (suc zero) h = refl
pad_of_note (suc (suc zero)) h = refl
pad_of_note (suc (suc (suc zero))) h = refl
pad_of_note (suc (suc (suc (suc zero)))) h = refl
pad_of_note (suc (suc (suc (suc (suc zero))))) h = refl
pad_of_note (suc (suc (suc (suc (suc (suc p)))))) h = absurd (omega arith)

abbrev value_or : Option ℕ → ℕ
value_or none = 0
value_or (some n) = n

pub same_note : (p q : ℕ) → p < 6 → q < 6 → pad_index_to_note p ≡ pad_index_to_note q → p ≡ q
same_note p q hp hq e =
    let a = pad_of_note p hp in
    let b = pad_of_note q hq in let both : some p ≡ some q = cc (a, b, e) in cc both

pub pad_bound : (note p : ℕ) → gh_note_to_pad_id note ≡ some p → p < 6
unfolding gh_note_to_pad_id
pad_bound note p e = ground arith

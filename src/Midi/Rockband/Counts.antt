-- ===== src/Midi/Rockband/Counts.antt =====
-- The numbers of pads and cymbals that are held, when one entry of the table changes.
use eaves_drum.Base.{
  ℕ, zero, suc, ◌+◌, ◌≤◌, ◌<◌, ◌≡◌, ◌⊎◌, inl, inr, refl, Bool, true, false, ◌&&◌, ltb, ◌==◌, arith,
  Bool-cases, ℕ_discrete,
}
use eaves_drum.Midi.Rockband.{HitInfo, HitTable, is_held, put_hit, is_pad, is_cymbal, count}

abbrev pub bit : Bool → ℕ
bit true = 1
bit false = 0

-- The pads and cymbals that are held: of one kind only, or one of each at most.
abbrev pub Compatible : (ℕ → Bool) → Type 0
Compatible held =
    (count is_pad held 9 0 ≡ 0)
    ⊎ (count is_cymbal held 9 0 ≡ 0)
    ⊎ ((count is_pad held 9 0 ≤ 1) × (count is_cymbal held 9 0 ≤ 1))

pub count_outside :
    (kind : ℕ → Bool) (t : HitTable) (j : ℕ) (h : HitInfo) (n i : ℕ)
    → (j < i) ⊎ (i + n ≤ j)
    → count kind (is_held (put_hit t j h)) n i ≡ count kind (is_held t) n i
unfolding count
count_outside kind t j h zero i out = refl
count_outside kind t j h (suc n) i out =
    let ih = count_outside kind t j h n (i + 1) (ground (arith, out)) in
    let ne : (i == j) ≡ false = ground (arith, out) in ground (arith, ih, ne)

pub count_put :
    (kind : ℕ → Bool) (t : HitTable) (j : ℕ) (h : HitInfo) (n i : ℕ)
    → i ≤ j
    → j < i + n
    → count kind (is_held (put_hit t j h)) n i + bit (kind j && is_held t j)
      ≡ count kind (is_held t) n i + bit (kind j && ltb 0 h.time_ms)
unfolding count
count_put kind t j h zero i lo hi = absurd (omega arith)
count_put kind t j h (suc n) i lo hi = elim (ℕ_discrete i j) [
  | yes e ↦
      let outside = count_outside kind t j h n (i + 1) (inl (omega arith)) in
      let self : (j == j) ≡ true = ground arith in
      let outside' = rw e at outside in rw e (ground (arith, outside', self))
  | no ne ↦
      let ih = count_put kind t j h n (i + 1) (omega arith) (omega arith) in ground (arith, ih)
]

pub bit_count :
    (kind held : ℕ → Bool) (n i : ℕ)
    → 0 < count kind held n i
    → (j : ℕ) × (i ≤ j) × (j < i + n) × (held j ≡ true)
unfolding count
bit_count kind held zero i h = absurd (omega arith)
bit_count kind held (suc n) i h = elim (Bool-cases (held i)) [
  | inl e ↦ (i, omega arith, omega arith, e)
  | inr e ↦
      let (j, lo, hi, k) = bit_count kind held n (i + 1) (ground arith) in
      (j, omega arith, omega arith, k)
]

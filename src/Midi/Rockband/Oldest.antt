-- ===== src/Midi/Rockband/Oldest.antt =====
-- The hit that `removeOldestHit` finds.
use eaves_drum.Base.{
  ℕ, zero, suc, ◌+◌, ◌≤◌, ◌<◌, ◌≡◌, ◌⊎◌, inl, inr, refl, ap, true, ◌&&◌, ltb, for_range, arith,
  Bool-cases, ℕ_discrete,
}
use eaves_drum.Midi.Rockband.{HitTable, uint32_max, is_held, older, oldest}

-- What the search for the oldest hit has found before the index `i`.
record Found (t : HitTable) (i : ℕ) (best : ℕ × ℕ) : Type 0 where
  nothing_or_held :
      ((best ≡ (0, uint32_max)))
      ⊎ ((best.0 < i) × (is_held t best.0 ≡ true) × (best.1 < uint32_max))
  nothing_missed : (j : ℕ) → j < i → is_held t j ≡ true → best.1 ≤ (t j).time_ms

older-Found :
    (t : HitTable) (i : ℕ) (best : ℕ × ℕ)
    → (t i).time_ms < uint32_max
    → Found t i best
    → Found t (i + 1) (older t i best)
unfolding older
older-Found t i best small f = elim (Bool-cases (is_held t i && ltb (t i).time_ms best.1)) [
  | inl e ↦ rw e (record {
    nothing_or_held = inr (omega arith, ground arith, small);
    nothing_missed = λ j lt held. elim (ℕ_discrete j i) [
      | yes here ↦ rw here (omega arith)
      | no other ↦ let earlier = f.nothing_missed j (omega arith) held in ground (arith, earlier)
    ];
  })
  | inr e ↦ rw e (record {
    nothing_or_held = ground (arith, f.nothing_or_held);
    nothing_missed = λ j lt held. elim (ℕ_discrete j i) [
      | yes here ↦ let held' = rw here at held in rw here (ground arith)
      | no other ↦ f.nothing_missed j (omega arith) held
    ];
  })
]

rounds-Found :
    (t : HitTable) (n i m : ℕ) (best : ℕ × ℕ)
    → i + n ≡ m
    → ((j : ℕ) → j < m → (t j).time_ms < uint32_max)
    → Found t i best
    → Found t m (for_range n i (older t) best)
rounds-Found t zero i m best e small f = let e' : i ≡ m = omega arith in rw (← e') f
rounds-Found t (suc n) i m best e small f =
    rounds-Found t n (i + 1) m (older t i best) (omega arith) small
      (older-Found t i best (small i (omega arith)) f)

-- No hit was at the last millisecond of the clock.
abbrev pub BeforeWrap : HitTable → Type 0
BeforeWrap t = (j : ℕ) → j < 9 → (t j).time_ms < uint32_max

oldest-Found : (t : HitTable) → BeforeWrap t → Found t 9 (oldest t)
unfolding oldest
oldest-Found t small =
    rounds-Found t 9 0 9 (0, uint32_max) refl small
      (record { nothing_or_held = inl refl; nothing_missed = λ j lt held. absurd (omega arith) })

-- If any hit is held, the one that is removed is.
pub oldest_held :
    (t : HitTable) (j : ℕ)
    → BeforeWrap t
    → j < 9
    → is_held t j ≡ true
    → ((oldest t).0 < 9) × (is_held t (oldest t).0 ≡ true)
oldest_held t j small lt held =
    let f = oldest-Found t small in
    let bound = f.nothing_missed j lt held in
    let below = small j lt in
    elim f.nothing_or_held [
      | inl e ↦
          let e' : (oldest t).1 ≡ uint32_max = ap (λ (p : ℕ × ℕ). p.1) e in absurd (omega arith)
      | inr (a, b, c) ↦ (a, b)
    ]

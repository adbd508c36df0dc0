-- ===== src/Drum/Mux/Switching.antt =====
-- That a multiplexer is disabled while its select pins are written.
use eaves_drum.Base.{
  ℕ, zero, suc, ◌+◌, ◌≤◌, ◌<◌, ◌≡◌, ◌≢◌, refl, ◌∙◌, ap, ◌++◌, ◌==◌, ◌&&◌, Bool, true, false, List,
  [], ◌∷◌, get_or, if◌then◌else◌, arith, subst, sym, Bool-cases, inl, inr,
}
use eaves_drum.Drum.Mux.{PinEvent, write_digital, read_analog, select_from}
use eaves_drum.Drum.Mux.Levels.{level, level-append, level-select_others, level-write_self}
use eaves_drum.Drum.Pin.{pin_unused}

-- The other pins are written only while the enable pin is high, from its level before.
pub switched_off : ℕ → Bool → List PinEvent → Bool
switched_off enable b [] = true
switched_off enable b (write_digital p v ∷ es) =
    if p == enable then switched_off enable v es else b && switched_off enable b es
switched_off enable b (read_analog p ∷ es) = switched_off enable b es

-- Some events keep to that, and take the enable pin from one level to another.
pub record Keeps (enable : ℕ) (b : Bool) (es : List PinEvent) (b' : Bool) : Type 0 where
  pub off : switched_off enable b es ≡ true
  pub ends : level enable b es ≡ b'

switched_off-append :
    (enable : ℕ) (b : Bool) (xs ys : List PinEvent)
    → switched_off enable b xs ≡ true
    → switched_off enable (level enable b xs) ys ≡ true
    → switched_off enable b (xs ++ ys) ≡ true
unfolding switched_off level
switched_off-append enable b [] ys h k = k
switched_off-append enable b (write_digital p v ∷ xs) ys h k = elim (Bool-cases (p == enable)) [
  | inl own ↦ rw own (switched_off-append enable v xs ys (rw own at h) (rw own at k))
  | inr other ↦
      let first : b ≡ true = ground (arith, h, other) in
      let rest = switched_off-append enable b xs ys (ground (arith, h, other)) (rw other at k) in
      rw other (ground (arith, first, rest))
]
switched_off-append enable b (read_analog p ∷ xs) ys h k = switched_off-append enable b xs ys h k

pub Keeps-append :
    (enable : ℕ) (b b' b'' : Bool) (xs ys : List PinEvent)
    → Keeps enable b xs b'
    → Keeps enable b' ys b''
    → Keeps enable b (xs ++ ys) b''
Keeps-append enable b b' b'' xs ys h k = record {
  off =
      switched_off-append enable b xs ys h.off
        (subst (λ m. switched_off enable m ys ≡ true) (sym h.ends) k.off);
  ends = level-append enable xs ys b ∙ ap (λ m. level enable m ys) h.ends ∙ k.ends;
}

pub Keeps-write : (enable : ℕ) (b v : Bool) → Keeps enable b (write_digital enable v ∷ []) v
unfolding switched_off level
Keeps-write enable b v = record { off = ground arith; ends = level-write_self enable v b [] }

pub Keeps-read : (enable p : ℕ) (b : Bool) → Keeps enable b (read_analog p ∷ []) b
unfolding switched_off level
Keeps-read enable p b = record { off = refl; ends = refl }

pub Keeps-none : (enable : ℕ) (b : Bool) → b ≡ true → Keeps enable b [] true
unfolding switched_off level
Keeps-none enable b h = record { off = refl; ends = h }

switched_off-select :
    (pins : List ℕ) (k j c enable : ℕ)
    → ((l : ℕ) → j ≤ l → l < j + k → get_or pins l pin_unused ≢ enable)
    → switched_off enable true (select_from pins k j c) ≡ true
unfolding switched_off select_from
switched_off-select pins zero j c enable h = refl
switched_off-select pins (suc k) j c enable h =
    let other : (get_or pins j pin_unused == enable) ≡ false =
      ground (arith, h j (omega arith) (omega arith)) in
    rw other
      (switched_off-select pins k (j + 1) c enable (λ l p q. h l (omega arith) (omega arith)))

-- Select pins that differ from the enable pin are written while it is high, and leave it so.
pub Keeps-select :
    (pins : List ℕ) (k c enable : ℕ)
    → ((l : ℕ) → l < k → get_or pins l pin_unused ≢ enable)
    → Keeps enable true (select_from pins k 0 c) true
Keeps-select pins k c enable h = record {
  off = switched_off-select pins k 0 c enable (λ l p q. h l (omega arith));
  ends = level-select_others pins k 0 c enable true (λ l p q e. h l (omega arith) (sym e));
}

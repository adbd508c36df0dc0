-- ===== src/Drum/Mux/Levels.antt =====
-- The levels of the digital pins while a multiplexer's channels are selected.
use eaves_drum.Base.{
  ℕ, zero, suc, ◌+◌, ◌≤◌, ◌<◌, ◌≡◌, ◌≢◌, refl, ap, sym, ◌∙◌, ◌++◌, ◌==◌, Bool, false, true, List,
  [], ◌∷◌, get_or, if◌then◌else◌, arith, ℕ_discrete,
}
use eaves_drum.Drum.Mux.{PinEvent, write_digital, read_analog, has_bit, select_from}
use eaves_drum.Drum.Pin.{pin_unused}

-- The level of a digital pin after some events, from the level before.
unfoldable pub level : ℕ → Bool → List PinEvent → Bool
level pin b [] = b
level pin b (write_digital p v ∷ es) = level pin (if p == pin then v else b) es
level pin b (read_analog p ∷ es) = level pin b es

pub level-append :
    (pin : ℕ) (xs ys : List PinEvent) (b : Bool)
    → level pin b (xs ++ ys) ≡ level pin (level pin b xs) ys
unfolding level
level-append pin [] ys b = refl
level-append pin (write_digital p v ∷ xs) ys b = level-append pin xs ys _
level-append pin (read_analog p ∷ xs) ys b = level-append pin xs ys b

pub level-write :
    (pin p : ℕ) (v b : Bool) (es : List PinEvent)
    → pin ≢ p
    → level pin b (write_digital p v ∷ es) ≡ level pin b es
unfolding level
level-write pin p v b es other = let e : (p == pin) ≡ false = ground (arith, other) in rw e refl

pub level-write_self :
    (pin : ℕ) (v b : Bool) (es : List PinEvent)
    → level pin b (write_digital pin v ∷ es) ≡ level pin v es
unfolding level
level-write_self pin v b es = let e : (pin == pin) ≡ true = ground arith in rw e refl

pub level-select_others :
    (pins : List ℕ) (k j c pin : ℕ) (b : Bool)
    → ((l : ℕ) → j ≤ l → l < j + k → pin ≢ get_or pins l pin_unused)
    → level pin b (select_from pins k j c) ≡ b
unfolding level select_from
level-select_others pins zero j c pin b h = refl
level-select_others pins (suc k) j c pin b h =
    level-write pin (get_or pins j pin_unused) (has_bit c j) b (select_from pins k (j + 1) c)
      (h j (omega arith) (omega arith))
    ∙ level-select_others pins k (j + 1) c pin b (λ l p q. h l (omega arith) (omega arith))

-- The loop of `selectChannel` leaves each of its pins at its bit.
pub level-select :
    (pins : List ℕ) (n k j c i : ℕ) (b : Bool)
    → j + k ≡ n
    → ((l m : ℕ) → l < n → m < n → get_or pins l pin_unused ≡ get_or pins m pin_unused → l ≡ m)
    → j ≤ i
    → i < n
    → level (get_or pins i pin_unused) b (select_from pins k j c) ≡ has_bit c i
unfolding level select_from
level-select pins n zero j c i b e d h q = absurd (omega arith)
level-select pins n (suc k) j c i b e d h q = elim (ℕ_discrete i j) [
  | yes same ↦
      let here : get_or pins j pin_unused ≡ get_or pins i pin_unused =
        ap (λ l. get_or pins l pin_unused) (sym same) in
      ap
        (λ p.
          level (get_or pins i pin_unused) b
            (write_digital p (has_bit c j) ∷ select_from pins k (j + 1) c))
        here
      ∙ level-write_self (get_or pins i pin_unused) (has_bit c j) b (select_from pins k (j + 1) c)
      ∙ level-select_others pins k (j + 1) c (get_or pins i pin_unused) (has_bit c j)
          (λ l p r s. absurd (let t : i ≡ l = d i l q (omega arith) s in omega arith))
      ∙ ap (has_bit c) (sym same)
  | no other ↦ level-select pins n k (j + 1) c i _ (omega arith) d (omega arith) q
]

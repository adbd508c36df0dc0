-- ===== src/Midi/Rockband/Told.antt =====
-- A game reads from the report exactly the pads and cymbals that are pressed.
use eaves_drum.Base.{
  ℕ, zero, suc, ◌+◌, ◌≤◌, ◌<◌, ◌≡◌, inl, inr, refl, ap, ◌∙◌, sym, Bool, true, false, not, ◌&&◌,
  ◌||◌, leb, ◌==◌, for_range, arith, Bool-cases,
}
use eaves_drum.Midi.Rockband.{HitTable, is_pad, is_cymbal, is_held, count}
use eaves_drum.Midi.Rockband.Counts.{Compatible}
use eaves_drum.Midi.Rockband.Report.{
  Velocities, HidReport, Draft, draft, update_hid_report, sent, no_buttons, hat_centered,
  no_velocities,
}
use eaves_drum.Midi.Rockband.Decode.{
  is_pressed, reads, reads_pad, reads_cymbal, colour, cymbal_colour,
}
use eaves_drum.Midi.Rockband.Keys.{Keys, keys, step, draft-keys, draft-event}

every : (Bool → Bool) → Bool
every f = f true && f false

every_sound : (f : Bool → Bool) → every f ≡ true → (b : Bool) → f b ≡ true
unfolding every
every_sound f h true = ground arith
every_sound f h false = ground arith

abbrev same_bool : Bool → Bool → Bool
same_bool true b = b
same_bool false b = not b

abbrev bit : Bool → ℕ
bit true = 1
bit false = 0

-- The report of the pads and cymbals that are pressed.
made_of : (ℕ → Bool) → Velocities → HidReport
made_of p v =
    let k = for_range {State = Keys} 9 0 (λ j. step j (p j)) (no_buttons, hat_centered) in
    record { buttons = k.0; hat = k.1; velocities = v }

nine : Bool → Bool → Bool → Bool → Bool → Bool → Bool → Bool → Bool → ℕ → Bool
nine a b c d e f g k h zero = a
nine a b c d e f g k h (suc zero) = b
nine a b c d e f g k h (suc (suc zero)) = c
nine a b c d e f g k h (suc (suc (suc zero))) = d
nine a b c d e f g k h (suc (suc (suc (suc zero)))) = e
nine a b c d e f g k h (suc (suc (suc (suc (suc zero))))) = f
nine a b c d e f g k h (suc (suc (suc (suc (suc (suc zero)))))) = g
nine a b c d e f g k h (suc (suc (suc (suc (suc (suc (suc zero))))))) = k
nine a b c d e f g k h (suc (suc (suc (suc (suc (suc (suc (suc i)))))))) = h

fits : ℕ → ℕ → Bool
fits pads cymbals = (pads == 0) || ((cymbals == 0) || (leb pads 1 && leb cymbals 1))

-- The seven pads and cymbals are read as they are pressed.
told : Bool → Bool → Bool → Bool → Bool → Bool → Bool → Bool
told a b c d e f g =
    let r = made_of (nine a b c d e f g false false) no_velocities in
    not (fits (bit a + (bit b + (bit c + bit d))) (bit e + (bit f + bit g)))
    || (same_bool (reads r 0) a
        && (same_bool (reads r 1) b
            && (same_bool (reads r 2) c
                && (same_bool (reads r 3) d
                    && (same_bool (reads r 4) e
                        && (same_bool (reads r 5) f && same_bool (reads r 6) g))))))

all_told :
    every (λ a.
      every
        (λ b. every (λ c. every (λ d. every (λ e. every (λ f. every (λ g. told a b c d e f g)))))))
    ≡ true
unfolding every told made_of nine fits reads reads_pad reads_cymbal colour cymbal_colour step
all_told = refl

told_always : (a b c d e f g : Bool) → told a b c d e f g ≡ true
told_always a b c d e f g =
    let on_a = every_sound _ all_told a in
    let on_b = every_sound _ on_a b in
    let on_c = every_sound _ on_b c in
    let on_d = every_sound _ on_c d in
    let on_e = every_sound _ on_d e in every_sound _ (every_sound _ on_e f) g

same_bool_eq : (a b : Bool) → same_bool a b ≡ true → a ≡ b
same_bool_eq true b h = sym h
same_bool_eq false true h = absurd (cc)
same_bool_eq false false h = refl

count_pads : (p : ℕ → Bool) → count is_pad p 9 0 ≡ bit (p 0) + (bit (p 1) + (bit (p 2) + bit (p 3)))
unfolding count is_pad
count_pads p = ground arith

count_cymbals : (p : ℕ → Bool) → count is_cymbal p 9 0 ≡ bit (p 4) + (bit (p 5) + bit (p 6))
unfolding count is_cymbal
count_cymbals p = ground arith

chain :
    (f x0 x1 x2 x3 x4 x5 x6 : Bool)
    → f ≡ true
    → (not f || (x0 && (x1 && (x2 && (x3 && (x4 && (x5 && x6))))))) ≡ true
    → (x0 ≡ true)
      × (x1 ≡ true)
      × (x2 ≡ true)
      × (x3 ≡ true)
      × (x4 ≡ true)
      × (x5 ≡ true)
      × (x6 ≡ true)
chain f x0 x1 x2 x3 x4 x5 x6 h e = (
  ground arith,
  ground arith,
  ground arith,
  ground arith,
  ground arith,
  ground arith,
  ground arith,
)

Compatible-fits :
    (p : ℕ → Bool)
    → Compatible p
    → fits (bit (p 0) + (bit (p 1) + (bit (p 2) + bit (p 3)))) (bit (p 4) + (bit (p 5) + bit (p 6)))
      ≡ true
unfolding fits
Compatible-fits p c =
    let pads = count_pads p in
    let cymbals = count_cymbals p in
    elim c [ inl a ↦ ground (arith) | inr (inl b) ↦ ground arith | inr (inr (d, e)) ↦ ground arith ]

-- The report of nine Booleans and no velocities.
abbrev plain : (ℕ → Bool) → HidReport
plain p = made_of (nine (p 0) (p 1) (p 2) (p 3) (p 4) (p 5) (p 6) false false) no_velocities

seven :
    (p : ℕ → Bool)
    → Compatible p
    → (reads (plain p) 0 ≡ p 0)
      × (reads (plain p) 1 ≡ p 1)
      × (reads (plain p) 2 ≡ p 2)
      × (reads (plain p) 3 ≡ p 3)
      × (reads (plain p) 4 ≡ p 4)
      × (reads (plain p) 5 ≡ p 5)
      × (reads (plain p) 6 ≡ p 6)
unfolding told
seven p c =
    let t = told_always (p 0) (p 1) (p 2) (p 3) (p 4) (p 5) (p 6) in
    let (x0, x1, x2, x3, x4, x5, x6) = chain _ _ _ _ _ _ _ _ (Compatible-fits p c) t in
    (
      same_bool_eq _ _ x0,
      same_bool_eq _ _ x1,
      same_bool_eq _ _ x2,
      same_bool_eq _ _ x3,
      same_bool_eq _ _ x4,
      same_bool_eq _ _ x5,
      same_bool_eq _ _ x6,
    )

or_false : (b : Bool) → (b || false) ≡ b
or_false true = refl
or_false false = refl

told_all :
    (p : ℕ → Bool) (v : Velocities) (i : ℕ) → i < 9 → Compatible p → reads (made_of p v) i ≡ p i
unfolding told made_of nine reads reads_pad reads_cymbal colour cymbal_colour step
told_all p v zero lt c = (seven p c).0
told_all p v (suc zero) lt c = (seven p c).1
told_all p v (suc (suc zero)) lt c = (seven p c).2
told_all p v (suc (suc (suc zero))) lt c = (seven p c).3
told_all p v (suc (suc (suc (suc zero)))) lt c = (seven p c).4
told_all p v (suc (suc (suc (suc (suc zero))))) lt c = (seven p c).5
told_all p v (suc (suc (suc (suc (suc (suc zero)))))) lt c = (seven p c).6
told_all p v (suc (suc (suc (suc (suc (suc (suc zero))))))) lt c = or_false (p 7)
told_all p v (suc (suc (suc (suc (suc (suc (suc (suc zero)))))))) lt c = or_false (p 8)
told_all p v (suc (suc (suc (suc (suc (suc (suc (suc (suc i))))))))) lt c = absurd (omega arith)

sent_event : (d : Draft) (report : HidReport) → d.has_drum_event ≡ true → sent d report ≡ d.made
unfolding sent
sent_event d report e = rw e

count_mono :
    (kind less more : ℕ → Bool) (n i : ℕ)
    → ((j : ℕ) → less j ≡ true → more j ≡ true)
    → count kind less n i ≤ count kind more n i
unfolding count
count_mono kind less more zero i h = omega arith
count_mono kind less more (suc n) i h =
    let ih = count_mono kind less more n (i + 1) h in
    elim (Bool-cases (less i)) [
      | inl e ↦ let m = h i e in ground (arith, ih)
      | inr e ↦ ground (arith, ih)
    ]

pressed_held : (t : HitTable) (now i : ℕ) → is_pressed t now i ≡ true → is_held t i ≡ true
unfolding is_pressed
pressed_held t now i h = ground arith

pressed-Compatible :
    (t : HitTable) (now : ℕ) → Compatible (is_held t) → Compatible (is_pressed t now)
pressed-Compatible t now c =
    let pads = count_mono is_pad (is_pressed t now) (is_held t) 9 0 (pressed_held t now) in
    let cymbals = count_mono is_cymbal (is_pressed t now) (is_held t) 9 0 (pressed_held t now) in
    elim c [
      | inl a ↦ inl (omega arith)
      | inr (inl b) ↦ inr (inl (omega arith))
      | inr (inr (d, e)) ↦ inr (inr (omega arith, omega arith))
    ]

drawn-made_of :
    (t : HitTable) (now : ℕ)
    → (draft false now t).made ≡ made_of (is_pressed t now) (draft false now t).made.velocities
unfolding made_of keys
drawn-made_of t now =
    let v = (draft false now t).made.velocities in
    ap (λ (k : Keys). record { buttons = k.0; hat = k.1; velocities = v }) (draft-keys t now)

-- From held hits that are `Compatible`, with the host ready and outside the generic mode: if any
-- pad is pressed, a game that decodes the report as documented reads each of the nine pads,
-- cymbals and pedals as pressed exactly if it is.
pub reads-update_hid_report :
    (t : HitTable) (now i j : ℕ) (report : HidReport)
    → Compatible (is_held t)
    → i < 9
    → j < 9
    → is_pressed t now j ≡ true
    → reads (update_hid_report true false now t report).1 i ≡ is_pressed t now i
unfolding update_hid_report
reads-update_hid_report t now i j report c li lj some_pressed =
    let event = sent_event (draft false now t) report (draft-event t now j lj some_pressed) in
    ap (λ r. reads r i) (event ∙ drawn-made_of t now)
    ∙ told_all (is_pressed t now) _ i li (pressed-Compatible t now c)

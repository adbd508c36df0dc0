-- ===== src/Midi/GuitarHero/Wii/Held.antt =====
-- A drum button is down while its hit is held.
use eaves_drum.Base.{
  ℕ, zero, suc, ◌+◌, ◌≤◌, ◌<◌, ◌≡◌, inl, inr, refl, ap, ap₂, ◌∙◌, Bool, true, false, not, ◌&&◌, ltb,
  ◌==◌, if◌then◌else◌, for_range, sub32, arith, Bool-cases, ℕ_discrete,
}
use eaves_drum.Midi.GuitarHero.Wii.{
  WiiState, WiimoteClassic, no_midi, wii_hold_time_ms, WiiHitState, wii_unpressed, wii_pressed,
  wii_released, wii_pad_hit, set_classic_button, set_pad_as, set_pad, wiimote_set_report,
}

-- The button of a pad.
unfoldable pub classic_button : WiimoteClassic → ℕ → Bool
classic_button c zero = c.c_b
classic_button c (suc zero) = c.c_x
classic_button c (suc (suc zero)) = c.c_a
classic_button c (suc (suc (suc zero))) = c.c_y
classic_button c (suc (suc (suc (suc zero)))) = c.c_lz
classic_button c (suc (suc (suc (suc (suc zero))))) = c.c_rz
classic_button c _ = false

-- A hit at the time `t` is held at `now`.
abbrev pub is_on : ℕ → ℕ → Bool
is_on t now = not (t == 0) && not (ltb wii_hold_time_ms (sub32 now t))

-- The buttons agree with the hits: a pad without a hit is up.
abbrev pub Consistent : WiiState → Type 0
Consistent st = (p : ℕ) → p < 6 → st.hit_times_ms p ≡ 0 → classic_button st.report.classic p ≡ false

set-get :
    (c : WiimoteClassic) (p q : ℕ) (on : Bool)
    → p < 6
    → q < 6
    → classic_button (set_classic_button c p on) q ≡ (if q == p then on else classic_button c q)
unfolding classic_button set_classic_button
set-get c zero zero on hp hq = refl
set-get c zero (suc zero) on hp hq = refl
set-get c zero (suc (suc zero)) on hp hq = refl
set-get c zero (suc (suc (suc zero))) on hp hq = refl
set-get c zero (suc (suc (suc (suc zero)))) on hp hq = refl
set-get c zero (suc (suc (suc (suc (suc zero))))) on hp hq = refl
set-get c zero (suc (suc (suc (suc (suc (suc q)))))) on hp hq = absurd (omega arith)
set-get c (suc zero) zero on hp hq = refl
set-get c (suc zero) (suc zero) on hp hq = refl
set-get c (suc zero) (suc (suc zero)) on hp hq = refl
set-get c (suc zero) (suc (suc (suc zero))) on hp hq = refl
set-get c (suc zero) (suc (suc (suc (suc zero)))) on hp hq = refl
set-get c (suc zero) (suc (suc (suc (suc (suc zero))))) on hp hq = refl
set-get c (suc zero) (suc (suc (suc (suc (suc (suc q)))))) on hp hq = absurd (omega arith)
set-get c (suc (suc zero)) zero on hp hq = refl
set-get c (suc (suc zero)) (suc zero) on hp hq = refl
set-get c (suc (suc zero)) (suc (suc zero)) on hp hq = refl
set-get c (suc (suc zero)) (suc (suc (suc zero))) on hp hq = refl
set-get c (suc (suc zero)) (suc (suc (suc (suc zero)))) on hp hq = refl
set-get c (suc (suc zero)) (suc (suc (suc (suc (suc zero))))) on hp hq = refl
set-get c (suc (suc zero)) (suc (suc (suc (suc (suc (suc q)))))) on hp hq = absurd (omega arith)
set-get c (suc (suc (suc zero))) zero on hp hq = refl
set-get c (suc (suc (suc zero))) (suc zero) on hp hq = refl
set-get c (suc (suc (suc zero))) (suc (suc zero)) on hp hq = refl
set-get c (suc (suc (suc zero))) (suc (suc (suc zero))) on hp hq = refl
set-get c (suc (suc (suc zero))) (suc (suc (suc (suc zero)))) on hp hq = refl
set-get c (suc (suc (suc zero))) (suc (suc (suc (suc (suc zero))))) on hp hq = refl
set-get c (suc (suc (suc zero))) (suc (suc (suc (suc (suc (suc q)))))) on hp hq =
    absurd (omega arith)
set-get c (suc (suc (suc (suc zero)))) zero on hp hq = refl
set-get c (suc (suc (suc (suc zero)))) (suc zero) on hp hq = refl
set-get c (suc (suc (suc (suc zero)))) (suc (suc zero)) on hp hq = refl
set-get c (suc (suc (suc (suc zero)))) (suc (suc (suc zero))) on hp hq = refl
set-get c (suc (suc (suc (suc zero)))) (suc (suc (suc (suc zero)))) on hp hq = refl
set-get c (suc (suc (suc (suc zero)))) (suc (suc (suc (suc (suc zero))))) on hp hq = refl
set-get c (suc (suc (suc (suc zero)))) (suc (suc (suc (suc (suc (suc q)))))) on hp hq =
    absurd (omega arith)
set-get c (suc (suc (suc (suc (suc zero))))) zero on hp hq = refl
set-get c (suc (suc (suc (suc (suc zero))))) (suc zero) on hp hq = refl
set-get c (suc (suc (suc (suc (suc zero))))) (suc (suc zero)) on hp hq = refl
set-get c (suc (suc (suc (suc (suc zero))))) (suc (suc (suc zero))) on hp hq = refl
set-get c (suc (suc (suc (suc (suc zero))))) (suc (suc (suc (suc zero)))) on hp hq = refl
set-get c (suc (suc (suc (suc (suc zero))))) (suc (suc (suc (suc (suc zero))))) on hp hq = refl
set-get c (suc (suc (suc (suc (suc zero))))) (suc (suc (suc (suc (suc (suc q)))))) on hp hq =
    absurd (omega arith)
set-get c (suc (suc (suc (suc (suc (suc p)))))) q on hp hq = absurd (omega arith)

-- What a round leaves of its own pad.
abbrev new_button : ℕ → ℕ → Bool → Bool
new_button t now old = if t == 0 then old else is_on t now

abbrev new_time : ℕ → ℕ → ℕ
new_time t now = if is_on t now then t else 0

abbrev new_button_at : ℕ → ℕ → Bool → Bool
new_button_at now t old = new_button t now old

own_round :
    (now p : ℕ) (times : ℕ → ℕ) (c : WiimoteClassic)
    → p < 6
    → (classic_button (set_pad now p (times, c)).1 p
        ≡ new_button (times p) now (classic_button c p))
      × ((set_pad now p (times, c)).0 p ≡ new_time (times p) now)
unfolding set_pad set_pad_as wii_pad_hit
own_round now p times c h =
    let self : (p == p) ≡ true = ground arith in
    let on = set-get c p p true h h in
    let off = set-get c p p false h h in
    elim (Bool-cases (times p == 0)) [
      | inl z ↦ let none_yet : times p ≡ 0 = ground arith in (rw z refl, rw z none_yet)
      | inr nz ↦ elim (Bool-cases (ltb wii_hold_time_ms (sub32 now (times p)))) [
        | inl late ↦ (
          rw (nz, late) (off ∙ ap (λ b. if b then false else classic_button c p) self),
          rw (nz, late, self) refl,
        )
        | inr early ↦ (
          rw (nz, early) (on ∙ ap (λ b. if b then true else classic_button c p) self),
          rw (nz, early) refl,
        )
      ]
    ]

other_round_as :
    (state : WiiHitState) (p q : ℕ) (times : ℕ → ℕ) (c : WiimoteClassic)
    → p < 6
    → q < 6
    → (q == p) ≡ false
    → (classic_button (set_pad_as state p (times, c)).1 q ≡ classic_button c q)
      × ((set_pad_as state p (times, c)).0 q ≡ times q)
unfolding set_pad_as
other_round_as wii_pressed p q times c hp hq ne =
    (set-get c p q true hp hq ∙ ap (λ b. if b then true else classic_button c q) ne, refl)
other_round_as wii_released p q times c hp hq ne =
    (set-get c p q false hp hq ∙ ap (λ b. if b then false else classic_button c q) ne, rw ne refl)
other_round_as wii_unpressed p q times c hp hq ne = (refl, refl)

-- The rounds do not touch a pad that is not among them.
outside_rounds :
    (now n i q : ℕ) (times : ℕ → ℕ) (c : WiimoteClassic)
    → i + n ≤ 6
    → q < i
    → (classic_button (for_range n i (set_pad now) (times, c)).1 q ≡ classic_button c q)
      × ((for_range n i (set_pad now) (times, c)).0 q ≡ times q)
unfolding set_pad
outside_rounds now zero i q times c h lt = (refl, refl)
outside_rounds now (suc n) i q times c h lt =
    let r = set_pad now i (times, c) in
    let ne : (q == i) ≡ false = ground arith in
    let one = other_round_as (wii_pad_hit times i now) i q times c (omega arith) (omega arith) ne in
    let ih = outside_rounds now n (i + 1) q r.0 r.1 (omega arith) (omega arith) in
    (ih.0 ∙ one.0, ih.1 ∙ one.1)

rounds :
    (now n i q : ℕ) (times : ℕ → ℕ) (c : WiimoteClassic)
    → i + n ≤ 6
    → i ≤ q
    → q < i + n
    → (classic_button (for_range n i (set_pad now) (times, c)).1 q
        ≡ new_button (times q) now (classic_button c q))
      × ((for_range n i (set_pad now) (times, c)).0 q ≡ new_time (times q) now)
unfolding set_pad
rounds now zero i q times c h lo hi = absurd (omega arith)
rounds now (suc n) i q times c h lo hi =
    let r = set_pad now i (times, c) in
    elim (ℕ_discrete i q) [
      | yes e ↦
          let later = outside_rounds now n (i + 1) q r.0 r.1 (omega arith) (omega arith) in
          let own = own_round now q times c (omega arith) in
          let at_q : r ≡ set_pad now q (times, c) = ap (λ j. set_pad now j (times, c)) e in
          (
            later.0 ∙ (ap (λ (s : (ℕ → ℕ) × WiimoteClassic). classic_button s.1 q) at_q ∙ own.0),
            later.1 ∙ (ap (λ (s : (ℕ → ℕ) × WiimoteClassic). s.0 q) at_q ∙ own.1),
          )
      | no other ↦
          let ne : (q == i) ≡ false = ground arith in
          let one =
            other_round_as (wii_pad_hit times i now) i q times c (omega arith) (omega arith) ne in
          let ih = rounds now n (i + 1) q r.0 r.1 (omega arith) (omega arith) (omega arith) in
          (ih.0 ∙ ap₂ (new_button_at now) one.1 one.0, ih.1 ∙ ap (λ t. new_time t now) one.1)
    ]

is_zero : (n : ℕ) → (n == 0) ≡ true → n ≡ 0
is_zero n h = ground arith

report_pad_lem :
    (st : WiiState) (now p : ℕ)
    → Consistent st
    → p < 6
    → (classic_button (wiimote_set_report st now).1.classic p ≡ is_on (st.hit_times_ms p) now)
      × ((wiimote_set_report st now).0.hit_times_ms p ≡ new_time (st.hit_times_ms p) now)
unfolding wiimote_set_report
report_pad_lem st now p ok h =
    let r = rounds now 6 0 p st.hit_times_ms st.report.classic (omega arith) (omega arith) h in
    elim (Bool-cases (st.hit_times_ms p == 0)) [
      | inl z ↦ let up = ok p h (is_zero (st.hit_times_ms p) z) in (r.0 ∙ rw z up, r.1)
      | inr nz ↦ (r.0 ∙ rw nz refl, r.1)
    ]

report-Consistent :
    (st : WiiState) (now : ℕ) → Consistent st → Consistent (wiimote_set_report st now).0
unfolding wiimote_set_report
report-Consistent st now ok p h none_left =
    let (button, time) = report_pad_lem st now p ok h in
    elim (Bool-cases (is_on (st.hit_times_ms p) now)) [
      | inl on ↦ ground (arith, time, on, none_left)
      | inr off ↦ button ∙ off
    ]

-- If the buttons of pads without a hit are up: in a report each pad's button is down exactly while
-- its hit is held, the note is sent with this report and not with the next, and the buttons of
-- pads without a hit are up again.
pub wiimote_set_report-holds :
    (st : WiiState) (now p : ℕ)
    → Consistent st
    → p < 6
    → let r = wiimote_set_report st now in
      (classic_button r.1.classic p ≡ is_on (st.hit_times_ms p) now)
      × (r.1.midi ≡ st.report.midi)
      × (r.0.report.midi ≡ no_midi)
      × Consistent r.0
unfolding wiimote_set_report
wiimote_set_report-holds st now p ok h =
    ((report_pad_lem st now p ok h).0, refl, refl, report-Consistent st now ok)

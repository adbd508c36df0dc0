-- ===== src/Midi/Rockband/Keys.antt =====
-- What the loop of `updateHidReport` adds to the buttons and the hat, pad by pad.
use eaves_drum.Base.{
  ℕ, zero, suc, ◌+◌, ◌≤◌, ◌<◌, ◌≡◌, ◌⊎◌, inl, inr, refl, ap, ◌∙◌, sym, Bool, true, false, ◌||◌, ltb,
  ◌==◌, if◌then◌else◌, for_range, sub32, arith, Bool-cases, ℕ_discrete,
}
use eaves_drum.Midi.Rockband.{HitTable, hit_hold_time_ms}
use eaves_drum.Midi.Rockband.Decode.{is_pressed}
use eaves_drum.Midi.Rockband.Report.{
  Buttons, HidReport, Draft, hat_up, hat_down, hat_centered, no_buttons, PadHitState, unpressed,
  pressed, released, pad_hit_state, press, set_flags, report_as, report_pad, draft,
}

-- The buttons and the hat after a pad's round.
abbrev pub Keys : Type 0
Keys = Buttons × ℕ

abbrev pub pad_key : Bool → Buttons → Buttons
pad_key p b = record b { pad_flag = p || b.pad_flag }

abbrev pub cymbal_key : Bool → Buttons → Buttons
cymbal_key p b = record b { cymbal_flag = p || b.cymbal_flag }

unfoldable pub step : ℕ → Bool → Keys → Keys
step zero p (b, h) = (pad_key p (record b { red = p || b.red }), h)
step (suc zero) p (b, h) = (pad_key p (record b { yellow = p || b.yellow }), h)
step (suc (suc zero)) p (b, h) = (pad_key p (record b { blue = p || b.blue }), h)
step (suc (suc (suc zero))) p (b, h) = (pad_key p (record b { green = p || b.green }), h)
step (suc (suc (suc (suc zero)))) p (b, h) =
    (cymbal_key p (record b { yellow = p || b.yellow }), if p then hat_up else h)
step (suc (suc (suc (suc (suc zero))))) p (b, h) =
    (cymbal_key p (record b { blue = p || b.blue }), if p then hat_down else h)
step (suc (suc (suc (suc (suc (suc zero)))))) p (b, h) =
    (cymbal_key p (record b { green = p || b.green }), h)
step (suc (suc (suc (suc (suc (suc (suc zero))))))) p (b, h) =
    (record b { kick_button = p || b.kick_button }, h)
step (suc (suc (suc (suc (suc (suc (suc (suc zero)))))))) p (b, h) =
    (record b { hihat_button = p || b.hihat_button }, h)
step _ p k = k

unfoldable pub keys : HidReport → Keys
keys r = (r.buttons, r.hat)

press-step :
    (i v : ℕ) (r : HidReport)
    → i < 9
    → keys (set_flags false i (press false i v r)) ≡ step i true (keys r)
unfolding keys step set_flags press
press-step zero v r h = refl
press-step (suc zero) v r h = refl
press-step (suc (suc zero)) v r h = refl
press-step (suc (suc (suc zero))) v r h = refl
press-step (suc (suc (suc (suc zero)))) v r h = refl
press-step (suc (suc (suc (suc (suc zero))))) v r h = refl
press-step (suc (suc (suc (suc (suc (suc zero)))))) v r h = refl
press-step (suc (suc (suc (suc (suc (suc (suc zero))))))) v r h = refl
press-step (suc (suc (suc (suc (suc (suc (suc (suc zero)))))))) v r h = refl
press-step (suc (suc (suc (suc (suc (suc (suc (suc (suc i))))))))) v r h = absurd (omega arith)

step_idle : (i : ℕ) (k : Keys) → step i false k ≡ k
unfolding step
step_idle zero k = refl
step_idle (suc zero) k = refl
step_idle (suc (suc zero)) k = refl
step_idle (suc (suc (suc zero))) k = refl
step_idle (suc (suc (suc (suc zero)))) k = refl
step_idle (suc (suc (suc (suc (suc zero))))) k = refl
step_idle (suc (suc (suc (suc (suc (suc zero)))))) k = refl
step_idle (suc (suc (suc (suc (suc (suc (suc zero))))))) k = refl
step_idle (suc (suc (suc (suc (suc (suc (suc (suc zero)))))))) k = refl
step_idle (suc (suc (suc (suc (suc (suc (suc (suc (suc i))))))))) k = refl

state-cases :
    (t : HitTable) (now i : ℕ)
    → ((pad_hit_state t i now ≡ pressed) × (is_pressed t now i ≡ true))
      ⊎ ((pad_hit_state t i now ≡ released) × (is_pressed t now i ≡ false))
      ⊎ ((pad_hit_state t i now ≡ unpressed) × (is_pressed t now i ≡ false))
unfolding pad_hit_state is_pressed
state-cases t now i = elim (Bool-cases ((t i).time_ms == 0)) [
  | inl z ↦ inr (inr (ground arith, ground arith))
  | inr nz ↦ elim (Bool-cases (ltb hit_hold_time_ms (sub32 now (t i).time_ms))) [
    | inl late ↦ inr (inl (ground arith, ground arith))
    | inr early ↦ inl (ground arith, ground arith)
  ]
]

round-keys :
    (now i : ℕ) (d : Draft)
    → i < 9
    → keys (report_pad false now i d).made ≡ step i (is_pressed d.table now i) (keys d.made)
unfolding report_pad report_as keys
round-keys now i d h = elim (state-cases d.table now i) [
  | inl (s, p) ↦ rw (s, p) (press-step i (d.table i).velocity d.made h)
  | inr (inl (s, p)) ↦ rw (s, p) (sym (step_idle i (keys d.made)))
  | inr (inr (s, p)) ↦ rw (s, p) (sym (step_idle i (keys d.made)))
]

as-table :
    (st : PadHitState) (i j : ℕ) (d : Draft) → i < j → (report_as st false i d).table j ≡ d.table j
unfolding report_as
as-table pressed i j d h = refl
as-table released i j d h = let ne : (j == i) ≡ false = ground arith in rw ne
as-table unpressed i j d h = refl

round-table : (now i j : ℕ) (d : Draft) → i < j → (report_pad false now i d).table j ≡ d.table j
unfolding report_pad
round-table now i j d h = as-table (pad_hit_state d.table i now) i j d h

as-event :
    (st : PadHitState) (i : ℕ) (d : Draft)
    → (d.has_drum_event ≡ true) ⊎ (st ≡ pressed)
    → (report_as st false i d).has_drum_event ≡ true
unfolding report_as
as-event pressed i d h = refl
as-event released i d h = refl
as-event unpressed i d (inl e) = e
as-event unpressed i d (inr e) = absurd (cc)

round-event :
    (now i : ℕ) (d : Draft)
    → (d.has_drum_event ≡ true) ⊎ (is_pressed d.table now i ≡ true)
    → (report_pad false now i d).has_drum_event ≡ true
unfolding report_pad
round-event now i d e =
    let states = state-cases d.table now i in
    as-event (pad_hit_state d.table i now) i d (ground (arith, states, e))

-- The entries from `i` on are those of the table that the loop began with.
abbrev pub AgreeFrom : ℕ → HitTable → HitTable → Type 0
AgreeFrom i t u = (j : ℕ) → i ≤ j → t j ≡ u j

pressed-eq : (t u : HitTable) (now i : ℕ) → t i ≡ u i → is_pressed t now i ≡ is_pressed u now i
unfolding is_pressed
pressed-eq t u now i e = rw e

rounds-keys :
    (t : HitTable) (now n i : ℕ) (d : Draft)
    → i + n ≤ 9
    → AgreeFrom i d.table t
    → keys (for_range n i (report_pad false now) d).made
      ≡ for_range n i (λ j. step j (is_pressed t now j)) (keys d.made)
rounds-keys t now zero i d h a = refl
rounds-keys t now (suc n) i d h a =
    let d' = report_pad false now i d in
    let ih =
      rounds-keys t now n (i + 1) d' (omega arith)
        (λ j lt. round-table now i j d (omega arith) ∙ a j (omega arith)) in
    let one = round-keys now i d (omega arith) in
    let same = pressed-eq d.table t now i (a i (omega arith)) in
    ih
    ∙ ap (for_range n (i + 1) (λ j. step j (is_pressed t now j)))
        (one ∙ ap (λ b. step i b (keys d.made)) same)

rounds-event :
    (t : HitTable) (now n i : ℕ) (d : Draft)
    → AgreeFrom i d.table t
    → (d.has_drum_event ≡ true) ⊎ ((j : ℕ) × (i ≤ j) × (j < i + n) × (is_pressed t now j ≡ true))
    → (for_range n i (report_pad false now) d).has_drum_event ≡ true
rounds-event t now zero i d a (inl e) = e
rounds-event t now zero i d a (inr (j, lo, hi, p)) = absurd (omega arith)
rounds-event t now (suc n) i d a h =
    let d' = report_pad false now i d in
    let next : AgreeFrom (i + 1) d'.table t =
      λ j lt. round-table now i j d (omega arith) ∙ a j (omega arith) in
    let same = pressed-eq d.table t now i (a i (omega arith)) in
    rounds-event t now n (i + 1) d' next (elim h [
      | inl e ↦ inl (round-event now i d (inl e))
      | inr (j, lo, hi, p) ↦ elim (ℕ_discrete i j) [
        | yes here ↦ inl (round-event now i d (inr (same ∙ (rw here p))))
        | no other ↦ inr (j, omega arith, omega arith, p)
      ]
    ])

-- The buttons and the hat of the draft, as a fold of the pads that are pressed.
pub draft-keys :
    (t : HitTable) (now : ℕ)
    → keys (draft false now t).made
      ≡ for_range 9 0 (λ j. step j (is_pressed t now j)) (no_buttons, hat_centered)
unfolding draft keys
draft-keys t now = rounds-keys t now 9 0 _ (omega arith) (λ j lt. refl)

pub draft-event :
    (t : HitTable) (now j : ℕ)
    → j < 9
    → is_pressed t now j ≡ true
    → (draft false now t).has_drum_event ≡ true
unfolding draft
draft-event t now j h p =
    rounds-event t now 9 0 _ (λ j lt. refl) (inr (j, omega arith, omega arith, p))

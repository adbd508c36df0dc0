-- ===== src/Drum/Kit/Evaluate/Gated.antt =====
-- The messages of a pad's sample keep a receiver in step with the pending notes.
use eaves_drum.Base.{
  ℕ, zero, suc, ◌+◌, ◌<◌, ◌≡◌, refl, ap, ◌∙◌, Bool, true, false, inl, inr, List, [], ◌∷◌, ◌++◌,
  Bool-cases, if◌then◌else◌,
}
use eaves_drum.Drum.Settings.{Zones}
use eaves_drum.Drum.Pad.{DrumPad}
use eaves_drum.Drum.NoteQueue.{NoteQueue}
use eaves_drum.Drum.NoteQueue.Refine.{IsValid}
use eaves_drum.Drum.Kit.Notes.{MidiMessage, control_change, hihat_cc}
use eaves_drum.Drum.Kit.Notes.Gate.{hear, hear-append, pending_notes}
use eaves_drum.Drum.Kit.Notes.Runs.{Follows, IsUnique, hit-Follows}
use eaves_drum.Drum.Kit.Evaluate.{
  DrumMappings, Sent, after_touches, send_choke, send_hit, evaluate_drum,
  evaluate_cymbal_with_notes, evaluate_cymbal, evaluate_hihat_pad, evaluate_hihat,
}

nothing-Follows : (q : NoteQueue) → IsValid q → IsUnique (pending_notes q) → Follows q (q, [])
unfolding hear
nothing-Follows q v u = record { heard = refl; unique = u; valid = v }

hear-after_touches :
    (k i p : ℕ) (notes : Zones ℕ) (s : List ℕ) → hear s (after_touches k i p notes) ≡ s
unfolding hear after_touches
hear-after_touches zero i p notes s = refl
hear-after_touches (suc k) i p notes s = hear-after_touches k (i + 1) p notes s

hear-send_choke : (n : ℕ) (notes : Zones ℕ) (s : List ℕ) → hear s (send_choke n notes) ≡ s
unfolding send_choke
hear-send_choke n notes s =
    hear-append s (after_touches n 0 127 notes) (after_touches n 0 0 notes)
    ∙ ap (λ x. hear x (after_touches n 0 0 notes)) (hear-after_touches n 0 127 notes s)
    ∙ hear-after_touches n 0 0 notes s

append-Follows :
    (q : NoteQueue) (r s : Sent) → Follows q r → Follows r.0 s → Follows q (s.0, r.1 ++ s.1)
append-Follows q r s f g = record {
  heard = hear-append (pending_notes q) r.1 s.1 ∙ ap (λ x. hear x s.1) f.heard ∙ g.heard;
  unique = g.unique;
  valid = g.valid;
}

either-Follows :
    (q : NoteQueue) (b : Bool) (r s : Sent)
    → Follows q r
    → Follows q s
    → Follows q (if b then r else s)
either-Follows q true r s f g = f
either-Follows q false r s f g = g

-- Messages that are no notes stand before or behind others.
quiet-Follows :
    (q : NoteQueue) (cc : List MidiMessage) (r : Sent)
    → ((s : List ℕ) → hear s cc ≡ s)
    → Follows q r
    → Follows q (r.0, cc ++ r.1)
quiet-Follows q cc r quiet f = record {
  heard =
      hear-append (pending_notes q) cc r.1
      ∙ ap (λ x. hear x r.1) (quiet (pending_notes q))
      ∙ f.heard;
  unique = f.unique;
  valid = f.valid;
}

hear-cc :
    (b : Bool) (v : ℕ) (s : List ℕ) → hear s (if b then control_change hihat_cc v ∷ [] else []) ≡ s
unfolding hear
hear-cc true v s = refl
hear-cc false v s = refl

module _ (gate_time now : ℕ) (gated : 0 < gate_time) where
  send_hit-Follows :
      (q : NoteQueue) (pad : DrumPad) (notes : Zones ℕ) (otherwise : Sent)
      → IsValid q
      → IsUnique (pending_notes q)
      → Follows q otherwise
      → Follows q (send_hit gate_time now q pad notes otherwise)
  unfolding send_hit
  send_hit-Follows q pad notes otherwise v u f = elim (Bool-cases pad.hits.z0) [
    | inl e ↦ simp e (hit-Follows gate_time q notes.z0 pad.hit_velocities.z0 now gated v u)
    | inr e ↦ elim (Bool-cases pad.hits.z1) [
      | inl e₁ ↦ simp (e, e₁) (hit-Follows gate_time q notes.z1 pad.hit_velocities.z1 now gated v u)
      | inr e₁ ↦ elim (Bool-cases pad.hits.z2) [
        | inl e₂ ↦
            simp (e, e₁, e₂) (hit-Follows gate_time q notes.z2 pad.hit_velocities.z2 now gated v u)
        | inr e₂ ↦ simp (e, e₁, e₂) f
      ]
    ]
  ]

  module _ (q : NoteQueue) (pad : DrumPad) (v : IsValid q) (u : IsUnique (pending_notes q)) where
    -- What a drum sends.
    pub evaluate_drum-Follows : (m : DrumMappings) → Follows q (evaluate_drum gate_time now q pad m)
    unfolding evaluate_drum
    evaluate_drum-Follows m = send_hit-Follows q pad _ (q, []) v u (nothing-Follows q v u)

    cymbal_with_notes-Follows :
        (n : ℕ) (notes : Zones ℕ)
        → Follows q (evaluate_cymbal_with_notes gate_time now q pad n notes)
    unfolding evaluate_cymbal_with_notes
    cymbal_with_notes-Follows n notes =
        let choke : Follows q (q, send_choke n notes) = record {
          heard = hear-send_choke n notes (pending_notes q);
          unique = u;
          valid = v;
        } in
        send_hit-Follows q pad notes _ v u (elim (Bool-cases pad.cymbal.is_choked) [
          | inl e ↦ simp e choke
          | inr e ↦ simp e (nothing-Follows q v u)
        ])

    pub evaluate_cymbal-Follows :
        (n : ℕ) (m : DrumMappings) → Follows q (evaluate_cymbal gate_time now q pad n m)
    unfolding evaluate_cymbal
    evaluate_cymbal-Follows n m = cymbal_with_notes-Follows n _

    hihat_pad-Follows :
        (n : ℕ) (pedal_pad : DrumPad) (m : DrumMappings)
        → Follows q (evaluate_hihat_pad gate_time now q pad n pedal_pad m)
    unfolding evaluate_hihat_pad
    hihat_pad-Follows n pedal_pad m =
        either-Follows q _ _ _ (cymbal_with_notes-Follows n _) (evaluate_cymbal-Follows n m)

    -- With a gate time above 0, from a valid queue whose pending notes differ, the messages of a
    -- hi-hat, its pedal and its chick included, leave a receiver that heard the pending notes with
    -- exactly the notes pending afterwards, each once, and the queue valid.
    pub evaluate_hihat-Follows :
        (n : ℕ) (pedal_pad : DrumPad) (m pedal_m : DrumMappings)
        → Follows q (evaluate_hihat gate_time now q pad n pedal_pad m pedal_m)
    unfolding evaluate_hihat
    evaluate_hihat-Follows n pedal_pad m pedal_m =
        let own = evaluate_hihat_pad gate_time now q pad n pedal_pad m in
        let k : Follows q own = hihat_pad-Follows n pedal_pad m in
        let chick =
          hit-Follows gate_time own.0 pedal_m.note_main pedal_pad.hit_velocities.z0 now gated
            k.valid k.unique in
        let quiet = hear-cc pedal_pad.hihat.is_moving pedal_pad.hihat.pedal_cc in
        either-Follows q _ _ _ (quiet-Follows q _ _ quiet (append-Follows q own _ k chick))
          (quiet-Follows q _ own quiet k)

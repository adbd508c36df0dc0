-- ===== src/Drum/Kit/Update/Gated.antt =====
-- A pad's turn keeps a receiver in step with the pending notes.
use mathlib.Core.Option
use eaves_drum.Base.{ℕ, ◌<◌, ◌≡◌, refl, Option, none, some, ℤ, FloatArith, subst}
use eaves_drum.Drum.Settings.{PadType, drum, cymbal, pedal}
use eaves_drum.Drum.NoteQueue.{NoteQueue}
use eaves_drum.Drum.NoteQueue.Refine.{IsValid}
use eaves_drum.Drum.Sensing.{Environment}
use eaves_drum.Drum.Kit.Notes.Gate.{hear, pending_notes}
use eaves_drum.Drum.Kit.Notes.Runs.{Follows, IsUnique}
use eaves_drum.Drum.Kit.Evaluate.{Sent}
use eaves_drum.Drum.Kit.Evaluate.Gated.{
  evaluate_drum-Follows, evaluate_cymbal-Follows, evaluate_hihat-Follows,
}
use eaves_drum.Drum.Kit.Update.{Connected, sense_pad, evaluate_as, evaluate_pad, zones}

-- What a turn sends keeps the receiver in step.
abbrev Sends : NoteQueue → Option (Connected × Option Connected × Sent) → Type 0
Sends q none = Unit
Sends q (some r) = Follows q r.2

module _ (fl : FloatArith) (arduino_map : ℕ → ℕ → ℕ → ℕ → ℕ → ℤ) (env : Environment)
    (now_us gate_time now_ms : ℕ) (gated : 0 < gate_time) (q : NoteQueue) (v : IsValid q)
    (u : IsUnique (pending_notes q)) where
  map-Sends :
      (o : Option Connected) (f : Connected → Connected × Option Connected × Sent)
      → ((s : Connected) → Follows q (f s).2)
      → Sends q (Option.map f o)
  map-Sends none f h = tt
  map-Sends (some s) f h = h s

  bind-Sends :
      (o : Option Connected) (f : Connected → Option (Connected × Option Connected × Sent))
      → ((s : Connected) → Sends q (f s))
      → Sends q (Option.bind o f)
  unfolding Option.bind
  bind-Sends none f h = tt
  bind-Sends (some s) f h = h s

  evaluate_as-Sends :
      (t : PadType) (p : Connected) (pedal_of : Option Connected)
      → Sends q (evaluate_as fl arduino_map env now_us t gate_time now_ms q p pedal_of)
  unfolding evaluate_as hear
  evaluate_as-Sends drum p pedal_of =
      map-Sends (sense_pad fl arduino_map env now_us p) _
        (λ s. evaluate_drum-Follows gate_time now_ms gated q s.pad v u s.mappings)
  evaluate_as-Sends pedal p pedal_of = record { heard = refl; unique = u; valid = v }
  evaluate_as-Sends cymbal p none =
      map-Sends (sense_pad fl arduino_map env now_us p) _
        (λ s. evaluate_cymbal-Follows gate_time now_ms gated q s.pad v u (zones s) s.mappings)
  evaluate_as-Sends cymbal p (some f) = bind-Sends (sense_pad fl arduino_map env now_us f) _ (λ g.
      map-Sends (sense_pad fl arduino_map env now_us p) _ (λ s.
        evaluate_hihat-Follows gate_time now_ms gated q s.pad v u (zones s) g.pad s.mappings
          g.mappings))

  -- With a gate time above 0, from a valid queue whose pending notes differ: if a pad's turn (its
  -- sample, and for a hi-hat its pedal's) goes through, a receiver that heard the pending notes
  -- hears from the messages exactly the notes pending afterwards, each once, and the queue stays
  -- valid.
  pub evaluate_pad-Follows :
      (p s : Connected) (pedal_of f : Option Connected) (sent : Sent)
      → evaluate_pad fl arduino_map env now_us gate_time now_ms q p pedal_of ≡ some (s, f, sent)
      → Follows q sent
  unfolding evaluate_pad
  evaluate_pad-Follows p s pedal_of f sent e =
      subst (Sends q) e (evaluate_as-Sends p.pad.settings.pad_type p pedal_of)

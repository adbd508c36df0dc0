-- ===== src/Drum/Kit/Update.antt =====
-- src/drum/drum_kit.cpp: a pad's turn in the kit's loop, its sample and what is sent for it. The
-- dispatch on the zones is `sense` of src/drum/drum_pad.cpp.
pub mod Gated
mod Tests
use mathlib.Core.Option
use eaves_drum.Base.{ℕ, Option, none, some, [], ℤ, FloatArith}
use eaves_drum.Drum.Settings.{
  PadType, drum, cymbal, pedal, zones1_controller, zones1_piezo, zones2_piezos, zones3_piezos,
}
use eaves_drum.Drum.Connector.{DrumConnector}
use eaves_drum.Drum.Pad.{DrumPad, get_active_zone_count}
use eaves_drum.Drum.NoteQueue.{NoteQueue}
use eaves_drum.Drum.Sensing.{Environment}
use eaves_drum.Drum.Sensing.Piezo
use eaves_drum.Drum.Sensing.PiezoSwitch.{sense_switched}
use eaves_drum.Drum.Sensing.Controller
use eaves_drum.Drum.Kit.Evaluate.{
  DrumMappings, Sent, evaluate_drum, evaluate_cymbal, evaluate_hihat,
}

-- A pad with the connector that it points to, and its mappings.
pub record Connected : Type 0 where
  pub pad : DrumPad
  pub connector : Option DrumConnector
  pub mappings : DrumMappings

abbrev pub zones : Connected → ℕ
zones p = get_active_zone_count p.pad.settings.zones_type p.connector

module _ (fl : FloatArith) (arduino_map : ℕ → ℕ → ℕ → ℕ → ℕ → ℤ) (env : Environment)
    (now_us : ℕ) where
  sense_with : DrumPad → DrumConnector → Option (DrumPad × DrumConnector)
  sense_with pad c = elim pad.settings.zones_type [
    | zones1_piezo ↦ Piezo.sense fl env now_us pad c
    | zones2_piezos ↦ Piezo.sense fl env now_us pad c
    | zones3_piezos ↦ Piezo.sense fl env now_us pad c
    | zones1_controller ↦ Controller.sense arduino_map fl env.inputs now_us pad c
    | _ ↦ sense_switched fl env now_us pad c
  ]

  -- Without a connector the pad is left as it is.
  unfoldable pub sense_pad : Connected → Option Connected
  unfolding sense_with
  sense_pad p = elim p.connector [
    | none ↦ some p
    | some c ↦
        Option.map (λ (s : DrumPad × DrumConnector). record p { pad = s.0; connector = some s.1 })
          (sense_with p.pad c)
  ]

  -- `evaluatePad` for each type: the pad, the pedal that it may have, and the messages.
  unfoldable pub evaluate_as :
      PadType
      → ℕ
      → ℕ
      → NoteQueue
      → Connected
      → Option Connected
      → Option (Connected × Option Connected × Sent)
  unfolding sense_pad
  evaluate_as drum gate_time now_ms q p pedal_of =
      Option.map
        (λ (s : Connected). (s, pedal_of, evaluate_drum gate_time now_ms q s.pad s.mappings))
        (sense_pad p)
  evaluate_as pedal gate_time now_ms q p pedal_of = some (p, pedal_of, (q, []))
  evaluate_as cymbal gate_time now_ms q p none =
      Option.map
        (λ (s : Connected).
          (s, none, evaluate_cymbal gate_time now_ms q s.pad (zones s) s.mappings))
        (sense_pad p)
  evaluate_as cymbal gate_time now_ms q p (some f) = Option.bind (sense_pad f) (λ g.
      Option.map
        (λ (s : Connected). (
          s,
          some g,
          evaluate_hihat gate_time now_ms q s.pad (zones s) g.pad s.mappings g.mappings,
        ))
        (sense_pad p))

  unfoldable pub evaluate_pad :
      ℕ
      → ℕ
      → NoteQueue
      → Connected
      → Option Connected
      → Option (Connected × Option Connected × Sent)
  unfolding evaluate_as
  evaluate_pad gate_time now_ms q p pedal_of =
      evaluate_as p.pad.settings.pad_type gate_time now_ms q p pedal_of

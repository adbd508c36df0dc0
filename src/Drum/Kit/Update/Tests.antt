-- ===== src/Drum/Kit/Update/Tests.antt =====
-- A turn of a snare whose scan ends with a hit.
use mathlib.Core.Option
use eaves_drum.Base.{ℕ, ◌≡◌, refl, ℤ, pos, none, some, arith}
use eaves_drum.Drum.NoteQueue.Refine.{IsValid}
use eaves_drum.Drum.Pin.{read_input}
use eaves_drum.Drum.Pad.{get_active_pin_count, get_active_zone_count, is_connector_active}
use eaves_drum.Drum.Scale.{scale, curve, apply_curve}
use eaves_drum.Drum.Sensing.{read_input_values}
use eaves_drum.Drum.Sensing.Piezo.{
  sense, sense_active, advance, scan, scan_velocities, determine_hit_zone,
}
use eaves_drum.Drum.Kit.Notes.Gate.{notes}
use eaves_drum.Drum.Kit.Notes.Runs.{Follows}
use eaves_drum.Drum.Kit.Evaluate.{evaluate_drum}
use eaves_drum.Drum.Kit.Update.{Connected, evaluate_pad}
use eaves_drum.Drum.Kit.Update.Gated.{evaluate_pad-Follows}
use eaves_drum.Drum.Examples.{whole, scanning, struck, two_pins, reads, silent, mapped}

abbrev no_map : ℕ → ℕ → ℕ → ℕ → ℕ → ℤ
no_map x a b c d = pos 0

abbrev before : Connected
before = record { pad = scanning; connector = some two_pins; mappings = mapped 38 }

abbrev after : Connected
after = record { pad = struck; connector = some two_pins; mappings = mapped 38 }

silent-IsValid : IsValid silent
silent-IsValid = record { slots = refl; small = omega arith }

turn :
    evaluate_pad whole no_map (reads 300 90) 4200 100 250 silent before none
    ≡ some (after, none, evaluate_drum 100 250 silent struck (mapped 38))
unfolding evaluate_pad sense advance scan is_connector_active sense_active read_input_values
    get_active_pin_count mathlib.Core.Option.bind read_input determine_hit_zone
    get_active_zone_count scan_velocities scale curve apply_curve
turn = refl

evaluate_pad-Follows_example : Follows silent (evaluate_drum 100 250 silent struck (mapped 38))
unfolding notes
evaluate_pad-Follows_example =
    evaluate_pad-Follows whole no_map (reads 300 90) 4200 100 250 (omega arith) silent
      silent-IsValid tt before after none none (evaluate_drum 100 250 silent struck (mapped 38))
      turn

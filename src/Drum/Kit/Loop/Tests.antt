-- ===== src/Drum/Kit/Loop/Tests.antt =====
-- A pass over a snare whose scan ends with a hit.
use eaves_drum.Base.{ℕ, ◌≡◌, refl, ℤ, pos, some, false, [], ◌∷◌, arith}
use eaves_drum.Drum.NoteQueue.Refine.{IsValid}
use eaves_drum.Drum.Kit.Notes.Gate.{notes}
use eaves_drum.Drum.Kit.Notes.Runs.{Follows}
use eaves_drum.Drum.Kit.Loop.{LoopState, Pass, update_drums}
use eaves_drum.Drum.Kit.Loop.Gated.{update_drums-Follows}
use eaves_drum.Drum.Examples.{whole, scanning, two_pins, silent, mapped}
use mathlib.Core.Option
use eaves_drum.Drum.Examples.{analog, struck}
use eaves_drum.Drum.Pin.{read_input}
use eaves_drum.Drum.Pad.{get_active_pin_count, get_active_zone_count, is_connector_active}
use eaves_drum.Drum.Scale.{scale, curve, apply_curve}
use eaves_drum.Drum.Sensing.{read_input_values}
use eaves_drum.Drum.Sensing.Piezo.{
  sense, sense_active, advance, scan, scan_velocities, determine_hit_zone,
}
use eaves_drum.Drum.Kit.Evaluate.{Sent, evaluate_drum}
use eaves_drum.Drum.Kit.Update.{evaluate_pad}
use eaves_drum.Drum.Kit.Notes.{send_pending, send_note_on}
use eaves_drum.Drum.NoteQueue.{remove_note, remove_note_from, is_full}

abbrev no_map : ℕ → ℕ → ℕ → ℕ → ℕ → ℤ
no_map x a b c d = pos 0

abbrev pass : Pass
pass = record {
  sense_time_us = 4200;
  check_time_ms = 250;
  pad_time_ms = λ i. 250;
  flush_end_us = 0;
  flush_reads = [];
  mux_read = λ m events pin. 0;
  analog_read = analog 300 90;
  touch_read = λ t. false;
  latency_test_active = false;
}

abbrev start : LoopState
start = record {
  pads = record { pad = scanning; connector = some two_pins; mappings = mapped 38 } ∷ [];
  queue = silent;
  muxes = [];
  last_statistics_reset_us = 0;
  update_count = 0;
  update_count_per_30s = 0;
  last_mux_read_us = 1000;
}

abbrev messages_sent : Sent
messages_sent = evaluate_drum 100 250 silent struck (mapped 38)

abbrev finish : LoopState
finish = record start {
  pads = record { pad = struck; connector = some two_pins; mappings = mapped 38 } ∷ [];
  queue = messages_sent.0;
  update_count = 1;
  last_mux_read_us = 4200;
}

silent-IsValid : IsValid silent
silent-IsValid = record { slots = refl; small = omega arith }

passes : update_drums whole no_map 100 pass start ≡ some (finish, messages_sent.1)
unfolding update_drums send_pending evaluate_pad sense advance scan is_connector_active sense_active
    read_input_values get_active_pin_count mathlib.Core.Option.bind read_input determine_hit_zone
    get_active_zone_count scan_velocities scale curve apply_curve evaluate_drum send_note_on
    remove_note remove_note_from is_full
passes = refl

update_drums-Follows_example : Follows silent (finish.queue, messages_sent.1)
unfolding notes
update_drums-Follows_example =
    update_drums-Follows whole no_map 100 pass (omega arith) start finish messages_sent.1
      silent-IsValid tt passes

-- ===== src/Drum/Examples.antt =====
-- Concrete values that the tests of several modules share.
use eaves_drum.Base.{
  replicate, ℕ, ◌-◌, ◌*◌, ◌/◌, true, false, none, some, leb, pos, pos_part, FloatArith,
}
use eaves_drum.Drum.Settings.{
  midi_note_unassigned, DrumSettings, drum, zones2_piezos, no_choke, linear, linear_decay, same,
}
use eaves_drum.Drum.Pin.{DrumPin}
use eaves_drum.Drum.Connector.{DrumConnector}
use eaves_drum.Drum.Pad.{
  DrumPad, open_state, no_event, peak_detect, scan_state, mask_state, hit_event,
}
use eaves_drum.Drum.Sensing.{Environment}
use eaves_drum.Drum.NoteQueue.{NoteEvent, NoteQueue}
use eaves_drum.Drum.Kit.Evaluate.{DrumMappings}

-- Natural numbers in place of `float`s: enough to run the code.
abbrev pub whole : FloatArith
whole = record {
  of_int = pos_part;
  literal = λ n d. n / d;
  fsub = λ a b. a - b;
  fmul = λ a b. a * b;
  fdiv = λ a b. a / b;
  fge = λ a b. leb b a;
  to_uint = λ a. a;
  pow = λ a b. a;
  dsub = λ a b. a - b;
  narrow = λ a. a;
  round = λ a. 0;
}

abbrev pub direct : ℕ → DrumPin
direct i = record { mux = none; mux_index = 255; index = i; offset = 511; offset_balance = pos 0 }

abbrev pub multiplexed : ℕ → DrumPin
multiplexed i = record {
  mux = some 0;
  mux_index = 0;
  index = i;
  offset = 511;
  offset_balance = pos 0;
}

abbrev pub two_pins : DrumConnector
two_pins = record {
  id = "snare";
  pins_count = 2;
  pins = record { z0 = direct 0; z1 = direct 1; z2 = direct 2 };
}

abbrev pub snare_settings : DrumSettings
snare_settings = record {
  pad_type = drum;
  zones_type = zones2_piezos;
  choke_type = no_choke;
  curve_type = linear;
  zone_thresholds_min = same 20;
  zone_thresholds_max = same 600;
  scan_time_us = 3000;
  mask_time_ms = 30;
  decay_time_ms = 0;
  decay_type = linear_decay;
  head_rim_bias = pos 0;
  cross_note_enabled = false;
  almost_closed_threshold = 90;
  closed_threshold = 100;
  move_detect_tolerance = 50;
  chick_detect_timeout_ms = 20;
}

abbrev pub snare : DrumPad
snare = record {
  hihat = record { pedal_cc = 0; state = open_state; is_moving = false; almost_closed_time_ms = 0 };
  cymbal = record { is_choked = false; last_event_type = no_event };
  hit_time_us = 0;
  scan_time_end_us = 0;
  sensor_values = same 0;
  max_zone_values = same 0;
  hit_velocities = same 0;
  hits = same false;
  index = 0;
  name = "snare";
  role = "Snare";
  group = "";
  auto_calibrate = false;
  enabled = true;
  settings = snare_settings;
  pedal_pad = none;
  connector = some 0;
  touch = none;
  sensing_state = peak_detect;
  mappings = some 0;
}

-- The analog values of the first pins.
abbrev pub analog : ℕ → ℕ → ℕ → ℕ
analog a b ℕ.zero = a
analog a b (ℕ.suc i) = b

abbrev pub reads : ℕ → ℕ → Environment
reads a b = record {
  inputs = record { read_channel = λ m i. a; read_analog_in_pin = analog a b };
  read_touch_sensor = λ t. false;
}

-- A scan that began at 1000 us, with 400 recorded for the head.
abbrev pub scanning : DrumPad
scanning = record snare {
  sensing_state = scan_state;
  hit_time_us = 1000;
  max_zone_values = record { z0 = 400; z1 = 0; z2 = 0 };
}

-- The same pad after its scan time, when the head reads 300 and the rim 90.
abbrev pub struck : DrumPad
struck = record scanning {
  sensor_values = record { z0 = 300; z1 = 90; z2 = 0 };
  max_zone_values = record { z0 = 400; z1 = 90; z2 = 0 };
  hit_velocities = record { z0 = 84; z1 = 16; z2 = 0 };
  hits = record { z0 = true; z1 = false; z2 = false };
  scan_time_end_us = 4200;
  sensing_state = mask_state;
  cymbal = record { is_choked = false; last_event_type = hit_event };
}

abbrev pub event : ℕ → NoteEvent
event n = record { note = n; on_time = 0 }

abbrev pub silent : NoteQueue
silent = record { pending = replicate 32 (event 0); size = 0 }

abbrev pub mapped : ℕ → DrumMappings
mapped n = record {
  role = "HiHat";
  name = "HiHat";
  note_main = n;
  note_rim = 26;
  note_cup = 53;
  note_cross = midi_note_unassigned;
  closed_notes_enabled = pos 1;
  note_close_main = 42;
  note_close_rim = 22;
  note_close_cup = 53;
}

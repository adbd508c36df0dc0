-- ===== src/Drum/Pin/Tests.antt =====
-- Runs of the reading of pins, and its theorems at concrete values.
use eaves_drum.Base.{ℕ, ◌≤◌, ◌≡◌, refl, ◌&&◌, none, some, pos, arith, ◌==◌, if◌then◌else◌}
use eaves_drum.Drum.Pin.{DrumPin, Inputs, read_input, update_offset}
use eaves_drum.Drum.Pin.Calibration.{IsCalibrated, samples, distance, samples_converge}
use eaves_drum.Drum.Pin.Reading.{deviation, calibrating, read_calibrating}

abbrev piezo : DrumPin
piezo = record { mux = some 0; mux_index = 0; index = 3; offset = 511; offset_balance = pos 0 }

abbrev level : ℕ → Inputs
level v = record { read_channel = λ m i. v; read_analog_in_pin = λ i. v }

piezo-IsCalibrated : IsCalibrated piezo
piezo-IsCalibrated = omega arith

steps_up : (update_offset (record piezo { offset_balance = pos 511 }) 600).offset ≡ 512
unfolding update_offset
steps_up = refl

samples_converge_example : (samples (distance piezo 600) 600 piezo).offset ≡ 600
samples_converge_example =
    samples_converge (distance piezo 600) 600 piezo piezo-IsCalibrated (omega arith) (omega arith)

read_calibrating_example :
    let q = update_offset piezo 900 in
    (read_input (level 900) piezo calibrating
      ≡ (if (900 == 0) && (q.offset == 0) then none else some (deviation 900 q.offset, q)))
    × (deviation 900 q.offset ≤ 1023)
    × IsCalibrated q
read_calibrating_example =
    read_calibrating (level 900) piezo 0 refl piezo-IsCalibrated (omega arith)

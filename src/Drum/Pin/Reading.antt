-- ===== src/Drum/Pin/Reading.antt =====
-- What `DrumPad::readInput` makes of a raw value.
use eaves_drum.Base.{
  ℕ, ◌-◌, ◌*◌, ◌/◌, ◌≤◌, ◌<◌, ◌≡◌, ◌∙◌, ap, none, some, arith, if◌then◌else◌, true, false, ◌==◌,
  ◌&&◌, ltb,
}
use eaves_drum.Drum.Pin.{
  DrumPin, Inputs, InputFlags, remove_offset, fold_at_middle, invert_input, read_input, raw_value,
  update_offset,
}
use eaves_drum.Drum.Pin.Calibration.{
  IsCalibrated, samples, distance, samples_converge, samples-place, samples-IsCalibrated,
  update_offset_lem, update_offset_settled,
}

div_le : (a d : ℕ) → a ≤ d → a * 1023 / d ≤ 1023
div_le a d h = grind arith

-- The distance from the offset, scaled to the full range on either side.
pub deviation : ℕ → ℕ → ℕ
deviation raw offset =
    if ltb offset raw
    then (raw - offset) * 1023 / (1023 - offset)
    else (offset - raw) * 1023 / offset

-- Inside the sensor's range the removal of the offset faults exactly at 0 with the offset 0, and
-- else gives the scaled distance from the offset, with no wrap.
pub remove_offset_lem :
    (raw offset : ℕ)
    → raw ≤ 1023
    → offset ≤ 1023
    → remove_offset raw offset
      ≡ (if (raw == 0) && (offset == 0) then none else some (deviation raw offset))
unfolding remove_offset deviation
remove_offset_lem raw offset h k =
    ground (arith, div_le (raw - offset) (1023 - offset), div_le (offset - raw) offset)

pub deviation_range : (raw offset : ℕ) → raw ≤ 1023 → offset ≤ 1023 → deviation raw offset ≤ 1023
unfolding deviation
deviation_range raw offset h k =
    ground (arith, div_le (raw - offset) (1023 - offset), div_le (offset - raw) offset)

mul-div : (d : ℕ) → 0 < d → d * 1023 / d ≡ 1023
mul-div d h = grind arith

pub deviation_ends :
    (offset : ℕ)
    → 0 < offset
    → offset < 1023
    → (deviation 0 offset ≡ 1023) × (deviation offset offset ≡ 0) × (deviation 1023 offset ≡ 1023)
unfolding deviation
deviation_ends offset h k =
    (ground (arith, mul-div offset), ground arith, ground (arith, mul-div (1023 - offset)))

abbrev pub calibrating : InputFlags
calibrating = record { auto_calibrate = true; invert = false }

abbrev pub plain : InputFlags
plain = record { auto_calibrate = false; invert = false }

abbrev pub inverting : InputFlags
inverting = record { auto_calibrate = false; invert = true }

module _ (io : Inputs) (p : DrumPin) (m : ℕ) (on_mux : p.mux ≡ some m) where
  raw-mux : raw_value io p ≡ io.read_channel m p.index
  unfolding raw_value
  raw-mux = rw (on_mux, raw_value)

  -- A calibrating read of a multiplexed pin with a valid calibration and a value up to 1023 faults
  -- exactly if the value and the new offset are 0, and else gives the distance from the new
  -- offset, scaled to at most 1023; the new calibration is valid.
  pub read_calibrating :
      IsCalibrated p
      → io.read_channel m p.index ≤ 1023
      → let v = io.read_channel m p.index in
        let q = update_offset p v in
        (read_input io p calibrating
          ≡ (if (v == 0) && (q.offset == 0) then none else some (deviation v q.offset, q)))
        × (deviation v q.offset ≤ 1023)
        × IsCalibrated q
  unfolding read_input
  read_calibrating c h =
      let v = io.read_channel m p.index in
      let q = update_offset p v in
      let l = update_offset_lem p v c h in
      let e = remove_offset_lem v q.offset h l.0.in_range in
      (ground (arith, e), deviation_range v q.offset h l.0.in_range, l.0)

  -- A plain read of a multiplexed pin with a value up to 1023 gives twice its distance from 511
  -- and leaves the pin.
  pub read_plain :
      io.read_channel m p.index ≤ 1023
      → let v = io.read_channel m p.index in
        read_input io p plain ≡ some (if ltb v 511 then 1022 - 2 * v else 2 * v - 1022, p)
  unfolding read_input fold_at_middle
  read_plain h = ground (arith)

  -- An inverted read of a multiplexed pin with the value 1023 gives 65535 and leaves the pin.
  pub read_inverting_wraps :
      io.read_channel m p.index ≡ 1023 → read_input io p inverting ≡ some (65535, p)
  unfolding read_input fold_at_middle invert_input
  read_inverting_wraps h = ground arith

-- A multiplexed pin with a valid calibration that has read 0 for `distance` samples or more
-- divides by zero at the next calibrating read of 0.
pub drift_faults :
    (io : Inputs) (p : DrumPin) (m n : ℕ)
    → p.mux ≡ some m
    → IsCalibrated p
    → io.read_channel m p.index ≡ 0
    → distance p 0 ≤ n
    → read_input io (samples n 0 p) calibrating ≡ none
drift_faults io p m n on_mux c z d =
    let q = samples n 0 p in
    let place = samples-place n 0 p in
    let cal = samples-IsCalibrated n 0 p c (omega arith) in
    let v : io.read_channel m q.index ≡ 0 = ap (io.read_channel m) place.1 ∙ z in
    let o : q.offset ≡ 0 = samples_converge n 0 p c (omega arith) d in
    let r = read_calibrating io q m (place.0 ∙ on_mux) cal (omega arith) in
    let u : (update_offset q (io.read_channel m q.index)).offset ≡ 0 =
      ap (λ w. (update_offset q w).offset) v ∙ update_offset_settled q 0 cal o in
    r.0 ∙ rw (u, v)

-- ===== src/Drum/Pin.antt =====
-- src/drum/drum_pin.h, and `DrumPad::readInput` of src/drum/drum_pad.cpp.
pub mod Calibration
pub mod Reading
mod Tests
use eaves_drum.Base.{
  ℕ, suc, ◌+◌, ◌-◌, ◌*◌, ◌/◌, ◌%◌, ◌^◌, Bool, Option, none, some, u16, u32, ltb, ◌==◌,
  if◌then◌else◌, ℤ, pos, negsuc, ◌+ℤ◌, leb_ℤ, int16,
}
use mathlib.Core.Option
use eaves_drum.Drum.Settings.{max_sensor_value}

-- `mux` is the pointer to the multiplexer, as its index in the kit.
pub record DrumPin : Type 0 where
  pub mux : Option ℕ
  pub mux_index : ℕ
  pub index : ℕ
  pub offset : ℕ
  pub offset_balance : ℤ

abbrev pub pin_unused : ℕ
pin_unused = 255

abbrev pub mux_unused : ℕ
mux_unused = 255

-- the three constructors
unfoldable pub no_pin : DrumPin
no_pin = record {
  mux = none;
  mux_index = mux_unused;
  index = pin_unused;
  offset = max_sensor_value / 2;
  offset_balance = pos 0;
}

unfoldable pub direct_pin : ℕ → DrumPin
unfolding no_pin
direct_pin pin_index = record no_pin { index = pin_index }

unfoldable pub mux_pin : ℕ → ℕ → ℕ → DrumPin
unfolding no_pin
mux_pin mux mux_index channel_index = record no_pin {
  mux = some mux;
  mux_index = mux_index;
  index = channel_index;
}

unfoldable pub is_pin_valid : DrumPin → Bool
is_pin_valid p = if p.index == pin_unused then Bool.false else Bool.true

pub data SignalType : Type 0 where
  normal voltage_offset : SignalType

unfoldable pub get_signal_type : DrumPin → SignalType
get_signal_type p = elim p.mux [ none ↦ normal | some m ↦ voltage_offset ]

abbrev pub balance_threshold : ℕ
balance_threshold = 512

-- `++offsetBalance` and `--offsetBalance`
count_balance : DrumPin → ℕ → DrumPin
count_balance p value =
    if ltb p.offset value
    then record p { offset_balance = int16 (p.offset_balance +ℤ pos 1) }
    else if ltb value p.offset
    then record p { offset_balance = int16 (p.offset_balance +ℤ negsuc 0) }
    else p

-- The pin after `updateOffset`, which returns its offset.
unfoldable pub update_offset : DrumPin → ℕ → DrumPin
unfolding count_balance
update_offset p value =
    let q = count_balance p value in
    if leb_ℤ (pos 512) q.offset_balance
    then record q { offset = u16 (q.offset + 1); offset_balance = pos 0 }
    else if leb_ℤ q.offset_balance (negsuc 511)
    then record q { offset = u16 (q.offset + 65535); offset_balance = pos 0 }
    else q

-- What the multiplexers' buffers and the analog pins hold at a moment.
pub record Inputs : Type 0 where
  pub read_channel : ℕ → ℕ → ℕ
  pub read_analog_in_pin : ℕ → ℕ

pub record InputFlags : Type 0 where
  pub auto_calibrate : Bool
  pub invert : Bool

unfoldable pub raw_value : Inputs → DrumPin → ℕ
raw_value io p = elim p.mux [
  | none ↦ io.read_analog_in_pin p.index
  | some m ↦ io.read_channel m p.index
]

-- An integer division, which is undefined for a divisor of 0.
abbrev pub divide : ℕ → ℕ → Option ℕ
divide n d = if d == 0 then none else some (n / d)

-- `MAX_SENSOR_VALUE - offset` is converted to `uint32_t`.
unfoldable pub remove_offset : ℕ → ℕ → Option ℕ
remove_offset result offset =
    if ltb offset result
    then Option.map u16 (
        divide (u32 ((result - offset) * max_sensor_value))
          (u32 (max_sensor_value + 2 ^ 32 - offset)))
    else Option.map u16 (divide (u32 ((offset - result) * max_sensor_value)) offset)

-- `abs(result - MAX_SENSOR_VALUE / 2) * 2`
unfoldable pub fold_at_middle : ℕ → ℕ
fold_at_middle result = u16 ((if ltb result 511 then 511 - result else result - 511) * 2)

unfoldable pub invert_input : ℕ → ℕ
invert_input result = u16 (max_sensor_value + 65536 - result)

-- `none` is a division by zero.
unfoldable pub read_input : Inputs → DrumPin → InputFlags → Option (ℕ × DrumPin)
unfolding raw_value get_signal_type
read_input io p flags =
    let raw = raw_value io p in
    let inverted : ℕ → ℕ = λ r. if flags.invert then invert_input r else r in
    elim (get_signal_type p) [
      | normal ↦ some (inverted raw, p)
      | voltage_offset ↦
          if flags.auto_calibrate
          then (let q = update_offset p raw in
              Option.map (λ r. (inverted r, q)) (remove_offset raw q.offset))
          else some (inverted (fold_at_middle raw), p)
    ]

-- ===== src/Drum/Mux.antt =====
-- src/drum/drum_mux.h, src/drum/drum_mux.cpp: `DrumMux`, which reads its channels one after the other.
-- The board's `DrumIO` is a parameter: the outcomes of its initializations, and what an analog pin
-- reads after what was written to the digital pins.
pub mod Levels
pub mod Scan
pub mod Switching
mod Tests
use eaves_drum.Base.{
  ℕ, zero, suc, ◌+◌, ◌/◌, ◌%◌, ◌^◌, Bool, true, false, not, ◌&&◌, ◌||◌, ltb, ◌==◌, if◌then◌else◌,
  List, [], ◌∷◌, ◌++◌, set, get_or, replicate, for_range, u8,
}
use eaves_drum.Drum.Pin.{pin_unused}

pub record DrumMux : Type 0 where
  pub initialized : Bool
  pub analog_in_pin : ℕ
  pub enable_pin : ℕ
  pub channel_count : ℕ
  pub select_pins_count : ℕ
  pub select_pins : List ℕ
  pub channel_buffer : List ℕ

-- What happens at the board's pins.
pub data PinEvent : Type 0 where
  write_digital : ℕ → Bool → PinEvent
  read_analog : ℕ → PinEvent

abbrev pub max_channel_count : ℕ
max_channel_count = 16

-- `channel & (1 << i)`
unfoldable pub has_bit : ℕ → ℕ → Bool
has_bit channel i = not ((channel / 2 ^ i) % 2 == 0)

-- The loop of `selectChannel`: the pins that are left, from the index `i`.
unfoldable pub select_from : List ℕ → ℕ → ℕ → ℕ → List PinEvent
select_from pins zero i channel = []
select_from pins (suc k) i channel =
    write_digital (get_or pins i pin_unused) (has_bit channel i)
    ∷ select_from pins k (i + 1) channel

unfoldable pub select_channel : DrumMux → ℕ → List PinEvent
unfolding select_from
select_channel mux channel = select_from mux.select_pins mux.select_pins_count 0 channel

-- Low enables.
unfoldable pub set_mux_enabled : DrumMux → Bool → List PinEvent
set_mux_enabled mux enable =
    if mux.enable_pin == pin_unused then [] else write_digital mux.enable_pin (not enable) ∷ []

-- One round of `scan`: `read` is what the board reads at an analog pin after the writes and reads so
-- far, as in `readMuxChannel`.
unfoldable pub scan_channel :
    (List PinEvent → ℕ → ℕ) → ℕ → DrumMux × List PinEvent → DrumMux × List PinEvent
unfolding select_channel set_mux_enabled
scan_channel read channel (mux, events) =
    let selected = events ++ (select_channel mux channel ++ set_mux_enabled mux true) in
    (
      record mux {
        channel_buffer = set mux.channel_buffer channel (read selected mux.analog_in_pin);
      },
      selected ++ (read_analog mux.analog_in_pin ∷ set_mux_enabled mux false),
    )

unfoldable pub scan_mux : (List PinEvent → ℕ → ℕ) → DrumMux → DrumMux × List PinEvent
unfolding scan_channel
scan_mux read mux =
    if mux.initialized
    then for_range mux.channel_count 0 (scan_channel read) (mux, [])
    else (mux, [])

unfoldable pub read_channel_value : DrumMux → ℕ → ℕ
read_channel_value mux channel = get_or mux.channel_buffer channel 0

module _ (init_digital init_analog : ℕ → Bool) where
  -- The loop over the select pins: which pins fail.
  unfoldable pub init_select_pins : List ℕ → ℕ → ℕ → Bool
  init_select_pins pins zero i = true
  init_select_pins pins (suc k) i =
      init_digital (get_or pins i pin_unused) && init_select_pins pins k (i + 1)

  -- `init`, by the state that it leaves; `1 << selectPinsCount` is stored in a `uint8_t`.
  unfoldable pub init_mux : DrumMux → ℕ → List ℕ → ℕ → ℕ → DrumMux
  unfolding init_select_pins
  init_mux mux count pins analog_in enable =
      let channels = u8 (2 ^ count) in
      record mux {
        analog_in_pin = analog_in;
        enable_pin = enable;
        select_pins_count = count;
        channel_count = channels;
        select_pins =
            for_range count 0 (λ i ps. set ps i (get_or pins i pin_unused)) mux.select_pins;
        initialized =
            not (ltb max_channel_count channels)
            && (init_analog analog_in
                && (((enable == pin_unused) || init_digital enable)
                    && init_select_pins pins count 0));
      }

-- ===== src/Midi/Multiplexer.antt =====
-- src/midi/midi_transport.h: `MidiTransportMultiplexer`. A transport is a number, and a null pointer
-- is `none`, as is the outcome of a call through it.
pub mod Running
mod Tests
use mathlib.Core.Option
use eaves_drum.Base.{
  ℕ, Bool, true, false, not, Option, none, some, List, [], ◌∷◌, ◌++◌, if◌then◌else◌, ◌==◌,
}
use eaves_drum.Drum.Kit.Notes.{MidiMessage}

pub data MidiOutputMode : Type 0 where
  usb_device usb_host serial_din ble_client ble_server : MidiOutputMode
  guitar_hero_drum_spi guitar_hero_drum_wii rockband_drum gamepad_usb : MidiOutputMode

-- The position of a mode in its enumeration.
abbrev pub mode_index : MidiOutputMode → ℕ
mode_index usb_device = 0
mode_index usb_host = 1
mode_index serial_din = 2
mode_index ble_client = 3
mode_index ble_server = 4
mode_index guitar_hero_drum_spi = 5
mode_index guitar_hero_drum_wii = 6
mode_index rockband_drum = 7
mode_index gamepad_usb = 8

pub record MidiTransportInstances : Type 0 where
  pub on_usb_device : Option ℕ
  pub on_usb_host : Option ℕ
  pub on_serial_din : Option ℕ
  pub on_ble_client : Option ℕ
  pub on_ble_server : Option ℕ
  pub on_guitar_hero_wii : Option ℕ
  pub on_guitar_hero_spi : Option ℕ
  pub on_rockband : Option ℕ
  pub on_gamepad : Option ℕ

unfoldable pub get_transport_instance : MidiTransportInstances → MidiOutputMode → Option ℕ
get_transport_instance is usb_device = is.on_usb_device
get_transport_instance is usb_host = is.on_usb_host
get_transport_instance is serial_din = is.on_serial_din
get_transport_instance is ble_client = is.on_ble_client
get_transport_instance is ble_server = is.on_ble_server
get_transport_instance is guitar_hero_drum_spi = is.on_guitar_hero_spi
get_transport_instance is guitar_hero_drum_wii = is.on_guitar_hero_wii
get_transport_instance is rockband_drum = is.on_rockband
get_transport_instance is gamepad_usb = is.on_gamepad

abbrev push_if : Option ℕ → MidiOutputMode → List MidiOutputMode → List MidiOutputMode
push_if none mode modes = modes
push_if (some t) mode modes = mode ∷ modes

unfoldable pub get_supported_output_modes : MidiTransportInstances → List MidiOutputMode
get_supported_output_modes is = push_if is.on_usb_device usb_device (
    push_if is.on_usb_host usb_host (
      push_if is.on_serial_din serial_din (
        push_if is.on_ble_client ble_client (
          push_if is.on_ble_server ble_server (
            push_if is.on_guitar_hero_spi guitar_hero_drum_spi (
              push_if is.on_guitar_hero_wii guitar_hero_drum_wii
                (push_if is.on_rockband rockband_drum (push_if is.on_gamepad gamepad_usb []))))))))

pub record Multiplexer : Type 0 where
  pub selected_mode : MidiOutputMode
  pub selected_transport : Option ℕ
  pub initialized : Bool

-- The calls that reach a transport.
pub data Effect : Type 0 where
  started : ℕ → MidiOutputMode → Effect
  stopped : ℕ → Effect

-- The multiplexer after a call, and the calls that it made.
abbrev pub Outcome : Type 0
Outcome = Option (Multiplexer × List Effect)

unfoldable pub new_multiplexer : MidiTransportInstances → Multiplexer
new_multiplexer is = record {
  selected_mode = usb_device;
  selected_transport = is.on_usb_device;
  initialized = false;
}

-- The selected transport stops, and the new one starts.
switch_running : Option ℕ → Option ℕ → MidiOutputMode → Option (List Effect)
switch_running none new mode = none
switch_running (some old) none mode = none
switch_running (some old) (some new) mode = some (stopped old ∷ started new mode ∷ [])

module _ (is : MidiTransportInstances) where
  unfoldable pub set_output_mode : Multiplexer → MidiOutputMode → Outcome
  unfolding switch_running get_transport_instance
  set_output_mode m mode =
      let new = get_transport_instance is mode in
      let selected : Multiplexer = record m { selected_mode = mode; selected_transport = new } in
      if mode_index mode == mode_index m.selected_mode
      then some (m, [])
      else if m.initialized
      then Option.map (λ es. (selected, es)) (switch_running m.selected_transport new mode)
      else some (selected, [])

  unfoldable pub start_selected : Multiplexer → Outcome
  start_selected m =
      Option.map (λ t. (record m { initialized = true }, started t m.selected_mode ∷ []))
        m.selected_transport

  unfoldable pub start : Multiplexer → MidiOutputMode → Outcome
  unfolding set_output_mode start_selected
  start m mode = Option.bind (set_output_mode m mode) (λ r.
      if m.initialized
      then some r
      else Option.map (λ (s : Multiplexer × List Effect). (s.0, r.1 ++ s.1)) (start_selected r.0))

  unfoldable pub stop : Multiplexer → Outcome
  stop m = Option.map (λ t. (record m { initialized = false }, stopped t ∷ [])) m.selected_transport

-- `sendNoteOn` and the other messages: the transport that gets it.
unfoldable pub forward : Multiplexer → MidiMessage → Option (ℕ × MidiMessage)
forward m message = Option.map (λ t. (t, message)) m.selected_transport

-- ===== src/Midi/Multiplexer/Tests.antt =====
-- A board with USB and a serial port, and runs of its multiplexer.
use eaves_drum.Base.{◌≡◌, refl, false, none, some, List, [], ◌∷◌}
use eaves_drum.Midi.Multiplexer.{
  usb_device, serial_din, rockband_drum, MidiTransportInstances, get_transport_instance,
  new_multiplexer, start,
}
use eaves_drum.Midi.Multiplexer.Running.{
  Call, select, resume, begin, halt, InStep, Passes, run, run-Passes, start_unsupported,
}

abbrev board : MidiTransportInstances
board = record {
  on_usb_device = some 1;
  on_usb_host = none;
  on_serial_din = some 2;
  on_ble_client = none;
  on_ble_server = none;
  on_guitar_hero_wii = none;
  on_guitar_hero_spi = none;
  on_rockband = none;
  on_gamepad = none;
}

fresh-InStep : InStep board (new_multiplexer board) []
unfolding new_multiplexer get_transport_instance
fresh-InStep = record { transport = 1; of_mode = refl; selected = refl; alone = refl }

abbrev calls : List Call
calls = resume ∷ begin serial_din ∷ select usb_device ∷ halt ∷ []

run-Passes_example : Passes board [] false (run board (new_multiplexer board) calls)
unfolding get_transport_instance new_multiplexer
run-Passes_example =
    run-Passes board calls (new_multiplexer board) [] fresh-InStep
      (refl, ((2, refl), ((1, refl), tt)))

start_unsupported_example : start board (new_multiplexer board) rockband_drum ≡ none
unfolding get_transport_instance new_multiplexer
start_unsupported_example = start_unsupported board (new_multiplexer board) rockband_drum refl refl

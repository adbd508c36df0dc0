-- ===== src/Midi/GuitarHero/Tests.antt =====
-- Hits on a drum of Guitar Hero.
use eaves_drum.Base.{
  ℕ, zero, suc, if◌then◌else◌, ◌≡◌, refl, false, some, [], ◌∷◌, length, arith, ◌==◌,
}
use eaves_drum.Midi.GuitarHero.{pad_index_to_note}
use eaves_drum.Midi.GuitarHero.Spi.{
  SpiState, handle_data_received, message_count, messages, heard, no_hits, host_hears,
}
use eaves_drum.Midi.GuitarHero.Wii.{WiiState, no_midi, WiimoteReport, wiimote_set_report}
use eaves_drum.Midi.GuitarHero.Wii.Held.{
  classic_button, is_on, Consistent, wiimote_set_report-holds,
}

abbrev two_hits : SpiState
two_hits = record { buffer = []; pending = 0 ∷ 90 ∷ 0 ∷ 0 ∷ 70 ∷ 0 ∷ [] }

host_hears_example :
    let asked = handle_data_received two_hits 170 in
    let read = handle_data_received asked.0 85 in
    (asked.1 ≡ some (message_count 2))
    × (read.1 ≡ some (messages asked.0.buffer))
    × (length asked.0.buffer ≡ 2)
    × (heard asked.0.buffer (pad_index_to_note 4) ≡ 70)
    × (read.0 ≡ record { buffer = []; pending = no_hits })
host_hears_example = host_hears two_hits 4 refl (omega arith) (omega arith)

abbrev still : WiimoteReport
still = record {
  wiimote = record {
    b_up = false;
    b_down = false;
    b_left = false;
    b_right = false;
    b_a = false;
    b_minus = false;
    b_plus = false;
    b_home = false;
  };
  classic = record {
    ls_x = 32;
    ls_y = 32;
    c_up = false;
    c_down = false;
    c_left = false;
    c_right = false;
    c_minus = false;
    c_plus = false;
    c_home = false;
    c_a = false;
    c_b = false;
    c_x = false;
    c_y = false;
    c_lz = false;
    c_rz = false;
  };
  midi = no_midi;
}

abbrev blue_hit : WiiState
blue_hit = record {
  hit_times_ms = λ p. if p == 1 then 100 else 0;
  report = still;
  was_pressed = false;
}

all_up : (p : ℕ) → classic_button still.classic p ≡ false
unfolding classic_button
all_up zero = refl
all_up (suc zero) = refl
all_up (suc (suc zero)) = refl
all_up (suc (suc (suc zero))) = refl
all_up (suc (suc (suc (suc zero)))) = refl
all_up (suc (suc (suc (suc (suc zero))))) = refl
all_up (suc (suc (suc (suc (suc (suc p)))))) = refl

blue_hit-Consistent : Consistent blue_hit
blue_hit-Consistent p lt h = all_up p

wiimote_set_report-holds_example :
    let r = wiimote_set_report blue_hit 110 in
    (classic_button r.1.classic 1 ≡ is_on 100 110)
    × (r.1.midi ≡ no_midi)
    × (r.0.report.midi ≡ no_midi)
    × Consistent r.0
wiimote_set_report-holds_example =
    wiimote_set_report-holds blue_hit 110 1 blue_hit-Consistent (omega arith)

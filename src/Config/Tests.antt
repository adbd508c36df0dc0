-- ===== src/Config/Tests.antt =====
-- Configurations that are saved and loaded again, in a concrete JSON document.
use eaves_drum.Base.{◌≡◌, inl, inr, refl, true, arith, pos, List, [], ◌∷◌, All}
use eaves_drum.Drum.Kit.Evaluate.{DrumMappings}
use eaves_drum.Drum.Kit.Tables.{new_mappings}
use eaves_drum.Drum.Pad.{reinitialize_settings}
use eaves_drum.Drum.Pin.{DrumPin, direct_pin, mux_pin}
use eaves_drum.Drum.Connector.{new_connector, set_pins}
use eaves_drum.Drum.Mux.{DrumMux}
use eaves_drum.Drum.Examples.{snare, snare_settings}
use eaves_drum.Config.Names.{ignoring_case}
use eaves_drum.Config.Connectors.{apply_pins_config, convert_pins_to_json}
use eaves_drum.Config.Connectors.Saved.{IsConfigured, apply_pins_config-convert_pins_to_json}
use eaves_drum.Config.Muxes.{get_mux_type, rejected, apply_mux_config, convert_mux_config_to_json}
use eaves_drum.Config.Muxes.Saved.{Stored, apply_mux_config-convert_mux_config_to_json}
use eaves_drum.Config.Settings.{apply_pad_settings, convert_pad_settings_to_json}
use eaves_drum.Config.Settings.Lookup.{groups}
use eaves_drum.Config.Settings.Saved.{Fit, merged, apply_pad_settings-convert_pad_settings_to_json}
use eaves_drum.Config.Examples.{values, values-Documented}
use eaves_drum.Config.Mappings.{apply_mappings, convert_mappings_to_json}
use eaves_drum.Config.Mappings.Saved.{IsValid, apply_mappings-convert_mappings_to_json}

abbrev hihat : DrumMappings
hihat = record {
  role = "hihat";
  name = "Hi-Hat";
  note_main = 46;
  note_rim = 26;
  note_cup = 255;
  note_cross = 255;
  closed_notes_enabled = pos 1;
  note_close_main = 42;
  note_close_rim = 22;
  note_close_cup = 255;
}

hihat-IsValid : IsValid hihat
hihat-IsValid = record {
  main = inl (omega arith);
  rim = inl (omega arith);
  cup = inr refl;
  cross = inr refl;
  closed = inr (true, refl);
  close_main = inl (omega arith);
  close_rim = inl (omega arith);
  close_cup = inr refl;
}

apply_mappings-convert_mappings_to_json_example :
    apply_mappings values
      (new_mappings (λ a b. true) "hihat")
      (values.of_object (convert_mappings_to_json values (λ s. true) hihat values.empty_object))
    ≡ hihat
apply_mappings-convert_mappings_to_json_example =
    apply_mappings-convert_mappings_to_json values values-Documented (λ s. true) hihat
      (λ s h. absurd (cc)) hihat-IsValid

abbrev two_pins : List DrumPin
two_pins = direct_pin 26 ∷ mux_pin 0 0 5 ∷ []

two_pins-IsConfigured : All (IsConfigured (8 ∷ [])) two_pins
two_pins-IsConfigured = (
  inl (26, omega arith, refl),
  (inr (0, 5, 8, omega arith, omega arith, refl, omega arith, refl), tt),
)

apply_pins_config-convert_pins_to_json_example :
    apply_pins_config values (8 ∷ []) (new_connector "snare") (
      values.of_array (
        convert_pins_to_json values
          (8 ∷ [])
          (set_pins (new_connector "snare") two_pins 2)
          values.empty_array))
    ≡ (set_pins (new_connector "snare") two_pins 2, true)
apply_pins_config-convert_pins_to_json_example =
    apply_pins_config-convert_pins_to_json values values-Documented (8 ∷ []) "snare" two_pins
      (omega arith) (omega arith) two_pins-IsConfigured

-- A multiplexer with three select pins, in whose fourth place there is something else.
abbrev left_over : DrumMux
left_over = record {
  initialized = true;
  analog_in_pin = 28;
  enable_pin = 255;
  channel_count = 8;
  select_pins_count = 3;
  select_pins = 2 ∷ 3 ∷ 4 ∷ 17 ∷ [];
  channel_buffer = [];
}

left_over-Stored : Stored left_over
left_over-Stored = record {
  p0 = 2;
  p1 = 3;
  p2 = 4;
  p3 = 17;
  select = refl;
  count = inl refl;
  byte0 = omega arith;
  byte1 = omega arith;
  byte2 = omega arith;
  byte3 = omega arith;
  analog = omega arith;
  enable = omega arith;
}

apply_mux_config-convert_mux_config_to_json_example :
    apply_mux_config values ignoring_case
      (λ p. true)
      (λ p. true)
      left_over
      (values.of_object (convert_mux_config_to_json values left_over values.empty_object))
    ≡ rejected
unfolding get_mux_type
apply_mux_config-convert_mux_config_to_json_example =
    apply_mux_config-convert_mux_config_to_json values values-Documented ignoring_case (λ s t. refl)
      (λ p. true) (λ p. true) left_over left_over left_over-Stored

snare_settings-Fit : Fit snare_settings
snare_settings-Fit = record {
  low = (omega arith, omega arith, omega arith);
  high = (omega arith, omega arith, omega arith);
  scan_time = omega arith;
  mask = omega arith;
  decay = omega arith;
  tolerance = omega arith;
  timeout = omega arith;
  bias_low = omega arith;
  bias_high = omega arith;
}

apply_pad_settings-convert_pad_settings_to_json_example :
    apply_pad_settings values ignoring_case snare
      (values.of_object (convert_pad_settings_to_json values snare_settings values.empty_object))
    ≡ reinitialize_settings (record snare {
      settings =
          merged
            (groups snare_settings.zones_type snare_settings.pad_type)
            snare_settings
            snare.settings;
    })
apply_pad_settings-convert_pad_settings_to_json_example =
    apply_pad_settings-convert_pad_settings_to_json values values-Documented ignoring_case
      (λ s t. refl) snare snare_settings snare_settings-Fit

-- ===== src/Drum/Mux/Tests.antt =====
-- A multiplexer with eight channels.
use eaves_drum.Base.{
  ℕ, ◌<◌, ◌≢◌, ap, inl, inr, ◌⊎◌, Bool, List, ◌+◌, ◌≡◌, refl, true, false, [], ◌∷◌, replicate,
  arith, ltb, if◌then◌else◌,
}
use eaves_drum.Drum.Mux.{
  DrumMux, init_mux, scan_mux, read_channel_value, has_bit, select_channel, write_digital, PinEvent,
}
use eaves_drum.Drum.Mux.Levels.{level}
use eaves_drum.Drum.Mux.Switching.{Keeps}
use eaves_drum.Drum.Mux.Scan.{Wiring, Selects, select_pin, scan_mux-reads}

abbrev blank : DrumMux
blank = record {
  initialized = false;
  analog_in_pin = 0;
  enable_pin = 0;
  channel_count = 0;
  select_pins_count = 0;
  select_pins = replicate 4 255;
  channel_buffer = replicate 16 0;
}

abbrev eight : DrumMux
eight = record {
  initialized = true;
  analog_in_pin = 26;
  enable_pin = 255;
  channel_count = 8;
  select_pins_count = 3;
  select_pins = 2 ∷ 3 ∷ 4 ∷ 255 ∷ [];
  channel_buffer = replicate 16 0;
}

initializes : init_mux (λ i. true) (λ i. true) blank 3 (2 ∷ 3 ∷ 4 ∷ 255 ∷ []) 26 255 ≡ eight
unfolding init_mux
initializes = refl

selects_five :
    select_channel eight 5
    ≡ write_digital 2 true ∷ write_digital 3 false ∷ write_digital 4 true ∷ []
unfolding select_channel has_bit
selects_five = refl

-- The same with an enable pin.
abbrev gated : DrumMux
gated = record eight { enable_pin = 5 }

-- All pins are high before the scan.
abbrev high : ℕ → Bool
high pin = true

abbrev digit : Bool → ℕ → ℕ
digit b n = if b then n else 0

-- A multiplexer at the pins 2, 3 and 4, enabled by pin 5, whose channel `c` has the value `c + 100`.
abbrev wired : List PinEvent → ℕ → ℕ
wired events pin =
    if level 5 true events
    then 0
    else digit (level 2 true events) 1
      + (digit (level 3 true events) 2 + digit (level 4 true events) 4)
      + 100

digits :
    (c : ℕ) → c < 8 → digit (has_bit c 0) 1 + (digit (has_bit c 1) 2 + digit (has_bit c 2) 4) ≡ c
unfolding has_bit
digits c h = ground arith

wired_passes :
    (events : List PinEvent) (c : ℕ)
    → c < 8
    → Selects high gated events c
    → wired events 26 ≡ c + 100
wired_passes events c h s =
    let zeroth : level 2 true events ≡ has_bit c 0 = s.bits 0 (omega arith) in
    let first : level 3 true events ≡ has_bit c 1 = s.bits 1 (omega arith) in
    let second : level 4 true events ≡ has_bit c 2 = s.bits 2 (omega arith) in
    elim s.enabled [
      | inl unused ↦ absurd (omega (arith, unused))
      | inr low ↦ rw (low, zeroth, first, second) (ap (λ n. n + 100) (digits c h))
    ]

differ : (i j : ℕ) → i < 3 → j < 3 → select_pin gated i ≡ select_pin gated j → i ≡ j
differ i j h k e = ground arith

apart : (i : ℕ) → i < 3 → select_pin gated i ≢ 5
apart i h e = ground arith

wired-Wiring : Wiring wired high gated (λ c. c + 100)
wired-Wiring = record { passes = wired_passes; distinct = differ; apart = apart }

scan_mux-reads_example :
    (read_channel_value (scan_mux wired gated).0 5
      ≡ (if ltb 5 8 then 5 + 100 else read_channel_value gated 5))
    × (◌≡◌ {A = ℕ} 5 255 ⊎ Keeps 5 true (scan_mux wired gated).1 true)
scan_mux-reads_example =
    scan_mux-reads wired high gated (λ c. c + 100) 5 wired-Wiring refl (omega arith) (inr refl)

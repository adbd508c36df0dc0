-- ===== src/Drum/Connector.antt =====
-- src/drum/drum_connector.h and drum_connector.cpp.
use eaves_drum.Base.{ℕ, Bool, List, [], ◌∷◌, ◌++◌, none, some, String, if◌then◌else◌, for_range}
use eaves_drum.Drum.Settings.{Zones, at, put, same}
use eaves_drum.Drum.Pin.{DrumPin, no_pin}

abbrev pub max_sensor_pins : ℕ
max_sensor_pins = 3

pub record DrumConnector : Type 0 where
  pub id : String
  pub pins_count : ℕ
  pub pins : Zones DrumPin

unfoldable pub new_connector : String → DrumConnector
new_connector id = record { id = id; pins_count = 0; pins = same no_pin }

-- The copy loop of `setPins`; the caller has cut the list to three pins.
set_pins_from : ℕ → Zones DrumPin → List DrumPin → Zones DrumPin
set_pins_from i z [] = z
set_pins_from i z (p ∷ ps) = set_pins_from (ℕ.suc i) (put z i p) ps

unfoldable pub set_pins : DrumConnector → List DrumPin → ℕ → DrumConnector
unfolding set_pins_from
set_pins c ps pin_count = record c { pins = set_pins_from 0 c.pins ps; pins_count = pin_count }

-- The pins for which `start` reports an error; `init` is `DrumIO::initAnalogInPin`.
start_pin : (ℕ → Bool) → DrumPin → List ℕ
start_pin init p = elim p.mux [ none ↦ if init p.index then [] else p.index ∷ [] | some m ↦ [] ]

unfoldable pub start : (ℕ → Bool) → DrumConnector → List ℕ
unfolding start_pin
start init c = for_range c.pins_count 0 (λ i errors. errors ++ start_pin init (at c.pins i)) []

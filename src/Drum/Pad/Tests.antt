-- ===== src/Drum/Pad/Tests.antt =====
-- Theorems about a pad's zones at a concrete connector.
use eaves_drum.Base.{◌≡◌, refl, true, some}
use eaves_drum.Drum.Pad.{is_connector_active}
use eaves_drum.Drum.Examples.{two_pins}

two_pins-active : is_connector_active (some two_pins) ≡ true
unfolding is_connector_active
two_pins-active = refl

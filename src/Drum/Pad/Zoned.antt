-- ===== src/Drum/Pad/Zoned.antt =====
-- How many zones a pad has.
use eaves_drum.Base.{◌≤◌, ◌≡◌, ◌⊎◌, true, Option, some, none, arith}
use eaves_drum.Drum.Settings.{
  ZonesType, zones3_piezo_and_switches_1trs, get_zone_count, get_required_pin_count,
}
use eaves_drum.Drum.Connector.{DrumConnector}
use eaves_drum.Drum.Pad.{get_active_zone_count, is_connector_active}

-- A pad with an active connector has at least one active zone, and at most the zones of its type.
pub active_zone_count_bounds :
    (t : ZonesType) (c : DrumConnector)
    → is_connector_active (some c) ≡ true
    → (1 ≤ get_active_zone_count t (some c)) × (get_active_zone_count t (some c) ≤ get_zone_count t)
unfolding is_connector_active get_active_zone_count
active_zone_count_bounds zones3_piezo_and_switches_1trs c h = ground arith
active_zone_count_bounds t c h = ground arith

-- A connector with the pins that the type requires serves all its zones.
pub active_zone_count_full :
    (t : ZonesType) (c : DrumConnector)
    → get_required_pin_count t ≤ c.pins_count
    → get_active_zone_count t (some c) ≡ get_zone_count t
unfolding get_active_zone_count get_required_pin_count
active_zone_count_full zones3_piezo_and_switches_1trs c h = ground arith
active_zone_count_full t c h = ground arith

-- The three counts that an active connector allows.
pub active_zone_count_cases :
    (t : ZonesType) (c : Option DrumConnector)
    → is_connector_active c ≡ true
    → (get_active_zone_count t c ≡ 1)
      ⊎ (get_active_zone_count t c ≡ 2)
      ⊎ (get_active_zone_count t c ≡ 3)
unfolding is_connector_active get_active_zone_count
active_zone_count_cases t none h = absurd (cc)
active_zone_count_cases zones3_piezo_and_switches_1trs (some c) h = ground arith
active_zone_count_cases t (some c) h = ground arith

pub active_zone_count_small :
    (t : ZonesType) (c : Option DrumConnector)
    → is_connector_active c ≡ true
    → (1 ≤ get_active_zone_count t c) × (get_active_zone_count t c ≤ 3)
active_zone_count_small t c h = omega (arith, active_zone_count_cases t c h)

-- ===== src/Drum/Sensing/PiezoSwitch/HitZone.antt =====
-- Which zone a one-piezo cymbal reports, and when.
use eaves_drum.Base.{if◌then◌else◌, ℕ, zero, suc, ◌≤◌, ◌<◌, ◌≡◌, ◌⊎◌, arith, ◌==◌}
use eaves_drum.Drum.Settings.{Zones, at}
use eaves_drum.Drum.Sensing.{find_max_value_index}
use eaves_drum.Drum.Sensing.PiezoSwitch.{switched_zone}

-- For up to three zones and a switch's zone among them, the chosen zone exists, no switch counted
-- more presses than the chosen one (none counted any if the piezo's zone is chosen), and a switch
-- that is chosen counted at least one.
pub switched_zone_lem :
    (n i : ℕ) (counters : Zones ℕ)
    → 1 ≤ n
    → n ≤ 3
    → 1 ≤ i
    → i < n
    → let z = switched_zone n counters in
      (z < n)
      × (at counters i ≤ (if z == 0 then 0 else at counters z))
      × ((z ≡ 0) ⊎ (0 < at counters z))
unfolding switched_zone find_max_value_index
switched_zone_lem zero i counters h k l m = absurd (omega arith)
switched_zone_lem (suc zero) i counters h k l m = absurd (omega arith)
switched_zone_lem (suc (suc zero)) zero counters h k l m = absurd (omega arith)
switched_zone_lem (suc (suc zero)) (suc zero) counters h k l m =
    (ground arith, ground arith, ground arith)
switched_zone_lem (suc (suc zero)) (suc (suc i)) counters h k l m = absurd (omega arith)
switched_zone_lem (suc (suc (suc zero))) zero counters h k l m = absurd (omega arith)
switched_zone_lem (suc (suc (suc zero))) (suc zero) counters h k l m =
    (ground arith, ground arith, ground arith)
switched_zone_lem (suc (suc (suc zero))) (suc (suc zero)) counters h k l m =
    (ground arith, ground arith, ground arith)
switched_zone_lem (suc (suc (suc zero))) (suc (suc (suc i))) counters h k l m = absurd (omega arith)
switched_zone_lem (suc (suc (suc (suc n)))) i counters h k l m = absurd (omega arith)

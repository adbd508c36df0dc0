-- ===== src/Drum/Sensing/Latency/Tests.antt =====
-- A latency test with three samples, two of them above its threshold.
use eaves_drum.Base.{ℕ, ◌≤◌, ◌≡◌, refl, false, List, [], ◌∷◌}
use eaves_drum.Drum.Pin.{Inputs, read_input}
use eaves_drum.Drum.Pad.{is_connector_active, get_active_zone_count}
use eaves_drum.Drum.Sensing.Latency.{LatencyTestInfo, wait_for_hit, sense_latency}
use eaves_drum.Drum.Sensing.Latency.Once.{count_hits, one_latency_hit}
use eaves_drum.Drum.Examples.{snare, two_pins, reads}

abbrev waiting : LatencyTestInfo
waiting = record { start_time_us = 0; state = wait_for_hit; threshold = 40; preview = false }

abbrev sampled : List (Inputs × ℕ)
sampled = ((reads 20 0).inputs, 10) ∷ ((reads 90 0).inputs, 20) ∷ ((reads 95 0).inputs, 30) ∷ []

counts_one : count_hits snare two_pins waiting sampled ≡ 1
unfolding count_hits sense_latency is_connector_active get_active_zone_count read_input
counts_one = refl

one_latency_hit_example : count_hits snare two_pins waiting sampled ≤ 1
unfolding is_connector_active
one_latency_hit_example = one_latency_hit sampled snare two_pins waiting refl refl refl

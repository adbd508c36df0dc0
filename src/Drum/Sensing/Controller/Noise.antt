-- ===== src/Drum/Sensing/Controller/Noise.antt =====
-- What the noise filter of a pedal lets through.
use eaves_drum.Base.{ℕ, ◌+◌, ◌≤◌, ◌<◌, ◌≡◌, ◌⊎◌, u8, min, arith}
use eaves_drum.Drum.Sensing.Controller.{reduce_noise}

-- For a last value up to 1023, the filtered value is at most 1023, it is the last value or the new
-- one cut at 1023, and unless it is the new value or the new value is at an end, the two differ by
-- less than the tolerance as `uint8_t`.
pub reduce_noise_lem :
    (new old tolerance : ℕ)
    → old ≤ 1023
    → let r = reduce_noise new old tolerance in
      (r ≤ 1023)
      × ((r ≡ old) ⊎ (r ≡ min new 1023))
      × ((new ≡ 0)
          ⊎ (1023 ≤ new)
          ⊎ (new ≡ r)
          ⊎ ((new < old + u8 tolerance) × (old < new + u8 tolerance)))
unfolding reduce_noise
reduce_noise_lem new old tolerance h = (ground arith, ground arith, ground arith)

-- For a last value up to 1023, a new value at an end of the range, or beyond it, passes the
-- filter, cut at 1023, whatever the tolerance.
pub reduce_noise_ends :
    (new old tolerance : ℕ)
    → old ≤ 1023
    → (new ≡ 0) ⊎ (1023 ≤ new)
    → reduce_noise new old tolerance ≡ min new 1023
unfolding reduce_noise
reduce_noise_ends new old tolerance h e = ground arith

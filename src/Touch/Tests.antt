-- ===== src/Touch/Tests.antt =====
-- A touch of half a millisecond.
use eaves_drum.Base.{ℕ, ◌+◌, ◌*◌, ◌≡◌, inl, refl, false, some, List, [], ◌∷◌, arith}
use eaves_drum.Touch.{TouchSensorInfo}
use eaves_drum.Touch.Debounced.{Sample, read_all, short_touches}

abbrev calibrated : TouchSensorInfo
calibrated = record {
  calibration = record {
    needs_calibration = false;
    start_time_ms = 5;
    min_value = 40;
    max_value = 60;
  };
  switch_on_threshold = 65;
  switch_off_threshold = 61;
  is_on = false;
  switch_start_us = 0;
}

abbrev touches : List Sample
touches =
    record { raw = some 160; now_ms = 9; now_us = 9000 }
    ∷ record { raw = some 170; now_ms = 9; now_us = 9500 }
    ∷ []

abbrev level : ℕ → ℕ → ℕ
level average deviation = average + deviation * 2

short_touches_example : (read_all level level calibrated touches).is_on ≡ false
short_touches_example =
    short_touches level level 8900 8900 calibrated touches (omega arith) (inl refl)
      (omega arith, omega arith, omega arith, (omega arith, omega arith, omega arith, tt))

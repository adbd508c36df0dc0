-- ===== src/Drum/Sensing/Controller/Closing.antt =====
-- How fast a pedal closes, over its samples. Arduino's `map` is used by its documented formula.
use eaves_drum.Base.{
  ℕ, ◌+◌, ◌-◌, ◌*◌, ◌/◌, ◌<◌, ◌≡◌, ◌≢◌, true, false, leb, ltb, List, [], ◌∷◌, if◌then◌else◌, ℤ, pos,
  pos_part, neg_part, sub_ℕ, ◌+ℤ◌, ◌-ℤ◌,
}
use eaves_drum.Drum.Pad.{DrumPad, almost_closed}
use eaves_drum.Drum.Sensing.Controller.{Position, move_to}

-- The product of integers, and their quotient towards zero.
abbrev times : ℤ → ℤ → ℤ
times a b =
    sub_ℕ (pos_part a * pos_part b + neg_part a * neg_part b)
      (pos_part a * neg_part b + neg_part a * pos_part b)

abbrev magnitude : ℤ → ℕ
magnitude a = pos_part a + neg_part a

abbrev quotient : ℤ → ℤ → ℤ
quotient a b =
    let q = magnitude a / magnitude b in
    if leb (neg_part a) 0
    then (if leb (neg_part b) 0 then pos q else sub_ℕ 0 q)
    else if leb (neg_part b) 0
    then sub_ℕ 0 q
    else pos q

-- The formula of the documentation of `map`, and of src/boards/native/arduino/Common.cpp.
unfoldable pub linear_map : ℕ → ℕ → ℕ → ℕ → ℕ → ℤ
linear_map x in_min in_max out_min out_max =
    quotient (times (pos x -ℤ pos in_min) (pos out_max -ℤ pos out_min)) (pos in_max -ℤ pos in_min)
    +ℤ pos out_min

-- `map` computes it as long as its `long` does not overflow and it does not divide by zero.
pub record Documented (arduino_map : ℕ → ℕ → ℕ → ℕ → ℕ → ℤ) : Type 0 where
  pub formula :
      (x in_min in_max out_min out_max : ℕ)
      → in_min ≢ in_max
      → x < 16777216
      → in_min < 16777216
      → in_max < 16777216
      → out_min < 128
      → out_max < 128
      → arduino_map x in_min in_max out_min out_max ≡ linear_map x in_min in_max out_min out_max

abbrev pub approaching : Position
approaching = record { is_closed = false; is_almost_closed = true }

abbrev pub shut : Position
shut = record { is_closed = true; is_almost_closed = false }

-- The velocity of a pedal that took `x` ms to close, for a timeout of `m` ms.
unfoldable pub chick_strength : ℕ → ℕ → ℕ
chick_strength m x =
    if leb x m then (m - x) * 126 / m + 1 else if ltb ((x - m) * 126) m then 1 else 0

module _ (arduino_map : ℕ → ℕ → ℕ → ℕ → ℕ → ℤ) where
  -- The samples of a pedal that is almost closed.
  pub wait : List ℕ → DrumPad → DrumPad
  wait [] pad = pad
  wait (now ∷ later) pad = wait later (move_to arduino_map approaching now pad)

  -- Almost closed since `start`, for the timeout `m`, without a chick.
  record Waits (start m : ℕ) (pad : DrumPad) : Type 0 where
    state : pad.hihat.state ≡ almost_closed
    since : pad.hihat.almost_closed_time_ms ≡ start
    timeout : pad.settings.chick_detect_timeout_ms ≡ m
    quiet : pad.hits.z0 ≡ false

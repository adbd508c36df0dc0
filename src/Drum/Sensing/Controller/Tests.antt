-- ===== src/Drum/Sensing/Controller/Tests.antt =====
-- A pedal that closes within its timeout, and the theorems about it at concrete values.
use eaves_drum.Base.{◌<◌, ◌≡◌, ◌≢◌, refl, true, false}
use eaves_drum.Drum.Pad.{DrumPad, almost_closed, closed}
use eaves_drum.Drum.Sensing.Controller.{move_to}
use eaves_drum.Drum.Sensing.Controller.Chick.{Moves, move_to-Moves, chick_closes}
use eaves_drum.Drum.Sensing.Controller.Closing.{linear_map, shut, chick_strength}
use eaves_drum.Drum.Examples.{snare}

-- A pedal that has been almost closed since 100 ms.
abbrev pressed : DrumPad
pressed = record snare {
  hihat = record {
    pedal_cc = 0;
    state = almost_closed;
    is_moving = false;
    almost_closed_time_ms = 100;
  };
}

move_to-Moves_example :
    Moves true false pressed.hihat.state (move_to linear_map shut 110 pressed).hihat.state
move_to-Moves_example = move_to-Moves linear_map shut 110 pressed

hits_chick : (move_to linear_map shut 110 pressed).hits.z0 ≡ true
unfolding move_to linear_map
hits_chick = refl

chick_closes_example :
    (pressed.hihat.state ≢ closed)
    × (shut.is_closed ≡ true)
    × ((move_to linear_map shut 110 pressed).hihat.state ≡ closed)
    × (0 < (move_to linear_map shut 110 pressed).hit_velocities.z0)
chick_closes_example = chick_closes linear_map shut 110 pressed hits_chick

strength_inside : chick_strength 20 10 ≡ 64
unfolding chick_strength
strength_inside = refl

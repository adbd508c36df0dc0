-- ===== src/Midi/Rockband/Report.antt =====
-- src/midi/midi_transport_rockband.cpp: the report that the game reads. Bits and bytes of the report
-- that never change are left out.
use eaves_drum.Base.{
  ℕ, zero, suc, ◌/◌, Bool, true, false, not, ◌&&◌, ◌||◌, ltb, ◌==◌, if◌then◌else◌, for_range, sub32,
  List, [], ◌∷◌,
}
use eaves_drum.Midi.Rockband.{
  HitTable, no_hit, num_pads, hit_hold_time_ms, is_pad, is_cymbal, put_hit,
}

-- RBButtons_t; `genericYellowCymbal` is another name of `isPadHit`.
pub record Buttons : Type 0 where
  pub blue : Bool
  pub green : Bool
  pub red : Bool
  pub yellow : Bool
  pub kick_button : Bool
  pub hihat_button : Bool
  pub generic_blue_cymbal : Bool
  pub generic_green_cymbal : Bool
  pub select : Bool
  pub start_button : Bool
  pub pad_flag : Bool
  pub cymbal_flag : Bool
  pub home : Bool

pub record Velocities : Type 0 where
  pub v_yellow : ℕ
  pub v_red : ℕ
  pub v_green : ℕ
  pub v_blue : ℕ

pub record HidReport : Type 0 where
  pub buttons : Buttons
  pub hat : ℕ
  pub velocities : Velocities

abbrev pub no_buttons : Buttons
no_buttons = record {
  blue = false;
  green = false;
  red = false;
  yellow = false;
  kick_button = false;
  hihat_button = false;
  generic_blue_cymbal = false;
  generic_green_cymbal = false;
  select = false;
  start_button = false;
  pad_flag = false;
  cymbal_flag = false;
  home = false;
}

abbrev pub no_velocities : Velocities
no_velocities = record { v_yellow = 0; v_red = 0; v_green = 0; v_blue = 0 }

abbrev pub hat_up : ℕ
hat_up = 0

abbrev pub hat_right : ℕ
hat_right = 2

abbrev pub hat_down : ℕ
hat_down = 4

abbrev pub hat_left : ℕ
hat_left = 6

abbrev pub hat_centered : ℕ
hat_centered = 8

pub data PadHitState : Type 0 where
  unpressed pressed released : PadHitState

unfoldable pub pad_hit_state : HitTable → ℕ → ℕ → PadHitState
pad_hit_state t i now =
    if (t i).time_ms == 0
    then unpressed
    else if ltb hit_hold_time_ms (sub32 now (t i).time_ms)
    then released
    else pressed

-- `updateHidCymbalVelocity`: the cymbal's own velocity, and red's.
abbrev pub yellow_cymbal_velocity : ℕ → Velocities → Velocities
yellow_cymbal_velocity v vs =
    if vs.v_yellow == 0 then record vs { v_yellow = v } else record vs { v_red = v }

abbrev pub blue_cymbal_velocity : ℕ → Velocities → Velocities
blue_cymbal_velocity v vs =
    if vs.v_blue == 0 then record vs { v_blue = v } else record vs { v_red = v }

abbrev pub green_cymbal_velocity : ℕ → Velocities → Velocities
green_cymbal_velocity v vs =
    if vs.v_green == 0 then record vs { v_green = v } else record vs { v_red = v }

-- The report that is being made.
pub record Draft : Type 0 where
  pub table : HitTable
  pub made : HidReport
  pub has_drum_event : Bool

unfoldable pub press_yellow_cymbal : Bool → ℕ → HidReport → HidReport
press_yellow_cymbal generic v r = record {
  buttons =
      if generic
      then record (r.buttons) { pad_flag = true }
      else record (r.buttons) { yellow = true };
  hat = if generic then r.hat else hat_up;
  velocities = yellow_cymbal_velocity v r.velocities;
}

unfoldable pub press_blue_cymbal : Bool → ℕ → HidReport → HidReport
press_blue_cymbal generic v r = record {
  buttons =
      if generic
      then record (r.buttons) { generic_blue_cymbal = true }
      else record (r.buttons) { blue = true };
  hat = if generic then r.hat else hat_down;
  velocities = blue_cymbal_velocity v r.velocities;
}

unfoldable pub press_green_cymbal : Bool → ℕ → HidReport → HidReport
press_green_cymbal generic v r = record r {
  buttons =
      if generic
      then record (r.buttons) { generic_green_cymbal = true }
      else record (r.buttons) { green = true };
  velocities = green_cymbal_velocity v r.velocities;
}

-- `updateHidPadInfo`
unfoldable pub press : Bool → ℕ → ℕ → HidReport → HidReport
unfolding press_yellow_cymbal press_blue_cymbal press_green_cymbal
press generic zero v r = record r {
  buttons = record (r.buttons) { red = true };
  velocities = record (r.velocities) { v_red = v };
}
press generic (suc zero) v r = record r {
  buttons = record (r.buttons) { yellow = true };
  velocities = record (r.velocities) { v_yellow = v };
}
press generic (suc (suc zero)) v r = record r {
  buttons = record (r.buttons) { blue = true };
  velocities = record (r.velocities) { v_blue = v };
}
press generic (suc (suc (suc zero))) v r = record r {
  buttons = record (r.buttons) { green = true };
  velocities = record (r.velocities) { v_green = v };
}
press generic (suc (suc (suc (suc zero)))) v r = press_yellow_cymbal generic v r
press generic (suc (suc (suc (suc (suc zero))))) v r = press_blue_cymbal generic v r
press generic (suc (suc (suc (suc (suc (suc zero)))))) v r = press_green_cymbal generic v r
press generic (suc (suc (suc (suc (suc (suc (suc zero))))))) v r = record r {
  buttons = record (r.buttons) { kick_button = true };
}
press generic (suc (suc (suc (suc (suc (suc (suc (suc zero)))))))) v r = record r {
  buttons = record (r.buttons) { hihat_button = true };
}
press generic _ v r = r

-- The flags that tell pads from cymbals.
unfoldable pub set_flags : Bool → ℕ → HidReport → HidReport
unfolding is_pad is_cymbal
set_flags generic i r =
    if not generic && is_pad i
    then record r { buttons = record (r.buttons) { pad_flag = true } }
    else if not generic && is_cymbal i
    then record r { buttons = record (r.buttons) { cymbal_flag = true } }
    else r

-- A round of the loop of `updateHidReport`, by the pad's state; a released hit is forgotten.
unfoldable pub report_as : PadHitState → Bool → ℕ → Draft → Draft
unfolding press set_flags
report_as pressed generic i d = record d {
  made = set_flags generic i (press generic i (d.table i).velocity d.made);
  has_drum_event = true;
}
report_as released generic i d = record d {
  table = put_hit d.table i no_hit;
  has_drum_event = true;
}
report_as unpressed generic i d = d

unfoldable pub report_pad : Bool → ℕ → ℕ → Draft → Draft
unfolding report_as pad_hit_state
report_pad generic now i d = report_as (pad_hit_state d.table i now) generic i d

unfoldable pub draft : Bool → ℕ → HitTable → Draft
unfolding report_pad
draft generic now t = for_range num_pads 0 (report_pad generic now) (record {
  table = t;
  made = record { buttons = no_buttons; hat = hat_centered; velocities = no_velocities };
  has_drum_event = false;
})

-- What is sent: without a drum event the buttons and the hat of the gamepad remain.
unfoldable pub sent : Draft → HidReport → HidReport
sent d report =
    if d.has_drum_event then d.made else record report { velocities = d.made.velocities }

-- `updateHidReport`, by whether the host is ready: the table, the report, and what is sent.
unfoldable pub update_hid_report :
    Bool → Bool → ℕ → HitTable → HidReport → HitTable × HidReport × List HidReport
unfolding draft sent
update_hid_report ready generic now t report =
    let d = draft generic now t in
    if ready then (d.table, sent d report, sent d report ∷ []) else (t, report, [])

-- What of the gamepad's data is used.
pub record GamepadData : Type 0 where
  pub has_dpad : Bool
  pub dpad_up : Bool
  pub dpad_down : Bool
  pub dpad_left : Bool
  pub dpad_right : Bool
  pub has_axis_x : Bool
  pub has_axis_y : Bool
  pub axis_x : ℕ
  pub axis_y : ℕ
  pub button : ℕ → Bool

unfoldable pub gamepad_hat : GamepadData → ℕ
gamepad_hat pad =
    let x = pad.axis_x / 256 in
    let y = pad.axis_y / 256 in
    if pad.has_dpad
    then (if pad.dpad_up
        then hat_up
        else if pad.dpad_down
        then hat_down
        else if pad.dpad_left
        then hat_left
        else if pad.dpad_right
        then hat_right
        else hat_centered)
    else if pad.has_axis_x && pad.has_axis_y
    then (if ltb x 50
        then hat_left
        else if ltb 205 x
        then hat_right
        else if ltb y 50
        then hat_up
        else if ltb 205 y
        then hat_down
        else hat_centered)
    else hat_centered

unfoldable pub on_gamepad_report : GamepadData → HidReport → HidReport
unfolding gamepad_hat
on_gamepad_report pad report = record report {
  hat = gamepad_hat pad;
  buttons = record (report.buttons) {
    blue = pad.button 1;
    red = pad.button 2;
    green = pad.button 3;
    yellow = pad.button 4;
    select = pad.button 5 || pad.button 9;
    start_button = pad.button 6 || pad.button 10;
    home = pad.button 7 || pad.button 13;
  };
}

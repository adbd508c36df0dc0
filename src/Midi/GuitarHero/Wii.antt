-- ===== src/Midi/GuitarHero/Wii.antt =====
-- src/midi/midi_transport_guitar_hero_wii.cpp: the report of a Wii remote with a Guitar Hero drum.
-- The Bluetooth stack, the light and the log are left out, and so are members that never change.
pub mod Held
use eaves_drum.Base.{
  ℕ, zero, suc, ◌+◌, ◌-◌, ◌/◌, Bool, true, false, not, ◌&&◌, ◌||◌, Option, none, some, ltb, ◌==◌,
  if◌then◌else◌, for_range, sub32, String, List, [], ◌∷◌,
}
use eaves_drum.Midi.GuitarHero.{num_gh_pads, pad_index_to_note, gh_note_to_pad_id}

abbrev pub wii_hold_time_ms : ℕ
wii_hold_time_ms = 20

abbrev pub save_delay_ms : ℕ
save_delay_ms = 5000

abbrev pub ls_max : ℕ
ls_max = 63

abbrev pub ls_center : ℕ
ls_center = 32

abbrev pub ls_deadzone : ℕ
ls_deadzone = 2

-- wiimote_midi
pub record WiimoteMidi : Type 0 where
  pub channel : ℕ
  pub velocity : ℕ
  pub note : ℕ

abbrev pub no_midi : WiimoteMidi
no_midi = record { channel = 0; velocity = 0; note = 0 }

-- wiimote_classic
pub record WiimoteClassic : Type 0 where
  pub ls_x : ℕ
  pub ls_y : ℕ
  pub c_up : Bool
  pub c_down : Bool
  pub c_left : Bool
  pub c_right : Bool
  pub c_minus : Bool
  pub c_plus : Bool
  pub c_home : Bool
  pub c_a : Bool
  pub c_b : Bool
  pub c_x : Bool
  pub c_y : Bool
  pub c_lz : Bool
  pub c_rz : Bool

-- wiimote_buttons
pub record WiimoteButtons : Type 0 where
  pub b_up : Bool
  pub b_down : Bool
  pub b_left : Bool
  pub b_right : Bool
  pub b_a : Bool
  pub b_minus : Bool
  pub b_plus : Bool
  pub b_home : Bool

-- WiimoteReport
pub record WiimoteReport : Type 0 where
  pub wiimote : WiimoteButtons
  pub classic : WiimoteClassic
  pub midi : WiimoteMidi

-- `hitTimesMs`, `wii_report`, and `wasPressed` of the gamepad's callback.
pub record WiiState : Type 0 where
  pub hit_times_ms : ℕ → ℕ
  pub report : WiimoteReport
  pub was_pressed : Bool

abbrev pub put_time : (ℕ → ℕ) → ℕ → ℕ → ℕ → ℕ
put_time times pad t j = if j == pad then t else times j

unfoldable pub trigger_pad_hit : WiiState → ℕ → ℕ → ℕ → ℕ → WiiState
trigger_pad_hit st pad velocity note now = record st {
  report = record (st.report) { midi = record { channel = 9; velocity = velocity; note = note } };
  hit_times_ms = put_time st.hit_times_ms pad now;
}

unfoldable pub wii_send_note_on : WiiState → ℕ → ℕ → ℕ → WiiState
unfolding trigger_pad_hit gh_note_to_pad_id pad_index_to_note
wii_send_note_on st note velocity now = elim (gh_note_to_pad_id note) [
  | none ↦ st
  | some pad ↦ trigger_pad_hit st pad velocity (pad_index_to_note pad) now
]

pub data WiiHitState : Type 0 where
  wii_unpressed wii_pressed wii_released : WiiHitState

-- What `isPadHit` returns; a released hit it also forgets.
unfoldable pub wii_pad_hit : (ℕ → ℕ) → ℕ → ℕ → WiiHitState
wii_pad_hit times pad now =
    if times pad == 0
    then wii_unpressed
    else if ltb wii_hold_time_ms (sub32 now (times pad))
    then wii_released
    else wii_pressed

unfoldable pub set_classic_button : WiimoteClassic → ℕ → Bool → WiimoteClassic
set_classic_button c zero on = record c { c_b = on }
set_classic_button c (suc zero) on = record c { c_x = on }
set_classic_button c (suc (suc zero)) on = record c { c_a = on }
set_classic_button c (suc (suc (suc zero))) on = record c { c_y = on }
set_classic_button c (suc (suc (suc (suc zero)))) on = record c { c_lz = on }
set_classic_button c (suc (suc (suc (suc (suc zero))))) on = record c { c_rz = on }
set_classic_button c _ on = c

-- A round of the loop of `wiimote_set_report`, by the pad's state.
unfoldable pub set_pad_as : WiiHitState → ℕ → (ℕ → ℕ) × WiimoteClassic → (ℕ → ℕ) × WiimoteClassic
unfolding set_classic_button
set_pad_as wii_pressed pad (times, c) = (times, set_classic_button c pad true)
set_pad_as wii_released pad (times, c) = (put_time times pad 0, set_classic_button c pad false)
set_pad_as wii_unpressed pad (times, c) = (times, c)

unfoldable pub set_pad : ℕ → ℕ → (ℕ → ℕ) × WiimoteClassic → (ℕ → ℕ) × WiimoteClassic
unfolding set_pad_as wii_pad_hit
set_pad now pad (times, c) = set_pad_as (wii_pad_hit times pad now) pad (times, c)

-- `wiimote_set_report`: the state and the report that is copied out. Its result, whether the two
-- reports differ, is left out.
unfoldable pub wiimote_set_report : WiiState → ℕ → WiiState × WiimoteReport
unfolding set_pad
wiimote_set_report st now =
    let (times, c) = for_range num_gh_pads 0 (set_pad now) (st.hit_times_ms, st.report.classic) in
    let sent = record (st.report) { classic = c } in
    (record st { hit_times_ms = times; report = record sent { midi = no_midi } }, sent)

-- What of the gamepad's data is used.
pub record WiiGamepad : Type 0 where
  pub has_axis_x : Bool
  pub has_axis_y : Bool
  pub axis_x : ℕ
  pub axis_y : ℕ
  pub has_dpad : Bool
  pub dpad_up : Bool
  pub dpad_down : Bool
  pub dpad_left : Bool
  pub dpad_right : Bool
  pub button : ℕ → Bool

abbrev outside : ℕ → Bool
outside v = ltb v (ls_center - ls_deadzone) || ltb (ls_center + ls_deadzone) v

-- An axis of 16 bits as six, near the center as the center.
unfoldable pub stick : Bool → ℕ → ℕ
stick present v = if present && outside v then v else ls_center

-- The stick, which the direction pad overwrites; the last pressed direction of an axis wins.
unfoldable pub stick_x : WiiGamepad → ℕ
unfolding stick
stick_x pad =
    if pad.has_dpad && pad.dpad_right
    then ls_max - 10
    else if pad.has_dpad && pad.dpad_left
    then 10
    else stick (pad.has_axis_x && pad.has_axis_y) (pad.axis_x / 1024)

unfoldable pub stick_y : WiiGamepad → ℕ
unfolding stick
stick_y pad =
    if pad.has_dpad && pad.dpad_down
    then 10
    else if pad.has_dpad && pad.dpad_up
    then ls_max - 10
    else stick (pad.has_axis_x && pad.has_axis_y) (ls_max - pad.axis_y / 1024)

-- The note for the buttons; 0 is none.
unfoldable pub button_note : WiiGamepad → ℕ
button_note pad =
    if pad.button 1
    then 46
    else if pad.button 2
    then 38
    else if pad.button 3
    then 45
    else if pad.button 4
    then 48
    else 0

-- The hit of a button that was not pressed before.
unfoldable pub press_button : WiiState → ℕ → ℕ → WiiState
unfolding gh_note_to_pad_id trigger_pad_hit
press_button st note now =
    if not (note == 0) && not st.was_pressed
    then elim (gh_note_to_pad_id note) [
      | none ↦ record st { was_pressed = true }
      | some pad ↦ trigger_pad_hit (record st { was_pressed = true }) pad 100 note now
    ]
    else if (note == 0) && st.was_pressed
    then record st { was_pressed = false }
    else st

unfoldable pub wii_on_gamepad_report : WiiState → WiiGamepad → ℕ → WiiState
unfolding stick_x stick_y button_note press_button
wii_on_gamepad_report st pad now =
    let c = st.report.classic in
    let b = st.report.wiimote in
    let d = pad.has_dpad in
    let third = not (pad.button 1) && (not (pad.button 2) && pad.button 3) in
    let report = record (st.report) {
      classic = record c {
        ls_x = stick_x pad;
        ls_y = stick_y pad;
        c_up = if d then pad.dpad_up else c.c_up;
        c_down = if d then pad.dpad_down else c.c_down;
        c_left = if d then pad.dpad_left else c.c_left;
        c_right = if d then pad.dpad_right else c.c_right;
        c_minus = pad.button 5;
        c_plus = pad.button 6;
        c_home = pad.button 13;
      };
      wiimote = record b {
        b_up = if d then pad.dpad_up else b.b_up;
        b_down = if d then pad.dpad_down else b.b_down;
        b_left = if d then pad.dpad_left else b.b_left;
        b_right = if d then pad.dpad_right else b.b_right;
        b_a = third;
        b_minus = pad.button 5;
        b_plus = pad.button 6;
        b_home = pad.button 13;
      };
    } in
    press_button (record st { report = report }) (button_note pad) now

-- `wiimote_connected` and the saving in `update`, by the pairing and the time of its change.
pub record Pairing : Type 0 where
  pub address : String
  pub link_key : String
  pub needs_save_time_ms : ℕ

module _ (same_text : String → String → Bool) where
  unfoldable pub wiimote_connected : Pairing → String → String → ℕ → Pairing
  wiimote_connected p address key now =
      if not (same_text address p.address) || not (same_text key p.link_key)
      then record { address = address; link_key = key; needs_save_time_ms = now }
      else p

-- The pairing, and whether the configuration is saved and a reset requested.
unfoldable pub save_when_due : Pairing → ℕ → Pairing × Bool
save_when_due p now =
    if ltb 0 p.needs_save_time_ms && ltb save_delay_ms (sub32 now p.needs_save_time_ms)
    then (record p { needs_save_time_ms = 0 }, true)
    else (p, false)

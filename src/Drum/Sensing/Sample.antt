-- ===== src/Drum/Sensing/Sample.antt =====
-- What the start of a sample leaves: no hit in an active zone, and the pins' values stored.
use mathlib.Core.Option
use eaves_drum.Base.{
  ℕ, zero, suc, ◌+◌, ◌≤◌, ◌<◌, ◌≡◌, refl, ap, ◌∙◌, ◌&&◌, false, inl, inr, none, some, arith, ◌==◌,
  leb, Bool-cases, Option-cases,
}
use eaves_drum.Drum.Settings.{Zones, at, put, same}
use eaves_drum.Drum.Pin.{
  DrumPin, Inputs, InputFlags, read_input, raw_value, remove_offset, update_offset, fold_at_middle,
  invert_input,
}
use eaves_drum.Drum.Connector.{DrumConnector}
use eaves_drum.Drum.Pad.{DrumPad}
use eaves_drum.Drum.Sensing.{
  Environment, reset_hit_info, store_input, is_drum, is_1trs, read_pin, read_pins,
  read_input_values,
}

-- No zone from `n` on is hit.
abbrev pub QuietFrom : ℕ → DrumPad → Type 0
QuietFrom zero pad = (pad.hits.z0 ≡ false) × (pad.hits.z1 ≡ false) × (pad.hits.z2 ≡ false)
QuietFrom (suc zero) pad = (pad.hits.z1 ≡ false) × (pad.hits.z2 ≡ false)
QuietFrom (suc (suc zero)) pad = pad.hits.z2 ≡ false
QuietFrom (suc (suc (suc n))) pad = Unit {0}

abbrev pub NoHits : DrumPad → Type 0
NoHits pad = pad.hits ≡ same false

pub reset-NoHits :
    (n : ℕ) (pad : DrumPad) → 1 ≤ n → n ≤ 3 → QuietFrom n pad → NoHits (reset_hit_info n pad)
unfolding reset_hit_info
reset-NoHits zero pad h k q = absurd (omega arith)
reset-NoHits (suc zero) pad h k q = ground arith
reset-NoHits (suc (suc zero)) pad h k q = ground arith
reset-NoHits (suc (suc (suc zero))) pad h k q = refl
reset-NoHits (suc (suc (suc (suc n)))) pad h k q = absurd (omega arith)

-- Another pad but for what its pins read.
abbrev pub SameButInputs : DrumPad → DrumPad → Type 0
SameButInputs pad pad' = (v : Zones ℕ) × (pad' ≡ record pad { sensor_values = v })

pub store_input-same : (pad : DrumPad) (i v : ℕ) → SameButInputs pad (store_input pad i v)
unfolding store_input
store_input-same pad i v = ((store_input pad i v).sensor_values, ground arith)

read_pin-same :
    (env : Environment) (i : ℕ) (pad : DrumPad) (c : DrumConnector) (s : DrumPad × DrumConnector)
    → read_pin env i (pad, c) ≡ some s
    → SameButInputs pad s.0
unfolding read_pin
read_pin-same env i pad c s e =
    let flags : InputFlags = record {
      auto_calibrate = is_drum pad.settings.pad_type && pad.auto_calibrate;
      invert = false;
    } in
    elim (Option-cases (read_input env.inputs (at c.pins i) flags)) [
      | inl f ↦ ground arith
      | inr (r, f) ↦ ground (arith, store_input-same pad i r.0)
    ]

same_trans : (a b c : DrumPad) → SameButInputs a b → SameButInputs b c → SameButInputs a c
same_trans a b c p q = (q.0, q.1 ∙ ap (λ (x : DrumPad). record x { sensor_values = q.0 }) p.1)

read_pins-same :
    (env : Environment) (n i : ℕ) (pad : DrumPad) (c : DrumConnector) (s : DrumPad × DrumConnector)
    → read_pins env n i (pad, c) ≡ some s
    → SameButInputs pad s.0
unfolding read_pins Option.bind
read_pins-same env zero i pad c s e = (pad.sensor_values, ground arith)
read_pins-same env (suc n) i pad c s e = elim (Option-cases (read_pin env i (pad, c))) [
  | inl f ↦ let e' : none ≡ some s = rw f at e in absurd (cc)
  | inr ((pad₁, c₁), f) ↦
      same_trans pad pad₁ s.0 (read_pin-same env i pad c (pad₁, c₁) f)
        (read_pins-same env n (i + 1) pad₁ c₁ s (rw f at e))
]

-- Reading the pins changes nothing of the pad but the sensor values.
pub read_input_values-same :
    (env : Environment) (pad : DrumPad) (c : DrumConnector) (s : DrumPad × DrumConnector)
    → read_input_values env pad c ≡ some s
    → SameButInputs pad s.0
unfolding read_input_values
read_input_values-same env pad c s e = read_pins-same env _ 0 pad c s e

-- The analog values are `uint16_t`.
pub record IsU16 (io : Inputs) : Type 0 where
  pub channels : (m i : ℕ) → io.read_channel m i < 65536
  pub pins : (i : ℕ) → io.read_analog_in_pin i < 65536

abbrev pub AllU16 : Zones ℕ → Type 0
AllU16 z = (z.z0 < 65536) × (z.z1 < 65536) × (z.z2 < 65536)

pub put-AllU16 : (z : Zones ℕ) (i v : ℕ) → v < 65536 → AllU16 z → AllU16 (put z i v)
put-AllU16 z zero v h a = ground arith
put-AllU16 z (suc zero) v h a = ground arith
put-AllU16 z (suc (suc zero)) v h a = ground arith
put-AllU16 z (suc (suc (suc i))) v h a = a

raw_value-lt : (io : Inputs) (p : DrumPin) → IsU16 io → raw_value io p < 65536
unfolding raw_value
raw_value-lt io p u = elim (Option-cases p.mux) [
  | inl e ↦ rw (e, raw_value) (u.pins p.index)
  | inr (m, e) ↦ rw (e, raw_value) (u.channels m p.index)
]

remove_offset-lt : (v o r : ℕ) → remove_offset v o ≡ some r → r < 65536
unfolding remove_offset
remove_offset-lt v o r e = ground arith

read_input-lt :
    (io : Inputs) (p : DrumPin) (flags : InputFlags) (r : ℕ × DrumPin)
    → IsU16 io
    → read_input io p flags ≡ some r
    → r.0 < 65536
unfolding read_input fold_at_middle invert_input
read_input-lt io p flags r u e =
    elim (Option-cases (remove_offset (raw_value io p) (update_offset p (raw_value io p)).offset)) [
      | inl f ↦ ground (arith, raw_value-lt io p u)
      | inr (v, f) ↦ ground (
        arith,
        raw_value-lt io p u,
        remove_offset-lt (raw_value io p) (update_offset p (raw_value io p)).offset v f,
      )
    ]

store_input-AllU16 :
    (pad : DrumPad) (i v : ℕ)
    → v < 65536
    → AllU16 pad.sensor_values
    → AllU16 (store_input pad i v).sensor_values
unfolding store_input
store_input-AllU16 pad i v h a = elim (Bool-cases (is_1trs pad.settings.zones_type && (i == 1))) [
  | inl e ↦ rw e (elim (Bool-cases (leb pad.settings.zone_thresholds_min.z2 v)) [
    | inl f ↦ rw f (put-AllU16 _ 1 0 (omega arith) (put-AllU16 pad.sensor_values 2 v h a))
    | inr f ↦ rw f (put-AllU16 _ 2 0 (omega arith) (put-AllU16 pad.sensor_values 1 v h a))
  ])
  | inr e ↦ rw e (put-AllU16 pad.sensor_values i v h a)
]

read_pin-AllU16 :
    (env : Environment) (i : ℕ) (pad : DrumPad) (c : DrumConnector) (s : DrumPad × DrumConnector)
    → IsU16 env.inputs
    → AllU16 pad.sensor_values
    → read_pin env i (pad, c) ≡ some s
    → AllU16 s.0.sensor_values
unfolding read_pin
read_pin-AllU16 env i pad c s u a e =
    let flags : InputFlags = record {
      auto_calibrate = is_drum pad.settings.pad_type && pad.auto_calibrate;
      invert = false;
    } in
    elim (Option-cases (read_input env.inputs (at c.pins i) flags)) [
      | inl f ↦ ground arith
      | inr (r, f) ↦ ground (
        arith,
        store_input-AllU16 pad i r.0 (read_input-lt env.inputs (at c.pins i) flags r u f) a,
      )
    ]

read_pins-AllU16 :
    (env : Environment) (n i : ℕ) (pad : DrumPad) (c : DrumConnector) (s : DrumPad × DrumConnector)
    → IsU16 env.inputs
    → AllU16 pad.sensor_values
    → read_pins env n i (pad, c) ≡ some s
    → AllU16 s.0.sensor_values
unfolding read_pins Option.bind
read_pins-AllU16 env zero i pad c s u a e = ground arith
read_pins-AllU16 env (suc n) i pad c s u a e = elim (Option-cases (read_pin env i (pad, c))) [
  | inl f ↦ let e' : none ≡ some s = rw f at e in absurd (cc)
  | inr ((pad₁, c₁), f) ↦
      read_pins-AllU16 env n (i + 1) pad₁ c₁ s u (read_pin-AllU16 env i pad c (pad₁, c₁) u a f)
        (rw f at e)
]

-- The sensor values stay `uint16_t`.
pub read_input_values-AllU16 :
    (env : Environment) (pad : DrumPad) (c : DrumConnector) (s : DrumPad × DrumConnector)
    → IsU16 env.inputs
    → AllU16 pad.sensor_values
    → read_input_values env pad c ≡ some s
    → AllU16 s.0.sensor_values
unfolding read_input_values
read_input_values-AllU16 env pad c s u a e = read_pins-AllU16 env _ 0 pad c s u a e

read_pins-pins_count :
    (env : Environment) (n i : ℕ) (pad : DrumPad) (c : DrumConnector) (s : DrumPad × DrumConnector)
    → read_pins env n i (pad, c) ≡ some s
    → s.1.pins_count ≡ c.pins_count
unfolding read_pins read_pin Option.bind
read_pins-pins_count env zero i pad c s e = ground arith
read_pins-pins_count env (suc n) i pad c s e =
    let flags : InputFlags = record {
      auto_calibrate = is_drum pad.settings.pad_type && pad.auto_calibrate;
      invert = false;
    } in
    elim (Option-cases (read_input env.inputs (at c.pins i) flags)) [
      | inl f ↦ ground arith
      | inr (r, f) ↦
          read_pins-pins_count env n (i + 1) (store_input pad i r.0)
            (record c { pins = put c.pins i r.1 }) s (rw f at e)
    ]

-- The connector keeps its number of pins.
pub read_input_values-pins_count :
    (env : Environment) (pad : DrumPad) (c : DrumConnector) (s : DrumPad × DrumConnector)
    → read_input_values env pad c ≡ some s
    → s.1.pins_count ≡ c.pins_count
unfolding read_input_values
read_input_values-pins_count env pad c s e = read_pins-pins_count env _ 0 pad c s e

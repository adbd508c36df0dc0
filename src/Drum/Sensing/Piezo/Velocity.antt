-- ===== src/Drum/Sensing/Piezo/Velocity.antt =====
-- The velocities of the hits of a piezo pad, under the linear curve.
use mathlib.Core.Bool.{false≢true}
use eaves_drum.Drum.Pad.Zoned.{active_zone_count_small}
use eaves_drum.Base.{
  not, sub32, add32, ◌*◌, ℕ, zero, suc, ◌+◌, ◌≤◌, ◌<◌, ◌≡◌, ◌≢◌, refl, ap, ◌∙◌, sym, subst, true,
  false, ◌&&◌, ◌⊎◌, inl, inr, some, arith, ltb, Bool-cases, FloatArith, for_range,
}
use eaves_drum.Drum.Settings.{Zones, at, put, same, DrumSettings, linear}
use eaves_drum.Drum.Scale.{scale, curve, apply_curve}
use eaves_drum.Drum.Scale.Bounds.{scale_range, linear_curve_range}
use eaves_drum.Drum.Connector.{DrumConnector}
use eaves_drum.Drum.Pad.{
  DrumPad, SensingState, peak_detect, scan_state, mask_state, decay_state, get_active_zone_count,
  is_connector_active,
}
use eaves_drum.Drum.Sensing.{Environment, reset_hit_info, is_choked}
use eaves_drum.Drum.Sensing.Sample.{
  QuietFrom, IsU16, AllU16, read_input_values-same, read_input_values-AllU16,
}
use eaves_drum.Drum.Sensing.Piezo.{
  any_peak, decay_progress, update_max_zone, update_max_sensor_value, detect_peak,
  detect_peak_with_decay, finish_scan, scan, advance, sense,
}
use eaves_drum.Drum.Sensing.Piezo.Hits.{sense-hits, sense-advance}

-- The value recorded for a zone is 0 or reached the zone's lower threshold.
abbrev pub RecordedZone : ℕ → ℕ → Type 0
RecordedZone lo m = (m < 65536) × ((m ≡ 0) ⊎ (lo ≤ m))

abbrev pub IsRecorded : Zones ℕ → Zones ℕ → Type 0
IsRecorded lo m = RecordedZone lo.z0 m.z0 × RecordedZone lo.z1 m.z1 × RecordedZone lo.z2 m.z2

for_range-keeps :
    {S : Type 0} (P : S → Type 0) (body : ℕ → S → S)
    → ((i : ℕ) (s : S) → P s → P (body i s))
    → (n i : ℕ) (s : S) → P s
    → P (for_range n i body s)
for_range-keeps P body keep zero i s h = h
for_range-keeps P body keep (suc n) i s h =
    for_range-keeps P body keep n (i + 1) (body i s) (keep i s h)

update_max_zone-IsRecorded :
    (t : DrumSettings) (v : Zones ℕ)
    → AllU16 v
    → (i : ℕ) (m : Zones ℕ) → IsRecorded t.zone_thresholds_min m
    → IsRecorded t.zone_thresholds_min (update_max_zone t v i m)
unfolding update_max_zone
update_max_zone-IsRecorded t v u zero m r = ground arith
update_max_zone-IsRecorded t v u (suc zero) m r = ground arith
update_max_zone-IsRecorded t v u (suc (suc zero)) m r = ground arith
update_max_zone-IsRecorded t v u (suc (suc (suc i))) m r = ground arith

clear-IsRecorded :
    (lo : Zones ℕ) (i : ℕ) (m : Zones ℕ) → IsRecorded lo m → IsRecorded lo (put m i 0)
clear-IsRecorded lo zero m r = ground arith
clear-IsRecorded lo (suc zero) m r = ground arith
clear-IsRecorded lo (suc (suc zero)) m r = ground arith
clear-IsRecorded lo (suc (suc (suc i))) m r = r

-- The pad's recorded values, between samples.
abbrev pub PadRecorded : DrumPad → Type 0
PadRecorded pad = IsRecorded pad.settings.zone_thresholds_min pad.max_zone_values

update_max-PadRecorded :
    (n : ℕ) (pad : DrumPad)
    → AllU16 pad.sensor_values
    → PadRecorded pad
    → PadRecorded (update_max_sensor_value n pad)
unfolding update_max_sensor_value
update_max-PadRecorded n pad u r =
    for_range-keeps (IsRecorded pad.settings.zone_thresholds_min)
      (update_max_zone pad.settings pad.sensor_values)
      (update_max_zone-IsRecorded pad.settings pad.sensor_values u) n 0 pad.max_zone_values r

detect_peak-PadRecorded :
    (env : Environment) (n now : ℕ) (t : Zones ℕ) (pad : DrumPad)
    → AllU16 pad.sensor_values
    → PadRecorded pad
    → PadRecorded (detect_peak env n now t pad).0
unfolding detect_peak
detect_peak-PadRecorded env n now t pad u r =
    let started : DrumPad = record pad {
      hit_time_us = now;
      max_zone_values = for_range n 0 (λ zone m. put m zone 0) pad.max_zone_values;
    } in
    let cleared : PadRecorded started =
      for_range-keeps (IsRecorded pad.settings.zone_thresholds_min) (λ zone m. put m zone 0)
        (clear-IsRecorded pad.settings.zone_thresholds_min) n 0 pad.max_zone_values r in
    elim (Bool-cases (not (any_peak n pad.sensor_values t) && not (is_choked env pad n))) [
      | inl e ↦ rw e r
      | inr e ↦ rw e (update_max-PadRecorded n started u cleared)
    ]

module _ (fl : FloatArith) (n now : ℕ) where
  finish_scan-max :
      (pad : DrumPad)
      → ((finish_scan fl n now pad).0.max_zone_values ≡ pad.max_zone_values)
        × ((finish_scan fl n now pad).0.settings ≡ pad.settings)
  unfolding finish_scan
  finish_scan-max pad = (ground arith, ground arith)

  scan-PadRecorded :
      (pad : DrumPad)
      → AllU16 pad.sensor_values
      → PadRecorded pad
      → PadRecorded (scan fl n now pad).0
  unfolding scan
  scan-PadRecorded pad u r =
      let pad' = update_max_sensor_value n pad in
      let r' = update_max-PadRecorded n pad u r in
      elim (Bool-cases (ltb (sub32 now pad.hit_time_us) pad.settings.scan_time_us)) [
        | inl e ↦ rw e r'
        | inr e ↦ rw (e, (finish_scan-max pad').0, (finish_scan-max pad').1) r'
      ]

  decay-PadRecorded :
      (env : Environment) (progress : ℕ) (pad : DrumPad)
      → AllU16 pad.sensor_values
      → PadRecorded pad
      → PadRecorded (detect_peak_with_decay fl env n now progress pad).0
  unfolding detect_peak_with_decay
  decay-PadRecorded env progress pad u r = detect_peak-PadRecorded env n now _ pad u r

  advance-PadRecorded :
      (env : Environment) (s : SensingState) (pad : DrumPad)
      → AllU16 pad.sensor_values
      → PadRecorded pad
      → PadRecorded (advance fl s env n now pad)
  unfolding advance
  advance-PadRecorded env peak_detect pad u r =
      detect_peak-PadRecorded env n now pad.settings.zone_thresholds_min pad u r
  advance-PadRecorded env scan_state pad u r = scan-PadRecorded pad u r
  advance-PadRecorded env mask_state pad u r =
      elim (Bool-cases (ltb (sub32 now pad.scan_time_end_us) (pad.settings.mask_time_ms * 1000))) [
        | inl e ↦ rw e r
        | inr e ↦ rw e r
      ]
  advance-PadRecorded env decay_state pad u r =
      let since = sub32 now (add32 pad.scan_time_end_us (pad.settings.mask_time_ms * 1000)) in
      elim (Bool-cases (ltb since (pad.settings.decay_time_ms * 1000))) [
        | inl e ↦ rw e (decay-PadRecorded env (decay_progress fl since pad.settings) pad u r)
        | inr e ↦ rw e r
      ]

  -- A sample changes neither the settings nor the values just read.
  advance-fixed :
      (env : Environment) (s : SensingState) (pad : DrumPad)
      → let after = advance fl s env n now pad in
        (after.settings ≡ pad.settings) × (after.sensor_values ≡ pad.sensor_values)
  unfolding advance scan finish_scan detect_peak detect_peak_with_decay
  advance-fixed env peak_detect pad = (ground arith, ground arith)
  advance-fixed env scan_state pad = (ground arith, ground arith)
  advance-fixed env mask_state pad = (ground arith, ground arith)
  advance-fixed env decay_state pad = (ground arith, ground arith)

reset-kept :
    (n : ℕ) (pad : DrumPad)
    → let p = reset_hit_info n pad in
      (p.settings ≡ pad.settings)
      × (p.sensor_values ≡ pad.sensor_values)
      × (p.max_zone_values ≡ pad.max_zone_values)
unfolding reset_hit_info
reset-kept n pad = (refl, refl, refl)

-- A velocity at or above the threshold, under the linear curve.
linear_positive :
    (fl : FloatArith) (m lo hi : ℕ)
    → RecordedZone lo m
    → m ≢ 0
    → (0 < curve fl (scale m lo hi) linear) × (curve fl (scale m lo hi) linear ≤ 127)
unfolding curve apply_curve
linear_positive fl m lo hi r ne =
    let s = scale_range m lo hi r.0 in ground (arith, s, linear_curve_range (scale m lo hi))

at-put : (z i : ℕ) → at (put (same false) z true) i ≡ true → z < 3 → i < 3 → i ≡ z
at-put zero zero h k l = refl
at-put zero (suc zero) h k l = absurd (cc)
at-put zero (suc (suc i)) h k l = absurd (cc)
at-put (suc zero) zero h k l = absurd (cc)
at-put (suc zero) (suc zero) h k l = refl
at-put (suc zero) (suc (suc i)) h k l = absurd (cc)
at-put (suc (suc zero)) zero h k l = absurd (cc)
at-put (suc (suc zero)) (suc zero) h k l = absurd (cc)
at-put (suc (suc zero)) (suc (suc i)) h k l = omega arith
at-put (suc (suc (suc z))) i h k l = absurd (omega arith)

at-same : (i : ℕ) → at (same false) i ≡ false
at-same zero = refl
at-same (suc zero) = refl
at-same (suc (suc i)) = refl

RecordedZone-at : (lo m : Zones ℕ) (z : ℕ) → IsRecorded lo m → RecordedZone (at lo z) (at m z)
RecordedZone-at lo m zero r = r.0
RecordedZone-at lo m (suc zero) r = r.1
RecordedZone-at lo m (suc (suc z)) r = r.2

module _ (fl : FloatArith) (env : Environment) (now : ℕ) (pad : DrumPad) (c : DrumConnector)
    (s : DrumPad × DrumConnector) (active : is_connector_active (some c) ≡ true)
    (inputs : IsU16 env.inputs) (stored : AllU16 pad.sensor_values) (recorded : PadRecorded pad)
    (ran : sense fl env now pad c ≡ some s) where
  -- A sample keeps the pad's recorded values valid, and its sensor values in their type.
  pub sense-PadRecorded : PadRecorded s.0 × AllU16 s.0.sensor_values × (s.0.settings ≡ pad.settings)
  sense-PadRecorded =
      let n = get_active_zone_count pad.settings.zones_type (some c) in
      let (p, f, g) = sense-advance fl env now pad c s active ran in
      let k = reset-kept n pad in
      let (v, r) = read_input_values-same env (reset_hit_info n pad) c p f in
      let u : AllU16 p.0.sensor_values =
        read_input_values-AllU16 env (reset_hit_info n pad) c p inputs (rw k.1 stored) f in
      let t : p.0.settings ≡ pad.settings = ap (λ (x : DrumPad). x.settings) r ∙ k.0 in
      let m : p.0.max_zone_values ≡ pad.max_zone_values =
        ap (λ (x : DrumPad). x.max_zone_values) r ∙ k.2 in
      let q : PadRecorded p.0 = rw (t, m) recorded in
      let a = advance-fixed fl n now env p.0.sensing_state p.0 in
      rw g (advance-PadRecorded fl n now env p.0.sensing_state p.0 u q, rw a.1 u, a.0 ∙ t)

  module _ (quiet : QuietFrom (get_active_zone_count pad.settings.zones_type (some c)) pad) where
    -- Under the linear curve, for an active connector, `uint16_t` inputs and sensor values,
    -- recorded maxima that are 0 or reach the lower thresholds, and no hit in an inactive zone: a
    -- hit that a sample reports has a velocity from 1 to 127.
    pub sense_velocity :
        pad.settings.curve_type ≡ linear
        → (i : ℕ) → i < 3
        → at s.0.hits i ≡ true
        → (0 < at s.0.hit_velocities i) × (at s.0.hit_velocities i ≤ 127)
    sense_velocity lin i small hit = elim (sense-hits fl env now pad c s active quiet ran) [
      | inl quiet' ↦
          let off : at s.0.hits i ≡ false = ap (λ y. at y i) quiet' ∙ at-same i in
          absurd (false≢true (sym off ∙ hit))
      | inr h ↦
          let b = active_zone_count_small pad.settings.zones_type (some c) active in
          let z = h.zone in
          let e : i ≡ z =
            at-put z i (sym (ap (λ y. at y i) h.one_zone) ∙ hit) (omega (arith, h.active, b))
              small in
          let after = sense-PadRecorded in
          let lo = pad.settings.zone_thresholds_min in
          let r : IsRecorded lo s.0.max_zone_values =
            subst (λ t. IsRecorded (t.zone_thresholds_min) s.0.max_zone_values) after.2 after.0 in
          rw (e, h.velocity, lin)
            (linear_positive fl (at s.0.max_zone_values z) (at lo z)
              (at pad.settings.zone_thresholds_max z) (RecordedZone-at lo s.0.max_zone_values z r)
              h.recorded)
    ]

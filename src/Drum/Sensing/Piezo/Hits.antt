-- ===== src/Drum/Sensing/Piezo/Hits.antt =====
-- When a piezo pad reports a hit, and with which velocity.
use eaves_drum.Base.{
  ℕ, zero, suc, ◌*◌, ◌≤◌, ◌<◌, ◌≡◌, ◌≢◌, refl, ap, ◌∙◌, sym, subst, true, false, ◌⊎◌, inl, inr,
  some, arith, ltb, ◌==◌, Bool-cases, Option-cases, sub32, add32, FloatArith,
}
use eaves_drum.Drum.Settings.{Zones, at, put, same}
use eaves_drum.Drum.Scale.{scale, curve}
use eaves_drum.Drum.Connector.{DrumConnector}
use eaves_drum.Drum.Pad.{
  DrumPad, SensingState, peak_detect, scan_state, mask_state, decay_state, get_active_zone_count,
  is_connector_active,
}
use eaves_drum.Drum.Pad.Zoned.{active_zone_count_small}
use eaves_drum.Drum.Sensing.{Environment, reset_hit_info, read_input_values}
use eaves_drum.Drum.Sensing.Sample.{QuietFrom, NoHits, reset-NoHits, read_input_values-same}
use eaves_drum.Drum.Sensing.Piezo.{
  update_max_sensor_value, detect_peak, scan_velocities, finish_scan, scan, detect_peak_with_decay,
  with_state, decay_progress, advance, sense_active, sense, determine_hit_zone,
}
use eaves_drum.Drum.Sensing.Piezo.HitZone.{determine_hit_zone-lt}

-- A sample at a time reports a hit of one zone: the scan time is over, the mask time begins, and
-- the velocity is that of the greatest value that was recorded for the zone.
pub record HitAt (fl : FloatArith) (n now : ℕ) (before after : DrumPad) : Type 0 where
  pub was_scanning : before.sensing_state ≡ scan_state
  pub scan_over : before.settings.scan_time_us ≤ sub32 now before.hit_time_us
  pub now_masked : after.sensing_state ≡ mask_state
  pub ends_now : after.scan_time_end_us ≡ now
  pub zone : ℕ
  pub active : zone < n
  pub one_zone : after.hits ≡ put (same false) zone true
  pub recorded : at after.max_zone_values zone ≢ 0
  pub velocity :
      at after.hit_velocities zone
      ≡ curve fl
          (scale
            (at after.max_zone_values zone)
            (at before.settings.zone_thresholds_min zone)
            (at before.settings.zone_thresholds_max zone))
          before.settings.curve_type

detect_peak-hits :
    (env : Environment) (n now : ℕ) (t : Zones ℕ) (pad : DrumPad)
    → (detect_peak env n now t pad).0.hits ≡ pad.hits
unfolding detect_peak
detect_peak-hits env n now t pad = ground arith

update_max-hits : (n : ℕ) (pad : DrumPad) → (update_max_sensor_value n pad).hits ≡ pad.hits
unfolding update_max_sensor_value
update_max-hits n pad = refl

-- The velocities that a scan writes for the active zones.
scan_velocities-at :
    (fl : FloatArith) (n z : ℕ) (pad : DrumPad)
    → n ≤ 3
    → z < n
    → at (scan_velocities fl n pad).1 z
      ≡ curve fl
          (scale
            (at pad.max_zone_values z)
            (at pad.settings.zone_thresholds_min z)
            (at pad.settings.zone_thresholds_max z))
          pad.settings.curve_type
unfolding scan_velocities
scan_velocities-at fl zero z pad h k = absurd (omega arith)
scan_velocities-at fl (suc zero) zero pad h k = refl
scan_velocities-at fl (suc zero) (suc z) pad h k = absurd (omega arith)
scan_velocities-at fl (suc (suc zero)) zero pad h k = refl
scan_velocities-at fl (suc (suc zero)) (suc zero) pad h k = refl
scan_velocities-at fl (suc (suc zero)) (suc (suc z)) pad h k = absurd (omega arith)
scan_velocities-at fl (suc (suc (suc zero))) zero pad h k = refl
scan_velocities-at fl (suc (suc (suc zero))) (suc zero) pad h k = refl
scan_velocities-at fl (suc (suc (suc zero))) (suc (suc zero)) pad h k = refl
scan_velocities-at fl (suc (suc (suc zero))) (suc (suc (suc z))) pad h k = absurd (omega arith)
scan_velocities-at fl (suc (suc (suc (suc n)))) z pad h k = absurd (omega arith)

module _ (fl : FloatArith) (n now : ℕ) (lo : 1 ≤ n) (hi : n ≤ 3) where
  -- What the end of a scan does: a zone with a recorded value is hit, or none is.
  abbrev Finishes : DrumPad → DrumPad × SensingState → Type 0
  Finishes pad r =
      (r.0.hits ≡ pad.hits)
      ⊎ ((z : ℕ) × (z < n)
          × (r.1 ≡ mask_state)
          × (r.0.scan_time_end_us ≡ now)
          × (r.0.hits ≡ put pad.hits z true)
          × (at pad.max_zone_values z ≢ 0)
          × (r.0.max_zone_values ≡ pad.max_zone_values)
          × (r.0.hit_velocities ≡ (scan_velocities fl n pad).1))

  finish_scan-Finishes : (pad : DrumPad) → Finishes pad (finish_scan fl n now pad)
  unfolding finish_scan
  finish_scan-Finishes pad =
      let z = determine_hit_zone (scan_velocities fl n pad).0 n pad.settings.head_rim_bias in
      elim (Bool-cases (at pad.max_zone_values z == 0)) [
        | inl e ↦ inl (ground arith)
        | inr e ↦ inr (
          z,
          determine_hit_zone-lt _ n pad.settings.head_rim_bias lo hi,
          ground arith,
          ground arith,
          ground arith,
          ground arith,
          ground arith,
          ground arith,
        )
      ]

  decay-hits :
      (env : Environment) (progress : ℕ) (pad : DrumPad)
      → (detect_peak_with_decay fl env n now progress pad).0.hits ≡ pad.hits
  unfolding detect_peak_with_decay
  decay-hits env progress pad = ground arith

  scan-hits :
      (pad : DrumPad)
      → NoHits pad
      → pad.sensing_state ≡ scan_state
      → let after = with_state (scan fl n now pad) in NoHits after ⊎ HitAt fl n now pad after
  unfolding scan
  scan-hits pad quiet w =
      elim (Bool-cases (ltb (sub32 now pad.hit_time_us) pad.settings.scan_time_us)) [
        | inl e ↦ inl (ground (arith, update_max-hits n pad))
        | inr e ↦ rw e (elim (finish_scan-Finishes (update_max_sensor_value n pad)) [
          | inl h ↦ inl (h ∙ quiet)
          | inr (z, lt, m, t, h, k, x, v) ↦ inr (record {
            was_scanning = w;
            scan_over = ground arith;
            now_masked = m;
            ends_now = t;
            zone = z;
            active = lt;
            one_zone = h ∙ ap (λ y. put y z true) quiet;
            recorded = rw x k;
            velocity =
                ap (λ y. at y z) v
                ∙ scan_velocities-at fl n z (update_max_sensor_value n pad) hi lt
                ∙ rw x;
          })
        ])
      ]

  -- A sample of a pad that has no hit yet.
  advance-hits :
      (env : Environment) (s : SensingState) (pad : DrumPad)
      → NoHits pad
      → pad.sensing_state ≡ s
      → let after = advance fl s env n now pad in NoHits after ⊎ HitAt fl n now pad after
  unfolding advance
  advance-hits env peak_detect pad quiet w = inl (detect_peak-hits env n now _ pad ∙ quiet)
  advance-hits env mask_state pad quiet w = inl (ground arith)
  advance-hits env scan_state pad quiet w = scan-hits pad quiet w
  advance-hits env decay_state pad quiet w =
      let since = sub32 now (add32 pad.scan_time_end_us (pad.settings.mask_time_ms * 1000)) in
      inl (ground (arith, decay-hits env (decay_progress fl since pad.settings) pad))

HitAt-reset :
    (fl : FloatArith) (n now : ℕ) (pad read after : DrumPad) (v : Zones ℕ)
    → read ≡ record (reset_hit_info n pad) { sensor_values = v }
    → HitAt fl n now read after
    → HitAt fl n now pad after
unfolding reset_hit_info
HitAt-reset fl n now pad read after v r h = record {
  was_scanning = sym (ap (λ (x : DrumPad). x.sensing_state) r) ∙ h.was_scanning;
  scan_over =
      subst (λ (x : DrumPad). x.settings.scan_time_us ≤ sub32 now x.hit_time_us) r h.scan_over;
  now_masked = h.now_masked;
  ends_now = h.ends_now;
  zone = h.zone;
  active = h.active;
  one_zone = h.one_zone;
  recorded = h.recorded;
  velocity =
      h.velocity
      ∙ ap
          (λ (x : DrumPad).
            curve fl
              (scale (at after.max_zone_values h.zone) (at x.settings.zone_thresholds_min h.zone)
                (at x.settings.zone_thresholds_max h.zone))
              x.settings.curve_type)
          r;
}

-- The pad after `sense`, from the pad that was reset and whose inputs were read.
pub sense-advance :
    (fl : FloatArith) (env : Environment) (now : ℕ) (pad : DrumPad) (c : DrumConnector)
    (s : DrumPad × DrumConnector)
    → let n = get_active_zone_count pad.settings.zones_type (some c) in
      is_connector_active (some c) ≡ true
      → sense fl env now pad c ≡ some s
      → (p : DrumPad × DrumConnector) × (read_input_values env (reset_hit_info n pad) c ≡ some p)
        × (s ≡ (advance fl p.0.sensing_state env n now p.0, p.1))
unfolding sense sense_active
sense-advance fl env now pad c s a e =
    let n = get_active_zone_count pad.settings.zones_type (some c) in
    let run : sense_active fl env now pad c ≡ some s = rw a at e in
    elim (Option-cases (read_input_values env (reset_hit_info n pad) c)) [
      | inl f ↦ ground arith
      | inr (p, f) ↦ (p, f, ground arith)
    ]

-- A sample of a pad with an active connector, in whose inactive zones nothing is hit, either
-- reports no hit, or ends a scan whose time is over and reports a hit of exactly one active zone
-- with a recorded value, with the velocity of that value, and begins the mask time.
pub sense-hits :
    (fl : FloatArith) (env : Environment) (now : ℕ) (pad : DrumPad) (c : DrumConnector)
    (s : DrumPad × DrumConnector)
    → let n = get_active_zone_count pad.settings.zones_type (some c) in
      is_connector_active (some c) ≡ true
      → QuietFrom n pad
      → sense fl env now pad c ≡ some s
      → NoHits s.0 ⊎ HitAt fl n now pad s.0
sense-hits fl env now pad c s a q e =
    let n = get_active_zone_count pad.settings.zones_type (some c) in
    let b = active_zone_count_small pad.settings.zones_type (some c) a in
    let (p, f, g) = sense-advance fl env now pad c s a e in
    let (v, r) = read_input_values-same env (reset_hit_info n pad) c p f in
    let quiet : NoHits p.0 = ap (λ (x : DrumPad). x.hits) r ∙ reset-NoHits n pad b.0 b.1 q in
    rw g (elim (advance-hits fl n now b.0 b.1 env p.0.sensing_state p.0 quiet refl) [
      | inl h ↦ inl h
      | inr h ↦ inr (HitAt-reset fl n now pad p.0 _ v r h)
    ])

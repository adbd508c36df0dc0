-- ===== src/Drum/Sensing/PiezoSwitch/Hits.antt =====
-- When a one-piezo cymbal reports a hit, and with which velocity.
use eaves_drum.Base.{
  ℕ, ◌*◌, ◌≤◌, ◌≡◌, ◌≢◌, refl, ap, ◌∙◌, sym, subst, true, false, ◌⊎◌, inl, inr, some, arith, ltb,
  ◌==◌, Bool-cases, Option-cases, sub32, add32, FloatArith,
}
use eaves_drum.Drum.Settings.{Zones, put, same}
use eaves_drum.Drum.Scale.{scale_and_curve}
use eaves_drum.Drum.Connector.{DrumConnector}
use eaves_drum.Drum.Pad.{
  DrumPad, SensingState, peak_detect, scan_state, mask_state, decay_state, get_active_zone_count,
  is_connector_active,
}
use eaves_drum.Drum.Pad.Zoned.{active_zone_count_small}
use eaves_drum.Drum.Sensing.{Environment, reset_hit_info, read_input_values}
use eaves_drum.Drum.Sensing.Sample.{QuietFrom, NoHits, reset-NoHits, read_input_values-same}
use eaves_drum.Drum.Sensing.Piezo.{with_state, decay_progress}
use eaves_drum.Drum.Sensing.PiezoSwitch.{
  count_presses, detect_hit, detect_hit_with_decay, switched_zone, finish_switch_scan, switch_scan,
  switch_advance, sense_switched,
}

-- A sample reports a hit: the scan time is over, the mask time begins, and the one zone that is hit
-- is that of the switch that was pressed most, with the velocity of the piezo's greatest value.
pub record SwitchHitAt (fl : FloatArith) (n now : ℕ) (before after : DrumPad) : Type 0 where
  pub was_scanning : before.sensing_state ≡ scan_state
  pub scan_over : before.settings.scan_time_us ≤ sub32 now before.hit_time_us
  pub now_masked : after.sensing_state ≡ mask_state
  pub ends_now : after.scan_time_end_us ≡ now
  pub one_zone : after.hits ≡ put (same false) (switched_zone n after.max_zone_values) true
  pub recorded : after.max_zone_values.z0 ≢ 0
  pub velocities :
      after.hit_velocities
      ≡ put before.hit_velocities (switched_zone n after.max_zone_values) (
          scale_and_curve fl after.max_zone_values.z0 before.settings.zone_thresholds_min.z0
            before.settings.zone_thresholds_max.z0 before.settings.curve_type)

detect_hit-hits :
    (env : Environment) (n now t : ℕ) (pad : DrumPad)
    → (detect_hit env n now t pad).0.hits ≡ pad.hits
unfolding detect_hit count_presses
detect_hit-hits env n now t pad = ground arith

module _ (fl : FloatArith) (n now : ℕ) where
  decay-hits :
      (env : Environment) (progress : ℕ) (pad : DrumPad)
      → (detect_hit_with_decay fl env n now progress pad).0.hits ≡ pad.hits
  unfolding detect_hit_with_decay
  decay-hits env progress pad = detect_hit-hits env n now _ pad

  scan-hits :
      (pad : DrumPad)
      → NoHits pad
      → pad.sensing_state ≡ scan_state
      → let after = with_state (switch_scan fl n now pad) in
        NoHits after ⊎ SwitchHitAt fl n now pad after
  unfolding switch_scan count_presses finish_switch_scan
  scan-hits pad quiet w =
      elim (Bool-cases (ltb (sub32 now pad.hit_time_us) pad.settings.scan_time_us)) [
        | inl e ↦ inl (rw e quiet)
        | inr e ↦
            let counted = count_presses n pad in
            elim (Bool-cases (counted.max_zone_values.z0 == 0)) [
              | inl z ↦ inl (ground arith)
              | inr z ↦ inr (record {
                was_scanning = w;
                scan_over = ground arith;
                now_masked = ground arith;
                ends_now = ground arith;
                one_zone = ground arith;
                recorded = ground arith;
                velocities = ground arith;
              })
            ]
      ]

  advance-hits :
      (env : Environment) (s : SensingState) (pad : DrumPad)
      → NoHits pad
      → pad.sensing_state ≡ s
      → let after = switch_advance fl s env n now pad in
        NoHits after ⊎ SwitchHitAt fl n now pad after
  unfolding switch_advance
  advance-hits env peak_detect pad quiet w = inl (detect_hit-hits env n now _ pad ∙ quiet)
  advance-hits env mask_state pad quiet w = inl (ground arith)
  advance-hits env scan_state pad quiet w = scan-hits pad quiet w
  advance-hits env decay_state pad quiet w =
      let since = sub32 now (add32 pad.scan_time_end_us (pad.settings.mask_time_ms * 1000)) in
      inl (ground (arith, decay-hits env (decay_progress fl since pad.settings) pad))

SwitchHitAt-reset :
    (fl : FloatArith) (n now : ℕ) (pad read after : DrumPad) (v : Zones ℕ)
    → read ≡ record pad { sensor_values = v }
    → SwitchHitAt fl n now read after
    → SwitchHitAt fl n now pad after
SwitchHitAt-reset fl n now pad read after v r h = record {
  was_scanning = sym (ap (λ (x : DrumPad). x.sensing_state) r) ∙ h.was_scanning;
  scan_over =
      subst (λ (x : DrumPad). x.settings.scan_time_us ≤ sub32 now x.hit_time_us) r h.scan_over;
  now_masked = h.now_masked;
  ends_now = h.ends_now;
  one_zone = h.one_zone;
  recorded = h.recorded;
  velocities =
      h.velocities
      ∙ ap
          (λ (x : DrumPad). put x.hit_velocities (switched_zone n after.max_zone_values) (
            scale_and_curve fl after.max_zone_values.z0 x.settings.zone_thresholds_min.z0
              x.settings.zone_thresholds_max.z0 x.settings.curve_type))
          r;
}

-- A sample of a one-piezo cymbal with an active connector, in whose inactive zones nothing is hit,
-- either reports no hit, or ends a scan whose time is over, begins the mask time, and hits the one
-- zone that the switch counts choose, with the velocity of the piezo's recorded maximum.
pub sense_switched-hits :
    (fl : FloatArith) (env : Environment) (now : ℕ) (pad : DrumPad) (c : DrumConnector)
    (s : DrumPad × DrumConnector)
    → let n = get_active_zone_count pad.settings.zones_type (some c) in
      is_connector_active (some c) ≡ true
      → QuietFrom n pad
      → sense_switched fl env now pad c ≡ some s
      → NoHits s.0 ⊎ SwitchHitAt fl n now (reset_hit_info n pad) s.0
unfolding sense_switched reset_hit_info
sense_switched-hits fl env now pad c s a q e =
    let n = get_active_zone_count pad.settings.zones_type (some c) in
    let b = active_zone_count_small pad.settings.zones_type (some c) a in
    elim (Option-cases (read_input_values env (reset_hit_info n pad) c)) [
      | inl f ↦ ground arith
      | inr (p, f) ↦
          let g : s ≡ (switch_advance fl p.0.sensing_state env n now p.0, p.1) = ground arith in
          let (v, r) = read_input_values-same env (reset_hit_info n pad) c p f in
          let quiet : NoHits p.0 = ap (λ (x : DrumPad). x.hits) r ∙ reset-NoHits n pad b.0 b.1 q in
          rw g (elim (advance-hits fl n now env p.0.sensing_state p.0 quiet refl) [
            | inl h ↦ inl h
            | inr h ↦ inr (SwitchHitAt-reset fl n now (reset_hit_info n pad) p.0 _ v r h)
          ])
    ]

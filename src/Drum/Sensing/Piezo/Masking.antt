-- ===== src/Drum/Sensing/Piezo/Masking.antt =====
-- A piezo pad does not trigger again while its mask time lasts.
use mathlib.Core.Option
use eaves_drum.Base.{
  subst, some-eq, ℕ, zero, suc, ◌*◌, ◌<◌, ◌≡◌, refl, ap, ◌∙◌, true, inl, inr, Option, some, none,
  List, [], ◌∷◌, All, arith, lt→ltb, sub32, FloatArith, Option-cases,
}
use eaves_drum.Drum.Connector.{DrumConnector}
use eaves_drum.Drum.Pad.{DrumPad, mask_state, get_active_zone_count, is_connector_active}
use eaves_drum.Drum.Sensing.{Environment, reset_hit_info}
use eaves_drum.Drum.Pad.Zoned.{active_zone_count_small}
use eaves_drum.Drum.Sensing.Sample.{
  QuietFrom, NoHits, reset-NoHits, read_input_values-same, read_input_values-pins_count,
}
use eaves_drum.Drum.Sensing.Piezo.{advance, sense}
use eaves_drum.Drum.Sensing.Piezo.Hits.{sense-advance}

-- The samples of a stretch of time, each with what it reads.
unfoldable pub run :
    FloatArith → List (ℕ × Environment) → DrumPad × DrumConnector → Option (DrumPad × DrumConnector)
run fl [] s = some s
run fl ((now, env) ∷ rest) (pad, c) = Option.bind (sense fl env now pad c) (run fl rest)

-- What a sample inside the mask time leaves.
record IsMasked (pad : DrumPad) (c : DrumConnector) (s : DrumPad × DrumConnector) : Type 0 where
  masked : s.0.sensing_state ≡ mask_state
  quiet : NoHits s.0
  same_end : s.0.scan_time_end_us ≡ pad.scan_time_end_us
  same_settings : s.0.settings ≡ pad.settings
  same_pins : s.1.pins_count ≡ c.pins_count

reset-timing :
    (n : ℕ) (pad : DrumPad)
    → let p = reset_hit_info n pad in
      (p.sensing_state ≡ pad.sensing_state)
      × (p.scan_time_end_us ≡ pad.scan_time_end_us)
      × (p.settings ≡ pad.settings)
unfolding reset_hit_info
reset-timing n pad = (refl, refl, refl)

advance-masked :
    (fl : FloatArith) (env : Environment) (n now : ℕ) (p : DrumPad)
    → p.sensing_state ≡ mask_state
    → sub32 now p.scan_time_end_us < p.settings.mask_time_ms * 1000
    → advance fl p.sensing_state env n now p ≡ p
unfolding advance
advance-masked fl env n now p m h = rw (m, advance, lt→ltb _ _ h)

sense-IsMasked :
    (fl : FloatArith) (env : Environment) (now : ℕ) (pad : DrumPad) (c : DrumConnector)
    (s : DrumPad × DrumConnector)
    → is_connector_active (some c) ≡ true
    → pad.sensing_state ≡ mask_state
    → QuietFrom (get_active_zone_count pad.settings.zones_type (some c)) pad
    → sub32 now pad.scan_time_end_us < pad.settings.mask_time_ms * 1000
    → sense fl env now pad c ≡ some s
    → IsMasked pad c s
sense-IsMasked fl env now pad c s a m q h e =
    let n = get_active_zone_count pad.settings.zones_type (some c) in
    let (p, f, g) = sense-advance fl env now pad c s a e in
    let (v, r) = read_input_values-same env (reset_hit_info n pad) c p f in
    let t = reset-timing n pad in
    let b = active_zone_count_small pad.settings.zones_type (some c) a in
    let m' : p.0.sensing_state ≡ mask_state = ap (λ (x : DrumPad). x.sensing_state) r ∙ t.0 ∙ m in
    let l : p.0.scan_time_end_us ≡ pad.scan_time_end_us =
      ap (λ (x : DrumPad). x.scan_time_end_us) r ∙ t.1 in
    let k : p.0.settings ≡ pad.settings = ap (λ (x : DrumPad). x.settings) r ∙ t.2 in
    let quiet : NoHits p.0 = ap (λ (x : DrumPad). x.hits) r ∙ reset-NoHits n pad b.0 b.1 q in
    let kept = advance-masked fl env n now p.0 m' (rw (l, k) h) in
    rw (g, kept)
      (record {
        masked = m';
        quiet = quiet;
        same_end = l;
        same_settings = k;
        same_pins = read_input_values-pins_count env (reset_hit_info n pad) c p f;
      })

NoHits-QuietFrom : (n : ℕ) (pad : DrumPad) → NoHits pad → QuietFrom n pad
NoHits-QuietFrom zero pad h = ground arith
NoHits-QuietFrom (suc zero) pad h = ground arith
NoHits-QuietFrom (suc (suc zero)) pad h = ground arith
NoHits-QuietFrom (suc (suc (suc n))) pad h = tt

-- The samples lie inside the mask time.
abbrev pub InMaskTime : DrumPad → List (ℕ × Environment) → Type 0
InMaskTime pad = All (λ x. sub32 x.0 pad.scan_time_end_us < pad.settings.mask_time_ms * 1000)

active-eq :
    (c d : DrumConnector)
    → d.pins_count ≡ c.pins_count
    → is_connector_active (some c) ≡ true
    → is_connector_active (some d) ≡ true
unfolding is_connector_active
active-eq c d e h = rw e h

run-IsMasked :
    (fl : FloatArith) (xs : List (ℕ × Environment)) (pad p : DrumPad) (c d : DrumConnector)
    (s : DrumPad × DrumConnector)
    → is_connector_active (some c) ≡ true
    → IsMasked pad c (p, d)
    → InMaskTime pad xs
    → run fl xs (p, d) ≡ some s
    → IsMasked pad c s
unfolding run Option.bind
run-IsMasked fl [] pad p c d s a k w e = subst (IsMasked pad c) (some-eq e) k
run-IsMasked fl ((now, env) ∷ xs) pad p c d s a k w e =
    let act = active-eq c d k.same_pins a in
    elim (Option-cases (sense fl env now p d)) [
      | inl f ↦ let e' : none ≡ some s = rw f at e in absurd (cc)
      | inr ((p₁, d₁), f) ↦
          let one =
            sense-IsMasked fl env now p d (p₁, d₁) act k.masked (NoHits-QuietFrom _ p k.quiet)
              (rw (k.same_end, k.same_settings) w.0) f in
          run-IsMasked fl xs pad p₁ c d₁ s a
            (record {
              masked = one.masked;
              quiet = one.quiet;
              same_end = one.same_end ∙ k.same_end;
              same_settings = one.same_settings ∙ k.same_settings;
              same_pins = one.same_pins ∙ k.same_pins;
            })
            w.1 (rw f at e)
    ]

-- From a masked pad with an active connector, in whose inactive zones nothing is hit: after any
-- samples inside the mask time, at least one and whatever they read, the pad is still masked, and
-- the last sample reports no hit.
pub mask_time_is_quiet :
    (fl : FloatArith) (now : ℕ) (env : Environment) (xs : List (ℕ × Environment)) (pad : DrumPad)
    (c : DrumConnector) (s : DrumPad × DrumConnector)
    → is_connector_active (some c) ≡ true
    → pad.sensing_state ≡ mask_state
    → QuietFrom (get_active_zone_count pad.settings.zones_type (some c)) pad
    → InMaskTime pad ((now, env) ∷ xs)
    → run fl ((now, env) ∷ xs) (pad, c) ≡ some s
    → (s.0.sensing_state ≡ mask_state) × NoHits s.0
unfolding run Option.bind
mask_time_is_quiet fl now env xs pad c s a m q w e = elim (Option-cases (sense fl env now pad c)) [
  | inl f ↦ let e' : none ≡ some s = rw f at e in absurd (cc)
  | inr ((p, d), f) ↦
      let k =
        run-IsMasked fl xs pad p c d s a (sense-IsMasked fl env now pad c (p, d) a m q w.0 f) w.1
          (rw f at e) in
      (k.masked, k.quiet)
]

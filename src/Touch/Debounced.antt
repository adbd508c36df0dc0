-- ===== src/Touch/Debounced.antt =====
-- Short touches do not switch a touch sensor.
use eaves_drum.Base.{
  ℕ, ◌+◌, ◌/◌, ◌<◌, ◌≤◌, ◌≡◌, ◌⊎◌, inl, inr, refl, ◌∙◌, Bool, true, false, not, ◌&&◌, Option, none,
  some, ltb, ◌==◌, if◌then◌else◌, sub32, arith, List, [], ◌∷◌, Bool-cases,
}
use eaves_drum.Touch.{
  track_range, TouchSensorInfo, check_state_switched, switch_by_value, update_calibration,
  read_sensor,
}

-- A value of the sensor, if there is one, and the clocks.
pub record Sample : Type 0 where
  pub raw : Option ℕ
  pub now_ms : ℕ
  pub now_us : ℕ

-- The clock rises from `last`, to at most a millisecond after `t0`, before it wraps.
abbrev pub Rising : ℕ → ℕ → List Sample → Type 0
Rising t0 last [] = Unit
Rising t0 last (s ∷ ss) =
    (last ≤ s.now_us) × (s.now_us ≤ t0 + 1000) × (s.now_us < 4294967296) × Rising t0 s.now_us ss

-- No switch is under way, or one that began between two times.
abbrev pub Between : ℕ → ℕ → TouchSensorInfo → Type 0
Between t0 now t = (t.switch_start_us ≡ 0) ⊎ ((t0 ≤ t.switch_start_us) × (t.switch_start_us ≤ now))

-- The sensor stays on or off, and a switch that is under way began between two times.
abbrev Stays : ℕ → ℕ → TouchSensorInfo → TouchSensorInfo → Type 0
Stays t0 now t u = (u.is_on ≡ t.is_on) × Between t0 now u

recent :
    (t0 now start : ℕ)
    → t0 ≤ now
    → now ≤ t0 + 1000
    → now < 4294967296
    → t0 ≤ start
    → start ≤ now
    → ltb 1000 (sub32 now start) ≡ false
recent t0 now start a b c d e = ground arith

check-Stays :
    (t0 : ℕ) (t : TouchSensorInfo) (b : Bool) (now : ℕ)
    → t0 ≤ now
    → now ≤ t0 + 1000
    → now < 4294967296
    → Between t0 now t
    → Stays t0 now t (check_state_switched t b now)
unfolding check_state_switched
check-Stays t0 t b now lo hi small (inl z) =
    let e : (t.switch_start_us == 0) ≡ true = ground arith in
    (rw e refl, rw e (inr (lo, omega arith)))
check-Stays t0 t b now lo hi small (inr (since, before)) =
    let r = recent t0 now t.switch_start_us lo hi small since before in
    elim (Bool-cases (t.switch_start_us == 0)) [
      | inl e ↦ (rw e refl, rw e (inr (lo, omega arith)))
      | inr e ↦ (rw (e, r) refl, rw (e, r) (inr (since, before)))
    ]

value-Stays :
    (t0 : ℕ) (t : TouchSensorInfo) (value now : ℕ)
    → t0 ≤ now
    → now ≤ t0 + 1000
    → now < 4294967296
    → Between t0 now t
    → Stays t0 now t (switch_by_value t value now)
unfolding switch_by_value
value-Stays t0 t value now lo hi small k =
    let on = check-Stays t0 t true now lo hi small k in
    let off = check-Stays t0 t false now lo hi small k in
    elim (Bool-cases (not t.is_on && ltb t.switch_on_threshold value)) [
      | inl e ↦ rw e on
      | inr e ↦ elim (Bool-cases (t.is_on && ltb value t.switch_off_threshold)) [
        | inl f ↦ rw (e, f) off
        | inr f ↦ rw (e, f) (refl, inl refl)
      ]
    ]

module _ (on_level off_level : ℕ → ℕ → ℕ) where
  calibration_keeps :
      (t : TouchSensorInfo) (value now_ms : ℕ)
      → ((update_calibration on_level off_level t value now_ms).is_on ≡ t.is_on)
        × ((update_calibration on_level off_level t value now_ms).switch_start_us
            ≡ t.switch_start_us)
  unfolding update_calibration
  calibration_keeps t value now_ms =
      elim (Bool-cases (ltb 2000 (sub32 now_ms (track_range t.calibration value).start_time_ms))) [
        | inl e ↦ (rw e refl, rw e refl)
        | inr e ↦ (rw e refl, rw e refl)
      ]

  maybe-Stays :
      (t0 : ℕ) (t u : TouchSensorInfo) (value now : ℕ)
      → Stays t0 now u (switch_by_value u value now)
      → u.is_on ≡ t.is_on
      → Stays t0 now t (switch_by_value t value now)
      → (b : Bool) → Stays t0 now t (switch_by_value (if b then u else t) value now)
  maybe-Stays t0 t u value now a same b true = (a.0 ∙ same, a.1)
  maybe-Stays t0 t u value now a same b false = b

  sample-Stays :
      (t0 : ℕ) (t : TouchSensorInfo) (raw : Option ℕ) (now_ms now : ℕ)
      → t0 ≤ now
      → now ≤ t0 + 1000
      → now < 4294967296
      → Between t0 now t
      → Stays t0 now t (read_sensor on_level off_level t raw now_ms now)
  unfolding read_sensor
  sample-Stays t0 t none now_ms now lo hi small k = (refl, k)
  sample-Stays t0 t (some raw) now_ms now lo hi small k =
      let value = raw / 2 in
      let u = update_calibration on_level off_level t value now_ms in
      let kept = calibration_keeps t value now_ms in
      let k' : Between t0 now u = rw kept.1 k in
      let calibrated = value-Stays t0 u value now lo hi small k' in
      maybe-Stays t0 t u value now calibrated kept.0 (value-Stays t0 t value now lo hi small k)
        t.calibration.needs_calibration

  pub read_all : TouchSensorInfo → List Sample → TouchSensorInfo
  read_all t [] = t
  read_all t (s ∷ ss) = read_all (read_sensor on_level off_level t s.raw s.now_ms s.now_us) ss

  -- From a sensor with no switch under way, or one that began at `t0` or later: whatever is read
  -- until 1 ms after `t0`, at rising times before the clock wraps, the sensor stays on or off,
  -- calibration included.
  pub short_touches :
      (t0 last : ℕ) (t : TouchSensorInfo) (samples : List Sample)
      → t0 ≤ last
      → Between t0 last t
      → Rising t0 last samples
      → (read_all t samples).is_on ≡ t.is_on
  unfolding read_all
  short_touches t0 last t [] lo k r = refl
  short_touches t0 last t (s ∷ ss) lo k (after, hi, small, r) =
      let later : Between t0 s.now_us t = ground (arith, k) in
      let one = sample-Stays t0 t s.raw s.now_ms s.now_us (omega arith) hi small later in
      short_touches t0 s.now_us (read_sensor on_level off_level t s.raw s.now_ms s.now_us) ss
        (omega arith) one.1 r
      ∙ one.0

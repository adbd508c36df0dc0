-- ===== src/Drum/Sensing/Latency/Once.antt =====
-- A latency test that is no preview takes one hit.
use eaves_drum.Base.{
  ℕ, zero, suc, ap, ◌∙◌, ◌+◌, ◌≤◌, ◌≡◌, ◌⊎◌, refl, true, false, none, some, inl, inr, List, [], ◌∷◌,
  Bool-cases, Option-cases, leb, if◌then◌else◌, arith,
}
use eaves_drum.Drum.Settings.{put}
use eaves_drum.Drum.Pin.{Inputs, DrumPin, read_input}
use eaves_drum.Drum.Connector.{DrumConnector}
use eaves_drum.Drum.Pad.{DrumPad, get_active_zone_count, is_connector_active}
use eaves_drum.Drum.Pad.Zoned.{active_zone_count_small}
use eaves_drum.Drum.Sensing.Latency.{
  LatencyTestInfo, wait_for_hit, sending_result, detect_first, reset_state, sense_latency,
  calibrated,
}

-- How many of some samples report a hit for the first zone, up to a division by zero.
unfoldable pub count_hits : DrumPad → DrumConnector → LatencyTestInfo → List (Inputs × ℕ) → ℕ
count_hits pad c info [] = 0
count_hits pad c info ((io, now) ∷ rest) = elim (sense_latency io now pad c info) [
  | none ↦ 0
  | some (p, d, i) ↦ let others = count_hits p d i rest in if p.hits.z0 then others + 1 else others
]

reset_state-main : (n : ℕ) (pad : DrumPad) → 1 ≤ n → n ≤ 3 → (reset_state n pad).hits.z0 ≡ false
unfolding reset_state
reset_state-main zero pad h k = absurd (omega arith)
reset_state-main (suc zero) pad h k = refl
reset_state-main (suc (suc zero)) pad h k = refl
reset_state-main (suc (suc (suc zero))) pad h k = refl
reset_state-main (suc (suc (suc (suc n)))) pad h k = absurd (omega arith)

later :
    (now value : ℕ) (pad : DrumPad) (info : LatencyTestInfo)
    → pad.hits.z0 ≡ false
    → info.state ≡ sending_result
    → let s = detect_first now pad info value in (s.0.hits.z0 ≡ false) × (s.1 ≡ info)
unfolding detect_first
later now value pad info q e = (ground arith, ground arith)

first_sample :
    (now value : ℕ) (pad : DrumPad) (info : LatencyTestInfo)
    → pad.hits.z0 ≡ false
    → info.state ≡ wait_for_hit
    → info.preview ≡ false
    → let s = detect_first now pad info value in
      ((s.0.hits.z0 ≡ true) × (s.1.state ≡ sending_result)) ⊎ ((s.0.hits.z0 ≡ false) × (s.1 ≡ info))
unfolding detect_first
first_sample now value pad info q w p = elim (Bool-cases (leb info.threshold value)) [
  | inl e ↦ inl (ground arith, ground arith)
  | inr e ↦ inr (ground arith, ground arith)
]

module _ (io : Inputs) (now : ℕ) (pad : DrumPad) (c : DrumConnector) (info : LatencyTestInfo) where
  -- The pad as a sample resets it.
  abbrev cleared : DrumPad
  cleared = reset_state (get_active_zone_count pad.settings.zones_type (some c)) pad

  -- A sample of an active connector reads its pin, or divides by zero.
  sample_cases :
      is_connector_active (some c) ≡ true
      → (sense_latency io now pad c info ≡ none)
        ⊎ ((v : ℕ) × (p : DrumPin) × (sense_latency io now pad c info
              ≡ some (
                (detect_first now cleared info v).0,
                record c { pins = put c.pins 0 p },
                (detect_first now cleared info v).1,
              )))
  unfolding sense_latency
  sample_cases h = elim (Option-cases (read_input io c.pins.z0 calibrated)) [
    | inl e ↦ inl simp (h, e)
    | inr (r, e) ↦ inr (r.0, r.1, simp (h, e))
  ]

  cleared-main : is_connector_active (some c) ≡ true → cleared.hits.z0 ≡ false
  cleared-main h =
      let (one, three) = active_zone_count_small pad.settings.zones_type (some c) h in
      reset_state-main _ pad one three

no_more :
    (rest : List (Inputs × ℕ)) (pad : DrumPad) (c : DrumConnector) (info : LatencyTestInfo)
    → is_connector_active (some c) ≡ true
    → info.state ≡ sending_result
    → count_hits pad c info rest ≡ 0
unfolding count_hits is_connector_active
no_more [] pad c info h e = refl
no_more ((io, now) ∷ rest) pad c info h e = elim (sample_cases io now pad c info h) [
  | inl fault ↦ rw (fault, count_hits)
  | inr (v, p, read) ↦
      let l = later now v (cleared io now pad c info) info (cleared-main io now pad c info h) e in
      let others =
        no_more rest _ (record c { pins = put c.pins 0 p }) _ h
          (ap (λ (i : LatencyTestInfo). i.state) l.1 ∙ e) in
      rw (read, count_hits) (simp l.0 others)
]

-- A latency test that waits for a hit and is no preview reports at most one hit over any samples
-- of a pad with an active connector, whatever they read, up to a division by zero.
pub one_latency_hit :
    (samples : List (Inputs × ℕ)) (pad : DrumPad) (c : DrumConnector) (info : LatencyTestInfo)
    → is_connector_active (some c) ≡ true
    → info.state ≡ wait_for_hit
    → info.preview ≡ false
    → count_hits pad c info samples ≤ 1
unfolding count_hits is_connector_active
one_latency_hit [] pad c info h w q = omega arith
one_latency_hit ((io, now) ∷ rest) pad c info h w q = elim (sample_cases io now pad c info h) [
  | inl fault ↦ rw (fault, count_hits) (omega arith)
  | inr (v, p, read) ↦
      let quiet = cleared-main io now pad c info h in
      let d : DrumConnector = record c { pins = put c.pins 0 p } in
      let s = detect_first now (cleared io now pad c info) info v in
      elim (first_sample now v (cleared io now pad c info) info quiet w q) [
        | inl (hit, sent) ↦
            let none_left = no_more rest s.0 d s.1 h sent in
            rw (read, count_hits) (simp hit (omega (arith, none_left)))
        | inr (missed, same) ↦
            let more =
              one_latency_hit rest s.0 d s.1 h (ap (λ (i : LatencyTestInfo). i.state) same ∙ w)
                (ap (λ (i : LatencyTestInfo). i.preview) same ∙ q) in
            rw (read, count_hits) (simp missed more)
      ]
]

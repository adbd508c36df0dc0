-- ===== src/Config/Settings/Thresholds.antt =====
-- The thresholds of a pad's zones, written and read again.
use eaves_drum.Base.{
  ℕ, zero, suc, ◌<◌, ◌≡◌, ◌⊎◌, inl, inr, refl, Bool, ◌&&◌, ltb, if◌then◌else◌, arith, Bool-cases,
}
use eaves_drum.Config.Json.{Json, Documented}
use eaves_drum.Config.Arrays.{
  one, two, three, size-one, size-two, one-0, two-0, two-1, three-0, three-1, three-2,
}
use eaves_drum.Config.Settings.{word_limit, zone_from, thresholds_from, zone_to, thresholds_to}
use eaves_drum.Drum.Settings.{
  DrumSettings, Zones, at, put, get_zone_count, has_zone_threshold_max, ZonesType,
  zones1_controller, zones1_piezo, zones2_piezos, zones2_piezo_and_switch, zones3_piezos,
  zones3_piezo_and_switches_2trs, zones3_piezo_and_switches_1trs,
}

-- The zones that are saved, and those that stay.
abbrev pub keep_zones : (ℕ → Bool) → Zones ℕ → Zones ℕ → Zones ℕ
keep_zones saved new old = record {
  z0 = if saved 0 then new.z0 else old.z0;
  z1 = if saved 1 then new.z1 else old.z1;
  z2 = if saved 2 then new.z2 else old.z2;
}

abbrev pub saves_min : ZonesType → ℕ → Bool
saves_min z i = ltb i (get_zone_count z)

abbrev pub saves_max : ZonesType → ℕ → Bool
saves_max z i = ltb i (get_zone_count z) && has_zone_threshold_max z i

abbrev pub Words : Zones ℕ → Type 0
Words z = (z.z0 < word_limit) × (z.z1 < word_limit) × (z.z2 < word_limit)

at-Words : (z : Zones ℕ) (i : ℕ) → Words z → at z i < word_limit
at-Words z zero (a, b, c) = a
at-Words z (suc zero) (a, b, c) = b
at-Words z (suc (suc i)) (a, b, c) = c

zone_count-cases :
    (z : ZonesType) → (get_zone_count z ≡ 1) ⊎ (get_zone_count z ≡ 2) ⊎ (get_zone_count z ≡ 3)
unfolding get_zone_count
zone_count-cases zones1_controller = inl refl
zone_count-cases zones1_piezo = inl refl
zone_count-cases zones2_piezos = inr (inl refl)
zone_count-cases zones2_piezo_and_switch = inr (inl refl)
zone_count-cases zones3_piezos = inr (inr refl)
zone_count-cases zones3_piezo_and_switches_2trs = inr (inr refl)
zone_count-cases zones3_piezo_and_switches_1trs = inr (inr refl)

module _ (js : Json) (D : Documented js) (s : DrumSettings) where
  -- What a round does for a zone that is saved.
  abbrev loaded_zone : ℕ → DrumSettings → DrumSettings
  loaded_zone i b = record b {
    zone_thresholds_min = put b.zone_thresholds_min i (at s.zone_thresholds_min i);
    zone_thresholds_max = put b.zone_thresholds_max i (
        if has_zone_threshold_max s.zones_type i
        then at s.zone_thresholds_max i
        else at b.zone_thresholds_max i);
  }

  written_zone :
      (node : js.Node) (i : ℕ) (b : DrumSettings)
      → Words s.zone_thresholds_min
      → Words s.zone_thresholds_max
      → js.element node i ≡ js.of_object (zone_to js s i)
      → zone_from js node i b ≡ loaded_zone i b
  unfolding zone_from zone_to
  written_zone node i b low high e =
      let l = D.unsigned_number word_limit (at s.zone_thresholds_min i) (at-Words _ i low) in
      let h = D.unsigned_number word_limit (at s.zone_thresholds_max i) (at-Words _ i high) in
      elim (Bool-cases (has_zone_threshold_max s.zones_type i)) [
        | inl k ↦ simp (e, k, D.object_object, D.member-set, l, h)
        | inr k ↦ simp (e, k, D.object_object, D.member-set, D.member-empty, D.unsigned_missing, l)
      ]

  absent_zone :
      (node : js.Node) (i : ℕ) (b : DrumSettings)
      → js.element node i ≡ js.missing
      → zone_from js node i b ≡ b
  unfolding zone_from
  absent_zone node i b e = simp (e, D.object_missing)

  abbrev zone_node : ℕ → js.Node
  zone_node i = js.of_object (zone_to js s i)

  abbrev one_zone : js.Array
  one_zone = one js D (zone_node 0)

  abbrev two_zones : js.Array
  two_zones = two js D (zone_node 0) (zone_node 1)

  abbrev three_zones : js.Array
  three_zones = three js D (zone_node 0) (zone_node 1) (zone_node 2)

  -- The settings after the rounds.
  pub thresholds_from-thresholds_to :
      (b : DrumSettings)
      → Words s.zone_thresholds_min
      → Words s.zone_thresholds_max
      → thresholds_from js (js.of_array (thresholds_to js s)) b ≡ record b {
        zone_thresholds_min =
            keep_zones (saves_min s.zones_type) s.zone_thresholds_min b.zone_thresholds_min;
        zone_thresholds_max =
            keep_zones (saves_max s.zones_type) s.zone_thresholds_max b.zone_thresholds_max;
      }
  unfolding thresholds_from thresholds_to
  thresholds_from-thresholds_to b low high = elim (zone_count-cases s.zones_type) [
    | inl c ↦
        let n = size-one js D (zone_node 0) in
        rw c (
          simp (
            D.array_array,
            written_zone (js.of_array one_zone) 0 b low high (one-0 js D _),
            absent_zone (js.of_array one_zone) 1 (loaded_zone 0 b)
                (D.element-beyond one_zone 1 (omega arith)),
            absent_zone (js.of_array one_zone) 2 (loaded_zone 0 b)
                (D.element-beyond one_zone 2 (omega arith)),
          ))
    | inr (inl c) ↦
        let n = size-two js D (zone_node 0) (zone_node 1) in
        rw c (
          simp (
            D.array_array,
            written_zone (js.of_array two_zones) 0 b low high (two-0 js D _ _),
            written_zone (js.of_array two_zones) 1 (loaded_zone 0 b) low high (two-1 js D _ _),
            absent_zone (js.of_array two_zones) 2 (loaded_zone 1 (loaded_zone 0 b))
                (D.element-beyond two_zones 2 (omega arith)),
          ))
    | inr (inr c) ↦ rw c (
        simp (
          D.array_array,
          written_zone (js.of_array three_zones) 0 b low high (three-0 js D _ _ _),
          written_zone (js.of_array three_zones) 1 (loaded_zone 0 b) low high (three-1 js D _ _ _),
          written_zone (js.of_array three_zones) 2 (loaded_zone 1 (loaded_zone 0 b)) low high
              (three-2 js D _ _ _),
        ))
  ]

-- ===== src/Config/Names.antt =====
-- The names of the enumerations in src/config/config_settings.cpp and src/config/config_mux.cpp.
-- Arduino's `equalsIgnoreCase` is a parameter.
use eaves_drum.Base.{
  ℕ, ◌+◌, ◌≡◌, Bool, true, false, ◌&&◌, leb, ◌==◌, if◌then◌else◌, List, [], ◌∷◌, String, Bool-cases,
  inl, inr,
}
use Prim.Native.Char.{code}
use eaves_drum.Drum.Settings.{
  PadType, drum, cymbal, pedal, ZonesType, zones1_controller, zones1_piezo, zones2_piezos,
  zones2_piezo_and_switch, zones3_piezos, zones3_piezo_and_switches_2trs,
  zones3_piezo_and_switches_1trs, ChokeType, no_choke, switch_edge, switch_cup, touch_sensor,
  CurveType, linear, exponential1, exponential2, logarithmic1, logarithmic2, DecayType,
  linear_decay,
}

lower : ℕ → ℕ
lower c = if leb 65 c && leb c 90 then c + 32 else c

abbrev lowered : String → List ℕ
lowered String.[] = []
lowered (String.◌∷◌ c s) = lower (code c) ∷ lowered s

same_codes : List ℕ → List ℕ → Bool
same_codes [] [] = true
same_codes [] (d ∷ ds) = false
same_codes (c ∷ cs) [] = false
same_codes (c ∷ cs) (d ∷ ds) = let rest = same_codes cs ds in (c == d) && rest

-- The documented answer for ASCII text.
unfoldable pub ignoring_case : String → String → Bool
unfolding lower same_codes
ignoring_case s t = same_codes (lowered s) (lowered t)

abbrev pub IgnoresCase : (String → String → Bool) → Type 0
IgnoresCase equals = (s t : String) → equals s t ≡ ignoring_case s t

module _ (equals : String → String → Bool) where
  -- Uses of `MAP_STRING_TO_ENUM`, one after the other.
  unfoldable pub named : {A : Type 0} → String → List (String × A) → A → A
  named value [] fallback = fallback
  named value ((name, a) ∷ names) fallback =
      let rest = named value names fallback in if equals value name then a else rest

  unfoldable pub map_string_to_pad_type : String → PadType
  unfolding named
  map_string_to_pad_type value =
      named value (("Drum", drum) ∷ ("Cymbal", cymbal) ∷ ("Pedal", pedal) ∷ []) drum

  unfoldable pub map_string_to_zones_type : String → ZonesType
  unfolding named
  map_string_to_zones_type value =
      named value
        (("Zones1_Controller", zones1_controller)
          ∷ ("Zones1_Piezo", zones1_piezo)
          ∷ ("Zones2_Piezos", zones2_piezos)
          ∷ ("Zones2_PiezoAndSwitch", zones2_piezo_and_switch)
          ∷ ("Zones3_Piezos", zones3_piezos)
          ∷ ("Zones3_PiezoAndSwitches_2TRS", zones3_piezo_and_switches_2trs)
          ∷ ("Zones3_PiezoAndSwitches_1TRS", zones3_piezo_and_switches_1trs)
          ∷ [])
        zones1_piezo

  unfoldable pub map_string_to_choke_type : String → ChokeType
  unfolding named
  map_string_to_choke_type value =
      named value
        (("None", no_choke)
          ∷ ("Switch_Edge", switch_edge)
          ∷ ("Switch_Cup", switch_cup)
          ∷ ("TouchSensor", touch_sensor)
          ∷ [])
        no_choke

  unfoldable pub map_string_to_curve_type : String → CurveType
  unfolding named
  map_string_to_curve_type value =
      named value
        (("Linear", linear)
          ∷ ("Exponential1", exponential1)
          ∷ ("Exponential2", exponential2)
          ∷ ("Logarithmic1", logarithmic1)
          ∷ ("Logarithmic2", logarithmic2)
          ∷ [])
        linear

  unfoldable pub map_string_to_decay_type : String → DecayType
  unfolding named
  map_string_to_decay_type value = named value (("Linear", linear_decay) ∷ []) linear_decay

unfoldable pub map_pad_type_to_string : PadType → String
map_pad_type_to_string drum = "Drum"
map_pad_type_to_string cymbal = "Cymbal"
map_pad_type_to_string pedal = "Pedal"

unfoldable pub map_zones_type_to_string : ZonesType → String
map_zones_type_to_string zones1_controller = "Zones1_Controller"
map_zones_type_to_string zones1_piezo = "Zones1_Piezo"
map_zones_type_to_string zones2_piezos = "Zones2_Piezos"
map_zones_type_to_string zones2_piezo_and_switch = "Zones2_PiezoAndSwitch"
map_zones_type_to_string zones3_piezos = "Zones3_Piezos"
map_zones_type_to_string zones3_piezo_and_switches_2trs = "Zones3_PiezoAndSwitches_2TRS"
map_zones_type_to_string zones3_piezo_and_switches_1trs = "Zones3_PiezoAndSwitches_1TRS"

unfoldable pub map_choke_type_to_string : ChokeType → String
map_choke_type_to_string no_choke = "None"
map_choke_type_to_string switch_cup = "Switch_Cup"
map_choke_type_to_string switch_edge = "Switch_Edge"
map_choke_type_to_string touch_sensor = "TouchSensor"

unfoldable pub map_curve_type_to_string : CurveType → String
map_curve_type_to_string linear = "Linear"
map_curve_type_to_string exponential1 = "Exponential1"
map_curve_type_to_string exponential2 = "Exponential2"
map_curve_type_to_string logarithmic1 = "Logarithmic1"
map_curve_type_to_string logarithmic2 = "Logarithmic2"

unfoldable pub map_decay_type_to_string : DecayType → String
map_decay_type_to_string linear_decay = "Linear"

module _ (equals : String → String → Bool) (law : IgnoresCase equals) where
  pub pad_type_back : (t : PadType) → map_string_to_pad_type equals (map_pad_type_to_string t) ≡ t
  unfolding map_string_to_pad_type map_pad_type_to_string ignoring_case
  pad_type_back drum = simp law
  pad_type_back cymbal = simp law
  pad_type_back pedal = simp law

  pub zones_type_back :
      (t : ZonesType) → map_string_to_zones_type equals (map_zones_type_to_string t) ≡ t
  unfolding map_string_to_zones_type map_zones_type_to_string ignoring_case
  zones_type_back zones1_controller = simp law
  zones_type_back zones1_piezo = simp law
  zones_type_back zones2_piezos = simp law
  zones_type_back zones2_piezo_and_switch = simp law
  zones_type_back zones3_piezos = simp law
  zones_type_back zones3_piezo_and_switches_2trs = simp law
  zones_type_back zones3_piezo_and_switches_1trs = simp law

  pub choke_type_back :
      (t : ChokeType) → map_string_to_choke_type equals (map_choke_type_to_string t) ≡ t
  unfolding map_string_to_choke_type map_choke_type_to_string ignoring_case
  choke_type_back no_choke = simp law
  choke_type_back switch_edge = simp law
  choke_type_back switch_cup = simp law
  choke_type_back touch_sensor = simp law

  pub curve_type_back :
      (t : CurveType) → map_string_to_curve_type equals (map_curve_type_to_string t) ≡ t
  unfolding map_string_to_curve_type map_curve_type_to_string ignoring_case
  curve_type_back linear = simp law
  curve_type_back exponential1 = simp law
  curve_type_back exponential2 = simp law
  curve_type_back logarithmic1 = simp law
  curve_type_back logarithmic2 = simp law

  pub decay_type_back :
      (t : DecayType) → map_string_to_decay_type equals (map_decay_type_to_string t) ≡ t
  unfolding map_string_to_decay_type map_decay_type_to_string
  decay_type_back linear_decay = elim (Bool-cases (equals "Linear" "Linear")) [
    | inl e ↦ rw e
    | inr e ↦ rw e
  ]

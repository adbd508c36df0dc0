-- ===== src/Config/Settings/Lookup.antt =====
-- What saved settings hold, member by member.
use eaves_drum.Base.{ℕ, ◌≡◌, Bool, true, false, not, if◌then◌else◌, List, [], ◌∷◌, ◌++◌}
use eaves_drum.Config.Json.{Json, Documented}
use eaves_drum.Config.Names.{
  map_pad_type_to_string, map_zones_type_to_string, map_choke_type_to_string,
  map_curve_type_to_string, map_decay_type_to_string,
}
use eaves_drum.Config.Settings.{
  DrumSettingId, choke_type_id, cross_note_id, head_rim_bias_id, pedal_control_items,
  drum_or_cymbal_items, get_supported_settings, convert_each, thresholds_to,
}
use eaves_drum.Drum.Settings.{
  PadType, drum, cymbal, pedal, ZonesType, zones1_controller, zones1_piezo, zones2_piezos,
  zones2_piezo_and_switch, zones3_piezos, zones3_piezo_and_switches_2trs,
  zones3_piezo_and_switches_1trs, DrumSettings,
}

-- Which groups of settings are saved beside those that always are.
pub record Groups : Type 0 where
  pub controller : Bool
  pub choke : Bool
  pub cross : Bool
  pub bias : Bool

abbrev pub no_group : Groups
no_group = record { controller = false; choke = false; cross = false; bias = false }

abbrev piezo_groups : PadType → Bool → Bool → Groups
piezo_groups drum two several = record no_group { cross = two; bias = several }
piezo_groups cymbal two several = record no_group { choke = true }
piezo_groups pedal two several = no_group

-- A controller has its own; a switch can choke, and a cymbal; a drum of two zones has a cross note,
-- and one of several zones a bias.
abbrev pub groups : ZonesType → PadType → Groups
groups zones1_controller p = record no_group { controller = true }
groups zones1_piezo p = piezo_groups p false false
groups zones2_piezos p = piezo_groups p true true
groups zones3_piezos p = piezo_groups p false true
groups zones2_piezo_and_switch p = record no_group { choke = true }
groups zones3_piezo_and_switches_2trs p = record no_group { choke = true }
groups zones3_piezo_and_switches_1trs p = record no_group { choke = true }

module _ (js : Json) (D : Documented js) where
  abbrev pub number_if : Bool → ℕ → js.Node
  number_if saved n = if saved then js.of_number n else js.missing

  -- The members of a node in which some groups of `s` are saved.
  pub record Finds (g : Groups) (s : DrumSettings) (node : js.Node) : Type 0 where
    pub pads : js.member node "padType" ≡ js.of_text (map_pad_type_to_string s.pad_type)
    pub zones : js.member node "zonesType" ≡ js.of_text (map_zones_type_to_string s.zones_type)
    pub chokes :
        js.member node "chokeType"
        ≡ (if g.choke then js.of_text (map_choke_type_to_string s.choke_type) else js.missing)
    pub curves : js.member node "curveType" ≡ js.of_text (map_curve_type_to_string s.curve_type)
    pub decays :
        js.member node "decayType"
        ≡ (if g.controller then js.missing else js.of_text (map_decay_type_to_string s.decay_type))
    pub thresholds : js.member node "zoneThresholds" ≡ js.of_array (thresholds_to js s)
    pub scan_time : js.member node "scanTimeUs" ≡ number_if (not g.controller) s.scan_time_us
    pub mask_time : js.member node "maskTimeMs" ≡ number_if (not g.controller) s.mask_time_ms
    pub decay_time : js.member node "decayTimeMs" ≡ number_if (not g.controller) s.decay_time_ms
    pub almost :
        js.member node "almostClosedThreshold"
        ≡ (if g.controller then js.of_float s.almost_closed_threshold else js.missing)
    pub closing :
        js.member node "closedThreshold"
        ≡ (if g.controller then js.of_float s.closed_threshold else js.missing)
    pub tolerances :
        js.member node "moveDetectTolerance" ≡ number_if g.controller s.move_detect_tolerance
    pub timeouts :
        js.member node "chickDetectTimeoutMs" ≡ number_if g.controller s.chick_detect_timeout_ms
    pub crosses :
        js.member node "crossNoteEnabled"
        ≡ (if g.cross then js.of_bool s.cross_note_enabled else js.missing)
    pub biases :
        js.member node "headRimBias"
        ≡ (if g.bias then js.of_integer s.head_rim_bias else js.missing)

  unfoldable pub written : DrumSettings → List DrumSettingId → js.Node
  written s ids = js.of_object (convert_each js s ids js.empty_object)

  controller-Finds :
      (s : DrumSettings)
      → Finds (record no_group { controller = true }) s (written s pedal_control_items)
  unfolding written convert_each
  controller-Finds s = record {
    pads = simp D.member-set;
    zones = simp D.member-set;
    chokes = simp (D.member-set, D.member-empty);
    curves = simp D.member-set;
    decays = simp (D.member-set, D.member-empty);
    thresholds = simp D.member-set;
    scan_time = simp (D.member-set, D.member-empty);
    mask_time = simp (D.member-set, D.member-empty);
    decay_time = simp (D.member-set, D.member-empty);
    almost = simp D.member-set;
    closing = simp D.member-set;
    tolerances = simp D.member-set;
    timeouts = simp D.member-set;
    crosses = simp (D.member-set, D.member-empty);
    biases = simp (D.member-set, D.member-empty);
  }

  plain-Finds : (s : DrumSettings) → Finds (no_group) s (written s drum_or_cymbal_items)
  unfolding written convert_each
  plain-Finds s = record {
    pads = simp D.member-set;
    zones = simp D.member-set;
    chokes = simp (D.member-set, D.member-empty);
    curves = simp D.member-set;
    decays = simp D.member-set;
    thresholds = simp D.member-set;
    scan_time = simp D.member-set;
    mask_time = simp D.member-set;
    decay_time = simp D.member-set;
    almost = simp (D.member-set, D.member-empty);
    closing = simp (D.member-set, D.member-empty);
    tolerances = simp (D.member-set, D.member-empty);
    timeouts = simp (D.member-set, D.member-empty);
    crosses = simp (D.member-set, D.member-empty);
    biases = simp (D.member-set, D.member-empty);
  }

  choke-Finds :
      (s : DrumSettings)
      → Finds
          (record no_group { choke = true })
          s
          (written s (drum_or_cymbal_items ++ (choke_type_id ∷ [])))
  unfolding written convert_each
  choke-Finds s = record {
    pads = simp D.member-set;
    zones = simp D.member-set;
    chokes = simp D.member-set;
    curves = simp D.member-set;
    decays = simp D.member-set;
    thresholds = simp D.member-set;
    scan_time = simp D.member-set;
    mask_time = simp D.member-set;
    decay_time = simp D.member-set;
    almost = simp (D.member-set, D.member-empty);
    closing = simp (D.member-set, D.member-empty);
    tolerances = simp (D.member-set, D.member-empty);
    timeouts = simp (D.member-set, D.member-empty);
    crosses = simp (D.member-set, D.member-empty);
    biases = simp (D.member-set, D.member-empty);
  }

  bias-Finds :
      (s : DrumSettings)
      → Finds
          (record no_group { bias = true })
          s
          (written s (drum_or_cymbal_items ++ (head_rim_bias_id ∷ [])))
  unfolding written convert_each
  bias-Finds s = record {
    pads = simp D.member-set;
    zones = simp D.member-set;
    chokes = simp (D.member-set, D.member-empty);
    curves = simp D.member-set;
    decays = simp D.member-set;
    thresholds = simp D.member-set;
    scan_time = simp D.member-set;
    mask_time = simp D.member-set;
    decay_time = simp D.member-set;
    almost = simp (D.member-set, D.member-empty);
    closing = simp (D.member-set, D.member-empty);
    tolerances = simp (D.member-set, D.member-empty);
    timeouts = simp (D.member-set, D.member-empty);
    crosses = simp (D.member-set, D.member-empty);
    biases = simp D.member-set;
  }

  cross-Finds :
      (s : DrumSettings)
      → Finds
          (record no_group { cross = true; bias = true })
          s
          (written s (drum_or_cymbal_items ++ (cross_note_id ∷ head_rim_bias_id ∷ [])))
  unfolding written convert_each
  cross-Finds s = record {
    pads = simp D.member-set;
    zones = simp D.member-set;
    chokes = simp (D.member-set, D.member-empty);
    curves = simp D.member-set;
    decays = simp D.member-set;
    thresholds = simp D.member-set;
    scan_time = simp D.member-set;
    mask_time = simp D.member-set;
    decay_time = simp D.member-set;
    almost = simp (D.member-set, D.member-empty);
    closing = simp (D.member-set, D.member-empty);
    tolerances = simp (D.member-set, D.member-empty);
    timeouts = simp (D.member-set, D.member-empty);
    crosses = simp D.member-set;
    biases = simp D.member-set;
  }

  pub supported-Finds :
      (z : ZonesType) (p : PadType) (s : DrumSettings)
      → Finds (groups z p) s (written s (get_supported_settings z p))
  unfolding get_supported_settings
  supported-Finds zones1_controller p s = controller-Finds s
  supported-Finds zones1_piezo drum s = plain-Finds s
  supported-Finds zones1_piezo cymbal s = choke-Finds s
  supported-Finds zones1_piezo pedal s = plain-Finds s
  supported-Finds zones2_piezos drum s = cross-Finds s
  supported-Finds zones2_piezos cymbal s = choke-Finds s
  supported-Finds zones2_piezos pedal s = plain-Finds s
  supported-Finds zones3_piezos drum s = bias-Finds s
  supported-Finds zones3_piezos cymbal s = choke-Finds s
  supported-Finds zones3_piezos pedal s = plain-Finds s
  supported-Finds zones2_piezo_and_switch p s = choke-Finds s
  supported-Finds zones3_piezo_and_switches_2trs p s = choke-Finds s
  supported-Finds zones3_piezo_and_switches_1trs p s = choke-Finds s

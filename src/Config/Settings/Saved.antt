-- ===== src/Config/Settings/Saved.antt =====
-- Settings that are written and read again.
use eaves_drum.Base.{
  ℕ, ◌<◌, ◌≡◌, ap, ◌∙◌, Bool, true, false, not, String, if◌then◌else◌, ℤ, pos, negsuc, ◌≤ℤ◌,
}
use eaves_drum.Config.Json.{Json, Documented}
use eaves_drum.Config.Names.{
  IgnoresCase, pad_type_back, zones_type_back, choke_type_back, curve_type_back, decay_type_back,
  map_string_to_choke_type, map_string_to_decay_type, map_string_to_pad_type,
  map_string_to_zones_type, map_string_to_curve_type,
}
use eaves_drum.Config.Settings.{
  byte_limit, word_limit, or_keep, type_from, types_from, thresholds_from, numbers_from,
  apply_pad_settings, convert_pad_settings_to_json,
}
use eaves_drum.Config.Settings.Thresholds.{
  keep_zones, saves_min, saves_max, Words, thresholds_from-thresholds_to,
}
use eaves_drum.Config.Settings.Lookup.{Groups, groups, Finds, number_if, written, supported-Finds}
use eaves_drum.Drum.Settings.{DrumSettings}
use eaves_drum.Drum.Pad.{DrumPad, reinitialize_settings}

-- The values fit their types.
pub record Fit (s : DrumSettings) : Type 0 where
  pub low : Words s.zone_thresholds_min
  pub high : Words s.zone_thresholds_max
  pub scan_time : s.scan_time_us < word_limit
  pub mask : s.mask_time_ms < byte_limit
  pub decay : s.decay_time_ms < byte_limit
  pub tolerance : s.move_detect_tolerance < word_limit
  pub timeout : s.chick_detect_timeout_ms < byte_limit
  pub bias_low : negsuc 127 ≤ℤ s.head_rim_bias
  pub bias_high : s.head_rim_bias ≤ℤ pos 127

-- The settings `s` where they are saved, else those of `b`.
abbrev pub merged : Groups → DrumSettings → DrumSettings → DrumSettings
merged g s b = record {
  pad_type = s.pad_type;
  zones_type = s.zones_type;
  choke_type = if g.choke then s.choke_type else b.choke_type;
  curve_type = s.curve_type;
  zone_thresholds_min =
      keep_zones (saves_min s.zones_type) s.zone_thresholds_min b.zone_thresholds_min;
  zone_thresholds_max =
      keep_zones (saves_max s.zones_type) s.zone_thresholds_max b.zone_thresholds_max;
  scan_time_us = if g.controller then b.scan_time_us else s.scan_time_us;
  mask_time_ms = if g.controller then b.mask_time_ms else s.mask_time_ms;
  decay_time_ms = if g.controller then b.decay_time_ms else s.decay_time_ms;
  decay_type = if g.controller then b.decay_type else s.decay_type;
  head_rim_bias = if g.bias then s.head_rim_bias else b.head_rim_bias;
  cross_note_enabled = if g.cross then s.cross_note_enabled else b.cross_note_enabled;
  almost_closed_threshold =
      if g.controller then s.almost_closed_threshold else b.almost_closed_threshold;
  closed_threshold = if g.controller then s.closed_threshold else b.closed_threshold;
  move_detect_tolerance = if g.controller then s.move_detect_tolerance else b.move_detect_tolerance;
  chick_detect_timeout_ms =
      if g.controller then s.chick_detect_timeout_ms else b.chick_detect_timeout_ms;
}

module _ (js : Json) (D : Documented js) (equals : String → String → Bool)
    (law : IgnoresCase equals) where
  type_text :
      {A : Type 0} (f : String → A) (t : String) (old : A) → type_from js f (js.of_text t) old ≡ f t
  unfolding type_from
  type_text f t old = simp (D.truth_text, D.to_text_text)

  type_missing : {A : Type 0} (f : String → A) (old : A) → type_from js f js.missing old ≡ old
  unfolding type_from
  type_missing f old = simp D.truth_missing

  type_if :
      {A : Type 0} (saved : Bool) (f : String → A) (t : String) (new old : A)
      → f t ≡ new
      → type_from js f (if saved then js.of_text t else js.missing) old
        ≡ (if saved then new else old)
  type_if true f t new old e = type_text f t old ∙ e
  type_if false f t new old e = type_missing f old

  type_unless :
      {A : Type 0} (absent : Bool) (f : String → A) (t : String) (new old : A)
      → f t ≡ new
      → type_from js f (if absent then js.missing else js.of_text t) old
        ≡ (if absent then old else new)
  type_unless true f t new old e = type_missing f old
  type_unless false f t new old e = type_text f t old ∙ e

  unsigned_if :
      (saved : Bool) (limit n old : ℕ)
      → n < limit
      → or_keep (js.as_unsigned limit (number_if js D saved n)) old ≡ (if saved then n else old)
  unsigned_if true limit n old h = let e = D.unsigned_number limit n h in rw e
  unsigned_if false limit n old h = rw (D.unsigned_missing limit)

  unsigned_unless :
      (absent : Bool) (limit n old : ℕ)
      → n < limit
      → or_keep (js.as_unsigned limit (number_if js D (not absent) n)) old
        ≡ (if absent then old else n)
  unsigned_unless true limit n old h = unsigned_if false limit n old h
  unsigned_unless false limit n old h = unsigned_if true limit n old h

  float_if :
      (saved : Bool) (n old : ℕ)
      → or_keep (js.as_float (if saved then js.of_float n else js.missing)) old
        ≡ (if saved then n else old)
  float_if true n old = rw (D.float_float n)
  float_if false n old = rw D.float_missing

  bool_if :
      (saved b old : Bool)
      → or_keep (js.as_bool (if saved then js.of_bool b else js.missing)) old
        ≡ (if saved then b else old)
  bool_if true b old = rw (D.bool_bool b)
  bool_if false b old = rw D.bool_missing

  int8_if :
      (saved : Bool) (z old : ℤ)
      → negsuc 127 ≤ℤ z
      → z ≤ℤ pos 127
      → or_keep (js.as_int8 (if saved then js.of_integer z else js.missing)) old
        ≡ (if saved then z else old)
  int8_if true z old l h = let e = D.int8_integer z l h in rw e
  int8_if false z old l h = rw D.int8_missing

  read_settings : DrumSettings → js.Node → DrumSettings
  read_settings b node =
      numbers_from js node
        (thresholds_from js (js.member node "zoneThresholds") (types_from js equals node b))

  types_read :
      (g : Groups) (s b : DrumSettings) (node : js.Node)
      → Finds js D g s node
      → types_from js equals node b ≡ record b {
        pad_type = s.pad_type;
        zones_type = s.zones_type;
        choke_type = if g.choke then s.choke_type else b.choke_type;
        curve_type = s.curve_type;
        decay_type = if g.controller then b.decay_type else s.decay_type;
      }
  unfolding types_from
  types_read g s b node k =
      let pads =
        ap (λ n. type_from js (map_string_to_pad_type equals) n b.pad_type) k.pads
        ∙ (type_text (map_string_to_pad_type equals) _ b.pad_type
            ∙ pad_type_back equals law s.pad_type) in
      let zones =
        ap (λ n. type_from js (map_string_to_zones_type equals) n b.zones_type) k.zones
        ∙ (type_text (map_string_to_zones_type equals) _ b.zones_type
            ∙ zones_type_back equals law s.zones_type) in
      let chokes =
        ap (λ n. type_from js (map_string_to_choke_type equals) n b.choke_type) k.chokes
        ∙ type_if g.choke (map_string_to_choke_type equals) _ s.choke_type b.choke_type
            (choke_type_back equals law s.choke_type) in
      let curves =
        ap (λ n. type_from js (map_string_to_curve_type equals) n b.curve_type) k.curves
        ∙ (type_text (map_string_to_curve_type equals) _ b.curve_type
            ∙ curve_type_back equals law s.curve_type) in
      let decays =
        ap (λ n. type_from js (map_string_to_decay_type equals) n b.decay_type) k.decays
        ∙ type_unless g.controller (map_string_to_decay_type equals) _ s.decay_type b.decay_type
            (decay_type_back equals law s.decay_type) in
      cc (pads, zones, chokes, curves, decays)

  settings_read :
      (g : Groups) (s b : DrumSettings) (node : js.Node)
      → Fit s
      → Finds js D g s node
      → read_settings b node ≡ merged g s b
  unfolding read_settings numbers_from
  settings_read g s b node f k = simp (
    types_read g s b node k,
    k.thresholds,
    thresholds_from-thresholds_to js D s _ f.low f.high,
    k.scan_time,
    unsigned_unless g.controller word_limit s.scan_time_us b.scan_time_us f.scan_time,
    k.mask_time,
    unsigned_unless g.controller byte_limit s.mask_time_ms b.mask_time_ms f.mask,
    k.decay_time,
    unsigned_unless g.controller byte_limit s.decay_time_ms b.decay_time_ms f.decay,
    k.almost,
    k.closing,
    float_if,
    k.tolerances,
    unsigned_if g.controller word_limit s.move_detect_tolerance b.move_detect_tolerance f.tolerance,
    k.timeouts,
    unsigned_if g.controller byte_limit s.chick_detect_timeout_ms b.chick_detect_timeout_ms
        f.timeout,
    k.crosses,
    bool_if,
    k.biases,
    int8_if g.bias s.head_rim_bias b.head_rim_bias f.bias_low f.bias_high,
  )

  -- For a JSON library and an `equalsIgnoreCase` as documented, and settings that fit their types:
  -- saved settings that are applied to any pad replace its type, zones, curve and the thresholds
  -- of their zones, and by their own zones and pad type those of a controller, or else the times
  -- and the decay type, with the choke type, the cross note and the bias where they are supported;
  -- all other settings stay, and the touch sensor as the choke type says.
  pub apply_pad_settings-convert_pad_settings_to_json :
      (pad : DrumPad) (s : DrumSettings)
      → Fit s
      → apply_pad_settings js equals pad
          (js.of_object (convert_pad_settings_to_json js s js.empty_object))
        ≡ reinitialize_settings
            (record pad { settings = merged (groups s.zones_type s.pad_type) s pad.settings })
  unfolding apply_pad_settings convert_pad_settings_to_json read_settings written
  apply_pad_settings-convert_pad_settings_to_json pad s f =
      ap (λ t. reinitialize_settings (record pad { settings = t }))
        (settings_read (groups s.zones_type s.pad_type) s pad.settings _ f
          (supported-Finds js D s.zones_type s.pad_type s))

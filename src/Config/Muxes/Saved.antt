-- ===== src/Config/Muxes/Saved.antt =====
-- A multiplexer that is written and read again.
use eaves_drum.Base.{
  ℕ, ◌%◌, ◌<◌, ◌≡◌, ◌⊎◌, inl, inr, sym, Bool, true, false, [], ◌∷◌, leb, ◌==◌, if◌then◌else◌,
  get_or, take, String, arith, Bool-cases,
}
use eaves_drum.Config.Json.{Json, Documented}
use eaves_drum.Config.Names.{IgnoresCase, ignoring_case}
use eaves_drum.Config.Members.{write_unless}
use eaves_drum.Config.Arrays.{
  size-three, three-0, three-1, three-2, size-four, four-0, four-1, four-2, four-3,
}
use eaves_drum.Config.Muxes.{
  MuxType, get_mux_type, map_string_to_mux_type, map_mux_type_to_string, required_pins, rejected,
  accepted, select_pins_from, enable_pin_from, mux_from_pins, mux_of_type, apply_mux_config,
  select_pins_to, mux_pins_to, convert_mux_config_to_json,
}
use eaves_drum.Drum.Pin.{pin_unused}
use eaves_drum.Drum.Mux.{DrumMux, init_mux}

-- The members of an initialized multiplexer; the fourth select pin may hold anything.
pub record Stored (mux : DrumMux) : Type 0 where
  pub p0 : ℕ
  pub p1 : ℕ
  pub p2 : ℕ
  pub p3 : ℕ
  pub select : mux.select_pins ≡ p0 ∷ p1 ∷ p2 ∷ p3 ∷ []
  pub count : (mux.select_pins_count ≡ 3) ⊎ (mux.select_pins_count ≡ 4)
  pub byte0 : p0 < 256
  pub byte1 : p1 < 256
  pub byte2 : p2 < 256
  pub byte3 : p3 < 256
  pub analog : mux.analog_in_pin < 256
  pub enable : mux.enable_pin < 256

module _ (js : Json) (D : Documented js) where
  enable_back :
      (mux : DrumMux)
      → mux.enable_pin < 256
      → enable_pin_from js (js.member (js.of_object (mux_pins_to js mux)) "enable") ≡ mux.enable_pin
  unfolding enable_pin_from mux_pins_to
  enable_back mux h =
      let e = D.byte_number mux.enable_pin h in
      elim (Bool-cases (mux.enable_pin == pin_unused)) [
        | inl k ↦
            let is : mux.enable_pin ≡ 255 = ground arith in
            simp (write_unless js D, D.member-set, D.member-empty, k, D.null_missing) (sym is)
        | inr k ↦ simp (write_unless js D, k, D.null_number, e)
      ]

  analog_is :
      (mux : DrumMux)
      → js.member (js.of_object (mux_pins_to js mux)) "analogIn" ≡ js.of_number mux.analog_in_pin
  unfolding mux_pins_to
  analog_is mux = simp (write_unless js D, D.member-set)

  select_is :
      (mux : DrumMux)
      → 0 < mux.select_pins_count
      → js.member (js.of_object (mux_pins_to js mux)) "select" ≡ js.of_array (select_pins_to js mux)
  unfolding mux_pins_to
  select_is mux h =
      let k : (mux.select_pins_count == 0) ≡ false = ground arith in simp (write_unless js D, k)

  -- The pins that are read are those that were written.
  pins_back :
      (mux : DrumMux) (s : Stored mux)
      → (js.size (js.of_array (select_pins_to js mux)) ≡ mux.select_pins_count)
        × (take mux.select_pins_count (select_pins_from js (js.of_array (select_pins_to js mux)))
            ≡ take mux.select_pins_count mux.select_pins)
  unfolding select_pins_from select_pins_to
  pins_back mux s =
      let a = D.byte_number s.p0 s.byte0 in
      let b = D.byte_number s.p1 s.byte1 in
      let c = D.byte_number s.p2 s.byte2 in
      let d = D.byte_number s.p3 s.byte3 in
      elim s.count [
        | inl n ↦
            rw (n, s.select)
              (
                size-three js D _ _ _,
                simp (size-three js D, three-0 js D, three-1 js D, three-2 js D, a, b, c),
              )
        | inr n ↦
            rw (n, s.select)
              (
                size-four js D _ _ _ _,
                simp (
                  size-four js D,
                  four-0 js D,
                  four-1 js D,
                  four-2 js D,
                  four-3 js D,
                  a,
                  b,
                  c,
                  d,
                ),
              )
      ]

module _ (equals : String → String → Bool) (law : IgnoresCase equals) where
  type_back :
      (mux : DrumMux)
      → map_string_to_mux_type equals (map_mux_type_to_string (get_mux_type mux)) ≡ get_mux_type mux
  unfolding map_string_to_mux_type map_mux_type_to_string ignoring_case get_mux_type
  type_back mux = elim (Bool-cases (get_or mux.select_pins 3 pin_unused == pin_unused)) [
    | inl e ↦ rw e (simp law)
    | inr e ↦ rw e (simp law)
  ]

module _ (js : Json) (D : Documented js) (equals : String → String → Bool)
    (law : IgnoresCase equals) (init_digital init_analog : ℕ → Bool) where
  read_as :
      (fresh mux : DrumMux) (type : MuxType) (s : Stored mux)
      → mux_from_pins js equals init_digital init_analog fresh type
          (js.of_object (mux_pins_to js mux))
        ≡ (if required_pins type == mux.select_pins_count
            then accepted (
                init_mux init_digital init_analog fresh mux.select_pins_count
                  (take mux.select_pins_count mux.select_pins)
                  mux.analog_in_pin
                  mux.enable_pin)
            else rejected)
  unfolding mux_from_pins
  read_as fresh mux type s =
      let (size, pins) = pins_back js D mux s in
      let few : (0 < mux.select_pins_count) × (mux.select_pins_count < 256) =
        ground (arith, s.count) in
      let select = select_is js D mux few.0 in
      let analog = D.byte_number mux.analog_in_pin s.analog in
      let enable = enable_back js D mux s.enable in
      let small : leb 256 mux.select_pins_count ≡ false = ground (arith, few.1) in
      let word : mux.select_pins_count % 256 ≡ mux.select_pins_count = omega (arith, few.1) in
      elim (Bool-cases (mux.select_pins_count == required_pins type)) [
        | inl k ↦
            let same : required_pins type ≡ mux.select_pins_count = ground arith in
            let self : (mux.select_pins_count == mux.select_pins_count) ≡ true = ground arith in
            simp (
              select,
              D.array_array,
              size,
              word,
              same,
              self,
              small,
              analog_is js D mux,
              D.null_number,
              pins,
              analog,
              enable,
            )
        | inr k ↦
            let other : (required_pins type == mux.select_pins_count) ≡ false = ground arith in
            simp (select, D.array_array, size, word, k, other)
      ]

  of_type :
      (fresh mux : DrumMux) (node : js.Node)
      → mux_of_type js equals init_digital init_analog fresh (get_mux_type mux) node
        ≡ mux_from_pins js equals init_digital init_analog fresh (get_mux_type mux) node
  unfolding get_mux_type mux_of_type
  of_type fresh mux node = elim (Bool-cases (get_or mux.select_pins 3 pin_unused == pin_unused)) [
    | inl e ↦ rw e
    | inr e ↦ rw e
  ]

  -- For a JSON library and an `equalsIgnoreCase` as documented: a multiplexer of three or four
  -- select pins, whatever its fourth place holds, is initialized again from its JSON with the same
  -- pins if the type that `getMuxType` reads off the fourth place has as many pins, and its JSON
  -- is rejected if not.
  pub apply_mux_config-convert_mux_config_to_json :
      (fresh mux : DrumMux)
      → Stored mux
      → apply_mux_config js equals init_digital init_analog fresh
          (js.of_object (convert_mux_config_to_json js mux js.empty_object))
        ≡ (if required_pins (get_mux_type mux) == mux.select_pins_count
            then accepted (
                init_mux init_digital init_analog fresh mux.select_pins_count
                  (take mux.select_pins_count mux.select_pins)
                  mux.analog_in_pin
                  mux.enable_pin)
            else rejected)
  unfolding apply_mux_config convert_mux_config_to_json
  apply_mux_config-convert_mux_config_to_json fresh mux s =
      let read = read_as fresh mux (get_mux_type mux) s in
      let back = type_back equals law mux in
      simp (D.member-set, D.object_object, D.to_text_text, back, of_type, read)

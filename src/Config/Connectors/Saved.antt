-- ===== src/Config/Connectors/Saved.antt =====
-- The pins of a connector, written and read again.
use eaves_drum.Base.{
  ℕ, zero, suc, ◌+◌, ◌<◌, ◌≤◌, ◌≡◌, ◌⊎◌, inl, inr, refl, true, false, some, List, [], ◌∷◌, leb,
  ◌==◌, length, get_elem?, String, arith, All,
}
use eaves_drum.Config.Json.{Json, Documented}
use eaves_drum.Config.Arrays.{
  one, two, three, size-one, size-two, size-three, one-0, two-0, two-1, three-0, three-1, three-2,
}
use eaves_drum.Config.Connectors.{
  mux_pin_config, get_mux_pin_config, pin_config_as, get_pins_config, pins_from, pin_count_of,
  set_read_pins, apply_pins_config, pin_to, convert_pins_to_json,
}
use eaves_drum.Drum.Pin.{DrumPin, no_pin, direct_pin, mux_pin, is_pin_valid}
use eaves_drum.Drum.Connector.{DrumConnector, new_connector, set_pins}

-- A pin of the board, or a channel that a multiplexer of the kit has.
abbrev pub IsConfigured : List ℕ → DrumPin → Type 0
IsConfigured channel_counts pin =
    ((i : ℕ) × (i < 255) × (pin ≡ direct_pin i))
    ⊎ ((m : ℕ) × (channel : ℕ) × (count : ℕ) × (m < 256)
        × (channel < 255)
        × (get_elem? channel_counts m ≡ some count)
        × (channel < count)
        × (pin ≡ mux_pin m m channel))

module _ (js : Json) (D : Documented js) (channel_counts : List ℕ) where
  direct_back :
      (i : ℕ)
      → i < 255
      → get_pins_config js channel_counts (pin_to js channel_counts (direct_pin i)) ≡ direct_pin i
  unfolding get_pins_config pin_config_as pin_to direct_pin no_pin
  direct_back i h = let e = D.unsigned_number 256 i (omega arith) in simp (D.null_number, e)

  mux_back :
      (m channel count : ℕ)
      → m < 256
      → channel < 255
      → get_elem? channel_counts m ≡ some count
      → channel < count
      → get_pins_config js channel_counts (pin_to js channel_counts (mux_pin m m channel))
        ≡ mux_pin m m channel
  unfolding get_pins_config pin_config_as get_mux_pin_config mux_pin_config pin_to mux_pin no_pin
  mux_back m channel count hm hc e lt =
      let bm = D.byte_number m hm in
      let bc = D.byte_number channel (omega arith) in
      let fits : leb count channel ≡ false = ground arith in
      simp (D.null_object, D.unsigned_object, D.member-set, D.null_number, bm, bc, e, fits)

  pin_back :
      (pin : DrumPin)
      → IsConfigured channel_counts pin
      → (get_pins_config js channel_counts (pin_to js channel_counts pin) ≡ pin)
        × (is_pin_valid pin ≡ true)
  unfolding is_pin_valid direct_pin mux_pin
  pin_back pin (inl (i, h, e)) = (rw e (direct_back i h), rw e (ground arith))
  pin_back pin (inr (m, channel, count, hm, hc, found, lt, e)) =
      (rw e (mux_back m channel count hm hc found lt), rw e (ground arith))

  -- One round.
  pins_from-step :
      (node : js.Node) (k i : ℕ) (pin : DrumPin) (pins : List DrumPin)
      → IsConfigured channel_counts pin
      → js.element node i ≡ pin_to js channel_counts pin
      → pins_from js channel_counts node k (i + 1) ≡ some pins
      → pins_from js channel_counts node (suc k) i ≡ some (pin ∷ pins)
  unfolding pins_from
  pins_from-step node k i pin pins c e rest =
      let (back, valid) = pin_back pin c in simp (e, rest, back, valid)

  pin_count_is :
      (node : js.Node) (n : ℕ) → js.size node ≡ n → n ≤ 3 → pin_count_of js channel_counts node ≡ n
  unfolding pin_count_of
  pin_count_is node n e h = ground arith

  apply_read :
      (c : DrumConnector) (node : js.Node) (n : ℕ) (pins : List DrumPin)
      → js.size node ≡ suc n
      → suc n ≤ 3
      → pins_from js channel_counts node (suc n) 0 ≡ some pins
      → apply_pins_config js channel_counts c node ≡ (set_pins c pins (suc n), true)
  unfolding apply_pins_config set_read_pins
  apply_read c node n pins e h found =
      let count = pin_count_is node (suc n) e h in
      let some_pins : (suc n == 0) ≡ false = ground arith in simp (count, found, some_pins)

  no_pins : (node : js.Node) (i : ℕ) → pins_from js channel_counts node zero i ≡ some []
  unfolding pins_from
  no_pins node i = refl

  -- For a JSON library as documented: one to three pins, each below 255 on the board or a channel
  -- below 255 that its multiplexer has, are read back from a connector's JSON into a new
  -- connector, without an error.
  pub apply_pins_config-convert_pins_to_json :
      (id : String) (ps : List DrumPin)
      → 0 < length ps
      → length ps ≤ 3
      → All (IsConfigured channel_counts) ps
      → apply_pins_config js channel_counts (new_connector id) (
          js.of_array (
            convert_pins_to_json js channel_counts
              (set_pins (new_connector id) ps (length ps))
              js.empty_array))
        ≡ (set_pins (new_connector id) ps (length ps), true)
  unfolding convert_pins_to_json set_pins
  apply_pins_config-convert_pins_to_json id [] lo hi all = absurd (omega arith)
  apply_pins_config-convert_pins_to_json id (p ∷ []) lo hi (a, all) =
      let node = js.of_array (one js D (pin_to js channel_counts p)) in
      apply_read (new_connector id) node 0 _ (size-one js D _) (omega arith)
        (pins_from-step node 0 0 p [] a (one-0 js D _) (no_pins node 1))
  apply_pins_config-convert_pins_to_json id (p ∷ q ∷ []) lo hi (a, (b, all)) =
      let node = js.of_array (two js D (pin_to js channel_counts p) (pin_to js channel_counts q)) in
      apply_read (new_connector id) node 1 _ (size-two js D _ _) (omega arith) (
        pins_from-step node 1 0 p _ a (two-0 js D _ _)
          (pins_from-step node 0 1 q _ b (two-1 js D _ _) (no_pins node 2)))
  apply_pins_config-convert_pins_to_json id (p ∷ q ∷ r ∷ []) lo hi (a, (b, (c, all))) =
      let node = js.of_array (
        three js D (pin_to js channel_counts p) (pin_to js channel_counts q)
          (pin_to js channel_counts r)) in
      apply_read (new_connector id) node 2 _ (size-three js D _ _ _) (omega arith) (
        pins_from-step node 2 0 p _ a (three-0 js D _ _ _) (
          pins_from-step node 1 1 q _ b (three-1 js D _ _ _)
            (pins_from-step node 0 2 r _ c (three-2 js D _ _ _) (no_pins node 3))))
  apply_pins_config-convert_pins_to_json id (p ∷ q ∷ r ∷ s ∷ ps) lo hi all = absurd (omega arith)

-- ===== src/Config/Kit/Enabled.antt =====
-- A pad is enabled only if everything it needs is there.
use eaves_drum.Base.{
  ℕ, suc, ◌+◌, ◌≤◌, ◌≡◌, ◌⊎◌, false, ◌==◌, inl, inr, refl, subst, Bool, true, ◌&&◌, Option, none,
  some, List, [], ◌∷◌, String, arith, Bool-cases, Option-cases, get_elem?,
}
use eaves_drum.Config.Json.{Json}
use eaves_drum.Config.Kit.{
  get_connector_by_id, connector_from, set_touch_sensor, touch_from, settle_pad, connect_pad,
  apply_pad_config,
}
use eaves_drum.Config.Kit.Pedal.{pedal_ends}
use eaves_drum.Drum.Connector.{DrumConnector}
use eaves_drum.Drum.Pad.{DrumPad}
use eaves_drum.Drum.Kit.Tables.{find_from}

all_four :
    (a b c d : Bool)
    → (a && (b && (c && d))) ≡ true
    → (a ≡ true) × (b ≡ true) × (c ≡ true) × (d ≡ true)
all_four a b c d h = (ground arith, ground arith, ground arith, ground arith)

one_of_four :
    (a b c d : Bool)
    → (a && (b && (c && d))) ≡ false
    → (a ≡ false) ⊎ (b ≡ false) ⊎ (c ≡ false) ⊎ (d ≡ false)
one_of_four a b c d h = ground arith

module _ (js : Json) (same : String → String → Bool) where
  -- What is found by its id is the connector at that index.
  found_at :
      (id : String) (cs : List DrumConnector) (i k : ℕ)
      → find_from same (λ (c : DrumConnector). c.id) id cs i ≡ some k
      → (c : DrumConnector) × (j : ℕ) × (k ≡ i + j)
        × (get_elem? cs j ≡ some c)
        × (same c.id id ≡ true)
  unfolding find_from
  found_at id [] i k e = absurd (cc)
  found_at id (c ∷ cs) i k e = elim (Bool-cases (same c.id id)) [
    | inl h ↦ (c, 0, ground (arith, e, h), refl, h)
    | inr h ↦
        let (d, j, at_j, here, named) = found_at id cs (i + 1) k (ground (arith, e, h)) in
        (d, suc j, omega arith, here, named)
  ]

  known_at :
      (cs : List DrumConnector) (id : String) (k : ℕ)
      → get_connector_by_id js same cs id ≡ some k
      → (c : DrumConnector) × (get_elem? cs k ≡ some c) × (same c.id id ≡ true)
  unfolding get_connector_by_id
  known_at cs id k e =
      let (c, j, at_j, here, named) = found_at id cs 0 k e in
      let same_index : j ≡ k = omega arith in
      (c, subst (λ n. get_elem? cs n ≡ some c) same_index here, named)

  connector_known :
      (cs : List DrumConnector) (id : Option String) (old : Option ℕ)
      → (connector_from js same cs id old).1 ≡ true
      → (name : String) × (c : DrumConnector) × (k : ℕ) × (id ≡ some name)
        × ((connector_from js same cs id old).0 ≡ some k)
        × (get_elem? cs k ≡ some c)
        × (same c.id name ≡ true)
  unfolding connector_from
  connector_known cs none old h = absurd (cc)
  connector_known cs (some id) old h = elim (Option-cases (get_connector_by_id js same cs id)) [
    | inl e ↦ absurd (ground (arith, h, e))
    | inr (k, e) ↦ let (c, here, named) = known_at cs id k e in (id, c, k, refl, e, here, named)
  ]

  -- What `setTouchSensor` refuses.
  refusal :
      (cs : List DrumConnector) (k : ℕ) (c : DrumConnector) (old : Option ℕ)
      → get_elem? cs k ≡ some c
      → (set_touch_sensor js same cs (some k) old ≡ some k)
        ⊎ (c.pins_count ≡ 0)
        ⊎ ((m : ℕ) × (c.pins.z0.mux ≡ some m))
  unfolding set_touch_sensor
  refusal cs k c old e = elim (Bool-cases (c.pins_count == 0)) [
    | inl bare ↦ inr (inl (ground arith))
    | inr pins ↦ elim (Option-cases c.pins.z0.mux) [
      | inl direct ↦ inl (ground (arith, e, pins, direct))
      | inr (m, muxed) ↦ inr (inr (m, muxed))
    ]
  ]

  touch_known :
      (cs : List DrumConnector) (id : Option String) (old : Option ℕ)
      → (touch_from js same cs id old).1 ≡ true
      → (id ≡ none)
        ⊎ ((name : String) × (c : DrumConnector) × (k : ℕ) × (id ≡ some name)
            × (get_elem? cs k ≡ some c)
            × (same c.id name ≡ true)
            × (((touch_from js same cs id old).0 ≡ some k)
                ⊎ (c.pins_count ≡ 0)
                ⊎ ((m : ℕ) × (c.pins.z0.mux ≡ some m))))
  unfolding touch_from
  touch_known cs none old h = inl refl
  touch_known cs (some id) old h = elim (Option-cases (get_connector_by_id js same cs id)) [
    | inl e ↦ absurd (ground (arith, h, e))
    | inr (k, e) ↦
        let (c, here, named) = known_at cs id k e in
        inr (id, c, k, refl, here, named, rw e (refusal cs k c old here))
  ]

  -- A connector that the document names and the kit does not have.
  abbrev pub Unknown : List DrumConnector → Option String → Type 0
  Unknown cs id = (name : String) × (id ≡ some name) × (get_connector_by_id js same cs name ≡ none)

  connector_missing :
      (cs : List DrumConnector) (id : Option String) (old : Option ℕ)
      → (connector_from js same cs id old).1 ≡ false
      → (id ≡ none) ⊎ Unknown cs id
  unfolding connector_from
  connector_missing cs none old h = inl refl
  connector_missing cs (some id) old h = elim (Option-cases (get_connector_by_id js same cs id)) [
    | inl e ↦ inr (id, refl, e)
    | inr (k, e) ↦ absurd (ground (arith, h, e))
  ]

  touch_missing :
      (cs : List DrumConnector) (id : Option String) (old : Option ℕ)
      → (touch_from js same cs id old).1 ≡ false
      → Unknown cs id
  unfolding touch_from
  touch_missing cs none old h = absurd (cc)
  touch_missing cs (some id) old h = elim (Option-cases (get_connector_by_id js same cs id)) [
    | inl e ↦ (id, refl, e)
    | inr (k, e) ↦ absurd (ground (arith, h, e))
  ]

  -- Why a pad is disabled.
  abbrev pub Lacks : List DrumConnector → js.Node → Type 0
  Lacks cs node =
      (js.is_object (js.member node "settings") ≡ false)
      ⊎ Unknown cs (js.as_text (js.member node "touchSensor"))
      ⊎ ((js.as_text (js.member node "connector") ≡ none)
          ⊎ Unknown cs (js.as_text (js.member node "connector")))
      ⊎ (js.as_truth (js.member node "enabled") ≡ false)

  -- What an enabled pad has: settings, its connector, and the touch sensor that is named, which is set
  -- unless it has no pins or its first pin is multiplexed.
  pub record Complete (cs : List DrumConnector) (node : js.Node) (r : DrumPad) : Type 0 where
    pub settings : js.is_object (js.member node "settings") ≡ true
    pub enabled : js.as_truth (js.member node "enabled") ≡ true
    pub sensor :
        (js.as_text (js.member node "touchSensor") ≡ none)
        ⊎ ((name : String) × (c : DrumConnector) × (k : ℕ) × (js.as_text
                (js.member node "touchSensor")
              ≡ some name)
            × (get_elem? cs k ≡ some c)
            × (same c.id name ≡ true)
            × ((r.touch ≡ some k) ⊎ (c.pins_count ≡ 0) ⊎ ((m : ℕ) × (c.pins.z0.mux ≡ some m))))
    pub connector :
        (name : String) × (c : DrumConnector) × (k : ℕ) × (js.as_text (js.member node "connector")
          ≡ some name)
        × (r.connector ≡ some k)
        × (get_elem? cs k ≡ some c)
        × (same c.id name ≡ true)

  -- For a document of at most 255 pads `applyPadConfig` ends, and either enables the pad, which has
  -- then settings, is enabled in the document, has the kit's connector with the id that the document
  -- names, and as its touch sensor the kit's connector that the document names, if any, unless that
  -- has no pins or its first pin is multiplexed; or disables it, and then it has no settings, is not
  -- enabled in the document, has no connector there, or its connector or sensor is unknown.
  pub enabled_pad :
      (equals : String → String → Bool) (unknown : ℕ → String) (cs : List DrumConnector)
      (pads : js.Node) (index : ℕ) (pad : DrumPad)
      → js.size pads ≤ 255
      → let node = js.element pads index in
        (r : DrumPad) × (apply_pad_config js same equals unknown cs pads index pad ≡ some r)
        × (((r.enabled ≡ true) × Complete cs node r) ⊎ ((r.enabled ≡ false) × Lacks cs node))
  unfolding apply_pad_config connect_pad
  enabled_pad equals unknown cs pads index pad h =
      let node = js.element pads index in
      let settled = settle_pad js same equals (unknown index) node pad in
      let (pedal, ends) =
        pedal_ends js same pads (js.as_text (js.member node "pedal")) settled.pedal_pad h in
      let result = connect_pad js same cs node settled pedal in
      (
        result,
        simp ends,
        elim (Bool-cases result.enabled) [
          | inl on ↦
              let (a, b, c, d) = all_four _ _ _ _ on in
              inl (
                on,
                record {
                  settings = a;
                  enabled = d;
                  sensor =
                      touch_known cs (js.as_text (js.member node "touchSensor")) settled.touch b;
                  connector =
                      connector_known cs (js.as_text (js.member node "connector")) settled.connector
                        c;
                },
              )
          | inr off ↦ inr (
            off,
            elim (one_of_four _ _ _ _ off) [
              | inl a ↦ inl a
              | inr (inl b) ↦ inr (inl (touch_missing cs _ settled.touch b))
              | inr (inr (inl c)) ↦ inr (inr (inl (connector_missing cs _ settled.connector c)))
              | inr (inr (inr d)) ↦ inr (inr (inr d))
            ],
          )
        ],
      )

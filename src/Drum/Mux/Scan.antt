-- ===== src/Drum/Mux/Scan.antt =====
-- What a scan reads, and what it leaves.
use mathlib.Core.List.{append_assoc}
use eaves_drum.Base.{
  ℕ, zero, suc, ◌+◌, ◌≤◌, ◌<◌, ◌≡◌, ◌≢◌, refl, ap, sym, subst, not, ◌∙◌, ◌⊎◌, inl, inr, ◌++◌, ◌==◌,
  Bool, true, false, List, [], ◌∷◌, set, get_or, length, length-set, for_range, ltb, if◌then◌else◌,
  arith, Bool-cases, ℕ_discrete,
}
use eaves_drum.Drum.Mux.{
  DrumMux, PinEvent, write_digital, read_analog, has_bit, select_channel, set_mux_enabled,
  scan_channel, scan_mux, read_channel_value,
}
use eaves_drum.Drum.Mux.Levels.{level, level-append, level-write, level-write_self, level-select}
use eaves_drum.Drum.Mux.Switching.{
  Keeps, Keeps-none, Keeps-append, Keeps-write, Keeps-read, Keeps-select,
}
use eaves_drum.Drum.Pin.{pin_unused}

abbrev pub select_pin : DrumMux → ℕ → ℕ
select_pin mux i = get_or mux.select_pins i pin_unused

-- The pins select a channel: the select pins hold its bits, and the enable pin, if any, is low.
pub record Selects (before : ℕ → Bool) (mux : DrumMux) (events : List PinEvent) (c : ℕ)
    : Type 0 where
  pub bits :
      (i : ℕ)
      → i < mux.select_pins_count
      → level (select_pin mux i) (before (select_pin mux i)) events ≡ has_bit c i
  pub enabled :
      (mux.enable_pin ≡ pin_unused) ⊎ (level mux.enable_pin (before mux.enable_pin) events ≡ false)

-- A multiplexer as documented passes the channel that its pins select to the analog pin; its pins
-- differ from one another.
pub record Wiring (read : List PinEvent → ℕ → ℕ) (before : ℕ → Bool) (mux : DrumMux)
    (channels : ℕ → ℕ) : Type 0 where
  pub passes :
      (events : List PinEvent) (c : ℕ)
      → c < mux.channel_count
      → Selects before mux events c
      → read events mux.analog_in_pin ≡ channels c
  pub distinct :
      (i j : ℕ)
      → i < mux.select_pins_count
      → j < mux.select_pins_count
      → select_pin mux i ≡ select_pin mux j
      → i ≡ j
  pub apart : (i : ℕ) → i < mux.select_pins_count → select_pin mux i ≢ mux.enable_pin

get_or-set : (xs : List ℕ) (i v d : ℕ) → i < length xs → get_or (set xs i v) i d ≡ v
get_or-set [] i v d h = absurd (omega arith)
get_or-set (x ∷ xs) zero v d h = refl
get_or-set (x ∷ xs) (suc i) v d h = get_or-set xs i v d (omega arith)

get_or-set_other : (xs : List ℕ) (i j v d : ℕ) → i ≢ j → get_or (set xs j v) i d ≡ get_or xs i d
get_or-set_other [] i j v d h = refl
get_or-set_other (x ∷ xs) zero zero v d h = absurd (h refl)
get_or-set_other (x ∷ xs) zero (suc j) v d h = refl
get_or-set_other (x ∷ xs) (suc i) zero v d h = refl
get_or-set_other (x ∷ xs) (suc i) (suc j) v d h = get_or-set_other xs i j v d (λ e. h (ap suc e))

module _ (read : List PinEvent → ℕ → ℕ) (before : ℕ → Bool) (mux : DrumMux) (channels : ℕ → ℕ)
    (w : Wiring read before mux channels) where
  -- The events of a scan up to the read of a channel.
  abbrev selecting : List PinEvent → ℕ → List PinEvent
  selecting events c = events ++ (select_channel mux c ++ set_mux_enabled mux true)

  abbrev with_buffer : List ℕ → DrumMux
  with_buffer xs = record mux { channel_buffer = xs }

  enabling_apart :
      (i : ℕ) (b : Bool)
      → i < mux.select_pins_count
      → level (select_pin mux i) b (set_mux_enabled mux true) ≡ b
  unfolding set_mux_enabled level
  enabling_apart i b h = elim (Bool-cases (mux.enable_pin == pin_unused)) [
    | inl off ↦ rw off refl
    | inr on ↦ rw on (level-write (select_pin mux i) mux.enable_pin false b [] (w.apart i h))
  ]

  -- An enable pin is low when it enables.
  enable_level :
      (on : Bool) (b : Bool) (events : List PinEvent)
      → (mux.enable_pin ≡ pin_unused)
        ⊎ (level mux.enable_pin b (events ++ set_mux_enabled mux on) ≡ not on)
  unfolding set_mux_enabled level
  enable_level on b events = elim (Bool-cases (mux.enable_pin == pin_unused)) [
    | inl off ↦ inl (ground arith)
    | inr there ↦ inr (
        level-append mux.enable_pin events (set_mux_enabled mux on) b
        ∙ rw there (level-write_self mux.enable_pin (not on) (level mux.enable_pin b events) []))
  ]

  -- Before each read, the pins select the channel.
  selecting-Selects : (events : List PinEvent) (c : ℕ) → Selects before mux (selecting events c) c
  unfolding select_channel
  selecting-Selects events c = record {
    bits = λ i h.
        let pin = select_pin mux i in
        let b = level pin (before pin) events in
        level-append pin events (select_channel mux c ++ set_mux_enabled mux true) (before pin)
        ∙ level-append pin (select_channel mux c) (set_mux_enabled mux true) b
        ∙ enabling_apart i _ h
        ∙ level-select mux.select_pins mux.select_pins_count mux.select_pins_count 0 c i b
            (omega arith) w.distinct (omega arith) h;
    enabled =
        subst
          (λ es.
            (mux.enable_pin ≡ pin_unused)
            ⊎ (level mux.enable_pin (before mux.enable_pin) es ≡ false))
          (append_assoc events (select_channel mux c) (set_mux_enabled mux true))
          (enable_level true (before mux.enable_pin) (events ++ select_channel mux c));
  }

  -- One round stores its channel.
  round-buffer :
      (c : ℕ) (xs : List ℕ) (events : List PinEvent)
      → c < mux.channel_count
      → (scan_channel read c (with_buffer xs, events)).0 ≡ with_buffer (set xs c (channels c))
  unfolding scan_channel
  round-buffer c xs events h =
      ap (λ v. with_buffer (set xs c v))
        (w.passes (selecting events c) c h (selecting-Selects events c))

  -- After some rounds from `i` on their channels are stored, and the others are as before.
  rounds-buffer :
      (k i c : ℕ) (xs : List ℕ) (events : List PinEvent)
      → i + k ≤ mux.channel_count
      → i + k ≤ length xs
      → get_or (for_range k i (scan_channel read) (with_buffer xs, events)).0.channel_buffer c 0
        ≡ (if ltb c i then get_or xs c 0 else if ltb c (i + k) then channels c else get_or xs c 0)
  rounds-buffer zero i c xs events h room = ground arith
  rounds-buffer (suc k) i c xs events h room =
      let next = (scan_channel read i (with_buffer xs, events)).1 in
      let ys = set xs i (channels i) in
      let size = length-set xs i (channels i) in
      let ih = rounds-buffer k (i + 1) c ys next (omega arith) (omega (arith, size)) in
      let one = round-buffer i xs events (omega arith) in
      ap (λ m. get_or (for_range k (i + 1) (scan_channel read) (m, next)).0.channel_buffer c 0) one
      ∙ elim (ℕ_discrete c i) [
        | yes same ↦
            let here = get_or-set xs i (channels i) 0 (omega arith) in ground (arith, ih, here)
        | no other ↦
            let there = get_or-set_other xs c i (channels i) 0 other in ground (arith, ih, there)
      ]

  -- A round selects while the multiplexer is disabled, and leaves it disabled.
  round-Keeps :
      (c : ℕ) (xs : List ℕ) (events : List PinEvent)
      → (mux.enable_pin == pin_unused) ≡ false
      → Keeps mux.enable_pin (before mux.enable_pin) events true
      → Keeps mux.enable_pin
          (before mux.enable_pin)
          (scan_channel read c (with_buffer xs, events)).1
          true
  unfolding scan_channel select_channel set_mux_enabled
  round-Keeps c xs events there h =
      let e = mux.enable_pin in
      let b = before mux.enable_pin in
      let selected = Keeps-select mux.select_pins mux.select_pins_count c e w.apart in
      let on =
        Keeps-append e true true false (select_channel mux c) (write_digital e false ∷ []) selected
          (Keeps-write e true false) in
      let off =
        Keeps-append e false false true (read_analog mux.analog_in_pin ∷ [])
          (write_digital e true ∷ []) (Keeps-read e mux.analog_in_pin false)
          (Keeps-write e false true) in
      rw there (Keeps-append e b false true _ _ (Keeps-append e b true false events _ h on) off)

  rounds-Keeps :
      (k i : ℕ) (xs : List ℕ) (events : List PinEvent)
      → i + k ≤ mux.channel_count
      → (mux.enable_pin == pin_unused) ≡ false
      → Keeps mux.enable_pin (before mux.enable_pin) events true
      → Keeps mux.enable_pin
          (before mux.enable_pin)
          (for_range k i (scan_channel read) (with_buffer xs, events)).1
          true
  rounds-Keeps zero i xs events h there keeps = keeps
  rounds-Keeps (suc k) i xs events h there keeps =
      let next = (scan_channel read i (with_buffer xs, events)).1 in
      subst
        (λ m.
          Keeps mux.enable_pin (before mux.enable_pin)
            (for_range k (i + 1) (scan_channel read) (m, next)).1 true)
        (sym (round-buffer i xs events (omega arith)))
        (rounds-Keeps k (i + 1) (set xs i (channels i)) next (omega arith) there
          (round-Keeps i xs events there keeps))

-- For a multiplexer as documented whose pins differ, initialized and disabled: a scan, whose
-- channels fit the buffer, stores the value of each channel in it, and leaves the rest of the
-- buffer; with an enable pin, it writes the select pins only while the multiplexer is disabled,
-- and leaves it disabled.
pub scan_mux-reads :
    (read : List PinEvent → ℕ → ℕ) (before : ℕ → Bool) (mux : DrumMux) (channels : ℕ → ℕ) (c : ℕ)
    → Wiring read before mux channels
    → mux.initialized ≡ true
    → mux.channel_count ≤ length mux.channel_buffer
    → (mux.enable_pin ≡ pin_unused) ⊎ (before mux.enable_pin ≡ true)
    → (read_channel_value (scan_mux read mux).0 c
        ≡ (if ltb c mux.channel_count then channels c else read_channel_value mux c))
      × ((mux.enable_pin ≡ pin_unused)
          ⊎ Keeps mux.enable_pin (before mux.enable_pin) (scan_mux read mux).1 true)
unfolding scan_mux read_channel_value
scan_mux-reads read before mux channels c w ready room off =
    let n = mux.channel_count in
    let all =
      rounds-buffer read before mux channels w n 0 c mux.channel_buffer [] (omega arith)
        (omega arith) in
    (
      simp ready (ground (arith, all)),
      elim off [
        | inl unused ↦ inl unused
        | inr high ↦ elim (Bool-cases (mux.enable_pin == pin_unused)) [
          | inl unused ↦ inl (ground arith)
          | inr there ↦ inr (
              simp ready (
                rounds-Keeps read before mux channels w n 0 mux.channel_buffer [] (omega arith)
                  there (Keeps-none mux.enable_pin (before mux.enable_pin) high)))
        ]
      ],
    )

-- ===== src/Midi/Multiplexer/Running.antt =====
-- Which transports run, over sequences of calls that select a mode, start and stop.
use mathlib.Core.Option
use eaves_drum.Base.{
  ℕ, ◌≡◌, refl, ap, sym, subst, ◌∙◌, Bool, true, false, inl, inr, none, some, List, [], ◌∷◌, ◌++◌,
  if◌then◌else◌, ◌==◌, Bool-cases, Option-cases, arith,
}
use eaves_drum.Midi.Multiplexer.{
  MidiOutputMode, mode_index, MidiTransportInstances, get_transport_instance, Multiplexer, Effect,
  started, stopped, Outcome, set_output_mode, start_selected, start, stop,
}

drop_transport : ℕ → List ℕ → List ℕ
drop_transport t [] = []
drop_transport t (u ∷ us) = if u == t then us else u ∷ drop_transport t us

-- The transports that run after some calls.
unfoldable pub running : List ℕ → List Effect → List ℕ
unfolding drop_transport
running ts [] = ts
running ts (started t mode ∷ es) = running (t ∷ ts) es
running ts (stopped t ∷ es) = running (drop_transport t ts) es

-- The calls that start, stop or select: `start` has a mode or none.
pub data Call : Type 0 where
  select : MidiOutputMode → Call
  resume : Call
  begin : MidiOutputMode → Call
  halt : Call

unfoldable pub call : MidiTransportInstances → Multiplexer → Call → Outcome
call is m (select mode) = set_output_mode is m mode
call is m (begin mode) = start is m mode
call is m resume = start_selected is m
call is m halt = stop is m

unfoldable pub run : MidiTransportInstances → Multiplexer → List Call → Outcome
run is m [] = some (m, [])
run is m (c ∷ cs) =
    Option.bind (call is m c)
      (λ r. Option.map (λ (s : Multiplexer × List Effect). (s.0, r.1 ++ s.1)) (run is r.0 cs))

-- The board has a transport for the mode.
abbrev pub IsOn : MidiTransportInstances → MidiOutputMode → Type 0
IsOn is mode = (t : ℕ) × (get_transport_instance is mode ≡ some t)

-- Whether the multiplexer is initialized after a call.
abbrev pub is_on_after : Bool → Call → Bool
is_on_after on (select mode) = on
is_on_after on (begin mode) = true
is_on_after on resume = true
is_on_after on halt = false

-- Calls that ask only for modes of the board, and start without a mode only what is stopped.
abbrev pub Allowed : MidiTransportInstances → Bool → List Call → Type 0
Allowed is on [] = Unit {0}
Allowed is on (select mode ∷ cs) = IsOn is mode × Allowed is on cs
Allowed is on (begin mode ∷ cs) = IsOn is mode × Allowed is true cs
Allowed is on (resume ∷ cs) = (on ≡ false) × Allowed is true cs
Allowed is on (halt ∷ cs) = Allowed is false cs

abbrev pub is_on_at_end : Bool → List Call → Bool
is_on_at_end on [] = on
is_on_at_end on (c ∷ cs) = is_on_at_end (is_on_after on c) cs

-- The selected transport is that of the selected mode, and it alone runs once the multiplexer is
-- initialized.
pub record InStep (is : MidiTransportInstances) (m : Multiplexer) (ts : List ℕ) : Type 0 where
  pub transport : ℕ
  pub of_mode : get_transport_instance is m.selected_mode ≡ some transport
  pub selected : m.selected_transport ≡ some transport
  pub alone : ts ≡ (if m.initialized then transport ∷ [] else [])

-- A call went through, and left the multiplexer in step and initialized as told.
pub record Passes (is : MidiTransportInstances) (ts : List ℕ) (on : Bool) (o : Outcome)
    : Type 0 where
  pub result : Multiplexer × List Effect
  pub passed : o ≡ some result
  pub in_step : InStep is result.0 (running ts result.1)
  pub initialized : result.0.initialized ≡ on

running-append :
    (xs ys : List Effect) (ts : List ℕ) → running ts (xs ++ ys) ≡ running (running ts xs) ys
unfolding running
running-append [] ys ts = refl
running-append (started t mode ∷ xs) ys ts = running-append xs ys (t ∷ ts)
running-append (stopped t ∷ xs) ys ts = running-append xs ys (drop_transport t ts)

drop_self : (t : ℕ) → drop_transport t (t ∷ []) ≡ []
unfolding drop_transport
drop_self t = ground arith

module _ (is : MidiTransportInstances) (m : Multiplexer) (ts : List ℕ) (h : InStep is m ts) where
  drops : drop_transport h.transport ts ≡ []
  unfolding drop_transport
  drops = elim (Bool-cases m.initialized) [
    | inl ini ↦
        let one : ts ≡ h.transport ∷ [] = h.alone ∙ simp ini in rw one (drop_self h.transport)
    | inr idle ↦ let nothing : ts ≡ [] = h.alone ∙ simp idle in rw nothing
  ]

  switches :
      (mode : MidiOutputMode) (t : ℕ)
      → get_transport_instance is mode ≡ some t
      → (mode_index mode == mode_index m.selected_mode) ≡ false
      → m.initialized ≡ true
      → Passes is ts m.initialized (set_output_mode is m mode)
  unfolding set_output_mode running
  switches mode t on other ini = record {
    result = (
      record m { selected_mode = mode; selected_transport = some t },
      stopped h.transport ∷ started t mode ∷ [],
    );
    passed = simp (other, ini, h.selected, on);
    in_step = record {
      transport = t;
      of_mode = on;
      selected = refl;
      alone = simp ini (ap (◌∷◌ t) drops);
    };
    initialized = refl;
  }

  selects :
      (mode : MidiOutputMode) (t : ℕ)
      → get_transport_instance is mode ≡ some t
      → Passes is ts m.initialized (set_output_mode is m mode)
  unfolding set_output_mode running
  selects mode t on = elim (Bool-cases (mode_index mode == mode_index m.selected_mode)) [
    | inl same ↦ record { result = (m, []); passed = simp same; in_step = h; initialized = refl }
    | inr other ↦ elim (Bool-cases m.initialized) [
      | inl ini ↦ switches mode t on other ini
      | inr idle ↦ record {
        result = (record m { selected_mode = mode; selected_transport = some t }, []);
        passed = simp (other, idle, on);
        in_step = record {
          transport = t;
          of_mode = on;
          selected = refl;
          alone = simp idle (h.alone ∙ simp idle);
        };
        initialized = refl;
      }
    ]
  ]

  starts : m.initialized ≡ false → Passes is ts true (start_selected is m)
  unfolding start_selected running
  starts idle = record {
    result = (record m { initialized = true }, started h.transport m.selected_mode ∷ []);
    passed = simp h.selected;
    in_step = record {
      transport = h.transport;
      of_mode = h.of_mode;
      selected = h.selected;
      alone = ap (◌∷◌ h.transport) (h.alone ∙ simp idle);
    };
    initialized = refl;
  }

  stops : Passes is ts false (stop is m)
  unfolding stop running
  stops = record {
    result = (record m { initialized = false }, stopped h.transport ∷ []);
    passed = simp h.selected;
    in_step = record {
      transport = h.transport;
      of_mode = h.of_mode;
      selected = h.selected;
      alone = drops;
    };
    initialized = refl;
  }

  begins_idle :
      (mode : MidiOutputMode) (t : ℕ)
      → get_transport_instance is mode ≡ some t
      → m.initialized ≡ false
      → Passes is ts true (start is m mode)
  unfolding start set_output_mode start_selected running Option.bind
  begins_idle mode t on idle =
      let quiet : ts ≡ [] = h.alone ∙ simp idle in
      elim (Bool-cases (mode_index mode == mode_index m.selected_mode)) [
        | inl same ↦ record {
          result = (record m { initialized = true }, started h.transport m.selected_mode ∷ []);
          passed = simp (same, idle, h.selected);
          in_step = record {
            transport = h.transport;
            of_mode = h.of_mode;
            selected = h.selected;
            alone = ap (◌∷◌ h.transport) quiet;
          };
          initialized = refl;
        }
        | inr other ↦ record {
          result = (
            record { selected_mode = mode; selected_transport = some t; initialized = true },
            started t mode ∷ [],
          );
          passed = simp (other, idle, on);
          in_step = record {
            transport = t;
            of_mode = on;
            selected = refl;
            alone = ap (◌∷◌ t) quiet;
          };
          initialized = refl;
        }
      ]

  begins :
      (mode : MidiOutputMode) (t : ℕ)
      → get_transport_instance is mode ≡ some t
      → Passes is ts true (start is m mode)
  unfolding start Option.bind
  begins mode t on = elim (Bool-cases m.initialized) [
    | inl ini ↦
        let s = selects mode t on in
        record {
          result = s.result;
          passed =
              ap
                (λ o. Option.bind o (λ r.
                  if m.initialized
                  then some r
                  else Option.map (λ (x : Multiplexer × List Effect). (x.0, r.1 ++ x.1))
                      (start_selected is r.0)))
                s.passed
              ∙ simp ini;
          in_step = s.in_step;
          initialized = s.initialized ∙ ini;
        }
    | inr idle ↦ begins_idle mode t on idle
  ]

-- A call that is allowed goes through, and allows what follows it.
call-Passes :
    (is : MidiTransportInstances) (m : Multiplexer) (ts : List ℕ) (c : Call) (cs : List Call)
    → InStep is m ts
    → Allowed is m.initialized (c ∷ cs)
    → Passes is ts (is_on_after m.initialized c) (call is m c)
      × Allowed is (is_on_after m.initialized c) cs
unfolding call
call-Passes is m ts (select mode) cs h a = (selects is m ts h mode a.0.0 a.0.1, a.1)
call-Passes is m ts (begin mode) cs h a = (begins is m ts h mode a.0.0 a.0.1, a.1)
call-Passes is m ts resume cs h a = (starts is m ts h a.0, a.1)
call-Passes is m ts halt cs h a = (stops is m ts h, a)

-- From a multiplexer that is in step, any calls of `setOutputMode`, `stop` and both `start`s that
-- ask only for modes of the board, of which a `start` without a mode finds it not initialized, go
-- through, and leave it in step: its transport is that of its mode, and runs alone if it is
-- initialized, and none runs if not; it is initialized as the last start or stop left it.
pub run-Passes :
    (is : MidiTransportInstances) (cs : List Call) (m : Multiplexer) (ts : List ℕ)
    → InStep is m ts
    → Allowed is m.initialized cs
    → Passes is ts (is_on_at_end m.initialized cs) (run is m cs)
unfolding run running Option.bind
run-Passes is [] m ts h a = record {
  result = (m, []);
  passed = refl;
  in_step = h;
  initialized = refl;
}
run-Passes is (c ∷ cs) m ts h a =
    let (one, allowed) = call-Passes is m ts c cs h a in
    let rest =
      run-Passes is cs one.result.0 (running ts one.result.1) one.in_step
        (subst (λ on. Allowed is on cs) (sym one.initialized) allowed) in
    record {
      result = (rest.result.0, one.result.1 ++ rest.result.1);
      passed = simp (one.passed, rest.passed);
      in_step = rw (running-append one.result.1 rest.result.1 ts) rest.in_step;
      initialized = rest.initialized ∙ ap (λ on. is_on_at_end on cs) one.initialized;
    }

-- A start with another mode than the selected one, for which the board has no transport, calls a
-- null pointer, whether the multiplexer is initialized or not.
pub start_unsupported :
    (is : MidiTransportInstances) (m : Multiplexer) (mode : MidiOutputMode)
    → get_transport_instance is mode ≡ none
    → (mode_index mode == mode_index m.selected_mode) ≡ false
    → start is m mode ≡ none
unfolding start set_output_mode start_selected Option.bind
start_unsupported is m mode off other = elim (Bool-cases m.initialized) [
  | inl ini ↦ elim (Option-cases m.selected_transport) [
    | inl no_old ↦ simp (other, ini, no_old)
    | inr (old, e) ↦ simp (other, ini, e, off)
  ]
  | inr idle ↦ simp (other, idle, off)
]

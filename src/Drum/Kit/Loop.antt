-- ===== src/Drum/Kit/Loop.antt =====
-- src/drum/drum_kit.cpp: `updateDrums`, a pass of the main loop. What the hardware reads and the clocks
-- are parameters of a pass; the monitor and the hit indicator are left out. The kit's pads are a list,
-- and a pad's pedal is an index into it.
pub mod Gated
mod Tests
use mathlib.Core.Option
use eaves_drum.Base.{
  ℕ, zero, suc, ◌+◌, Bool, true, false, Option, none, some, List, [], ◌∷◌, ◌++◌, ltb, if◌then◌else◌,
  u32, sub32, length, get_elem?, get_or, set, ℤ, FloatArith,
}
use eaves_drum.Drum.Pin.{Inputs}
use eaves_drum.Drum.Mux.{DrumMux, PinEvent, scan_mux, read_channel_value}
use eaves_drum.Drum.NoteQueue.{NoteQueue}
use eaves_drum.Drum.Sensing.{Environment}
use eaves_drum.Drum.Kit.Notes.{MidiMessage, send_pending}
use eaves_drum.Drum.Kit.Evaluate.{Sent}
use eaves_drum.Drum.Kit.Update.{Connected, evaluate_pad}

abbrev pub half_minute_us : ℕ
half_minute_us = 30000000

abbrev pub flush_time_us : ℕ
flush_time_us = 4000

pub record LoopState : Type 0 where
  pub pads : List Connected
  pub queue : NoteQueue
  pub muxes : List DrumMux
  pub last_statistics_reset_us : ℕ
  pub update_count : ℕ
  pub update_count_per_30s : ℕ
  pub last_mux_read_us : ℕ

-- What a pass reads: the clocks, and what the pins and the touch sensors give. A flush of the
-- multiplexers reads as often as it has time, at least once; what a multiplexer's analog pin reads
-- depends on the writes and reads of its scan so far.
pub record Pass : Type 0 where
  pub sense_time_us : ℕ
  pub check_time_ms : ℕ
  pub pad_time_ms : ℕ → ℕ  -- when the pad of an index is evaluated
  pub flush_end_us : ℕ
  pub flush_reads : List (ℕ → List PinEvent → ℕ → ℕ)
  pub mux_read : ℕ → List PinEvent → ℕ → ℕ
  pub analog_read : ℕ → ℕ
  pub touch_read : ℕ → Bool
  pub latency_test_active : Bool

unfoldable pub count_update : Pass → LoopState → LoopState
count_update io st =
    if ltb half_minute_us (sub32 io.sense_time_us st.last_statistics_reset_us)
    then record st {
      update_count_per_30s = st.update_count;
      last_statistics_reset_us = io.sense_time_us;
      update_count = 1;
    }
    else record st { update_count = u32 (st.update_count + 1) }

-- The scans of all multiplexers from the index `i` on.
unfoldable pub scan_all : (ℕ → List PinEvent → ℕ → ℕ) → ℕ → List DrumMux → List DrumMux
scan_all read i [] = []
scan_all read i (m ∷ ms) = (scan_mux (read i) m).0 ∷ scan_all read (i + 1) ms

-- `flushMultiplexers`
unfoldable pub flush_multiplexers : List (ℕ → List PinEvent → ℕ → ℕ) → List DrumMux → List DrumMux
unfolding scan_all
flush_multiplexers [] muxes = muxes
flush_multiplexers (read ∷ reads) muxes = flush_multiplexers reads (scan_all read 0 muxes)

-- `stabilizeMultiplexerOffsetVoltage`
unfoldable pub stabilize : Pass → LoopState → LoopState
unfolding flush_multiplexers
stabilize io st =
    if ltb flush_time_us (sub32 io.sense_time_us st.last_mux_read_us)
    then record st {
      muxes = flush_multiplexers io.flush_reads st.muxes;
      last_mux_read_us = io.flush_end_us;
    }
    else record st { last_mux_read_us = io.sense_time_us }

unfoldable pub read_multiplexers : Pass → LoopState → LoopState
unfolding stabilize scan_all
read_multiplexers io st =
    let s = stabilize io st in record s { muxes = scan_all io.mux_read 0 s.muxes }

abbrev channel_of : List DrumMux → ℕ → ℕ → ℕ
channel_of [] m channel = 0
channel_of (x ∷ xs) zero channel = read_channel_value x channel
channel_of (x ∷ xs) (suc m) channel = channel_of xs m channel

-- What the pads read: the channels that the multiplexers have scanned, and the pins.
unfoldable pub environment : Pass → List DrumMux → Environment
environment io muxes = record {
  inputs = record { read_channel = channel_of muxes; read_analog_in_pin = io.analog_read };
  read_touch_sensor = io.touch_read;
}

abbrev put_pedal : List Connected → Option ℕ → Option Connected → List Connected
put_pedal pads none f = pads
put_pedal pads (some j) none = pads
put_pedal pads (some j) (some f) = set pads j f

abbrev pedal_of : List Connected → Option ℕ → Option Connected
pedal_of pads none = none
pedal_of pads (some j) = get_elem? pads j

module _ (fl : FloatArith) (arduino_map : ℕ → ℕ → ℕ → ℕ → ℕ → ℤ) (gate_time : ℕ) (io : Pass)
    (env : Environment) where
  unfoldable pub pad_turn :
      ℕ → List Connected → NoteQueue → Connected → Option (List Connected × Sent)
  pad_turn i pads q p =
      Option.map
        (λ (r : Connected × Option Connected × Sent).
          (set (put_pedal pads p.pad.pedal_pad r.1) i r.0, r.2))
        (evaluate_pad fl arduino_map env io.sense_time_us gate_time (io.pad_time_ms i) q p
          (pedal_of pads p.pad.pedal_pad))

  -- A round for the pad at the index `i`, if it is enabled.
  unfoldable pub turn_if_enabled :
      ℕ → List Connected → NoteQueue → Option Connected → Option (List Connected × Sent)
  unfolding pad_turn
  turn_if_enabled i pads q none = some (pads, (q, []))
  turn_if_enabled i pads q (some p) =
      if p.pad.enabled then pad_turn i pads q p else some (pads, (q, []))

  -- What later rounds add to the messages.
  abbrev pub after_messages : List MidiMessage → List Connected × Sent → List Connected × Sent
  after_messages before r = (r.0, (r.1.0, before ++ r.1.1))

  unfoldable pub evaluate_pads : ℕ → ℕ → List Connected → NoteQueue → Option (List Connected × Sent)
  unfolding turn_if_enabled
  evaluate_pads zero i pads q = some (pads, (q, []))
  evaluate_pads (suc k) i pads q =
      Option.bind (turn_if_enabled i pads q (get_elem? pads i)) (λ (r : List Connected × Sent).
        Option.map (after_messages r.1.1) (evaluate_pads k (i + 1) r.0 r.1.0))

module _ (fl : FloatArith) (arduino_map : ℕ → ℕ → ℕ → ℕ → ℕ → ℤ) (gate_time : ℕ) (io : Pass) where
  -- From the latency test on: `before` are the messages for notes whose gate time was over.
  unfoldable pub evaluate_all : LoopState → List MidiMessage → Option (LoopState × List MidiMessage)
  unfolding evaluate_pads environment
  evaluate_all s before =
      if io.latency_test_active
      then some (s, before)
      else Option.map
          (λ (r : List Connected × Sent). (record s { pads = r.0; queue = r.1.0 }, before ++ r.1.1))
          (evaluate_pads fl arduino_map gate_time io (environment io s.muxes) (length s.pads) 0
            s.pads s.queue)

  unfoldable pub update_drums : LoopState → Option (LoopState × List MidiMessage)
  unfolding count_update read_multiplexers evaluate_all
  update_drums st =
      let stopped = send_pending gate_time st.queue io.check_time_ms in
      evaluate_all (read_multiplexers io (record (count_update io st) { queue = stopped.0 }))
        stopped.1

-- ===== src/Drum/Kit/Loop/Gated.antt =====
-- A pass of the main loop keeps a receiver in step with the pending notes.
use mathlib.Core.Option
use eaves_drum.Base.{
  ℕ, zero, suc, ◌+◌, ◌<◌, ◌≡◌, refl, ap, subst, sym, ◌∙◌, inl, inr, Bool, true, false, Option, none,
  some, List, [], ◌++◌, if◌then◌else◌, ltb, sub32, length, get_elem?, ℤ, FloatArith, Bool-cases,
}
use eaves_drum.Drum.NoteQueue.{NoteQueue}
use eaves_drum.Drum.NoteQueue.Refine.{IsValid}
use eaves_drum.Drum.Sensing.{Environment}
use eaves_drum.Drum.Kit.Notes.{MidiMessage, send_pending}
use eaves_drum.Drum.Kit.Notes.Gate.{hear, pending_notes, hear-append}
use eaves_drum.Drum.Kit.Notes.Runs.{Follows, IsUnique, check-Follows}
use eaves_drum.Drum.Kit.Evaluate.{Sent}
use eaves_drum.Drum.Kit.Update.{Connected}
use eaves_drum.Drum.Kit.Update.Gated.{evaluate_pad-Follows}
use eaves_drum.Drum.Kit.Loop.{
  LoopState, Pass, count_update, read_multiplexers, stabilize, environment, pad_turn,
  turn_if_enabled, evaluate_pads, evaluate_all, update_drums,
}

nothing-Follows : (q : NoteQueue) → IsValid q → IsUnique (pending_notes q) → Follows q (q, [])
unfolding hear
nothing-Follows q v u = record { heard = refl; unique = u; valid = v }

Follows-append :
    (q q1 q2 : NoteQueue) (m1 m2 : List MidiMessage)
    → Follows q (q1, m1)
    → Follows q1 (q2, m2)
    → Follows q (q2, m1 ++ m2)
Follows-append q q1 q2 m1 m2 a b = record {
  heard = hear-append (pending_notes q) m1 m2 ∙ ap (λ s. hear s m2) a.heard ∙ b.heard;
  unique = b.unique;
  valid = b.valid;
}

-- What is sent, if the turn goes through, keeps the receiver in step.
abbrev Sends : NoteQueue → Option (List Connected × Sent) → Type 0
Sends q none = Unit
Sends q (some r) = Follows q r.1

either-Sends :
    (q : NoteQueue) (b : Bool) (x y : Option (List Connected × Sent))
    → Sends q x
    → Sends q y
    → Sends q (if b then x else y)
either-Sends q true x y h k = h
either-Sends q false x y h k = k

turned-Sends :
    (q : NoteQueue) (o : Option (Connected × Option Connected × Sent))
    (f : Connected × Option Connected × Sent → List Connected)
    → ((r : Connected × Option Connected × Sent) → o ≡ some r → Follows q r.2)
    → Sends q (Option.map (λ r. (f r, r.2)) o)
turned-Sends q none f h = tt
turned-Sends q (some r) f h = h r refl

appended-Sends :
    (q : NoteQueue) (r : List Connected × Sent) (o : Option (List Connected × Sent))
    → Follows q r.1
    → Sends r.1.0 o
    → Sends q (Option.map (λ (s : List Connected × Sent). (s.0, (s.1.0, r.1.1 ++ s.1.1))) o)
appended-Sends q r none a b = tt
appended-Sends q r (some s) a b = Follows-append q r.1.0 s.1.0 r.1.1 s.1.1 a b

chained-Sends :
    (q : NoteQueue) (o : Option (List Connected × Sent))
    (next : List Connected × Sent → Option (List Connected × Sent))
    → Sends q o
    → ((r : List Connected × Sent) → Follows q r.1 → Sends r.1.0 (next r))
    → Sends q (
        Option.bind o (λ (r : List Connected × Sent).
          Option.map (λ (s : List Connected × Sent). (s.0, (s.1.0, r.1.1 ++ s.1.1))) (next r)))
unfolding Option.bind
chained-Sends q none next a h = tt
chained-Sends q (some r) next a h = appended-Sends q r (next r) a (h r a)

module _ (fl : FloatArith) (arduino_map : ℕ → ℕ → ℕ → ℕ → ℕ → ℤ) (gate_time : ℕ) (io : Pass)
    (gated : 0 < gate_time) where
  module _ (env : Environment) where
    pad_turn-Sends :
        (i : ℕ) (pads : List Connected) (q : NoteQueue) (p : Connected)
        → IsValid q
        → IsUnique (pending_notes q)
        → Sends q (pad_turn fl arduino_map gate_time io env i pads q p)
    unfolding pad_turn
    pad_turn-Sends i pads q p v u = turned-Sends q _ _ (λ r e.
        evaluate_pad-Follows fl arduino_map env io.sense_time_us gate_time (io.pad_time_ms i) gated
          q v u p r.0 _ r.1 r.2 e)

    enabled-Sends :
        (i : ℕ) (pads : List Connected) (q : NoteQueue) (p : Option Connected)
        → IsValid q
        → IsUnique (pending_notes q)
        → Sends q (turn_if_enabled fl arduino_map gate_time io env i pads q p)
    unfolding turn_if_enabled
    enabled-Sends i pads q none v u = nothing-Follows q v u
    enabled-Sends i pads q (some p) v u =
        either-Sends q p.pad.enabled _ _ (pad_turn-Sends i pads q p v u) (nothing-Follows q v u)

    pads-Sends :
        (k i : ℕ) (pads : List Connected) (q : NoteQueue)
        → IsValid q
        → IsUnique (pending_notes q)
        → Sends q (evaluate_pads fl arduino_map gate_time io env k i pads q)
    unfolding evaluate_pads
    pads-Sends zero i pads q v u = nothing-Follows q v u
    pads-Sends (suc k) i pads q v u =
        chained-Sends q
          (turn_if_enabled fl arduino_map gate_time io env i pads q (get_elem? pads i))
          (λ (r : List Connected × Sent).
            evaluate_pads fl arduino_map gate_time io env k (i + 1) r.0 r.1.0)
          (enabled-Sends i pads q (get_elem? pads i) v u)
          (λ r f. pads-Sends k (i + 1) r.0 r.1.0 f.valid f.unique)

  -- The state and the messages of a pass that goes through.
  abbrev Passes : NoteQueue → Option (LoopState × List MidiMessage) → Type 0
  Passes q none = Unit
  Passes q (some r) = Follows q (r.0.queue, r.1)

  finished-Passes :
      (q : NoteQueue) (s : LoopState) (before : List MidiMessage)
      (o : Option (List Connected × Sent))
      → Follows q (s.queue, before)
      → Sends s.queue o
      → Passes q (
          Option.map
            (λ (r : List Connected × Sent).
              (record s { pads = r.0; queue = r.1.0 }, before ++ r.1.1))
            o)
  finished-Passes q s before none a b = tt
  finished-Passes q s before (some r) a b = Follows-append q s.queue r.1.0 before r.1.1 a b

  all-Passes :
      (q : NoteQueue) (s : LoopState) (before : List MidiMessage)
      → Follows q (s.queue, before)
      → Passes q (evaluate_all fl arduino_map gate_time io s before)
  unfolding evaluate_all
  all-Passes q s before a = elim (Bool-cases io.latency_test_active) [
    | inl e ↦ rw e a
    | inr e ↦ rw e (
        finished-Passes q s before _ a
          (pads-Sends (environment io s.muxes) (length s.pads) 0 s.pads s.queue a.valid a.unique))
  ]

  read_queue : (s : LoopState) → (read_multiplexers io s).queue ≡ s.queue
  unfolding read_multiplexers stabilize
  read_queue s = elim (Bool-cases (ltb 4000 (sub32 io.sense_time_us s.last_mux_read_us))) [
    | inl e ↦ rw e refl
    | inr e ↦ rw e refl
  ]

  -- With a gate time above 0, from a valid queue whose pending notes differ: if a pass of the main
  -- loop over all pads goes through, its messages (the notes whose gate time is over, and then the
  -- pads' notes) leave a receiver that heard the pending notes with exactly the notes pending
  -- afterwards, each once, and the queue valid.
  pub update_drums-Follows :
      (st st' : LoopState) (sent : List MidiMessage)
      → IsValid st.queue
      → IsUnique (pending_notes st.queue)
      → update_drums fl arduino_map gate_time io st ≡ some (st', sent)
      → Follows st.queue (st'.queue, sent)
  unfolding update_drums
  update_drums-Follows st st' sent v u e =
      let stopped = send_pending gate_time st.queue io.check_time_ms in
      let counted = record (count_update io st) { queue = stopped.0 } in
      let first = check-Follows gate_time st.queue io.check_time_ms v u in
      let same = read_queue counted in
      subst (Passes st.queue) e (
        all-Passes st.queue (read_multiplexers io counted) stopped.1
          (subst (λ x. Follows st.queue (x, stopped.1)) (sym same) first))

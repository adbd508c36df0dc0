-- ===== src/Drum/Sensing/Controller/Chick.antt =====
-- When the pedal of a hi-hat gives a chick.
use eaves_drum.Base.{ℕ, ◌<◌, ◌≡◌, ◌≢◌, true, false, refl, Bool, ltb→lt, ℤ}
use eaves_drum.Drum.Pad.{DrumPad, HiHatState, open_state, almost_closed, closed}
use eaves_drum.Drum.Sensing.Controller.{Position, move_to}

-- The moves of a pedal: whether it is closed or almost closed by its thresholds, and its state before
-- and after. From closed it opens fully before it can be almost closed again.
pub data Moves : Bool → Bool → HiHatState → HiHatState → Type 0 where
  opens : {s : HiHatState} → Moves false false s open_state
  approaches : Moves false true open_state almost_closed
  waits : Moves false true almost_closed almost_closed
  releases : Moves false true closed open_state
  shuts : {b : Bool} {s : HiHatState} → Moves true b s closed

abbrev with_hihat : DrumPad → HiHatState → DrumPad
with_hihat pad s = record pad { hihat = record (pad.hihat) { state = s } }

module _ (arduino_map : ℕ → ℕ → ℕ → ℕ → ℕ → ℤ) where
  step_at :
      (a b : Bool) (s : HiHatState) (now : ℕ) (pad : DrumPad)
      → let p : Position = record { is_closed = a; is_almost_closed = b } in
        Moves a b s (move_to arduino_map p now (with_hihat pad s)).hihat.state
  unfolding move_to
  step_at false false open_state now pad = opens
  step_at false false almost_closed now pad = opens
  step_at false false closed now pad = opens
  step_at false true open_state now pad = approaches
  step_at false true almost_closed now pad = waits
  step_at false true closed now pad = releases
  step_at true b open_state now pad = shuts
  step_at true b almost_closed now pad = shuts
  step_at true b closed now pad = shuts

  -- A sample moves the pedal's state along a transition of the state machine `Moves`.
  pub move_to-Moves :
      (p : Position) (now : ℕ) (pad : DrumPad)
      → Moves p.is_closed p.is_almost_closed pad.hihat.state
          (move_to arduino_map p now pad).hihat.state
  move_to-Moves p now pad = step_at p.is_closed p.is_almost_closed pad.hihat.state now pad

  chick_at :
      (a b : Bool) (s : HiHatState) (now : ℕ) (pad : DrumPad)
      → let p : Position = record { is_closed = a; is_almost_closed = b } in
        let after = move_to arduino_map p now (with_hihat pad s) in
        after.hits.z0 ≡ true
        → (s ≢ closed) × (a ≡ true) × (after.hihat.state ≡ closed) × (0 < after.hit_velocities.z0)
  unfolding move_to
  chick_at false false open_state now pad h = absurd (cc)
  chick_at false false almost_closed now pad h = absurd (cc)
  chick_at false false closed now pad h = absurd (cc)
  chick_at false true open_state now pad h = absurd (cc)
  chick_at false true almost_closed now pad h = absurd (cc)
  chick_at false true closed now pad h = absurd (cc)
  chick_at true b open_state now pad h = (λ e. absurd (cc), refl, refl, ltb→lt _ _ h)
  chick_at true b almost_closed now pad h = (λ e. absurd (cc), refl, refl, ltb→lt _ _ h)
  chick_at true b closed now pad h = absurd (cc)

  -- A chick is reported only if the pedal was not closed before and is closed now, by its
  -- threshold and in its state, and with a velocity above 0.
  pub chick_closes :
      (p : Position) (now : ℕ) (pad : DrumPad)
      → let after = move_to arduino_map p now pad in
        after.hits.z0 ≡ true
        → (pad.hihat.state ≢ closed)
          × (p.is_closed ≡ true)
          × (after.hihat.state ≡ closed)
          × (0 < after.hit_velocities.z0)
  chick_closes p now pad h = chick_at p.is_closed p.is_almost_closed pad.hihat.state now pad h

-- ===== src/Drum/Pin/Calibration.antt =====
-- The automatic calibration of a pin's voltage offset.
use eaves_drum.Base.{
  ℕ, zero, suc, ◌+◌, ◌-◌, ◌*◌, ◌≤◌, ◌<◌, ◌≡◌, ◌≢◌, refl, ◌∙◌, inl, inr, arith, ◌⊎◌, ap, dec_lt,
  ℕ_discrete, ltb, if◌then◌else◌, ℤ, pos, negsuc, pos_part, neg_part,
}
use eaves_drum.Drum.Pin.{DrumPin, update_offset}

-- The offset lies in the sensor's range, and the balance is below its threshold.
pub record IsCalibrated (p : DrumPin) : Type 0 where
  pub in_range : p.offset ≤ 1023
  pub not_above : pos_part p.offset_balance < 512
  pub not_below : neg_part p.offset_balance < 512

pub update_offset_lem :
    (p : DrumPin) (v : ℕ)
    → IsCalibrated p
    → v ≤ 1023
    → IsCalibrated (update_offset p v)
      × (p.offset ≤ v → (p.offset ≤ (update_offset p v).offset) × ((update_offset p v).offset ≤ v))
      × (v ≤ p.offset → (v ≤ (update_offset p v).offset) × ((update_offset p v).offset ≤ p.offset))
unfolding update_offset
update_offset_lem p v c h = (ground arith, ground arith, ground arith)

-- For a pin with a valid calibration, a sample up to 1023 keeps the calibration valid and moves
-- the offset towards the sample, by one at most and never past it.
pub update_offset_moves :
    (p : DrumPin) (v : ℕ)
    → IsCalibrated p
    → v ≤ 1023
    → let q = update_offset p v in
      IsCalibrated q
      × ((p.offset ≤ q.offset) × (q.offset ≤ v) × (q.offset ≤ p.offset + 1)
          ⊎ (v ≤ q.offset) × (q.offset ≤ p.offset) × (p.offset ≤ q.offset + 1))
unfolding update_offset
update_offset_moves p v c h = ((update_offset_lem p v c h).0, ground arith)

-- How many samples of one value bring the offset there.
pub distance : DrumPin → ℕ → ℕ
distance p v =
    if ltb p.offset v
    then 512 * (v - p.offset) + neg_part p.offset_balance - pos_part p.offset_balance
    else if ltb v p.offset
    then 512 * (p.offset - v) + pos_part p.offset_balance - neg_part p.offset_balance
    else 0

-- Offset and balance together count the samples above, less the samples below.
counts_up :
    (p : DrumPin) (v : ℕ)
    → IsCalibrated p
    → v ≤ 1023
    → p.offset < v
    → let q = update_offset p v in
      512 * q.offset + pos_part q.offset_balance + neg_part p.offset_balance
      ≡ 512 * p.offset + pos_part p.offset_balance + neg_part q.offset_balance + 1
unfolding update_offset
counts_up p v c h lt = ground arith

counts_down :
    (p : DrumPin) (v : ℕ)
    → IsCalibrated p
    → v ≤ 1023
    → v < p.offset
    → let q = update_offset p v in
      512 * q.offset + pos_part q.offset_balance + neg_part p.offset_balance + 1
      ≡ 512 * p.offset + pos_part p.offset_balance + neg_part q.offset_balance
unfolding update_offset
counts_down p v c h lt = ground arith

one_sign : (b : ℤ) → (pos_part b ≡ 0) ⊎ (neg_part b ≡ 0)
one_sign (pos n) = inr refl
one_sign (negsuc n) = inl refl

settled-balance :
    (p : DrumPin) (v : ℕ)
    → IsCalibrated p
    → v ≤ 1023
    → p.offset ≢ v
    → (update_offset p v).offset ≡ v
    → (update_offset p v).offset_balance ≡ pos 0
unfolding update_offset
settled-balance p v c h ne e = ground arith

distance-update_offset :
    (p : DrumPin) (v : ℕ)
    → IsCalibrated p
    → v ≤ 1023
    → p.offset ≢ v
    → distance (update_offset p v) v + 1 ≡ distance p v
unfolding distance
distance-update_offset p v c h ne =
    let q = update_offset p v in
    let l = update_offset_lem p v c h in
    let s = settled-balance p v c h ne in
    let z = λ (e : q.offset ≡ v). ap pos_part (s e) in
    let w = λ (e : q.offset ≡ v). ap neg_part (s e) in
    elim (dec_lt p.offset v) [
      | yes lt ↦ ground (arith, l, z, w, counts_up p v c h lt)
      | no ge ↦ ground (arith, l, z, w, counts_down p v c h (omega arith))
    ]

pub update_offset_settled :
    (p : DrumPin) (v : ℕ) → IsCalibrated p → p.offset ≡ v → (update_offset p v).offset ≡ v
unfolding update_offset
update_offset_settled p v c e = ground arith

distance_zero : (p : DrumPin) (v : ℕ) → IsCalibrated p → distance p v ≤ 0 → p.offset ≡ v
unfolding distance
distance_zero p v c h = ground (arith, one_sign p.offset_balance)

distance_self : (p : DrumPin) (v : ℕ) → p.offset ≡ v → distance p v ≡ 0
unfolding distance
distance_self p v e = ground arith

distance_step :
    (n : ℕ) (p : DrumPin) (v : ℕ)
    → IsCalibrated p
    → v ≤ 1023
    → distance p v ≤ suc n
    → distance (update_offset p v) v ≤ n
distance_step n p v c h d = elim (ℕ_discrete p.offset v) [
  | yes e ↦ omega (arith, distance_self (update_offset p v) v (update_offset_settled p v c e))
  | no ne ↦ omega (arith, distance-update_offset p v c h ne)
]

-- Calibration does not move a pin.
pub update_offset-place :
    (p : DrumPin) (v : ℕ)
    → ((update_offset p v).mux ≡ p.mux) × ((update_offset p v).index ≡ p.index)
unfolding update_offset
update_offset-place p v = (ground arith, ground arith)

-- The pin after some samples of one value.
pub samples : ℕ → ℕ → DrumPin → DrumPin
samples zero v p = p
samples (suc n) v p = samples n v (update_offset p v)

-- For a pin with a valid calibration and a value up to 1023, `distance` samples of the value or
-- more bring the offset to it.
pub samples_converge :
    (n v : ℕ) (p : DrumPin)
    → IsCalibrated p
    → v ≤ 1023
    → distance p v ≤ n
    → (samples n v p).offset ≡ v
unfolding samples
samples_converge zero v p c h d = distance_zero p v c d
samples_converge (suc n) v p c h d =
    let c' = (update_offset_lem p v c h).0 in
    samples_converge n v (update_offset p v) c' h (distance_step n p v c h d)

pub samples-place :
    (n v : ℕ) (p : DrumPin) → ((samples n v p).mux ≡ p.mux) × ((samples n v p).index ≡ p.index)
unfolding samples
samples-place zero v p = (refl, refl)
samples-place (suc n) v p =
    let h = samples-place n v (update_offset p v) in
    (h.0 ∙ (update_offset-place p v).0, h.1 ∙ (update_offset-place p v).1)

pub samples-IsCalibrated :
    (n v : ℕ) (p : DrumPin) → IsCalibrated p → v ≤ 1023 → IsCalibrated (samples n v p)
unfolding samples
samples-IsCalibrated zero v p c h = c
samples-IsCalibrated (suc n) v p c h =
    samples-IsCalibrated n v (update_offset p v) (update_offset_lem p v c h).0 h

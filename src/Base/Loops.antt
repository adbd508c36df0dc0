-- ===== src/Base/Loops.antt =====
-- Counted loops.
use Prim.Native.Nat.{ℕ, zero, suc, ◌+◌}

-- The rounds of a loop from an index on, as many as are given.
abbrev pub for_range {ℓ} : {State : Type ℓ} → ℕ → ℕ → (ℕ → State → State) → State → State
for_range zero index round state = state
for_range (suc rest) index round state = for_range rest (index + 1) round (round index state)

-- ===== src/Drum/Sensing/Piezo/HitZone.antt =====
-- Which zone `determineHitZone` chooses.
use mathlib.Core.Path.{fun_ext}
use eaves_drum.Base.{
  refl, ap, leb, if◌then◌else◌, ltb, false, lt→ltb, ℕ, zero, suc, ◌+◌, ◌*◌, ◌/◌, ◌≤◌, ◌<◌, ◌≡◌, ◌⊎◌,
  ℤ, pos, negsuc, pos_part, neg_part, arith, ◌%◌, ◌^◌,
}
use eaves_drum.Drum.Settings.{Zones, at, put}
use eaves_drum.Drum.Sensing.{find_max_value_index}
use eaves_drum.Drum.Sensing.Piezo.{determine_hit_zone, prefer}

-- An index of a greatest value, which is the preferred index unless another value is greater.
abbrev pub IsBest : (ℕ → ℕ) → ℕ → ℕ → ℕ → Type 0
IsBest values n preferred best =
    (best < n)
    × ((best ≡ preferred) ⊎ (values preferred < values best))
    × (values 0 ≤ values best)
    × (1 < n → values 1 ≤ values best)
    × (2 < n → values 2 ≤ values best)

find_max-two : (f : ℕ → ℕ) (p : ℕ) → p < 2 → IsBest f 2 p (find_max_value_index f 2 p)
unfolding find_max_value_index
find_max-two f zero h = (ground arith, ground arith, ground arith, ground arith, ground arith)
find_max-two f (suc zero) h = (ground arith, ground arith, ground arith, ground arith, ground arith)
find_max-two f (suc (suc p)) h = absurd (omega arith)

find_max-three : (f : ℕ → ℕ) (p : ℕ) → p < 2 → IsBest f 3 p (find_max_value_index f 3 p)
unfolding find_max_value_index
find_max-three f zero h = (ground arith, ground arith, ground arith, ground arith, ground arith)
find_max-three f (suc zero) h =
    (ground arith, ground arith, ground arith, ground arith, ground arith)
find_max-three f (suc (suc p)) h = absurd (omega arith)

IsBest-le : (f : ℕ → ℕ) (n p best i : ℕ) → n ≤ 3 → i < n → IsBest f n p best → f i ≤ f best
IsBest-le f n p best zero h k b = b.2
IsBest-le f n p best (suc zero) h k b = b.3 k
IsBest-le f n p best (suc (suc zero)) h k b = b.4 k
IsBest-le f n p best (suc (suc (suc i))) h k b = absurd (omega arith)

find_max-IsBest :
    (f : ℕ → ℕ) (n p : ℕ) → 2 ≤ n → n ≤ 3 → p < 2 → IsBest f n p (find_max_value_index f n p)
find_max-IsBest f zero p h k l = absurd (omega arith)
find_max-IsBest f (suc zero) p h k l = absurd (omega arith)
find_max-IsBest f (suc (suc zero)) p h k l = find_max-two f p l
find_max-IsBest f (suc (suc (suc zero))) p h k l = find_max-three f p l
find_max-IsBest f (suc (suc (suc (suc n)))) p h k l = absurd (omega arith)

-- The zone that a bias prefers.
pub preferred : ℤ → ℕ
preferred (negsuc b) = 0
preferred (pos b) = 1

-- The scaled value of a zone, with the weight of the bias: 5 % for each percent.
pub weighted : Zones ℕ → ℤ → ℕ → ℕ
weighted e (negsuc b) zero = e.z0 + e.z0 * 5 * (b + 1) / 100
weighted e (negsuc b) (suc i) = at e (suc i)
weighted e (pos b) zero = e.z0
weighted e (pos b) (suc zero) = e.z1 + e.z1 * 5 * b / 100
weighted e (pos b) (suc (suc i)) = e.z2

product_le : (v p : ℕ) → v ≤ 1023 → p ≤ 100 → v * 5 * p ≤ 511500
product_le v p h k = grind arith

prefer_exact : (v p : ℕ) → v ≤ 1023 → p ≤ 100 → prefer v p ≡ v + v * 5 * p / 100
prefer_exact v p h k =
    let e₁ : v * 5 % 2 ^ 32 ≡ v * 5 = omega arith in
    let e₂ : v * 5 * p % 2 ^ 32 ≡ v * 5 * p = omega (arith, product_le v p h k) in
    rw (e₁, e₂) (omega (arith, product_le v p h k))

-- The zone that is chosen exists.
pub determine_hit_zone-lt :
    (e : Zones ℕ) (n : ℕ) (bias : ℤ) → 1 ≤ n → n ≤ 3 → determine_hit_zone e n bias < n
unfolding determine_hit_zone
determine_hit_zone-lt e zero bias h k = absurd (omega arith)
determine_hit_zone-lt e (suc zero) bias h k = omega arith
determine_hit_zone-lt e (suc (suc n)) (pos b) h k =
    let many : leb (suc (suc n)) 1 ≡ false = ground arith in
    rw many (find_max-IsBest _ (suc (suc n)) 1 (omega arith) k (omega arith)).0
determine_hit_zone-lt e (suc (suc n)) (negsuc b) h k =
    let many : leb (suc (suc n)) 1 ≡ false = ground arith in
    rw many (find_max-IsBest _ (suc (suc n)) 0 (omega arith) k (omega arith)).0

module _ (e : Zones ℕ) (low₀ : e.z0 ≤ 1023) (low₁ : e.z1 ≤ 1023) where
  head_values : (b : ℕ) → b < 100 → at (put e 0 (prefer e.z0 (b + 1))) ≡ weighted e (negsuc b)
  unfolding weighted
  head_values b h = fun_ext (go)
    where
      go : (i : ℕ) → at (put e 0 (prefer e.z0 (b + 1))) i ≡ weighted e (negsuc b) i
      go zero = prefer_exact e.z0 (b + 1) low₀ (omega arith)
      go (suc zero) = refl
      go (suc (suc i)) = refl

  rim_values :
      (b : ℕ) → b ≤ 100 → at (if ltb 0 b then put e 1 (prefer e.z1 b) else e) ≡ weighted e (pos b)
  unfolding weighted
  rim_values zero h = fun_ext (go)
    where
      go : (i : ℕ) → at e i ≡ weighted e (pos 0) i
      go zero = refl
      go (suc zero) = omega arith
      go (suc (suc i)) = refl
  rim_values (suc b) h = rw (lt→ltb 0 (suc b) (omega arith)) (fun_ext (go))
    where
      go : (i : ℕ) → at (put e 1 (prefer e.z1 (suc b))) i ≡ weighted e (pos (suc b)) i
      go zero = refl
      go (suc zero) = prefer_exact e.z1 (suc b) low₁ h
      go (suc (suc i)) = refl

  determine_pos :
      (n b : ℕ)
      → 2 ≤ n
      → b ≤ 100
      → determine_hit_zone e n (pos b) ≡ find_max_value_index (weighted e (pos b)) n 1
  unfolding determine_hit_zone
  determine_pos n b h k =
      let many : leb n 1 ≡ false = ground arith in
      rw many (ap (λ f. find_max_value_index f n 1) (rim_values b k))

  determine_neg :
      (n b : ℕ)
      → 2 ≤ n
      → b < 100
      → determine_hit_zone e n (negsuc b) ≡ find_max_value_index (weighted e (negsuc b)) n 0
  unfolding determine_hit_zone
  determine_neg n b h k =
      let many : leb n 1 ≡ false = ground arith in
      rw many (ap (λ f. find_max_value_index f n 0) (head_values b k))

  chooses-IsBest :
      (n : ℕ) (bias : ℤ)
      → 2 ≤ n
      → n ≤ 3
      → pos_part bias ≤ 100
      → neg_part bias ≤ 100
      → IsBest (weighted e bias) n (preferred bias) (determine_hit_zone e n bias)
  unfolding preferred
  chooses-IsBest n (pos b) h k l m =
      rw (determine_pos n b h l) (find_max-IsBest (weighted e (pos b)) n 1 h k (omega arith))
  chooses-IsBest n (negsuc b) h k l m =
      rw (determine_neg n b h m) (find_max-IsBest (weighted e (negsuc b)) n 0 h k (omega arith))

  -- For two or three zones, scaled values up to 1023 in the first two, and a bias of at most 100
  -- percent to either side, the chosen zone exists, no zone has a greater weighted value, and it
  -- is the preferred zone or its weighted value is greater than the preferred one's.
  pub determine_hit_zone_lem :
      (n i : ℕ) (bias : ℤ)
      → 2 ≤ n
      → n ≤ 3
      → pos_part bias ≤ 100
      → neg_part bias ≤ 100
      → i < n
      → let z = determine_hit_zone e n bias in
        (z < n)
        × (weighted e bias i ≤ weighted e bias z)
        × ((z ≡ preferred bias) ⊎ (weighted e bias (preferred bias) < weighted e bias z))
  determine_hit_zone_lem n i bias h k l m j =
      let b = chooses-IsBest n bias h k l m in
      (b.0, IsBest-le (weighted e bias) n (preferred bias) _ i k j b, b.1)

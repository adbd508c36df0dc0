-- ===== src/Config/Roles/Others.antt =====
-- Roles that a request does not name keep their mappings.
use eaves_drum.Base.{
  ℕ, zero, suc, ◌+◌, ◌≤◌, ◌<◌, ◌≡◌, inl, inr, refl, ap, subst, ◌∙◌, sym, Bool, true, false, Option,
  none, some, List, [], ◌∷◌, ◌++◌, if◌then◌else◌, length, String, All, arith, Bool-cases,
  Option-cases, get_elem?, get_or, set, take, take-set, length-set, length-take, leb, u8,
}
use eaves_drum.Config.Json.{Json}
use eaves_drum.Config.Mappings.{apply_mappings}
use eaves_drum.Config.Roles.{merged_mappings, store_role, apply_role, apply_drum_kit_mappings}
use eaves_drum.Drum.Pad.{DrumPad}
use eaves_drum.Drum.Kit.Evaluate.{DrumMappings}
use eaves_drum.Drum.Kit.Tables.{MappingsTable, get_mappings, new_mappings, find_from}
use eaves_drum.Drum.Kit.Tables.Mappings.{existing, exhausted, created}

module _ (same : String → String → Bool) where
  -- The mappings of a role in a list.
  pub lookup_role : String → List DrumMappings → Option DrumMappings
  lookup_role r [] = none
  lookup_role r (m ∷ ms) = let rest = lookup_role r ms in if same m.role r then some m else rest

  -- The mappings of a role in a table.
  pub role_mappings : MappingsTable → String → Option DrumMappings
  role_mappings t r = lookup_role r (take t.mappings_count t.slots)

  lookup-set :
      (r : String) (xs : List DrumMappings) (i : ℕ) (old v : DrumMappings)
      → get_elem? xs i ≡ some old
      → same old.role r ≡ false
      → same v.role r ≡ false
      → lookup_role r (set xs i v) ≡ lookup_role r xs
  unfolding lookup_role
  lookup-set r [] i old v e h k = refl
  lookup-set r (x ∷ xs) zero old v e h k =
      let first : x ≡ old = cc e in
      let other : same x.role r ≡ false =
        subst (λ (m : DrumMappings). same m.role r ≡ false) (sym first) h in
      rw (k, other)
  lookup-set r (x ∷ xs) (suc i) old v e h k = let ih = lookup-set r xs i old v e h k in rw ih

  lookup-snoc :
      (r : String) (xs : List DrumMappings) (v : DrumMappings)
      → same v.role r ≡ false
      → lookup_role r (xs ++ (v ∷ [])) ≡ lookup_role r xs
  unfolding lookup_role
  lookup-snoc r [] v k = rw k
  lookup-snoc r (x ∷ xs) v k = let ih = lookup-snoc r xs v k in rw ih

  set-take :
      (n : ℕ) (xs : List DrumMappings) (i : ℕ) (v : DrumMappings)
      → take n (set xs i v) ≡ set (take n xs) i v
  set-take zero xs i v = refl
  set-take (suc n) [] i v = refl
  set-take (suc n) (x ∷ xs) zero v = refl
  set-take (suc n) (x ∷ xs) (suc i) v = ap (◌∷◌ x) (set-take n xs i v)

  -- What is found has the role, and is at the index.
  found_role :
      (r : String) (n : ℕ) (xs : List DrumMappings) (i k : ℕ) (d : DrumMappings)
      → find_from same (λ (m : DrumMappings). m.role) r (take n xs) i ≡ some k
      → (j : ℕ) × (k ≡ i + j)
        × (get_elem? (take n xs) j ≡ some (get_or xs j d))
        × (same (get_or xs j d).role r ≡ true)
  unfolding find_from
  found_role r zero xs i k d e = absurd (cc)
  found_role r (suc n) [] i k d e = absurd (cc)
  found_role r (suc n) (x ∷ xs) i k d e = elim (Bool-cases (same x.role r)) [
    | inl h ↦ (0, ground (arith, e, h), refl, h)
    | inr h ↦
        let (j, at_j, here, named) = found_role r n xs (i + 1) k d (ground (arith, e, h)) in
        (suc j, omega arith, here, named)
  ]

  last_elem :
      (xs : List DrumMappings) (v : DrumMappings) (n : ℕ)
      → length xs ≡ n
      → get_elem? (xs ++ (v ∷ [])) n ≡ some v
  last_elem [] v zero h = refl
  last_elem [] v (suc n) h = absurd (omega arith)
  last_elem (x ∷ xs) v zero h = absurd (omega arith)
  last_elem (x ∷ xs) v (suc n) h = last_elem xs v n (omega arith)

-- The table has 32 slots.
abbrev pub HasSlots : MappingsTable → Type 0
HasSlots t = (t.mappings_count ≤ 32) × (length t.slots ≡ 32)

module _ (js : Json) (same : String → String → Bool)
    (equal : (s t : String) → same s t ≡ true → s ≡ t) where
  merged_role :
      (replace : Bool) (role : String) (old : DrumMappings) (node : js.Node)
      → old.role ≡ role
      → (merged_mappings js same replace role old node).role ≡ role
  unfolding merged_mappings apply_mappings new_mappings
  merged_role true role old node e = refl
  merged_role false role old node e = e

  -- A slot of the role is written.
  written-slot :
      (replace : Bool) (t : MappingsTable) (i : ℕ) (role r : String) (node : js.Node)
      (old : DrumMappings)
      → get_elem? (take t.mappings_count t.slots) i ≡ some old
      → get_or t.slots i (new_mappings same role) ≡ old
      → old.role ≡ role
      → same role r ≡ false
      → role_mappings same
          (record t {
            slots = set t.slots i (
                merged_mappings js same replace role
                  (get_or t.slots i (new_mappings same role))
                  node);
          })
          r
        ≡ role_mappings same t r
  unfolding role_mappings
  written-slot replace t i role r node old here is named other =
      let m =
        merged_mappings js same replace role (get_or t.slots i (new_mappings same role)) node in
      let role_kept =
        merged_role replace role _ node (ap (λ (d : DrumMappings). d.role) is ∙ named) in
      ap (lookup_role same r) (set-take same t.mappings_count t.slots i m)
      ∙ lookup-set same r (take t.mappings_count t.slots) i old m here
          (subst (λ s. same s r ≡ false) (sym named) other)
          (subst (λ s. same s r ≡ false) (sym role_kept) other)

  get_or-set :
      (xs : List DrumMappings) (n : ℕ) (v d : DrumMappings)
      → n < length xs
      → get_or (set xs n v) n d ≡ v
  get_or-set [] n v d h = absurd (omega arith)
  get_or-set (x ∷ xs) zero v d h = refl
  get_or-set (x ∷ xs) (suc n) v d h = get_or-set xs n v d (omega arith)

  -- The same roles are found, and the slots stay.
  abbrev Keeps : String → MappingsTable → MappingsTable → Type 0
  Keeps r t u = (role_mappings same u r ≡ role_mappings same t r) × HasSlots u

  stored-Keeps :
      (replace : Bool) (t : MappingsTable) (i : ℕ) (pads : List DrumPad) (role r : String)
      (node : js.Node) (old : DrumMappings)
      → HasSlots t
      → get_elem? (take t.mappings_count t.slots) i ≡ some old
      → get_or t.slots i (new_mappings same role) ≡ old
      → old.role ≡ role
      → same role r ≡ false
      → Keeps r t (store_role js same replace t (some i) pads role node).0
  unfolding store_role
  stored-Keeps replace t i pads role r node old (few, size) here is named other = (
    written-slot replace t i role r node old here is named other,
    (few, length-set t.slots i _ ∙ size),
  )

  existing-Keeps :
      (replace : Bool) (t : MappingsTable) (i : ℕ) (pads : List DrumPad) (role r : String)
      (node : js.Node)
      → HasSlots t
      → get_mappings same t role ≡ some i
      → same role r ≡ false
      → Keeps r t (store_role js same replace t (some i) pads role node).0
  unfolding get_mappings
  existing-Keeps replace t i pads role r node ok found other =
      let (j, at_j, here, named) =
        found_role same role t.mappings_count t.slots 0 i (new_mappings same role) found in
      let index : j ≡ i = omega arith in
      stored-Keeps replace t i pads role r node (get_or t.slots i (new_mappings same role)) ok
        (subst
          (λ k.
            get_elem? (take t.mappings_count t.slots) k
            ≡ some (get_or t.slots k (new_mappings same role)))
          index here)
        refl
        (subst (λ k. (get_or t.slots k (new_mappings same role)).role ≡ role) index
          (equal _ role named))
        other

  -- The table after a role was added.
  abbrev grown : MappingsTable → String → MappingsTable
  grown t role = record {
    slots = set t.slots t.mappings_count (new_mappings same role);
    mappings_count = u8 (t.mappings_count + 1);
  }

  grown-Keeps :
      (replace : Bool) (t : MappingsTable) (pads : List DrumPad) (role r : String) (node : js.Node)
      → HasSlots t
      → t.mappings_count < 32
      → same role r ≡ false
      → Keeps r t
          (store_role js same replace (grown t role) (some t.mappings_count) pads role node).0
  unfolding new_mappings role_mappings
  grown-Keeps replace t pads role r node (few, size) room other =
      let n = t.mappings_count in
      let fresh = new_mappings same role in
      let next : u8 (n + 1) ≡ suc n = omega arith in
      let len : length (take n t.slots) ≡ n = omega (arith, length-take n t.slots) in
      let used : take (u8 (n + 1)) (set t.slots n fresh) ≡ take n t.slots ++ (fresh ∷ []) =
        ap (λ k. take k (set t.slots n fresh)) next ∙ take-set n t.slots fresh (omega arith) in
      let added = ap (lookup_role same r) used ∙ lookup-snoc same r (take n t.slots) fresh other in
      let here = ap (λ xs. get_elem? xs n) used ∙ last_elem same (take n t.slots) fresh n len in
      let k =
        stored-Keeps replace (grown t role) n pads role r node fresh
          (omega (arith, next), length-set t.slots n fresh ∙ size) here
          (get_or-set t.slots n fresh fresh (omega arith)) refl other in
      (k.0 ∙ added, k.1)

  role-Keeps :
      (replace : Bool) (t : MappingsTable) (pads : List DrumPad) (role r : String) (node : js.Node)
      → HasSlots t
      → same role r ≡ false
      → Keeps r t (apply_role js same replace (t, pads) role node).0
  unfolding apply_role store_role
  role-Keeps replace t pads role r node ok other = elim (Option-cases (get_mappings same t role)) [
    | inr (i, found) ↦
        simp (existing same 32 t role i found)
          (existing-Keeps replace t i pads role r node ok found other)
    | inl missing ↦ elim (Bool-cases (leb 32 t.mappings_count)) [
      | inl full ↦ simp (exhausted same 32 t role missing full) (refl, ok)
      | inr room ↦
          simp (created same 32 t role missing room)
            (grown-Keeps replace t pads role r node ok (ground (arith, room)) other)
    ]
  ]

  -- For a table of 32 slots and an equality of texts that is one: a role that is none of a
  -- request's keeps its mappings, or stays without, whether the request replaces or merges, and
  -- the table keeps its slots and at most 32 mappings.
  pub apply_drum_kit_mappings-others :
      (replace : Bool) (t : MappingsTable) (pads : List DrumPad) (r : String)
      (request : List (String × js.Node))
      → HasSlots t
      → All (λ (m : String × js.Node). same m.0 r ≡ false) request
      → (role_mappings same (apply_drum_kit_mappings js same replace (t, pads) request).0 r
          ≡ role_mappings same t r)
        × HasSlots (apply_drum_kit_mappings js same replace (t, pads) request).0
  unfolding apply_drum_kit_mappings
  apply_drum_kit_mappings-others replace t pads r [] ok all = (refl, ok)
  apply_drum_kit_mappings-others replace t pads r ((role, node) ∷ rest) ok (other, all) =
      let one = role-Keeps replace t pads role r node ok other in
      let kit = apply_role js same replace (t, pads) role node in
      let ih = apply_drum_kit_mappings-others replace kit.0 kit.1 r rest one.1 all in
      (ih.0 ∙ one.0, ih.1)

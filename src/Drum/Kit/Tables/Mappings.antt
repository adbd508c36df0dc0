-- ===== src/Drum/Kit/Tables/Mappings.antt =====
-- The mappings of a role, once they were asked for.
use eaves_drum.Base.{
  ℕ, suc, ◌+◌, ◌≤◌, ◌<◌, ◌≡◌, ◌≢◌, ◌⊎◌, ap, ◌∙◌, Bool, true, false, inl, inr, none, some, String,
  List, [], ◌∷◌, ◌++◌, length, take, set, take-set, Bool-cases, Option-cases, leb, u8, arith,
  length-take,
}
use eaves_drum.Drum.Kit.Evaluate.{DrumMappings}
use eaves_drum.Drum.Kit.Tables.{
  MappingsTable, find_from, get_mappings, new_mappings, get_or_create_mappings,
}

module _ (same_text : String → String → Bool) where
  find_from-append :
      (role : String) (xs : List DrumMappings) (m : DrumMappings) (i : ℕ)
      → find_from same_text (λ (m : DrumMappings). m.role) role xs i ≡ none
      → same_text m.role role ≡ true
      → find_from same_text (λ (m : DrumMappings). m.role) role (xs ++ m ∷ []) i
        ≡ some (i + length xs)
  unfolding find_from
  find_from-append role [] m i h e = simp e (ap some (omega arith))
  find_from-append role (x ∷ xs) m i h e = elim (Bool-cases (same_text x.role role)) [
    | inl y ↦ let e' : some i ≡ none = simp y at h in absurd (cc)
    | inr n ↦
        let rest = find_from-append role xs m (i + 1) (simp n at h) e in
        simp n (rest ∙ ap some (omega arith))
  ]

  module _ (max_count : ℕ) (t : MappingsTable) (role : String) where
    pub existing :
        (i : ℕ)
        → get_mappings same_text t role ≡ some i
        → get_or_create_mappings same_text max_count t role ≡ (t, some i)
    unfolding get_or_create_mappings
    existing i e = ground arith

    pub exhausted :
        get_mappings same_text t role ≡ none
        → leb max_count t.mappings_count ≡ true
        → get_or_create_mappings same_text max_count t role ≡ (t, none)
    unfolding get_or_create_mappings
    exhausted e f = ground arith

    pub created :
        get_mappings same_text t role ≡ none
        → leb max_count t.mappings_count ≡ false
        → get_or_create_mappings same_text max_count t role ≡ (
          record {
            slots = set t.slots t.mappings_count (new_mappings same_text role);
            mappings_count = u8 (t.mappings_count + 1);
          },
          some t.mappings_count,
        )
    unfolding get_or_create_mappings
    created e f = ground arith

  -- For text that equals itself and a table that has the slots of its maximum, below 256:
  -- afterwards `getMappings` finds what `getOrCreateMappings` returned, the count is at most the
  -- maximum, and a null pointer is returned only if the table was full.
  pub get_or_create_lem :
      (max_count : ℕ) (t : MappingsTable) (role : String)
      → same_text role role ≡ true
      → t.mappings_count ≤ length t.slots
      → length t.slots ≡ max_count
      → max_count < 256
      → let r = get_or_create_mappings same_text max_count t role in
        (get_mappings same_text r.0 role ≡ r.1)
        × (r.0.mappings_count ≤ max_count)
        × ((r.1 ≢ none) ⊎ (t.mappings_count ≡ max_count))
  unfolding get_mappings new_mappings
  get_or_create_lem max_count t role same fits size small =
      elim (Option-cases (get_mappings same_text t role)) [
        | inr (i, found) ↦
            simp (existing max_count t role i found) (found, omega arith, inl (λ e. absurd (cc)))
        | inl missing ↦ elim (Bool-cases (leb max_count t.mappings_count)) [
          | inl full ↦
              simp (exhausted max_count t role missing full)
                (missing, omega arith, inr (ground arith))
          | inr room ↦
              let less : t.mappings_count < max_count = ground arith in
              let next : u8 (t.mappings_count + 1) ≡ suc t.mappings_count = omega arith in
              let n = t.mappings_count in
              let len : length (take n t.slots) ≡ n = omega (arith, length-take n t.slots) in
              let written = take-set n t.slots (new_mappings same_text role) (omega arith) in
              let found =
                find_from-append role (take n t.slots) (new_mappings same_text role) 0 missing
                  same in
              let at_end : 0 + length (take n t.slots) ≡ n = omega (arith, len) in
              simp (created max_count t role missing room, next)
                (
                  ap (λ xs. find_from same_text (λ (m : DrumMappings). m.role) role xs 0) written
                      ∙ found
                      ∙ ap some at_end,
                  less,
                  inl (λ e. absurd (cc)),
                )
        ]
      ]

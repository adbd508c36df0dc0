-- ===== src/Config/Kit/Pedal.antt =====
-- That the search for a pad's pedal ends.
use eaves_drum.Base.{
  ℕ, zero, suc, ◌+◌, ◌≤◌, ◌<◌, ◌≡◌, inl, inr, refl, ◌==◌, if◌then◌else◌, ltb, u8, Bool, Option,
  none, some, String, arith, Bool-cases,
}
use eaves_drum.Config.Json.{Json}
use eaves_drum.Config.Kit.{find_pedal_index_by_name, pedal_from}

module _ (js : Json) (same : String → String → Bool) where
  -- The search for the pedal ends if its index reaches the number of entries.
  find_ends :
      (name : String) (pads : js.Node) (k i : ℕ)
      → js.size pads ≤ 255
      → i ≤ js.size pads
      → js.size pads < i + k
      → (r : ℕ) × (find_pedal_index_by_name js same name pads k i ≡ some r)
  unfolding find_pedal_index_by_name
  find_ends name pads zero i small h room = absurd (omega arith)
  find_ends name pads (suc k) i small h room = elim (Bool-cases (ltb i (js.size pads))) [
    | inr done ↦ (255, rw done refl)
    | inl more ↦ elim (Bool-cases (same (js.to_text (js.member (js.element pads i) "name")) name)) [
      | inl found ↦ (i, rw (more, found) refl)
      | inr missed ↦
          let inside : i < js.size pads = ground arith in
          let (r, e) = find_ends name pads k (u8 (i + 1)) small (omega arith) (omega arith) in
          (r, rw (more, missed) e)
    ]
  ]

  pub pedal_ends :
      (pads : js.Node) (name : Option String) (old : Option ℕ)
      → js.size pads ≤ 255
      → (r : Option ℕ) × (pedal_from js same pads name old ≡ some r)
  unfolding pedal_from
  pedal_ends pads none old h = (old, refl)
  pedal_ends pads (some name) old h =
      let (r, e) = find_ends name pads 257 0 h (omega arith) (omega arith) in
      ((if r == 255 then old else some r), simp e)

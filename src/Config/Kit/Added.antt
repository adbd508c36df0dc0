-- ===== src/Config/Kit/Added.antt =====
-- The connectors of a kit have different ids, and there are not too many.
use eaves_drum.Base.{
  ℕ, ◌+◌, ◌≤◌, ◌≡◌, inl, inr, refl, subst, sym, Bool, true, false, Option, none, some, List, [],
  ◌∷◌, ◌++◌, leb, if◌then◌else◌, length, String, All, All-append, arith, Bool-cases, Option-cases,
}
use eaves_drum.Config.Json.{Json}
use eaves_drum.Config.Connectors.{apply_pins_config, set_read_pins}
use eaves_drum.Config.Kit.{get_connector_by_id, add_connectors}
use eaves_drum.Drum.Connector.{DrumConnector, new_connector, set_pins}
use eaves_drum.Drum.Pin.{DrumPin}
use eaves_drum.Drum.Kit.Tables.{find_from}

module _ (js : Json) (same : String → String → Bool) where
  -- No connector has the id of a later one.
  abbrev pub Differ : List DrumConnector → Type 0
  Differ [] = Unit
  Differ (c ∷ cs) = All (λ d. same c.id d.id ≡ false) cs × Differ cs

  find_none :
      (id : String) (cs : List DrumConnector) (i : ℕ)
      → find_from same (λ (c : DrumConnector). c.id) id cs i ≡ none
      → All (λ (c : DrumConnector). same c.id id ≡ false) cs
  unfolding find_from
  find_none id [] i e = tt
  find_none id (c ∷ cs) i e = elim (Bool-cases (same c.id id)) [
    | inl k ↦ absurd (ground (arith, e, k))
    | inr k ↦ (k, find_none id cs (i + 1) (ground (arith, e, k)))
  ]

  Differ-snoc :
      (cs : List DrumConnector) (d : DrumConnector)
      → Differ cs
      → All (λ (c : DrumConnector). same c.id d.id ≡ false) cs
      → Differ (cs ++ (d ∷ []))
  Differ-snoc [] d k a = (tt, tt)
  Differ-snoc (c ∷ cs) d (k, ks) (a, as_) =
      (All-append _ cs (d ∷ []) k (a, tt), Differ-snoc cs d ks as_)

  read_id :
      (counts : List ℕ) (c : DrumConnector) (n : ℕ) (pins : Option (List DrumPin))
      → (set_read_pins js counts c n pins).0.id ≡ c.id
  unfolding set_read_pins set_pins
  read_id counts c n none = refl
  read_id counts c n (some ps) = refl

  either_id :
      (b : Bool) (x y : DrumConnector × Bool) (id : String)
      → x.0.id ≡ id
      → y.0.id ≡ id
      → (if b then x else y).0.id ≡ id
  either_id true x y id h k = h
  either_id false x y id h k = k

  apply_id :
      (counts : List ℕ) (id : String) (node : js.Node)
      → (apply_pins_config js counts (new_connector id) node).0.id ≡ id
  unfolding apply_pins_config new_connector
  apply_id counts id node = either_id _ _ _ id refl (read_id counts (new_connector id) _ _)

  length-snoc :
      (cs : List DrumConnector) (d : DrumConnector) → length (cs ++ (d ∷ [])) ≡ length cs + 1
  length-snoc [] d = refl
  length-snoc (c ∷ cs) d = let ih = length-snoc cs d in omega (arith, ih)

  -- If no two connectors of a kit have the same id and there are at most 32, both holds after the
  -- connectors of a document were added.
  pub add_connectors-Differ :
      (counts : List ℕ) (cs : List DrumConnector) (members : List (String × js.Node))
      → Differ cs
      → length cs ≤ 32
      → Differ (add_connectors js same counts cs members)
        × (length (add_connectors js same counts cs members) ≤ 32)
  unfolding add_connectors get_connector_by_id
  add_connectors-Differ counts cs [] k few = (k, few)
  add_connectors-Differ counts cs ((id, node) ∷ rest) k few =
      let c = (apply_pins_config js counts (new_connector id) (js.member node "pins")).0 in
      elim (Bool-cases (leb 32 (length cs))) [
        | inl full ↦ rw full (k, few)
        | inr room ↦ elim (Option-cases (find_from same (λ (c : DrumConnector). c.id) id cs 0)) [
          | inr (i, found) ↦ rw (room, found) (add_connectors-Differ counts cs rest k few)
          | inl absent ↦
              let others = find_none id cs 0 absent in
              let own = sym (apply_id counts id (js.member node "pins")) in
              let others' =
                subst (λ t. All (λ (d : DrumConnector). same d.id t ≡ false) cs) own others in
              let n = length-snoc cs c in
              rw (room, absent)
                (add_connectors-Differ counts (cs ++ (c ∷ [])) rest (Differ-snoc cs c k others')
                  (ground (arith, n, room)))
        ]
      ]

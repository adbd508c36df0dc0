-- ===== src/Config/Members.antt =====
-- Members that are written under a condition.
use eaves_drum.Base.{◌≡◌, inl, inr, Bool, true, false, not, ◌&&◌, String, if◌then◌else◌, Bool-cases}
use eaves_drum.Config.Json.{Json, Documented, same_text}

module _ (js : Json) (D : Documented js) where
  pub write_if :
      (b : Bool) (o : js.Object) (v : js.Node) (k j : String)
      → js.member (js.of_object (if b then js.set_member o k v else o)) j
        ≡ (if same_text k j && b then v else js.member (js.of_object o) j)
  write_if true o v k j = elim (Bool-cases (same_text k j)) [
    | inl e ↦ rw (D.member-set, e)
    | inr e ↦ rw (D.member-set, e)
  ]
  write_if false o v k j = elim (Bool-cases (same_text k j)) [ inl e ↦ rw e | inr e ↦ rw e ]

  pub write_unless :
      (b : Bool) (o : js.Object) (v : js.Node) (k j : String)
      → js.member (js.of_object (if b then o else js.set_member o k v)) j
        ≡ (if same_text k j && not b then v else js.member (js.of_object o) j)
  write_unless true o v k j = write_if false o v k j
  write_unless false o v k j = write_if true o v k j

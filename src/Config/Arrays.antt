-- ===== src/Config/Arrays.antt =====
-- Arrays of up to four nodes, as they are written and read.
use eaves_drum.Base.{ℕ, ◌+◌, ◌≡◌, ap, ◌∙◌, sym, arith}
use eaves_drum.Config.Json.{Json, Documented}

module _ (js : Json) (D : Documented js) where
  size_is :
      (a : js.Array) (v : js.Node) (n : ℕ)
      → js.size (js.of_array a) ≡ n
      → js.size (js.of_array (js.append a v)) ≡ n + 1
  size_is a v n h = D.size-append a v ∙ ap (λ k. k + 1) h

  last_is :
      (a : js.Array) (v : js.Node) (n : ℕ)
      → js.size (js.of_array a) ≡ n
      → js.element (js.of_array (js.append a v)) n ≡ v
  last_is a v n h = ap (js.element (js.of_array (js.append a v))) (sym h) ∙ D.element-last a v

  abbrev pub one : js.Node → js.Array
  one u = js.append js.empty_array u

  abbrev pub two : js.Node → js.Node → js.Array
  two u v = js.append (one u) v

  abbrev pub three : js.Node → js.Node → js.Node → js.Array
  three u v w = js.append (two u v) w

  pub size-one : (u : js.Node) → js.size (js.of_array (one u)) ≡ 1
  size-one u = size_is _ _ 0 D.size-empty

  pub size-two : (u v : js.Node) → js.size (js.of_array (two u v)) ≡ 2
  size-two u v = size_is _ _ 1 (size-one u)

  pub size-three : (u v w : js.Node) → js.size (js.of_array (three u v w)) ≡ 3
  size-three u v w = size_is _ _ 2 (size-two u v)

  pub one-0 : (u : js.Node) → js.element (js.of_array (one u)) 0 ≡ u
  one-0 u = last_is _ _ 0 D.size-empty

  pub two-0 : (u v : js.Node) → js.element (js.of_array (two u v)) 0 ≡ u
  two-0 u v = let n = size-one u in D.element-append (one u) v 0 (omega arith) ∙ one-0 u

  pub two-1 : (u v : js.Node) → js.element (js.of_array (two u v)) 1 ≡ v
  two-1 u v = last_is _ _ 1 (size-one u)

  pub three-0 : (u v w : js.Node) → js.element (js.of_array (three u v w)) 0 ≡ u
  three-0 u v w = let n = size-two u v in D.element-append (two u v) w 0 (omega arith) ∙ two-0 u v

  pub three-1 : (u v w : js.Node) → js.element (js.of_array (three u v w)) 1 ≡ v
  three-1 u v w = let n = size-two u v in D.element-append (two u v) w 1 (omega arith) ∙ two-1 u v

  pub three-2 : (u v w : js.Node) → js.element (js.of_array (three u v w)) 2 ≡ w
  three-2 u v w = last_is _ _ 2 (size-two u v)

  abbrev pub four : js.Node → js.Node → js.Node → js.Node → js.Array
  four u v w x = js.append (three u v w) x

  pub size-four : (u v w x : js.Node) → js.size (js.of_array (four u v w x)) ≡ 4
  size-four u v w x = size_is _ _ 3 (size-three u v w)

  pub four-0 : (u v w x : js.Node) → js.element (js.of_array (four u v w x)) 0 ≡ u
  four-0 u v w x =
      let n = size-three u v w in D.element-append (three u v w) x 0 (omega arith) ∙ three-0 u v w

  pub four-1 : (u v w x : js.Node) → js.element (js.of_array (four u v w x)) 1 ≡ v
  four-1 u v w x =
      let n = size-three u v w in D.element-append (three u v w) x 1 (omega arith) ∙ three-1 u v w

  pub four-2 : (u v w x : js.Node) → js.element (js.of_array (four u v w x)) 2 ≡ w
  four-2 u v w x =
      let n = size-three u v w in D.element-append (three u v w) x 2 (omega arith) ∙ three-2 u v w

  pub four-3 : (u v w x : js.Node) → js.element (js.of_array (four u v w x)) 3 ≡ x
  four-3 u v w x = last_is _ _ 3 (size-three u v w)

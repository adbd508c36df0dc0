-- ===== src/Config/Json.antt =====
-- What src/config uses of the ArduinoJson library, which is not in the repository: a parameter. A
-- `JsonVariantConst` is a node, a `JsonObject` and a `JsonArray` are the object and the array that a
-- document gets. `none` stands for `is<T>()` that answers no, `some v` for `as<T>()`.
use eaves_drum.Base.{
  ℕ, ◌+◌, ◌<◌, ◌≡◌, Bool, true, false, Option, none, some, List, String, if◌then◌else◌, ℤ, pos,
  negsuc, ◌≤◌, ◌≤ℤ◌,
}
use text.Mathlib.Text

abbrev pub same_text : String → String → Bool
same_text s t = text.Mathlib.Text.is_eq (Prim.Native.String.compare s t)

pub record Json : Type 1 where
  pub Node : Type 0
  pub Object : Type 0
  pub Array : Type 0
  pub missing : Node
  pub empty_object : Object
  pub empty_array : Array
  pub of_object : Object → Node
  pub of_array : Array → Node
  pub of_number : ℕ → Node
  pub of_bool : Bool → Node
  pub of_text : String → Node
  pub set_member : Object → String → Node → Object
  pub append : Array → Node → Array
  pub member : Node → String → Node
  pub element : Node → ℕ → Node
  pub members : Node → List (String × Node)  -- in their order
  pub size : Node → ℕ
  pub as_int : Node → Option ℤ
  pub as_bool : Node → Option Bool
  pub as_text : Node → Option String
  pub as_truth : Node → Bool  -- the conversion to `bool`
  pub to_text : Node → String  -- the conversion to `String`
  pub to_byte : Node → ℕ  -- the conversion to `uint8_t`
  pub as_unsigned : ℕ → Node → Option ℕ  -- a type below a limit
  pub of_integer : ℤ → Node
  pub as_int8 : Node → Option ℤ
  pub of_float : ℕ → Node  -- the bits of a `float`
  pub as_float : Node → Option ℕ
  pub is_array : Node → Bool
  pub is_object : Node → Bool
  pub is_unbound : Node → Bool
  pub is_null : Node → Bool

-- `INT32_MAX + 1`
abbrev pub int_limit : ℕ
int_limit = 2147483648

-- The documented behaviour: what is written is read, and nothing else is there.
pub record Documented (js : Json) : Type 0 where
  pub member-set :
      (o : js.Object) (v : js.Node) (k j : String)
      → js.member (js.of_object (js.set_member o k v)) j
        ≡ (if same_text k j then v else js.member (js.of_object o) j)
  pub member-empty : (k : String) → js.member (js.of_object js.empty_object) k ≡ js.missing
  pub size-empty : js.size (js.of_array js.empty_array) ≡ 0
  pub size-append :
      (a : js.Array) (v : js.Node)
      → js.size (js.of_array (js.append a v)) ≡ js.size (js.of_array a) + 1
  pub element-append :
      (a : js.Array) (v : js.Node) (i : ℕ)
      → i < js.size (js.of_array a)
      → js.element (js.of_array (js.append a v)) i ≡ js.element (js.of_array a) i
  pub element-last :
      (a : js.Array) (v : js.Node)
      → js.element (js.of_array (js.append a v)) (js.size (js.of_array a)) ≡ v
  pub element-beyond :
      (a : js.Array) (i : ℕ)
      → js.size (js.of_array a) ≤ i
      → js.element (js.of_array a) i ≡ js.missing
  pub truth_missing : js.as_truth js.missing ≡ false
  pub truth_text : (s : String) → js.as_truth (js.of_text s) ≡ true
  pub to_text_text : (s : String) → js.to_text (js.of_text s) ≡ s
  pub byte_number : (n : ℕ) → n < 256 → js.to_byte (js.of_number n) ≡ n
  pub unsigned_missing : (limit : ℕ) → js.as_unsigned limit js.missing ≡ none
  pub unsigned_number : (limit n : ℕ) → n < limit → js.as_unsigned limit (js.of_number n) ≡ some n
  pub int8_missing : js.as_int8 js.missing ≡ none
  pub int8_integer :
      (z : ℤ) → negsuc 127 ≤ℤ z → z ≤ℤ pos 127 → js.as_int8 (js.of_integer z) ≡ some z
  pub float_missing : js.as_float js.missing ≡ none
  pub float_float : (f : ℕ) → js.as_float (js.of_float f) ≡ some f
  pub array_missing : js.is_array js.missing ≡ false
  pub array_array : (a : js.Array) → js.is_array (js.of_array a) ≡ true
  pub object_missing : js.is_object js.missing ≡ false
  pub object_object : (o : js.Object) → js.is_object (js.of_object o) ≡ true
  pub unsigned_object : (limit : ℕ) (o : js.Object) → js.as_unsigned limit (js.of_object o) ≡ none
  pub int_missing : js.as_int js.missing ≡ none
  pub bool_missing : js.as_bool js.missing ≡ none
  pub text_missing : js.as_text js.missing ≡ none
  pub int_number : (n : ℕ) → n < int_limit → js.as_int (js.of_number n) ≡ some (pos n)
  pub int_bool : (b : Bool) → js.as_int (js.of_bool b) ≡ none
  pub int_object : (o : js.Object) → js.as_int (js.of_object o) ≡ none
  pub bool_bool : (b : Bool) → js.as_bool (js.of_bool b) ≡ some b
  pub text_text : (s : String) → js.as_text (js.of_text s) ≡ some s
  pub unbound_missing : js.is_unbound js.missing ≡ true
  pub null_missing : js.is_null js.missing ≡ true
  pub null_number : (n : ℕ) → js.is_null (js.of_number n) ≡ false
  pub null_object : (o : js.Object) → js.is_null (js.of_object o) ≡ false
  pub null_array : (a : js.Array) → js.is_null (js.of_array a) ≡ false

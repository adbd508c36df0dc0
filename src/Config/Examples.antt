-- ===== src/Config/Examples.antt =====
-- A JSON document as a data type, which behaves as documented: for the examples.
use eaves_drum.Base.{
  ℕ, ◌+◌, ◌≤◌, ◌≡◌, refl, Bool, true, false, Option, none, some, List, [], ◌∷◌, String, ltb, ◌==◌,
  if◌then◌else◌, ℤ, pos, arith,
}
use eaves_drum.Config.Json.{Json, Documented, same_text}

mutual
  pub data Value : Type 0 where
    absent : Value
    number : ℕ → Value
    truth : Bool → Value
    text : String → Value
    whole : ℤ → Value
    fraction : ℕ → Value
    object : Members → Value
    array : Elements → Value

  pub data Members : Type 0 where
    no_member : Members
    with_member : String → Value → Members → Members

  pub data Elements : Type 0 where
    no_element : Elements
    then_element : Elements → Value → Elements

unfoldable pub find_member : Members → String → Value
find_member no_member j = absent
find_member (with_member k v o) j = let rest = find_member o j in if same_text k j then v else rest

unfoldable pub member_of : Value → String → Value
unfolding find_member
member_of (object o) j = find_member o j
member_of _ j = absent

unfoldable pub list_members : Members → List (String × Value)
list_members no_member = []
list_members (with_member k v o) = (k, v) ∷ list_members o

unfoldable pub members_of : Value → List (String × Value)
unfolding list_members
members_of (object o) = list_members o
members_of _ = []

unfoldable pub elements_count : Elements → ℕ
elements_count no_element = 0
elements_count (then_element a v) = elements_count a + 1

unfoldable pub size_of : Value → ℕ
unfolding elements_count
size_of (array a) = elements_count a
size_of _ = 0

unfoldable pub find_element : Elements → ℕ → Value
unfolding elements_count
find_element no_element i = absent
find_element (then_element a v) i =
    let rest = find_element a i in if i == elements_count a then v else rest

unfoldable pub element_of : Value → ℕ → Value
unfolding find_element
element_of (array a) i = find_element a i
element_of _ i = absent

unfoldable pub int_of : Value → Option ℤ
int_of (number n) = some (pos n)
int_of _ = none

unfoldable pub bool_of : Value → Option Bool
bool_of (truth b) = some b
bool_of _ = none

unfoldable pub text_of : Value → Option String
text_of (text s) = some s
text_of _ = none

unfoldable pub says : Value → Bool
says absent = false
says (truth b) = b
says _ = true

unfoldable pub text_value : Value → String
text_value (text s) = s
text_value _ = ""

unfoldable pub byte_value : Value → ℕ
byte_value (number n) = if ltb n 256 then n else 0
byte_value _ = 0

unfoldable pub unsigned_of : ℕ → Value → Option ℕ
unsigned_of limit (number n) = if ltb n limit then some n else none
unsigned_of limit _ = none

unfoldable pub int8_of : Value → Option ℤ
int8_of (whole z) = some z
int8_of _ = none

unfoldable pub float_of : Value → Option ℕ
float_of (fraction f) = some f
float_of _ = none

unfoldable pub holds_array : Value → Bool
holds_array (array a) = true
holds_array _ = false

unfoldable pub holds_object : Value → Bool
holds_object (object o) = true
holds_object _ = false

unfoldable pub is_absent : Value → Bool
is_absent absent = true
is_absent _ = false

unfoldable pub values : Json
unfolding member_of members_of size_of element_of int_of bool_of text_of is_absent says text_value
    byte_value unsigned_of int8_of float_of holds_array holds_object
values = record {
  Node = Value;
  Object = Members;
  Array = Elements;
  missing = absent;
  empty_object = no_member;
  empty_array = no_element;
  of_object = object;
  of_array = array;
  of_number = number;
  of_bool = truth;
  of_text = text;
  set_member = λ o k v. with_member k v o;
  append = then_element;
  member = member_of;
  element = element_of;
  members = members_of;
  size = size_of;
  as_int = int_of;
  as_bool = bool_of;
  as_text = text_of;
  as_truth = says;
  to_text = text_value;
  to_byte = byte_value;
  as_unsigned = unsigned_of;
  of_integer = whole;
  as_int8 = int8_of;
  of_float = fraction;
  as_float = float_of;
  is_array = holds_array;
  is_object = holds_object;
  is_unbound = is_absent;
  is_null = is_absent;
}

find_beyond : (a : Elements) (i : ℕ) → elements_count a ≤ i → find_element a i ≡ absent
unfolding find_element elements_count
find_beyond no_element i h = refl
find_beyond (then_element a v) i h =
    let ne : (i == elements_count a) ≡ false = ground arith in rw ne (find_beyond a i (omega arith))

pub values-Documented : Documented values
unfolding values
values-Documented = record {
  member-set = λ o v k j. refl;
  member-empty = λ k. refl;
  size-empty = refl;
  size-append = λ a v. refl;
  element-append = λ a v i lt. let ne : (i == elements_count a) ≡ false = ground arith in rw ne;
  element-last =
      λ a v. let e : (elements_count a == elements_count a) ≡ true = ground arith in rw e;
  element-beyond = find_beyond;
  truth_missing = refl;
  truth_text = λ s. refl;
  to_text_text = λ s. refl;
  byte_number = λ n h. ground arith;
  unsigned_missing = λ l. refl;
  unsigned_number = λ l n h. ground arith;
  int8_missing = refl;
  int8_integer = λ z a b. refl;
  float_missing = refl;
  float_float = λ f. refl;
  array_missing = refl;
  array_array = λ a. refl;
  object_missing = refl;
  object_object = λ o. refl;
  unsigned_object = λ l o. refl;
  int_missing = refl;
  bool_missing = refl;
  text_missing = refl;
  int_number = λ n lt. refl;
  int_bool = λ b. refl;
  int_object = λ o. refl;
  bool_bool = λ b. refl;
  text_text = λ s. refl;
  unbound_missing = refl;
  null_missing = refl;
  null_number = λ n. refl;
  null_object = λ o. refl;
  null_array = λ a. refl;
}

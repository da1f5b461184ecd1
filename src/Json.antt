-- ===== src/Json.antt =====
-- src/sad_entry/sad_entry.c and src/messages/messages.c: associations and messages as JSON objects of the library parson,
-- which is an interface. A number of an object is a double, which holds each natural number up to 2 ^ 53.
pub mod Fields
pub mod Sad
pub mod Messages
use ccips_cfgipsec.Base.{
  ℕ, ◌%◌, ◌^◌, ◌≤◌, ◌≡◌, Bool, true, false, Option, none, some, List, [], ◌∷◌, ◌++◌, if◌then◌else◌,
  Run, ok, fault, null_deref, out_of_range, ltb, ◌>>=◌,
}
use ccips_cfgipsec.Text.{Text, str_eq, strcpy}

pub data Value : Type 0 where
  string : Text → Value
  number : ℕ → Value
  boolean : Bool → Value

-- The objects of parson: its functions by key, and that a value that was set is the one found. A string is set only
-- if it is valid UTF-8.
pub record Parson : Type 1 where
  pub Object : Type 0
  pub IsUtf8 : Text → Type 0
  pub init_object : Object
  pub get_value : Object → Text → Option Value
  pub set_string : Object → Text → Text → Object
  pub set_number : Object → Text → ℕ → Object
  pub set_boolean : Object → Text → Bool → Object
  pub string_is_set :
      (o : Object) (key k s : Text)
      → IsUtf8 s
      → get_value (set_string o key s) k ≡ (if str_eq key k then some (string s) else get_value o k)
  pub number_is_set :
      (o : Object) (key k : Text) (n : ℕ)
      → n ≤ 2 ^ 53
      → get_value (set_number o key n) k ≡ (if str_eq key k then some (number n) else get_value o k)
  pub boolean_is_set :
      (o : Object) (key k : Text) (b : Bool)
      → get_value (set_boolean o key b) k
        ≡ (if str_eq key k then some (boolean b) else get_value o k)

module _ (parson : Parson) where
  -- `json_object_get_string`: NULL where there is no string.
  unfoldable pub get_string : parson.Object → Text → Option Text
  get_string o key = elim (parson.get_value o key) [
    | none ↦ none
    | some v ↦ elim v [ string s ↦ some s | number n ↦ none | boolean b ↦ none ]
  ]

  -- `json_object_get_number`: 0 where there is no number. Negative numbers and fractions are no values here.
  unfoldable pub number_of : parson.Object → Text → ℕ
  number_of o key = elim (parson.get_value o key) [
    | none ↦ 0
    | some v ↦ elim v [ string s ↦ 0 | number n ↦ n | boolean b ↦ 0 ]
  ]

  -- The number in an unsigned field of `width` bits. C leaves open what a number gives that does not fit; the low bits are
  -- taken for it.
  unfoldable pub get_number : ℕ → parson.Object → Text → ℕ
  unfolding number_of
  get_number width o key = number_of o key % 2 ^ width

  -- The number in an `int`.
  unfoldable pub get_int : parson.Object → Text → Run ℕ
  unfolding number_of
  get_int o key =
      if ltb (number_of o key) (2 ^ 31) then ok (number_of o key) else fault out_of_range

  -- `json_object_get_boolean` as a `bool`: it gives -1, which is true, where there is no boolean.
  unfoldable pub get_boolean : parson.Object → Text → Bool
  get_boolean o key = elim (parson.get_value o key) [
    | none ↦ true
    | some v ↦ elim v [ string s ↦ true | number n ↦ true | boolean b ↦ b ]
  ]

  -- `strcpy(buffer, json_object_get_string(o, key))`
  unfoldable pub copy_string : ℕ → parson.Object → Text → Run Text
  unfolding get_string
  copy_string size o key = elim (get_string o key) [
    | none ↦ fault null_deref
    | some s ↦ strcpy size s
  ]

  -- `json_object_set_string`, `_number` and `_boolean`, one behind the other.
  unfoldable pub set_value : parson.Object → Text → Value → parson.Object
  set_value o key (string s) = parson.set_string o key s
  set_value o key (number n) = parson.set_number o key n
  set_value o key (boolean b) = parson.set_boolean o key b

  unfoldable pub set_values : parson.Object → List (Text × Value) → parson.Object
  unfolding set_value
  set_values o [] = o
  set_values o ((key, v) ∷ fields) = set_values (set_value o key v) fields

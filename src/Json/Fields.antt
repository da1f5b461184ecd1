-- ===== src/Json/Fields.antt =====
-- What is found under a key after values were set one behind the other.
use ccips_cfgipsec.Base.{
  ℕ, ◌^◌, ◌≤◌, ◌<◌, ◌≡◌, refl, ap, ◌∙◌, arith, Bool, true, Option, some, List, [], ◌∷◌, ltb,
  if◌then◌else◌, ok,
}
use ccips_cfgipsec.Base.Lists.{length, All}
use native.Mathlib.Nat.{mod-eq_of_lt}
use ccips_cfgipsec.Text.{Text, str_eq, strcpy}
use ccips_cfgipsec.Json.{
  Value, string, number, boolean, Parson, get_string, number_of, get_number, get_int, get_boolean,
  copy_string, set_value, set_values,
}

-- The last value under the key, or else what was there before.
unfoldable pub lookup : List (Text × Value) → Text → Option Value → Option Value
lookup [] k before = before
lookup ((key, v) ∷ fields) k before = lookup fields k (if str_eq key k then some v else before)

module _ (parson : Parson) where
  -- What parson keeps as it is: UTF-8, and numbers that a double holds.
  abbrev pub Kept : Value → Type 0
  Kept (string s) = parson.IsUtf8 s
  Kept (number n) = n ≤ 2 ^ 53
  Kept (boolean b) = Unit

  abbrev pub KeptField : Text × Value → Type 0
  KeptField field = Kept field.1

  set_value-lookup :
      (o : parson.Object) (key k : Text) (v : Value)
      → Kept v
      → parson.get_value (set_value parson o key v) k
        ≡ (if str_eq key k then some v else parson.get_value o k)
  unfolding set_value
  set_value-lookup o key k (string s) kept = parson.string_is_set o key k s kept
  set_value-lookup o key k (number n) kept = parson.number_is_set o key k n kept
  set_value-lookup o key k (boolean b) kept = parson.boolean_is_set o key k b

  pub set_values-lookup :
      (fields : List (Text × Value)) (o : parson.Object) (k : Text)
      → All KeptField fields
      → parson.get_value (set_values parson o fields) k ≡ lookup fields k (parson.get_value o k)
  unfolding set_values lookup
  set_values-lookup [] o k kept = refl
  set_values-lookup ((key, v) ∷ fields) o k (one, kept) =
      set_values-lookup fields (set_value parson o key v) k kept
      ∙ ap (lookup fields k) (set_value-lookup o key k v one)

  module _ (o : parson.Object) (key : Text) where
    pub copy_string-found :
        (size : ℕ) (s : Text)
        → parson.get_value o key ≡ some (string s)
        → length s < size
        → copy_string parson size o key ≡ ok s
    unfolding copy_string get_string strcpy
    copy_string-found size s found short =
        let e : ltb (length s) size ≡ true = ground (arith, short) in
        rw (found, copy_string, get_string) (rw e refl)

    pub get_number-found :
        (width n : ℕ)
        → parson.get_value o key ≡ some (number n)
        → n < 2 ^ width
        → get_number parson width o key ≡ n
    unfolding get_number number_of
    get_number-found width n found small = rw (found, get_number, number_of) (mod-eq_of_lt small)

    pub get_int-found :
        (n : ℕ)
        → parson.get_value o key ≡ some (number n)
        → n < 2 ^ 31
        → get_int parson o key ≡ ok n
    unfolding get_int number_of
    get_int-found n found small =
        let e : ltb n (2 ^ 31) ≡ true = ground (arith, small) in
        rw (found, get_int, number_of) (rw e refl)

    pub get_boolean-found :
        (b : Bool) → parson.get_value o key ≡ some (boolean b) → get_boolean parson o key ≡ b
    unfolding get_boolean
    get_boolean-found b found = rw (found, get_boolean) refl

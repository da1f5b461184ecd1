-- ===== src/Utils/Hex.antt =====
-- `remove_all_chars` and `hexstr_to_char` of src/utils/utils.c. `char` is unsigned, as on RISC-V; on
-- ASCII text, which is all that the YANG type of a key admits, the sign makes no difference.
use ccips_cfgipsec.Base.{
  ℕ, zero, suc, ◌+◌, ◌*◌, ◌%◌, true, false, Option, none, some, List, [], ◌∷◌, ◌++◌, ◌==◌,
  if◌then◌else◌, Run, ok, fault, bad_pointer, out_of_fuel, ◌>>=◌,
}
use ccips_cfgipsec.Base.Lists.{length, set}
use ccips_cfgipsec.Text.{Text, c_string}

unfoldable pub get_elem? : List ℕ → ℕ → Option ℕ
get_elem? [] i = none
get_elem? (x ∷ xs) zero = some x
get_elem? (x ∷ xs) (suc i) = get_elem? xs i

-- `while (*pr) { *pw = *pr++; pw += (*pw != c); } *pw = '\0';` on the buffer `buf`
unfoldable pub remove_loop : ℕ → ℕ → List ℕ → ℕ → ℕ → Run (List ℕ)
unfolding get_elem?
remove_loop c zero buf pr pw = fault out_of_fuel
remove_loop c (suc fuel) buf pr pw = elim (get_elem? buf pr) [
  | none ↦ fault bad_pointer
  | some cur ↦ elim (cur == 0) [
    | true ↦ ok (set buf pw 0)
    | false ↦ remove_loop c fuel (set buf pw cur) (pr + 1) (if cur == c then pw else pw + 1)
  ]
]

-- The buffer holds the text and its NUL; a round reads one character, and the last the NUL.
unfoldable pub remove_all_chars : Text → ℕ → Run Text
remove_all_chars str c = do
  buf ← remove_loop c (length str + 1) (str ++ (0 ∷ [])) 0 0
  ok (c_string buf)

-- `x % 32 + 9) % 25`: 0 to 15 at a hexadecimal digit of either case
unfoldable pub hex_value : ℕ → ℕ
hex_value x = (x % 32 + 9) % 25

-- The loop over pairs of digits. `unsigned char` keeps the low eight bits.
unfoldable pub hex_pairs : Text → List ℕ
unfolding hex_value
hex_pairs [] = []
hex_pairs (a ∷ []) = []
hex_pairs (a ∷ b ∷ s) = ((hex_value a * 16 + hex_value b) % 256) ∷ hex_pairs s

-- `none` is NULL, for an odd number of digits.
unfoldable pub hexstr_to_char : Text → Run (Option (List ℕ))
hexstr_to_char hexstr = do
  digits ← remove_all_chars hexstr b':'
  ok (if length digits % 2 == 0 then some (hex_pairs digits) else none)

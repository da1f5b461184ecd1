-- ===== src/Utils/Inet.antt =====
-- `inet_addr` and `inet_ntop` of the C library, and `sock_ntop` of src/utils/utils.c.
use ccips_cfgipsec.Base.{
  ℕ, zero, suc, ◌+◌, ◌-◌, ◌*◌, ◌^◌, Bool, true, false, ◌&&◌, Option, none, some, List, [], ◌∷◌,
  ◌++◌, ltb, leb, ◌==◌, if◌then◌else◌, Run, ok, fault, bad_pointer, ◌>>=◌,
}
use ccips_cfgipsec.Text.{Text, to_lower}
use ccips_cfgipsec.Utils.Decimal.{decimal, is_digit, is_space}
use ccips_cfgipsec.PfKey.Lifetime.{read_byte, read_field}

-- A character as a digit of a base up to 16; 16 is none.
digit_value : ℕ → ℕ
unfolding is_digit to_lower
digit_value c =
    if is_digit c
    then c - 48
    else (if leb b'a' (to_lower c) && leb (to_lower c) b'f' then to_lower c - 87 else 16)

-- `strtoul` on the digits of a base, behind a value that is read already, and what follows them.
read_base : ℕ → ℕ → Text → ℕ × Text
unfolding digit_value
read_base base acc [] = (acc, [])
read_base base acc (c ∷ s) =
    let more = read_base base (base * acc + digit_value c) s in
    if ltb (digit_value c) base then more else (acc, c ∷ s)

-- `0x` is a prefix only where a digit follows it.
is_hex_prefix : Text → Bool
unfolding digit_value to_lower
is_hex_prefix (x ∷ c ∷ s) = (to_lower x == b'x') && ltb (digit_value c) 16
is_hex_prefix _ = false

-- `strtoul` in base 0, at a text that begins with a digit.
read_number : Text → ℕ × Text
unfolding read_base is_hex_prefix
read_number [] = (0, [])
read_number (c ∷ s) =
    let octal = read_base 8 0 (c ∷ s) in
    let plain = read_base 10 0 (c ∷ s) in
    elim (c == b'0') [
      | false ↦ plain
      | true ↦ elim (is_hex_prefix s) [
        | true ↦ elim s [ [] ↦ octal | x ∷ s' ↦ read_base 16 0 s' ]
        | false ↦ octal
      ]
    ]

starts_with_digit : Text → Bool
unfolding is_digit
starts_with_digit [] = false
starts_with_digit (c ∷ s) = is_digit c

is_end : Text → Bool
unfolding is_space
is_end [] = true
is_end (c ∷ s) = is_space c

-- The parts of an address with so many places left: a part before a point is a byte, the last part fills all
-- the bytes that are left.
inet_parts : ℕ → ℕ → Text → Option ℕ
unfolding read_number starts_with_digit is_end
inet_parts zero acc s = none
inet_parts (suc left) acc s =
    let (v, rest) = read_number s in
    let whole =
      if is_end rest && ltb v (256 ^ suc left) then some (256 ^ suc left * acc + v) else none in
    elim (starts_with_digit s) [
      | false ↦ none
      | true ↦ elim rest [
        | [] ↦ whole
        | c ∷ rest' ↦ elim (c == b'.') [
          | true ↦ elim (ltb v 256) [ true ↦ inet_parts left (256 * acc + v) rest' | false ↦ none ]
          | false ↦ whole
        ]
      ]
    ]

-- The number whose four bytes the address is, most significant first; a text that is no address gives
-- `INADDR_NONE`.
unfoldable pub inet_addr : Text → ℕ
unfolding inet_parts
inet_addr s = elim (inet_parts 4 0 s) [ some n ↦ n | none ↦ 2 ^ 32 - 1 ]

-- `inet_ntop` of four bytes
unfoldable pub dotted : ℕ → ℕ → ℕ → ℕ → Text
unfolding decimal
dotted a b c d = decimal a ++ (b'.' ∷ (decimal b ++ (b'.' ∷ (decimal c ++ (b'.' ∷ decimal d)))))

-- `sock_ntop` of the address that stands in the buffer. For another family than AF_INET the function ends without a
-- value, which the callers use.
unfoldable pub sock_ntop : List ℕ → ℕ → Run Text
unfolding dotted
sock_ntop buffer at = do
  family ← read_field 2 buffer at
  elim (family == 2) [
    | false ↦ fault bad_pointer
    | true ↦ do
      a ← read_byte buffer (at + 4)
      b ← read_byte buffer (at + 5)
      c ← read_byte buffer (at + 6)
      d ← read_byte buffer (at + 7)
      high ← read_byte buffer (at + 2)
      low ← read_byte buffer (at + 3)
      let port = 256 * high + low
      ok (if port == 0 then dotted a b c d else dotted a b c d ++ (b'.' ∷ decimal port))
  ]

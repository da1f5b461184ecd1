-- ===== src/PfKey.antt =====
-- src/pfkeyv2_utils/pfkeyv2_entry.c: the length macros, and `parse_pfkey_message`, which finds the
-- extensions of a message that the kernel sent. A message is the list of the bytes of its buffer; its layout is
-- that of RFC 2367, on a little-endian machine.
pub mod Constants
pub mod Parse
pub mod Lifetime
pub mod Walk
pub mod Send
pub mod Kernel
pub mod Register
pub mod Socket
pub mod Found
use ccips_cfgipsec.Base.{
  ℕ, zero, suc, ◌+◌, ◌-◌, ◌*◌, ◌/◌, ◌%◌, ◌^◌, Bool, true, false, ◌||◌, Option, none, some, List, [],
  ◌∷◌, ltb, ◌==◌, if◌then◌else◌, Run, ok, fault, bad_pointer, out_of_fuel, ◌>>=◌,
}
use ccips_cfgipsec.Base.Lists.{length, get_or}

abbrev pub sadb_ext_max : ℕ
sadb_ext_max = 26

-- `PFKEY_ALIGN`, `PFKEY_LEN` and `PFKEY_USER_LEN`: a number of bytes rounded up to 64 bits, that number of 64-bit words,
-- and the bytes of a number of words.
unfoldable pub pfkey_align : ℕ → ℕ
pfkey_align len = (len + 8 - 1) / 8 * 8

unfoldable pub pfkey_len : ℕ → ℕ
unfolding pfkey_align
pfkey_len len = pfkey_align len / 8

unfoldable pub pfkey_user_len : ℕ → ℕ
pfkey_user_len len = len * 8

-- `sizeof(struct sadb_msg)` and `sizeof(struct sadb_ext)`
abbrev pub sizeof_msg : ℕ
sizeof_msg = 16

abbrev pub sizeof_ext : ℕ
sizeof_ext = 4

-- A 16-bit field at a place of the buffer.
unfoldable pub read_u16 : List ℕ → ℕ → Run ℕ
read_u16 buffer at =
    if ltb (at + 1) (length buffer)
    then ok (get_or buffer at 0 + 256 * get_or buffer (at + 1) 0)
    else fault bad_pointer

-- `out->ext`: the extensions that were found, by their type, each with its place in the buffer.
unfoldable pub found_ext : List (ℕ × ℕ) → ℕ → Option ℕ
found_ext [] type = none
found_ext ((t, p) ∷ exts) type =
    let rest = found_ext exts type in if t == type then some p else rest

-- The while loop, from the extension at `at`, with `len` words left: what was found, and the words left at its end.
unfoldable pub parse_loop : ℕ → List ℕ → List (ℕ × ℕ) → ℕ → ℕ → Run (List (ℕ × ℕ) × ℕ)
unfolding pfkey_len pfkey_align pfkey_user_len
parse_loop zero buffer exts at len = fault out_of_fuel
parse_loop (suc fuel) buffer exts at len = elim (ltb len (pfkey_len sizeof_ext)) [
  | true ↦ ok (exts, len)
  | false ↦ do
    ext_len ← read_u16 buffer at
    elim (ltb ext_len (pfkey_len sizeof_ext) || ltb len ext_len) [
      | true ↦ ok (exts, len)
      | false ↦ do
        type ← read_u16 buffer (at + 2)
        elim (ltb sadb_ext_max type || type == 0) [
          | true ↦ ok (exts, len)
          | false ↦ elim (found_ext exts type) [
            | some p ↦ ok (exts, len)
            | none ↦
                parse_loop fuel buffer ((type, at) ∷ exts) (at + pfkey_user_len ext_len)
                  (len - ext_len)
          ]
        ]
    ]
]

-- The result is 1 where words are left. `len` is a size_t: a message that states less than its header
-- wraps around.
unfoldable pub parse_pfkey_message : List ℕ → Run (ℕ × List (ℕ × ℕ))
unfolding pfkey_len pfkey_align
parse_pfkey_message buffer = do
  msg_len ← read_u16 buffer 4
  let len = (msg_len + 2 ^ 64 - pfkey_len sizeof_msg) % 2 ^ 64
  (exts, left) ← parse_loop (suc len) buffer [] sizeof_msg len
  ok (if left == 0 then 0 else 1, exts)

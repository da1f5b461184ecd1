-- ===== src/PfKey/Lifetime.antt =====
-- `pf_get_sad_lifetime_current_by_spi` of src/pfkeyv2_utils/pfkeyv2_entry.c: the kernel dumps its
-- associations, a message for each, and the node gets the lifetimes of the one with its SPI. What each
-- `Read` gives is an input: the number of bytes, and the buffer behind it.
pub mod Fields
pub mod Spec
pub mod Dump
use ccips_cfgipsec.Base.{
  ℕ, zero, suc, ◌+◌, ◌-◌, ◌*◌, ◌^◌, Bool, true, false, not, ◌||◌, List, [], ◌∷◌, ltb, ◌==◌,
  if◌then◌else◌, Run, ok, fault, bad_pointer, out_of_fuel, blocked, ◌>>=◌,
}
use ccips_cfgipsec.Base.Lists.{length, get_or}
use ccips_cfgipsec.Sysrepo.{Rc, err_ok, operation_failed, not_found}
use ccips_cfgipsec.Sad.{SadEntry}

abbrev pub sadb_ext_sa : ℕ
sadb_ext_sa = 1

abbrev pub sadb_ext_lifetime_current : ℕ
sadb_ext_lifetime_current = 2

unfoldable pub read_byte : List ℕ → ℕ → Run ℕ
read_byte buffer at = if ltb at (length buffer) then ok (get_or buffer at 0) else fault bad_pointer

-- A field of so many bytes, least first.
unfoldable pub read_field : ℕ → List ℕ → ℕ → Run ℕ
read_field zero buffer at = ok 0
read_field (suc n) buffer at = do
  b ← read_byte buffer at
  rest ← read_field n buffer (at + 1)
  ok (b + 256 * rest)

-- `ntohl` of a field of four bytes
unfoldable pub read_network : List ℕ → ℕ → Run ℕ
read_network buffer at = do
  a ← read_byte buffer at
  b ← read_byte buffer (at + 1)
  c ← read_byte buffer (at + 2)
  d ← read_byte buffer (at + 3)
  ok (2 ^ 24 * a + 2 ^ 16 * b + 2 ^ 8 * c + d)

-- The switch on the type of the extension at `at`: whether the SPI was met, and the node.
unfoldable pub take_extension : ℕ → List ℕ → ℕ → Bool → SadEntry → Run (Bool × SadEntry)
take_extension type buffer at found node = elim (type == sadb_ext_sa) [
  | true ↦ do spi ← read_network buffer (at + 4); ok ((spi == node.spi) || found, node)
  | false ↦ elim (type == sadb_ext_lifetime_current) [
    | true ↦ do
      allocations ← read_field 4 buffer (at + 4)
      bytes ← read_field 8 buffer (at + 8)
      addtime ← read_field 8 buffer (at + 16)
      usetime ← read_field 8 buffer (at + 24)
      ok (
        found,
        record node {
          lft_packets_current = allocations;
          lft_bytes_current = bytes;
          lft_time_current = addtime;
          lft_idle_current = if usetime == 0 then 0 else usetime;
        },
      )
    | false ↦ ok (found, node)
  ]
]

-- The inner loop, with `msglen` bytes left. A length that falls below zero ends it like zero; an extension
-- of length zero is read for ever.
unfoldable pub extension_loop : ℕ → List ℕ → ℕ → ℕ → Bool → SadEntry → Run (Bool × SadEntry)
extension_loop zero buffer at msglen found node = fault out_of_fuel
extension_loop (suc fuel) buffer at msglen found node = elim (msglen == 0) [
  | true ↦ ok (found, node)
  | false ↦ do
    type ← read_field 2 buffer (at + 2)
    (found', node') ← take_extension type buffer at found node
    ext_len ← read_field 2 buffer at
    extension_loop fuel buffer (at + 8 * ext_len) (msglen - 8 * ext_len) found' node'
]

-- The outer loop over what the reads give. A read that the kernel does not answer does not return.
unfoldable pub dump_loop : List (ℕ × List ℕ) → SadEntry → Run (Rc × SadEntry)
dump_loop [] node = fault blocked
dump_loop ((msglen, buffer) ∷ answers) node = do
  msg_len ← read_field 2 buffer 4
  version ← read_byte buffer 0
  elim (msglen == 8 * msg_len) [
    | false ↦ ok (operation_failed, node)
    | true ↦ elim (version == 2) [
      | false ↦ ok (operation_failed, node)
      | true ↦ elim (msglen == 16) [
        | true ↦ ok (operation_failed, node)
        | false ↦ do
          (found, node') ← extension_loop (suc msglen) buffer 16 (msglen - 16) false node
          seq ← read_field 4 buffer 8
          elim found [
            | true ↦ ok (err_ok, node')
            | false ↦ elim (seq == 0) [
              | true ↦ ok (not_found, node')
              | false ↦ dump_loop answers node'
            ]
          ]
      ]
    ]
  ]

unfoldable pub pf_get_sad_lifetime_current_by_spi :
    List (ℕ × List ℕ) → SadEntry → Run (Rc × SadEntry)
pf_get_sad_lifetime_current_by_spi = dump_loop

-- ===== src/PfKey/Send/Sad.antt =====
-- The messages of `pf_addsad`, `pf_delsad` and `pf_getsad` of src/pfkeyv2_utils/pfkeyv2_entry.c.
use ccips_cfgipsec.Base.{
  ℕ, ◌+◌, ◌*◌, ◌%◌, ◌^◌, true, false, some, List, ◌∷◌, ◌++◌, ◌==◌, if◌then◌else◌, Run, ok, ◌>>=◌,
}
use ccips_cfgipsec.Text.{Text}
use ccips_cfgipsec.Utils.Constants.{
  ipsec_mode_tunnel, sadb_ealg_none, sadb_ealg_descbc, sadb_x_ealg_aescbc, sadb_aalg_none,
}
use ccips_cfgipsec.PfKey.Constants.{
  sadb_sastate_mature, sadb_x_ext_sa2, sadb_ext_key_encrypt, sadb_ext_key_auth,
  sadb_ext_address_src, sadb_ext_address_dst, sadb_add, sadb_delete, sadb_get,
  sadb_ext_lifetime_hard, sadb_ext_lifetime_soft, pfkey_buffer_size, ealg_descbc_key_bits,
  ealg_3descbc_key_bits, eal_aes_key_bits, aalg_md5hmac_key_bits, aalg_sha1hmac_key_bits,
}
use ccips_cfgipsec.PfKey.Lifetime.Fields.{field, network}
use ccips_cfgipsec.Sad.{SadEntry}
use ccips_cfgipsec.PfKey.Send.{
  Out, Heap, zeros, poke, emit, msg_header, satype_of, pf_setsadbaddr, selector_addresses,
  send_bytes,
}

-- `struct sadb_sa`
abbrev pub sa_ext : SadEntry → List ℕ
sa_ext node =
    field 2 2
    ++ (field 2 1
        ++ (network (node.spi % 2 ^ 32)
            ++ ((node.anti_replay_window % 256)
                ∷ sadb_sastate_mature
                ∷ (node.integrity_alg % 256)
                ∷ (node.encryption_alg % 256)
                ∷ field 4 0)))

-- `struct sadb_sa` with nothing but the SPI
abbrev pub spi_ext : SadEntry → List ℕ
spi_ext node = field 2 2 ++ (field 2 1 ++ (network (node.spi % 2 ^ 32) ++ (field 4 0 ++ field 4 0)))

-- `struct sadb_x_sa2`
abbrev pub sa2_ext : SadEntry → List ℕ
sa2_ext node =
    field 2 2
    ++ (field 2 sadb_x_ext_sa2
        ++ ((node.ipsec_mode % 256) ∷ 0 ∷ (field 2 0 ++ (field 4 0 ++ field 4 (node.req_id)))))

-- `struct sadb_lifetime`
abbrev pub lifetime_ext : ℕ → ℕ → ℕ → ℕ → ℕ → List ℕ
lifetime_ext exttype allocations bytes addtime usetime =
    field 2 4
    ++ (field 2 exttype
        ++ (field 4 allocations ++ (field 8 bytes ++ (field 8 addtime ++ field 8 usetime))))

-- `struct sadb_key` and the key behind it: `memcpy` copies the whole text, but `p` and `len` move on by the words that
-- the header states.
unfoldable pub emit_key : ℕ → ℕ → ℕ → Text → Out → Run Out
emit_key exttype words bits key (len, buffer) = do
  buffer1 ← poke buffer len (field 2 words ++ (field 2 exttype ++ (field 2 bits ++ field 2 0)))
  buffer2 ← poke buffer1 (len + 8) key
  ok (len + 8 * words, buffer2)

-- The words and the bits of a key for encryption. A length of (8 + bits / 8 + 7) / 8 words is 2 for 64 bits and 4 for
-- 192 bits, which stand for the length of an AES key too.
unfoldable pub encrypt_key_size : ℕ → ℕ × ℕ
encrypt_key_size alg =
    if alg == sadb_ealg_descbc
    then (2, ealg_descbc_key_bits)
    else (if alg == sadb_x_ealg_aescbc then (4, eal_aes_key_bits) else (4, ealg_3descbc_key_bits))

-- The algorithm is compared with a number of bits, but the words and the bits are the same.
unfoldable pub auth_key_size : ℕ → ℕ × ℕ
auth_key_size alg =
    if alg == aalg_md5hmac_key_bits then (4, aalg_md5hmac_key_bits) else (4, aalg_sha1hmac_key_bits)

unfoldable pub sa_keys : SadEntry → Out → Run Out
sa_keys node out = do
  let (words, bits) = encrypt_key_size (node.encryption_alg)
  let (words', bits') = auth_key_size (node.integrity_alg)
  out1 ← elim (node.encryption_alg == sadb_ealg_none) [
    | true ↦ ok out
    | false ↦ emit_key sadb_ext_key_encrypt words bits (node.encryption_key) out
  ]
  elim (node.integrity_alg == sadb_aalg_none) [
    | true ↦ ok out1
    | false ↦ emit_key sadb_ext_key_auth words' bits' (node.integrity_key) out1
  ]

-- In tunnel mode the addresses are the ends of the tunnel.
unfoldable pub sa_addresses : Heap → SadEntry → Out → Run Out
sa_addresses heap node out = elim (node.ipsec_mode == ipsec_mode_tunnel) [
  | true ↦ do
    out' ←
        pf_setsadbaddr sadb_ext_address_src (node.inner_protocol) 32 (node.srcport)
          (some (node.tunnel_local)) (heap.src) out
    pf_setsadbaddr sadb_ext_address_dst (node.inner_protocol) 32 (node.dstport)
        (some (node.tunnel_remote)) (heap.dst) out'
  | false ↦
      selector_addresses (node.inner_protocol) (node.srcport) (node.local_subnet) (node.dstport)
        (node.remote_subnet) heap out
]

-- The message SADB_ADD of `pf_addsad`
unfoldable pub addsad_request : ℕ → Heap → SadEntry → Run (List ℕ)
addsad_request pid heap node = do
  out ←
      emit (msg_header sadb_add (satype_of (node.protocol_parameters)) pid)
        (0, zeros pfkey_buffer_size)
  out1 ← emit (sa_ext node) out
  out2 ← emit (sa2_ext node) out1
  out3 ←
      emit
        (lifetime_ext sadb_ext_lifetime_hard (node.lft_packets_hard) (node.lft_bytes_hard)
          (node.lft_time_hard) (node.lft_idle_hard))
        out2
  out4 ←
      emit
        (lifetime_ext sadb_ext_lifetime_soft (node.lft_packets_soft) (node.lft_bytes_soft)
          (node.lft_time_soft) (node.lft_idle_soft))
        out3
  out5 ← sa_addresses heap node out4
  out6 ← sa_keys node out5
  send_bytes out6

-- The messages SADB_DELETE of `pf_delsad` and SADB_GET of `pf_getsad`, which name an association by its SPI
-- and its prefixes.
unfoldable pub naming_request : ℕ → ℕ → Heap → SadEntry → Run (List ℕ)
naming_request kind pid heap node = do
  out ←
      emit (msg_header kind (satype_of (node.protocol_parameters)) pid) (0, zeros pfkey_buffer_size)
  out1 ← emit (spi_ext node) out
  out2 ←
      selector_addresses (node.inner_protocol) (node.srcport) (node.local_subnet) (node.dstport)
        (node.remote_subnet) heap out1
  send_bytes out2

unfoldable pub delsad_request : ℕ → Heap → SadEntry → Run (List ℕ)
delsad_request pid heap node = naming_request sadb_delete pid heap node

unfoldable pub getsad_request : ℕ → Heap → SadEntry → Run (List ℕ)
getsad_request pid heap node = naming_request sadb_get pid heap node

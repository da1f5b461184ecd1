-- ===== src/PfKey/Send.antt =====
-- The functions of src/pfkeyv2_utils/pfkeyv2_entry.c that build the messages to the kernel. A message is
-- written into a buffer of 4096 zeros, of which `len` bytes are sent.
pub mod Buffer
pub mod Addresses
pub mod Policy
pub mod Sad
pub mod Key
pub mod SadParts
pub mod SadLaws
pub mod Accepted
use ccips_cfgipsec.Base.{
  ℕ, zero, suc, ◌+◌, ◌*◌, ◌/◌, ◌%◌, ◌^◌, Bool, true, false, Option, none, some, List, [], ◌∷◌, ◌++◌,
  ltb, leb, ◌==◌, if◌then◌else◌, Run, ok, fault, null_deref, buffer_overflow, ◌>>=◌,
}
use ccips_cfgipsec.Base.Lists.{length, take, drop}
use ccips_cfgipsec.Text.{Text, c_string}
use ccips_cfgipsec.Utils.Constants.{ipsec_mode_tunnel, ipsec_proto_esp}
use ccips_cfgipsec.Utils.Address.{get_ip, get_mask}
use ccips_cfgipsec.Utils.Inet.{inet_addr}
use ccips_cfgipsec.PfKey.Constants.{
  sadb_satype_esp, sadb_satype_unspec, sadb_x_ext_policy, ipsec_level_require, ipsec_level_unique,
  sadb_ext_address_src, sadb_ext_address_dst, sadb_x_spdadd, sadb_x_spddelete, pfkey_buffer_size,
}
use ccips_cfgipsec.PfKey.Lifetime.Fields.{field, network}
use ccips_cfgipsec.Spd.{SpdEntry}
use ccips_cfgipsec.Sad.{SadEntry}

unfoldable pub zeros : ℕ → List ℕ
zeros zero = []
zeros (suc n) = 0 ∷ zeros n

-- `len` and the buffer; `p` is `buf + len` throughout.
abbrev pub Out : Type 0
Out = ℕ × List ℕ

unfoldable pub poke : List ℕ → ℕ → List ℕ → Run (List ℕ)
poke buffer at bytes =
    if leb (at + length bytes) (length buffer)
    then ok (take at buffer ++ (bytes ++ drop (at + length bytes) buffer))
    else fault buffer_overflow

-- Writing at `p`, and stepping over what was written.
unfoldable pub emit : List ℕ → Out → Run Out
emit bytes (len, buffer) = do buffer' ← poke buffer len bytes; ok (len + length bytes, buffer')

-- Writing a field of an earlier structure again.
unfoldable pub patch : ℕ → List ℕ → Out → Run Out
patch at bytes (len, buffer) = do buffer' ← poke buffer at bytes; ok (len, buffer')

-- `struct sadb_msg`, whose length is filled in at the end.
abbrev pub msg_header : ℕ → ℕ → ℕ → List ℕ
msg_header type satype pid =
    2 ∷ type ∷ 0 ∷ satype ∷ (field 2 0 ++ (field 2 0 ++ (field 4 0 ++ field 4 pid)))

-- `SADB_SATYPE_ESP`, or the 0 of the cleared buffer
abbrev pub satype_of : ℕ → ℕ
satype_of protocol_parameters =
    if protocol_parameters == ipsec_proto_esp then sadb_satype_esp else sadb_satype_unspec

-- `struct sockaddr_in` from `malloc`, whose last eight bytes are not set.
abbrev pub sockaddr_in : ℕ → Text → List ℕ → List ℕ
sockaddr_in port ip sin_zero =
    field 2 2 ++ ((port / 256 % 256) ∷ (port % 256) ∷ (network (inet_addr ip % 2 ^ 32) ++ sin_zero))

-- The result is the number of bytes written, which the callers add to `p` and `len`.
unfoldable pub pf_setsadbaddr : ℕ → ℕ → ℕ → ℕ → Option Text → List ℕ → Out → Run Out
unfolding emit
pf_setsadbaddr exttype protocol prefixlen port ip sin_zero out = elim ip [
  | none ↦ fault null_deref
  | some ip' ↦
      emit
        (field 2 3
          ++ (field 2 exttype
              ++ ((protocol % 256)
                  ∷ (prefixlen % 256)
                  ∷ (field 2 0 ++ sockaddr_in port ip' sin_zero))))
        out
]

-- `pf_setsadbaddr` at the two halves of a prefix
unfoldable pub subnet_address : ℕ → ℕ → ℕ → Text → List ℕ → Out → Run Out
subnet_address exttype protocol port subnet sin_zero out = do
  prefixlen ← get_mask subnet
  pf_setsadbaddr exttype protocol prefixlen port (get_ip subnet) sin_zero out

-- `msg->sadb_msg_len = len / 8; Write(s, buf, len);`
unfoldable pub send_bytes : Out → Run (List ℕ)
send_bytes (len, buffer) = do
  (len', buffer') ← patch 4 (field 2 (len / 8)) (len, buffer)
  ok (take len' buffer')

-- `struct sadb_x_policy`; the id and the priority of a deletion are left 0.
abbrev pub policy_ext : ℕ → ℕ → ℕ → ℕ → List ℕ
policy_ext words action dir id =
    field 2 words
    ++ (field 2 sadb_x_ext_policy
        ++ (field 2 action ++ ((dir % 256) ∷ 0 ∷ (field 4 id ++ field 4 0))))

-- `struct sadb_x_ipsecrequest`
abbrev pub ipsecrequest : ℕ → ℕ → ℕ → ℕ → List ℕ
ipsecrequest len proto mode req_id =
    field 2 len
    ++ (field 2 proto
        ++ ((mode % 256)
            ∷ (if req_id == 0 then ipsec_level_require else ipsec_level_unique)
            ∷ (field 2 0 ++ (field 4 req_id ++ field 4 0))))

-- What `malloc` leaves in the four addresses of a message: of the source, the destination, and the two ends of a tunnel.
pub record Heap : Type 0 where
  pub src : List ℕ
  pub dst : List ℕ
  pub tunnel_src : List ℕ
  pub tunnel_dst : List ℕ

-- The addresses of a tunnel stand behind the request. `req->sadb_x_ipsecrequest_len` and the policy's length grow.
unfoldable pub policy_requests : Heap → SpdEntry → Out → Run Out
policy_requests heap node out = do
  out1 ← emit (ipsecrequest 16 (node.protocol_parameters) (node.ipsec_mode) (node.req_id)) out
  elim (node.ipsec_mode == ipsec_mode_tunnel) [
    | true ↦ do
      out2 ← emit (sockaddr_in 0 (node.tunnel_local) (heap.tunnel_src)) out1
      out3 ← emit (sockaddr_in 0 (node.tunnel_remote) (heap.tunnel_dst)) out2
      out4 ← patch 32 (field 2 48) out3
      patch 16 (field 2 8) out4
    | false ↦ patch 16 (field 2 4) out1
  ]

-- The two addresses that every message ends with, in transport mode or of a policy.
unfoldable pub selector_addresses : ℕ → ℕ → Text → ℕ → Text → Heap → Out → Run Out
selector_addresses protocol srcport local dstport remote heap out = do
  out' ← subnet_address sadb_ext_address_src protocol srcport local (heap.src) out
  subnet_address sadb_ext_address_dst protocol dstport remote (heap.dst) out'

-- The message SADB_X_SPDADD of `pf_addpolicy`
unfoldable pub addpolicy_request : ℕ → Heap → SpdEntry → Run (List ℕ)
addpolicy_request pid heap node = do
  out ←
      emit (msg_header sadb_x_spdadd (satype_of (node.protocol_parameters)) pid)
        (0, zeros pfkey_buffer_size)
  out1 ← emit (policy_ext 2 (node.action) (node.policy_dir) (node.index)) out
  out2 ← policy_requests heap node out1
  out3 ←
      selector_addresses (node.inner_protocol) (node.srcport) (node.local_subnet) (node.dstport)
        (node.remote_subnet) heap out2
  send_bytes out3

-- The message SADB_X_SPDDELETE of `pf_delpolicy`, which leaves the process id 0.
unfoldable pub delpolicy_request : Heap → SpdEntry → Run (List ℕ)
delpolicy_request heap node = do
  out ←
      emit (msg_header sadb_x_spddelete (satype_of (node.protocol_parameters)) 0)
        (0, zeros pfkey_buffer_size)
  out1 ← emit (policy_ext 2 (node.action) (node.policy_dir) 0) out
  out2 ←
      selector_addresses (node.inner_protocol) (node.srcport) (node.local_subnet) (node.dstport)
        (node.remote_subnet) heap out1
  send_bytes out2

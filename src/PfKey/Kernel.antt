-- ===== src/PfKey/Kernel.antt =====
-- The functions of src/pfkeyv2_utils/pfkeyv2_entry.c that the entries call. The kernel behind the sockets is a
-- parameter; the functions fill the interface `Pfkey`.
pub mod Requests
pub mod Items
pub mod Index
pub mod Fill
pub mod Lookup
use ccips_cfgipsec.Base.{
  ℕ, zero, suc, ◌+◌, ◌-◌, ◌*◌, Bool, true, false, ◌&&◌, Option, none, some, List, [], ◌∷◌, ltb,
  ◌==◌, ◌≡◌, refl, Run, ok, fault, null_deref, blocked, out_of_fuel, ◌>>=◌,
}
use ccips_cfgipsec.Text.{Text, str_eq, strcpy}
use ccips_cfgipsec.Sysrepo.{Rc, err_ok}
use ccips_cfgipsec.Utils.Constants.{max_ip}
use ccips_cfgipsec.Utils.Address.{get_ip}
use ccips_cfgipsec.Utils.Inet.{sock_ntop}
use ccips_cfgipsec.Spd.{SpdEntry}
use ccips_cfgipsec.Sad.{SadEntry}
use ccips_cfgipsec.PfKey.Constants.{
  sadb_x_ext_policy, sadb_ext_address_src, sadb_ext_address_dst, sadb_x_spddump,
}
use ccips_cfgipsec.PfKey.Lifetime.{read_byte, read_field}
use ccips_cfgipsec.PfKey.Walk.{extension_walk}
use ccips_cfgipsec.PfKey.Send.{Heap, msg_header, satype_of, addpolicy_request, delpolicy_request}
use ccips_cfgipsec.PfKey.Lifetime.Fields.{field}
use ccips_cfgipsec.PfKey.Send.Sad.{addsad_request, delsad_request, getsad_request}

-- The variables of `pf_addpolicy` that it reads a dumped policy into. They are not set before the first message.
pub record Tmp : Type 0 where
  pub local_subnet : Text
  pub remote_subnet : Text
  pub index : ℕ
  pub action : ℕ
  pub policy_dir : ℕ
  pub ipsec_mode : ℕ
  pub protocol_parameters : ℕ

-- The while loop over the requests of a policy, at `off` of its `extlen` bytes. A request of length zero
-- is read for ever.
unfoldable pub request_loop : ℕ → List ℕ → ℕ → ℕ → ℕ → Tmp → Run Tmp
request_loop zero buffer at off extlen tmp = fault out_of_fuel
request_loop (suc fuel) buffer at off extlen tmp = elim (ltb off extlen) [
  | false ↦ ok tmp
  | true ↦ do
    mode ← read_byte buffer (at + (off + 4))
    proto ← read_field 2 buffer (at + (off + 2))
    len ← read_field 2 buffer (at + off)
    request_loop fuel buffer at (off + len) extlen
        (record tmp { ipsec_mode = mode; protocol_parameters = proto })
]

unfoldable pub take_address : List ℕ → ℕ → Run Text
take_address buffer at = do s ← sock_ntop buffer (at + 8); strcpy max_ip s

-- The switch on the type of the extension at `at`.
unfoldable pub take_policy : ℕ → List ℕ → ℕ → Tmp → Run Tmp
take_policy type buffer at tmp = elim (type == sadb_x_ext_policy) [
  | true ↦ do
    index ← read_field 4 buffer (at + 8)
    action ← read_field 2 buffer (at + 4)
    dir ← read_byte buffer (at + 6)
    len ← read_field 2 buffer at
    request_loop (suc (8 * len)) buffer at 16 (8 * len)
        (record tmp { index = index; action = action; policy_dir = dir })
  | false ↦ elim (type == sadb_ext_address_src) [
    | true ↦ do s ← take_address buffer at; ok (record tmp { local_subnet = s })
    | false ↦ elim (type == sadb_ext_address_dst) [
      | true ↦ do s ← take_address buffer at; ok (record tmp { remote_subnet = s })
      | false ↦ ok tmp
    ]
  ]
]

-- The loop over the extensions of a message
unfoldable pub policy_loop : ℕ → List ℕ → ℕ → ℕ → Tmp → Run Tmp
policy_loop = extension_walk take_policy

-- `strcmp(get_ip(subnet), ip) == 0`
unfoldable pub is_ip_of : Text → Text → Run Bool
is_ip_of subnet ip = elim (get_ip subnet) [
  | none ↦ fault null_deref
  | some ip' ↦ ok (str_eq ip' ip)
]

-- The first policy of the dump with the addresses and the direction of the node
unfoldable pub is_policy_of : SpdEntry → Tmp → Run Bool
is_policy_of node tmp = do
  local ← is_ip_of (node.local_subnet) (tmp.local_subnet)
  elim local [
    | false ↦ ok false
    | true ↦ do
      remote ← is_ip_of (node.remote_subnet) (tmp.remote_subnet)
      ok (remote && (node.policy_dir == tmp.policy_dir))
  ]

-- The loop over the messages of the dump, each the number of bytes that `Read` gives and the buffer. A failed `Read` is one of no bytes.
unfoldable pub index_loop : List (ℕ × List ℕ) → Tmp → SpdEntry → Run SpdEntry
index_loop [] tmp node = fault blocked
index_loop ((msglen, buffer) ∷ answers) tmp node = do
  tmp' ← policy_loop (suc msglen) buffer 16 (msglen - 16) tmp
  found ← is_policy_of node tmp'
  elim found [
    | true ↦ ok (record node { index = tmp'.index })
    | false ↦ do
      seq ← read_field 4 buffer 8
      elim (seq == 0) [ true ↦ ok node | false ↦ index_loop answers tmp' node ]
  ]

-- The kernel behind the sockets: what a message does to it, and what it then answers on that socket. The rest is what
-- the process brings: its id, and what its memory holds.
pub record Machine : Type 1 where
  pub State : Type 0
  pub write : List ℕ → State → State
  pub answers : List ℕ → State → List (ℕ × List ℕ)
  pub pid : ℕ
  pub heap : Heap
  pub stack : Tmp

-- The message SADB_X_SPDDUMP: a header of two words
unfoldable pub spddump_request : Machine → SpdEntry → List ℕ
spddump_request machine node =
    2
    ∷ sadb_x_spddump
    ∷ 0
    ∷ satype_of (node.protocol_parameters)
    ∷ 2
    ∷ 0
    ∷ 0
    ∷ 0
    ∷ 0
    ∷ 0
    ∷ 0
    ∷ 0
    ∷ field 4 (machine.pid)

module _ (machine : Machine) where
  -- The answer of the kernel to SADB_X_SPDADD is not read. The result is always SR_ERR_OK.
  unfoldable pub pf_addpolicy : SpdEntry → machine.State → Run (Rc × SpdEntry × machine.State)
  pf_addpolicy node k = do
    bytes ← addpolicy_request (machine.pid) (machine.heap) node
    let added = machine.write bytes k
    let dump = spddump_request machine node
    node' ← index_loop (machine.answers dump added) (machine.stack) node
    ok (err_ok, node', machine.write dump added)

  unfoldable pub pf_delpolicy : SpdEntry → machine.State → Run (Rc × machine.State)
  pf_delpolicy node k = do
    bytes ← delpolicy_request (machine.heap) node
    ok (err_ok, machine.write bytes k)

  unfoldable pub pf_addsad : SadEntry → machine.State → Run (Rc × machine.State)
  pf_addsad node k = do
    bytes ← addsad_request (machine.pid) (machine.heap) node
    ok (err_ok, machine.write bytes k)

  unfoldable pub pf_delsad : SadEntry → machine.State → Run (Rc × machine.State)
  pf_delsad node k = do
    bytes ← delsad_request (machine.pid) (machine.heap) node
    ok (err_ok, machine.write bytes k)

  unfoldable pub pf_getsad : SadEntry → machine.State → Run (Rc × machine.State)
  pf_getsad node k = do
    bytes ← getsad_request (machine.pid) (machine.heap) node
    ok (err_ok, machine.write bytes k)

-- ===== src/Tests.antt =====
-- Concrete lists, policies and a kernel, which the tests apply the theorems to.
mod Lists
mod Messages
mod Kernel
mod Thread
mod Socket
mod Json
mod SadConfig
mod Words
mod Policies
mod Associations
mod Transactions
use ccips_cfgipsec.Base.{
  ℕ, suc, ◌+◌, ◌≡◌, refl, Bool, true, false, Option, none, some, List, [], ◌∷◌, arith, ◌==◌,
  if◌then◌else◌, ap, sym, ◌∙◌, Run, ok,
}
use ccips_cfgipsec.Text.{Text, codes}
use ccips_cfgipsec.Store.{Ptr, null, Cell, cell_of, Store}
use ccips_cfgipsec.Store.Seg.{IsList}
use ccips_cfgipsec.Sysrepo.{Rc, err_ok, operation_failed, internal}
use ccips_cfgipsec.Spd.{SpdEntry}
use ccips_cfgipsec.Sad.{SadEntry}
use ccips_cfgipsec.Entries.{Pfkey}
use ccips_cfgipsec.Spd.Config.{
  SpdConfig, inbound, outbound, protect, bypass, transport, tunnel, clear, copy, protocol, any_at,
}

-- The list of the nodes 1 and 2, and the empty list.
abbrev pub two_nodes : {A : Type 0} → A → A → Store A
two_nodes a b = record {
  cell =
      λ p. if p == 1 then some (cell_of a 2) else (if p == 2 then some (cell_of b null) else none);
  head = 1;
  brk = 3;
}

abbrev pub no_nodes : {A : Type 0} → Store A
no_nodes = record { cell = λ p. none; head = null; brk = 1 }

pub two_nodes-IsList : {A : Type 0} (a b : A) → IsList (two_nodes a b) (a ∷ b ∷ [])
two_nodes-IsList a b =
    (omega arith, (omega arith, omega arith, 2, refl, (omega arith, omega arith, null, refl, refl)))

pub no_nodes-IsList : IsList {A = SpdEntry} no_nodes []
no_nodes-IsList = (omega arith, refl)

abbrev pub blank_spd : SpdEntry
blank_spd = record {
  name = [];
  index = 0;
  policy_dir = 0;
  req_id = 0;
  local_subnet = [];
  remote_subnet = [];
  tunnel_local = [];
  tunnel_remote = [];
  inner_protocol = 0;
  srcport = 0;
  dstport = 0;
  action = 0;
  ext_seq_num = false;
  seq_overflow = false;
  ipsec_mode = 0;
  protocol_parameters = 0;
  integrity_alg = 0;
  encryption_alg = 0;
  anti_replay_window = 0;
  pfp_flag = false;
  stateful_frag_check = false;
  bypass_dscp = false;
  ecn = false;
  tfc_pad = false;
  df_bit = 0;
}

abbrev pub blank_sad : SadEntry
blank_sad = record {
  name = [];
  req_id = 0;
  spi = 0;
  ext_seq_num = false;
  seq_overflow = false;
  seq_number_counter = 0;
  anti_replay_window = 0;
  local_subnet = [];
  remote_subnet = [];
  tunnel_local = [];
  tunnel_remote = [];
  inner_protocol = 0;
  srcport = 0;
  dstport = 0;
  ipsec_mode = 0;
  protocol_parameters = 0;
  integrity_alg = 0;
  encryption_alg = 0;
  encryption_key_length = 0;
  encryption_key = [];
  integrity_key = [];
  encryption_iv = [];
  bypass_dscp = false;
  ecn = false;
  tfc_pad = false;
  df_bit = 0;
  lft_bytes_hard = 0;
  lft_bytes_soft = 0;
  lft_bytes_current = 0;
  lft_packets_hard = 0;
  lft_packets_soft = 0;
  lft_packets_current = 0;
  lft_time_hard = 0;
  lft_time_soft = 0;
  lft_time_current = 0;
  lft_idle_hard = 0;
  lft_idle_soft = 0;
  lft_idle_current = 0;
}

abbrev pub spd_named : Text → SpdEntry
spd_named n = record blank_spd { name = n }

abbrev pub sad_named : Text → SadEntry
sad_named n = record blank_sad { name = n }

pub counted_index :
    (e e' : SpdEntry) (k k' : ℕ) (rc : Rc)
    → ◌≡◌ {A = Run (Rc × SpdEntry × ℕ)}
        (ok (err_ok, record e { index = k }, k + 1))
        (ok (rc, e', k'))
    → e' ≡ record e { index = e'.index }
counted_index e e' k k' rc h =
    let same : e' ≡ record e { index = k } = cc in
    same ∙ ap {A = ℕ} {B = SpdEntry} (λ i. record e { index = i }) (sym (ap (λ x. x.index) same))

-- A kernel that counts what it was asked, and numbers the policies by it.
abbrev pub counting : Pfkey
counting = record {
  Kernel = ℕ;
  pf_addpolicy = λ e k. ok (err_ok, record e { index = k }, k + 1);
  pf_delpolicy = λ e k. ok (err_ok, k + 1);
  pf_addsad = λ e k. ok (err_ok, k + 1);
  pf_delsad = λ e k. ok (err_ok, k + 1);
  pf_getsad = λ e k. ok (err_ok, k + 1);
  addpolicy_sets_index = counted_index;
}

-- A kernel that deletes nothing.
abbrev pub refusing : Pfkey
refusing = record {
  Kernel = ℕ;
  pf_addpolicy = λ e k. ok (err_ok, record e { index = k }, k + 1);
  pf_delpolicy = λ e k. ok (operation_failed, k + 1);
  pf_addsad = λ e k. ok (err_ok, k + 1);
  pf_delsad = λ e k. ok (internal, k + 1);
  pf_getsad = λ e k. ok (err_ok, k + 1);
  addpolicy_sets_index = counted_index;
}

abbrev pub spd_memory : Ptr → Cell SpdEntry
spd_memory p = cell_of blank_spd null

abbrev pub sad_memory : Ptr → SadEntry
sad_memory p = blank_sad

abbrev pub root : Text
root = codes "/spd/spd-entry"

abbrev pub tunnel_policy : SpdConfig
tunnel_policy = record {
  dir = inbound;
  req_id = 7;
  window = 64;
  local_subnet = codes "10.0.0.0/24";
  remote_subnet = codes "10.1.0.0/24";
  inner = any_at 4660;
  local_ports = record { keys = codes "[start='500'][end='500']"; first = 500; last = 500 };
  remote_ports = record { keys = codes "[start='4500'][end='4500']"; first = 4500; last = 4500 };
  act = protect;
  esn = true;
  overflow = false;
  pfp = false;
  frag_check = false;
  sa_mode = tunnel;
  tunnel_local = codes "192.0.2.1";
  tunnel_remote = codes "192.0.2.2";
  dscp = false;
  ecn_bit = true;
  df = copy;
  integrity = (codes ".='2']", 2) ∷ (codes ".='3']", 3) ∷ [];
  encryption = record { keys = codes "id='1']"; id = 1; kind = 3; bits = 128 } ∷ [];
  tfc = false;
}

abbrev pub host_policy : SpdConfig
host_policy = record tunnel_policy {
  dir = outbound;
  inner = protocol 6;
  act = bypass;
  sa_mode = transport;
  df = clear;
}

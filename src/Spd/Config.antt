-- ===== src/Spd/Config.antt =====
-- A policy as the YANG model describes it, what its values must be to fit a node, and the node that has them.
pub mod Steps
pub mod RoundTrip
use ccips_cfgipsec.Base.{
  ℕ, ◌≤◌, ◌<◌, ◌^◌, ◌%◌, ◌≡◌, refl, ap, ◌∙◌, Bool, true, false, Option, none, some, List, [], ◌∷◌,
  ◌++◌, map, arith, ltb, if◌then◌else◌, Run, ok, fault, ◌>>=◌,
}
use ccips_cfgipsec.Base.Lists.{length, All}
use ccips_cfgipsec.Text.{Text, codes, str_eq, strcpy, strstr, strstr-infix}
use ccips_cfgipsec.Utils.Constants.{max_ip}
use ccips_cfgipsec.Sysrepo.{
  err_ok, Data, number, text, string_val, bool_val, uint16_val, uint64_val, int16_val, Value,
  Change, Verdict, go_on, leave, Rc,
}
use ccips_cfgipsec.Sysrepo.ReadLoop.{
  apply_values, creation, Foreign, read_loop, read_loop-block, read_loop-values,
}
use ccips_cfgipsec.Spd.{SpdEntry}
use ccips_cfgipsec.Spd.Read.{
  SpdLeaf, direction, reqid, anti_replay_window, local_prefix, remote_prefix, inner_protocol, start,
  action, ext_seq_num, seq_overflow, pfp_flag, stateful_frag_check, mode, local, remote,
  bypass_dscp, ecn, df_bit, protocol_parameters, integrity, encryption, tfc_pad, read_direction,
  read_action, read_mode, read_df_bit, read_inner_protocol, read_start, read_spd_leaf,
  read_spd_value, read_spd_loop, read_spd_entry,
}
use ccips_cfgipsec.Spd.ReadLaws.{Leaf, known, NoSlash, Item}
use mathlib.Core.List.{append_assoc, foldl}

pub data Direction : Type 0 where
  inbound outbound : Direction

pub data Action : Type 0 where
  protect bypass discard : Action

pub data Mode : Type 0 where
  transport tunnel : Mode

pub data DfBit : Type 0 where
  clear set copy : DfBit

-- A protocol number, or the word `any` at an address of the process.
pub data InnerProtocol : Type 0 where
  protocol : ℕ → InnerProtocol
  any_at : ℕ → InnerProtocol

-- A range of ports, with the keys of its entry as sysrepo prints them.
pub record PortRange : Type 0 where
  pub keys : Text
  pub first : ℕ
  pub last : ℕ

-- An entry of the list of encryption algorithms, with its keys.
pub record Algorithm : Type 0 where
  pub keys : Text
  pub id : ℕ
  pub kind : ℕ
  pub bits : ℕ

-- The algorithms for integrity are a leaf-list, each with its keys and its number.
pub record SpdConfig : Type 0 where
  pub dir : Direction
  pub req_id : ℕ
  pub window : ℕ
  pub local_subnet : Text
  pub remote_subnet : Text
  pub inner : InnerProtocol
  pub local_ports : PortRange
  pub remote_ports : PortRange
  pub act : Action
  pub esn : Bool
  pub overflow : Bool
  pub pfp : Bool
  pub frag_check : Bool
  pub sa_mode : Mode
  pub tunnel_local : Text
  pub tunnel_remote : Text
  pub dscp : Bool
  pub ecn_bit : Bool
  pub df : DfBit
  pub integrity : List (Text × ℕ)
  pub encryption : List Algorithm
  pub tfc : Bool

-- The words of the YANG enumerations, and the numbers that constants.h has for them.
abbrev pub dir_word : Direction → Text
dir_word inbound = codes "inbound"
dir_word outbound = codes "outbound"

abbrev pub dir_number : Direction → ℕ
dir_number inbound = 1
dir_number outbound = 2

abbrev pub act_word : Action → Text
act_word protect = codes "protect"
act_word bypass = codes "bypass"
act_word discard = codes "discard"

abbrev pub act_number : Action → ℕ
act_number protect = 2
act_number bypass = 4
act_number discard = 0

abbrev pub mode_word : Mode → Text
mode_word transport = codes "transport"
mode_word tunnel = codes "tunnel"

abbrev pub mode_number : Mode → ℕ
mode_number transport = 1
mode_number tunnel = 2

abbrev pub df_word : DfBit → Text
df_word clear = codes "clear"
df_word set = codes "set"
df_word copy = codes "copy"

abbrev pub df_number : DfBit → ℕ
df_number clear = 0
df_number set = 1
df_number copy = 2

abbrev pub inner_data : InnerProtocol → Data
inner_data (protocol n) = number n
inner_data (any_at a) = text a (codes "any")

abbrev pub inner_number : InnerProtocol → ℕ
inner_number (protocol n) = n
inner_number (any_at a) = 256

-- A protocol number is at most 256. The word `any` is recognised only at an address whose low 16 bits
-- are above 256.
abbrev pub InnerFits : InnerProtocol → Type 0
InnerFits (protocol n) = n ≤ 256
InnerFits (any_at a) = 256 < a % 2 ^ 16

abbrev pub flag : Bool → Data
flag true = number 1
flag false = number 0

-- A leaf's value is at the address `at` where it is a text.
abbrev pub word : ℕ → Text → Data
word at s = text at s

-- A leaf, and what its branch does to the node.
abbrev pub Setting : Type 0
Setting = Item × (SpdEntry → SpdEntry)

abbrev pub sel : Text
sel = codes "/ipsec-policy-config/traffic-selector"

abbrev pub info : Text
info = codes "/ipsec-policy-config/processing-info"

abbrev pub cfg_path : Text
cfg_path = codes "/ipsec-policy-config/processing-info/ipsec-sa-cfg"

abbrev pub esp_path : Text
esp_path = codes "/ipsec-policy-config/processing-info/ipsec-sa-cfg/esp-algorithms"

abbrev pub tunnel_path : Text
tunnel_path = codes "/ipsec-policy-config/processing-info/ipsec-sa-cfg/tunnel"

abbrev pub local_path : Text → Text
local_path keys = sel ++ (codes "/local-ports" ++ keys)

abbrev pub remote_path : Text → Text
remote_path keys = sel ++ (codes "/remote-ports" ++ keys)

abbrev pub leaf_at : Text → SpdLeaf → Data → Item
leaf_at b l d = record { between = b; leaf = known l; val = d }

abbrev pub unread_at : Text → Leaf → Data → Item
unread_at b l d = record { between = b; leaf = l; val = d }

-- The key of the entry holds neither list's name, so each port is told from the other.
abbrev pub PortsApart : Text → SpdConfig → Type 0
PortsApart xpath c =
    (strstr (xpath ++ (local_path (c.local_ports.keys) ++ codes "/start")) (codes "/remote-ports")
      ≡ false)
    × (strstr (xpath ++ (remote_path (c.remote_ports.keys) ++ codes "/start"))
          (codes "/local-ports")
        ≡ false)

-- Every number fits its field, every text its buffer.
pub record ConfigFits (xpath : Text) (c : SpdConfig) : Type 0 where
  pub req_id : c.req_id < 2 ^ 64
  pub local_subnet : length (c.local_subnet) < max_ip
  pub remote_subnet : length (c.remote_subnet) < max_ip
  pub inner : InnerFits (c.inner)
  pub ports : PortsApart xpath c
  pub local_keys : NoSlash (c.local_ports.keys)
  pub remote_keys : NoSlash (c.remote_ports.keys)
  pub local_port : c.local_ports.first < 2 ^ 16
  pub remote_port : c.remote_ports.first < 2 ^ 16
  pub tunnel_local : length (c.tunnel_local) < max_ip
  pub tunnel_remote : length (c.tunnel_remote) < max_ip
  pub integrity : All (λ i. NoSlash (i.0) × (i.1 < 2 ^ 15)) (c.integrity)
  pub encryption : All (λ a. NoSlash (a.keys)) (c.encryption)

-- The last algorithm for integrity is the one that is kept.
abbrev pub last_integrity : List (Text × ℕ) → ℕ → ℕ
last_integrity [] n = n
last_integrity (i ∷ is) n = last_integrity is (i.1)

-- An entry of the list of encryption algorithms is itself read as the number of an algorithm: it has no value, which is 0.
abbrev pub encryption_number : List Algorithm → ℕ → ℕ
encryption_number [] n = n
encryption_number (a ∷ algorithms) n = encryption_number algorithms 0

-- The node for the policy. Its name, its index and its window stay what they were: no branch is for the leaf of the window. The
-- types of the encryption algorithms are not read either.
unfoldable pub config_entry : SpdConfig → SpdEntry → SpdEntry
config_entry c node = record node {
  policy_dir = dir_number (c.dir);
  req_id = c.req_id;
  local_subnet = c.local_subnet;
  remote_subnet = c.remote_subnet;
  tunnel_local = c.tunnel_local;
  tunnel_remote = c.tunnel_remote;
  inner_protocol = inner_number (c.inner);
  srcport = c.local_ports.first;
  dstport = c.remote_ports.first;
  action = act_number (c.act);
  ext_seq_num = c.esn;
  seq_overflow = c.overflow;
  ipsec_mode = mode_number (c.sa_mode);
  protocol_parameters = 50;
  integrity_alg = last_integrity (c.integrity) (node.integrity_alg);
  encryption_alg = encryption_number (c.encryption) (node.encryption_alg);
  pfp_flag = c.pfp;
  stateful_frag_check = c.frag_check;
  bypass_dscp = c.dscp;
  ecn = c.ecn_bit;
  tfc_pad = c.tfc;
  df_bit = df_number (c.df);
}

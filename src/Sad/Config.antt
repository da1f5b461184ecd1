-- ===== src/Sad/Config.antt =====
-- An association as the YANG model describes it, what its values must be to fit a node, and the node that has them.
pub mod Steps
pub mod Words
pub mod Numbers
pub mod RoundTrip
use ccips_cfgipsec.Base.{ℕ, ◌≤◌, ◌<◌, ◌^◌, ◌≡◌, Bool, true, false, List, [], ◌∷◌, ◌++◌}
use ccips_cfgipsec.Base.Lists.{length, All}
use ccips_cfgipsec.Text.{Text, codes, c_string, strstr}
use ccips_cfgipsec.Utils.Constants.{max_ip, max_key}
use ccips_cfgipsec.Utils.HexLaws.{IsByte}
use ccips_cfgipsec.Sysrepo.{Data, Value}
use ccips_cfgipsec.Sad.{SadEntry}
use ccips_cfgipsec.Sad.Leaf.{
  SadLeaf, reqid, spi, ext_seq_num, seq_number_counter, seq_overflow, anti_replay_window,
  local_prefix, remote_prefix, inner_protocol, start, mode, local, remote, bypass_dscp, ecn, df_bit,
  protocol_parameters, encryption_algorithm, iv, key, integrity_algorithm, time, bytes, packets,
  idle, other,
}
use ccips_cfgipsec.Spd.Config.{
  Mode, DfBit, InnerProtocol, mode_number, df_number, inner_number, InnerFits,
}

pub record Lifetime : Type 0 where
  pub seconds : ℕ
  pub octets : ℕ
  pub count : ℕ
  pub idle_seconds : ℕ

-- A key is its bytes. The keys of a list of ports, as sysrepo prints them behind its name, are `local_keys` and
-- `remote_keys`.
pub record SadConfig : Type 0 where
  pub req_id : ℕ
  pub spi : ℕ
  pub esn : Bool
  pub overflow : Bool
  pub window : ℕ
  pub local_subnet : Text
  pub remote_subnet : Text
  pub inner : InnerProtocol
  pub local_keys : Text
  pub local_port : ℕ
  pub remote_keys : Text
  pub remote_port : ℕ
  pub sa_mode : Mode
  pub encryption_alg : ℕ
  pub encryption_key : List ℕ
  pub vector : List ℕ
  pub integrity_alg : ℕ
  pub integrity_key : List ℕ
  pub hard : Lifetime
  pub soft : Lifetime
  pub tunnel_local : Text
  pub tunnel_remote : Text
  pub df : DfBit
  pub dscp : Bool
  pub ecn_bit : Bool

-- The last step of the path of a leaf. `other` has that of the window, which no branch is for.
abbrev pub step : SadLeaf → Text
step reqid = codes "reqid"
step spi = codes "spi"
step ext_seq_num = codes "ext-seq-num"
step seq_number_counter = codes "seq-number-counter"
step seq_overflow = codes "seq-overflow"
step anti_replay_window = codes "anti-replay-window"
step local_prefix = codes "local-prefix"
step remote_prefix = codes "remote-prefix"
step inner_protocol = codes "inner-protocol"
step start = codes "start"
step mode = codes "mode"
step local = codes "local"
step remote = codes "remote"
step bypass_dscp = codes "bypass-dscp"
step ecn = codes "ecn"
step df_bit = codes "df-bit"
step protocol_parameters = codes "protocol-parameters"
step encryption_algorithm = codes "encryption-algorithm"
step iv = codes "iv"
step key = codes "key"
step integrity_algorithm = codes "integrity-algorithm"
step time = codes "time"
step bytes = codes "bytes"
step packets = codes "packets"
step idle = codes "idle"
step other = codes "anti-replay-window-size"

-- A leaf below the entry: the steps between the entry and it, its own step, and its value.
pub record Item : Type 0 where
  pub between : Text
  pub leaf : SadLeaf
  pub val : Data

abbrev pub leaf_at : Text → SadLeaf → Data → Item
leaf_at b l d = record { between = b; leaf = l; val = d }

abbrev pub path_of : Text → Text → SadLeaf → Text
path_of xpath b l = xpath ++ (b ++ (b'/' ∷ step l))

abbrev pub item_value : Text → Item → Value
item_value xpath i = record { xpath = path_of xpath (i.between) (i.leaf); val = i.val }

-- A leaf, and what its branch does to the node.
abbrev pub Setting : Type 0
Setting = Item × (SadEntry → SadEntry)

abbrev pub cfg : Text
cfg = codes "/ipsec-sa-config"

abbrev pub sel : Text
sel = codes "/ipsec-sa-config/traffic-selector"

abbrev pub esp_sa : Text
esp_sa = codes "/ipsec-sa-config/esp-sa"

abbrev pub tunnel_path : Text
tunnel_path = codes "/ipsec-sa-config/tunnel"

-- A container or a list below a path, with the keys of its entry.
abbrev pub inside : Text → Text → Text → Text
inside above name keys = above ++ (name ++ keys)

abbrev pub local_ports : Text → Text
local_ports keys = inside sel (codes "/local-ports") keys

abbrev pub remote_ports : Text → Text
remote_ports keys = inside sel (codes "/remote-ports") keys

abbrev pub encryption_path : Text
encryption_path = inside esp_sa (codes "/encryption") []

abbrev pub integrity_path : Text
integrity_path = inside esp_sa (codes "/integrity") []

abbrev pub hard_path : Text
hard_path = inside cfg (codes "/sa-lifetime-hard") []

abbrev pub soft_path : Text
soft_path = inside cfg (codes "/sa-lifetime-soft") []

-- The key of the entry does not hold a word by which a branch tells two leaves apart.
abbrev pub Lacks : Text → Text → Type 0
Lacks path word = strstr path word ≡ false

pub record Apart (xpath : Text) (c : SadConfig) : Type 0 where
  pub local_start : Lacks (path_of xpath (local_ports (c.local_keys)) start) (codes "/remote-ports")
  pub remote_start :
      Lacks (path_of xpath (remote_ports (c.remote_keys)) start) (codes "/local-ports")
  pub encryption_key : Lacks (path_of xpath encryption_path key) (codes "/integrity")
  pub integrity_key : Lacks (path_of xpath integrity_path key) (codes "/encryption")
  pub hard_time : Lacks (path_of xpath hard_path time) (codes "/sa-lifetime-soft")
  pub hard_bytes : Lacks (path_of xpath hard_path bytes) (codes "/sa-lifetime-soft")
  pub hard_packets : Lacks (path_of xpath hard_path packets) (codes "/sa-lifetime-soft")
  pub hard_idle : Lacks (path_of xpath hard_path idle) (codes "/sa-lifetime-soft")

-- A limit is read as a signed number of 32 bits.
pub record LifetimeFits (l : Lifetime) : Type 0 where
  pub seconds : l.seconds < 2 ^ 31
  pub octets : l.octets < 2 ^ 31
  pub count : l.count < 2 ^ 31
  pub idle_seconds : l.idle_seconds < 2 ^ 31

-- What is stored of a key, its bytes up to the first zero byte, fits the buffer.
abbrev pub KeyFits : List ℕ → Type 0
KeyFits bs = All IsByte bs × (length (c_string bs) < max_key)

-- Every number fits its field, every text its buffer.
pub record ConfigFits (xpath : Text) (c : SadConfig) : Type 0 where
  pub apart : Apart xpath c
  pub req_id : c.req_id < 2 ^ 64
  pub spi : c.spi < 2 ^ 32
  pub local_subnet : length (c.local_subnet) < max_ip
  pub remote_subnet : length (c.remote_subnet) < max_ip
  pub inner : InnerFits (c.inner)
  pub local_port : c.local_port < 2 ^ 16
  pub remote_port : c.remote_port < 2 ^ 16
  pub encryption_alg : c.encryption_alg < 2 ^ 15
  pub encryption_key : KeyFits (c.encryption_key)
  pub vector : KeyFits (c.vector)
  pub integrity_alg : c.integrity_alg < 2 ^ 15
  pub integrity_key : KeyFits (c.integrity_key)
  pub hard : LifetimeFits (c.hard)
  pub soft : LifetimeFits (c.soft)
  pub tunnel_local : length (c.tunnel_local) < max_ip
  pub tunnel_remote : length (c.tunnel_remote) < max_ip

-- The node for the association: the fields that no leaf is read into stay what they were, and so does the window, whose
-- leaf the ladder does not know.
unfoldable pub config_entry : SadConfig → SadEntry → SadEntry
config_entry c node = record node {
  req_id = c.req_id;
  spi = c.spi;
  ext_seq_num = c.esn;
  seq_overflow = c.overflow;
  local_subnet = c.local_subnet;
  remote_subnet = c.remote_subnet;
  inner_protocol = inner_number (c.inner);
  srcport = c.local_port;
  dstport = c.remote_port;
  protocol_parameters = 50;
  ipsec_mode = mode_number (c.sa_mode);
  encryption_alg = c.encryption_alg;
  encryption_key = c_string (c.encryption_key);
  encryption_iv = c_string (c.vector);
  integrity_alg = c.integrity_alg;
  integrity_key = c_string (c.integrity_key);
  lft_time_hard = c.hard.seconds;
  lft_bytes_hard = c.hard.octets;
  lft_packets_hard = c.hard.count;
  lft_idle_hard = c.hard.idle_seconds;
  lft_time_soft = c.soft.seconds;
  lft_bytes_soft = c.soft.octets;
  lft_packets_soft = c.soft.count;
  lft_idle_soft = c.soft.idle_seconds;
  tunnel_local = c.tunnel_local;
  tunnel_remote = c.tunnel_remote;
  df_bit = df_number (c.df);
  bypass_dscp = c.dscp;
  ecn = c.ecn_bit;
}

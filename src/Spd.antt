-- ===== src/Spd.antt =====
-- src/spd_entry: a node of the security policy database, less its `next` field, which is the list's.
pub mod Read
pub mod ReadLaws
pub mod Config
use ccips_cfgipsec.Base.{ℕ, Bool, false}
use ccips_cfgipsec.Text.{Text}

pub record SpdEntry : Type 0 where
  pub name : Text
  pub index : ℕ
  pub policy_dir : ℕ
  pub req_id : ℕ
  pub local_subnet : Text
  pub remote_subnet : Text
  pub tunnel_local : Text
  pub tunnel_remote : Text
  pub inner_protocol : ℕ
  pub srcport : ℕ
  pub dstport : ℕ
  pub action : ℕ
  pub ext_seq_num : Bool
  pub seq_overflow : Bool
  pub ipsec_mode : ℕ
  pub protocol_parameters : ℕ
  pub integrity_alg : ℕ
  pub encryption_alg : ℕ
  pub anti_replay_window : ℕ
  pub pfp_flag : Bool
  pub stateful_frag_check : Bool
  pub bypass_dscp : Bool
  pub ecn : Bool
  pub tfc_pad : Bool
  pub df_bit : ℕ

-- `malloc` gives the node and its five text buffers the contents `garbage`. The function sets every
-- field but the texts. It does not set `next` either.
unfoldable pub create_spd_node : SpdEntry → SpdEntry
create_spd_node garbage = record garbage {
  index = 0;
  policy_dir = 0;
  req_id = 0;
  inner_protocol = 0;
  srcport = 0;
  dstport = 0;
  action = 0;
  ext_seq_num = false;
  seq_overflow = false;
  ipsec_mode = 0;
  protocol_parameters = 0;
  integrity_alg = 0;
  encryption_alg = 0;
  anti_replay_window = 0;
  pfp_flag = false;
  stateful_frag_check = false;
  bypass_dscp = false;
  ecn = false;
  tfc_pad = false;
  df_bit = 0;
}

-- ===== src/Sad.antt =====
-- src/sad_entry: a node of the security association database, less its `next` field, which is the
-- list's.
pub mod Leaf
pub mod Read
pub mod ReadLaws
pub mod Config
use ccips_cfgipsec.Base.{ℕ, Bool, false}
use ccips_cfgipsec.Text.{Text}

pub record SadEntry : Type 0 where
  pub name : Text
  pub req_id : ℕ
  pub spi : ℕ
  pub ext_seq_num : Bool
  pub seq_overflow : Bool
  pub seq_number_counter : ℕ
  pub anti_replay_window : ℕ
  pub local_subnet : Text
  pub remote_subnet : Text
  pub tunnel_local : Text
  pub tunnel_remote : Text
  pub inner_protocol : ℕ
  pub srcport : ℕ
  pub dstport : ℕ
  pub ipsec_mode : ℕ
  pub protocol_parameters : ℕ
  pub integrity_alg : ℕ
  pub encryption_alg : ℕ
  pub encryption_key_length : ℕ
  pub encryption_key : Text
  pub integrity_key : Text
  pub encryption_iv : Text
  pub bypass_dscp : Bool
  pub ecn : Bool
  pub tfc_pad : Bool
  pub df_bit : ℕ
  pub lft_bytes_hard : ℕ
  pub lft_bytes_soft : ℕ
  pub lft_bytes_current : ℕ
  pub lft_packets_hard : ℕ
  pub lft_packets_soft : ℕ
  pub lft_packets_current : ℕ
  pub lft_time_hard : ℕ
  pub lft_time_soft : ℕ
  pub lft_time_current : ℕ
  pub lft_idle_hard : ℕ
  pub lft_idle_soft : ℕ
  pub lft_idle_current : ℕ

-- `malloc` gives the node and its text buffers the contents `garbage`. The function sets every field
-- but the texts and `encryption_key_length`.
unfoldable pub create_sad_node : SadEntry → SadEntry
create_sad_node garbage = record garbage {
  req_id = 0;
  spi = 0;
  ext_seq_num = false;
  seq_overflow = false;
  seq_number_counter = 0;
  anti_replay_window = 0;
  inner_protocol = 0;
  srcport = 0;
  dstport = 0;
  ipsec_mode = 0;
  protocol_parameters = 0;
  integrity_alg = 0;
  encryption_alg = 0;
  bypass_dscp = false;
  ecn = false;
  tfc_pad = false;
  df_bit = 0;
  lft_bytes_hard = 0;
  lft_bytes_soft = 0;
  lft_bytes_current = 0;
  lft_packets_hard = 0;
  lft_packets_soft = 0;
  lft_packets_current = 0;
  lft_time_hard = 0;
  lft_time_soft = 0;
  lft_time_current = 0;
  lft_idle_hard = 0;
  lft_idle_soft = 0;
  lft_idle_current = 0;
}

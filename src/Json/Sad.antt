-- ===== src/Json/Sad.antt =====
-- `serialize_sad_node` and `deserialize_sad_node` of src/sad_entry/sad_entry.c. The object that the second reads is freed
-- by parson at its end, which nothing reads.
pub mod RoundTrip
use ccips_cfgipsec.Base.{ℕ, List, [], ◌∷◌, Run, ok, ◌>>=◌}
use ccips_cfgipsec.Text.{Text, codes}
use ccips_cfgipsec.Utils.Constants.{max_path, max_ip, max_key}
use ccips_cfgipsec.Sad.{SadEntry, create_sad_node}
use ccips_cfgipsec.Json.{
  Value, string, number, boolean, Parson, get_number, get_boolean, copy_string, set_values,
}

-- The fields in the order in which they are set.
unfoldable pub sad_fields : SadEntry → List (Text × Value)
sad_fields node =
    (codes "name", string (node.name))
    ∷ (codes "req_id", number (node.req_id))
    ∷ (codes "spi", number (node.spi))
    ∷ (codes "ext_seq_num", boolean (node.ext_seq_num))
    ∷ (codes "seq_overflow", boolean (node.seq_overflow))
    ∷ (codes "seq_number_counter", number (node.seq_number_counter))
    ∷ (codes "anti_replay_window", number (node.anti_replay_window))
    ∷ (codes "local_subnet", string (node.local_subnet))
    ∷ (codes "remote_subnet", string (node.remote_subnet))
    ∷ (codes "tunnel_local", string (node.tunnel_local))
    ∷ (codes "tunnel_remote", string (node.tunnel_remote))
    ∷ (codes "inner_protocol", number (node.inner_protocol))
    ∷ (codes "srcport", number (node.srcport))
    ∷ (codes "dstport", number (node.dstport))
    ∷ (codes "ipsec_mode", number (node.ipsec_mode))
    ∷ (codes "protocol_parameters", number (node.protocol_parameters))
    ∷ (codes "integrity_alg", number (node.integrity_alg))
    ∷ (codes "encryption_alg", number (node.encryption_alg))
    ∷ (codes "encryption_key_length", number (node.encryption_key_length))
    ∷ (codes "encryption_key", string (node.encryption_key))
    ∷ (codes "integrity_key", string (node.integrity_key))
    ∷ (codes "encryption_iv", string (node.encryption_iv))
    ∷ (codes "bypass_dscp", boolean (node.bypass_dscp))
    ∷ (codes "ecn", boolean (node.ecn))
    ∷ (codes "tfc_pad", boolean (node.tfc_pad))
    ∷ (codes "df_bit", number (node.df_bit))
    ∷ (codes "lft_bytes_hard", number (node.lft_bytes_hard))
    ∷ (codes "lft_bytes_soft", number (node.lft_bytes_soft))
    ∷ (codes "lft_bytes_current", number (node.lft_bytes_current))
    ∷ (codes "lft_packets_hard", number (node.lft_packets_hard))
    ∷ (codes "lft_packets_soft", number (node.lft_packets_soft))
    ∷ (codes "lft_packets_current", number (node.lft_packets_current))
    ∷ (codes "lft_time_hard", number (node.lft_time_hard))
    ∷ (codes "lft_time_soft", number (node.lft_time_soft))
    ∷ (codes "lft_time_current", number (node.lft_time_current))
    ∷ (codes "lft_idle_hard", number (node.lft_idle_hard))
    ∷ (codes "lft_idle_soft", number (node.lft_idle_soft))
    ∷ (codes "lft_idle_current", number (node.lft_idle_current))
    ∷ []

module _ (parson : Parson) where
  unfoldable pub serialize_sad_node : SadEntry → parson.Object
  serialize_sad_node node = set_values parson (parson.init_object) (sad_fields node)

  -- `create_sad_node` gives the node the contents `garbage`, of which every field is replaced.
  unfoldable pub deserialize_sad_node : SadEntry → parson.Object → Run SadEntry
  deserialize_sad_node garbage schema = do
    name ← copy_string parson max_path schema (codes "name")
    local_subnet ← copy_string parson max_ip schema (codes "local_subnet")
    remote_subnet ← copy_string parson max_ip schema (codes "remote_subnet")
    tunnel_local ← copy_string parson max_ip schema (codes "tunnel_local")
    tunnel_remote ← copy_string parson max_ip schema (codes "tunnel_remote")
    encryption_key ← copy_string parson max_key schema (codes "encryption_key")
    integrity_key ← copy_string parson max_key schema (codes "integrity_key")
    encryption_iv ← copy_string parson max_key schema (codes "encryption_iv")
    ok (record (create_sad_node garbage) {
      name = name;
      req_id = get_number parson 64 schema (codes "req_id");
      spi = get_number parson 64 schema (codes "spi");
      ext_seq_num = get_boolean parson schema (codes "ext_seq_num");
      seq_overflow = get_boolean parson schema (codes "seq_overflow");
      seq_number_counter = get_number parson 64 schema (codes "seq_number_counter");
      anti_replay_window = get_number parson 64 schema (codes "anti_replay_window");
      local_subnet = local_subnet;
      remote_subnet = remote_subnet;
      tunnel_local = tunnel_local;
      tunnel_remote = tunnel_remote;
      inner_protocol = get_number parson 32 schema (codes "inner_protocol");
      srcport = get_number parson 32 schema (codes "srcport");
      dstport = get_number parson 32 schema (codes "dstport");
      ipsec_mode = get_number parson 16 schema (codes "ipsec_mode");
      protocol_parameters = get_number parson 16 schema (codes "protocol_parameters");
      integrity_alg = get_number parson 32 schema (codes "integrity_alg");
      encryption_alg = get_number parson 32 schema (codes "encryption_alg");
      encryption_key_length = get_number parson 32 schema (codes "encryption_key_length");
      encryption_key = encryption_key;
      integrity_key = integrity_key;
      encryption_iv = encryption_iv;
      bypass_dscp = get_boolean parson schema (codes "bypass_dscp");
      ecn = get_boolean parson schema (codes "ecn");
      tfc_pad = get_boolean parson schema (codes "tfc_pad");
      df_bit = get_number parson 16 schema (codes "df_bit");
      lft_bytes_hard = get_number parson 64 schema (codes "lft_bytes_hard");
      lft_bytes_soft = get_number parson 64 schema (codes "lft_bytes_soft");
      lft_bytes_current = get_number parson 64 schema (codes "lft_bytes_current");
      lft_packets_hard = get_number parson 64 schema (codes "lft_packets_hard");
      lft_packets_soft = get_number parson 64 schema (codes "lft_packets_soft");
      lft_packets_current = get_number parson 64 schema (codes "lft_packets_current");
      lft_time_hard = get_number parson 64 schema (codes "lft_time_hard");
      lft_time_soft = get_number parson 64 schema (codes "lft_time_soft");
      lft_time_current = get_number parson 64 schema (codes "lft_time_current");
      lft_idle_hard = get_number parson 64 schema (codes "lft_idle_hard");
      lft_idle_soft = get_number parson 64 schema (codes "lft_idle_soft");
      lft_idle_current = get_number parson 64 schema (codes "lft_idle_current");
    })

-- ===== src/Json/Sad/RoundTrip.antt =====
-- An association that was serialized is deserialized as it was.
use ccips_cfgipsec.Base.{ℕ, ◌^◌, ◌<◌, ◌≡◌, Bool, refl, ◌∙◌, Option, some, ok, >>=-ok}
use ccips_cfgipsec.Base.Lists.{length, All}
use ccips_cfgipsec.Text.{Text, codes, str_eq}
use ccips_cfgipsec.Utils.Constants.{max_path, max_ip, max_key}
use ccips_cfgipsec.Sad.{SadEntry, create_sad_node}
use ccips_cfgipsec.Json.{
  Value, string, number, boolean, Parson, get_number, get_boolean, copy_string,
}
use ccips_cfgipsec.Json.Fields.{
  lookup, KeptField, set_values-lookup, copy_string-found, get_number-found, get_boolean-found,
}
use ccips_cfgipsec.Json.Sad.{sad_fields, serialize_sad_node, deserialize_sad_node}

-- The texts fit in their buffers and the numbers in their fields.
pub record Fits (node : SadEntry) : Type 0 where
  pub name : length (node.name) < max_path
  pub req_id : node.req_id < 2 ^ 64
  pub spi : node.spi < 2 ^ 64
  pub seq_number_counter : node.seq_number_counter < 2 ^ 64
  pub anti_replay_window : node.anti_replay_window < 2 ^ 64
  pub local_subnet : length (node.local_subnet) < max_ip
  pub remote_subnet : length (node.remote_subnet) < max_ip
  pub tunnel_local : length (node.tunnel_local) < max_ip
  pub tunnel_remote : length (node.tunnel_remote) < max_ip
  pub inner_protocol : node.inner_protocol < 2 ^ 32
  pub srcport : node.srcport < 2 ^ 32
  pub dstport : node.dstport < 2 ^ 32
  pub ipsec_mode : node.ipsec_mode < 2 ^ 16
  pub protocol_parameters : node.protocol_parameters < 2 ^ 16
  pub integrity_alg : node.integrity_alg < 2 ^ 32
  pub encryption_alg : node.encryption_alg < 2 ^ 32
  pub encryption_key_length : node.encryption_key_length < 2 ^ 32
  pub encryption_key : length (node.encryption_key) < max_key
  pub integrity_key : length (node.integrity_key) < max_key
  pub encryption_iv : length (node.encryption_iv) < max_key
  pub df_bit : node.df_bit < 2 ^ 16
  pub lft_bytes_hard : node.lft_bytes_hard < 2 ^ 64
  pub lft_bytes_soft : node.lft_bytes_soft < 2 ^ 64
  pub lft_bytes_current : node.lft_bytes_current < 2 ^ 64
  pub lft_packets_hard : node.lft_packets_hard < 2 ^ 64
  pub lft_packets_soft : node.lft_packets_soft < 2 ^ 64
  pub lft_packets_current : node.lft_packets_current < 2 ^ 64
  pub lft_time_hard : node.lft_time_hard < 2 ^ 64
  pub lft_time_soft : node.lft_time_soft < 2 ^ 64
  pub lft_time_current : node.lft_time_current < 2 ^ 64
  pub lft_idle_hard : node.lft_idle_hard < 2 ^ 64
  pub lft_idle_soft : node.lft_idle_soft < 2 ^ 64
  pub lft_idle_current : node.lft_idle_current < 2 ^ 64

module _ (parson : Parson) (node : SadEntry) (kept : All (KeptField parson) (sad_fields node)) where
  abbrev object : parson.Object
  object = serialize_sad_node parson node

  -- A field of the node is under its key in the object.
  IsField : Text → Value → Type 0
  IsField key v = (before : Option Value) → lookup (sad_fields node) key before ≡ some v

  field-found : (key : Text) (v : Value) → IsField key v → parson.get_value object key ≡ some v
  unfolding serialize_sad_node IsField
  field-found key v is_field =
      set_values-lookup parson (sad_fields node) (parson.init_object) key kept ∙ is_field _

  text_field :
      (key : Text) (size : ℕ) (s : Text)
      → IsField key (string s)
      → length s < size
      → copy_string parson size object key ≡ ok s
  text_field key size s is_field short =
      copy_string-found parson object key size s (field-found key (string s) is_field) short

  number_field :
      (key : Text) (width n : ℕ)
      → IsField key (number n)
      → n < 2 ^ width
      → get_number parson width object key ≡ n
  number_field key width n is_field small =
      get_number-found parson object key width n (field-found key (number n) is_field) small

  boolean_field :
      (key : Text) (b : Bool) → IsField key (boolean b) → get_boolean parson object key ≡ b
  boolean_field key b is_field =
      get_boolean-found parson object key b (field-found key (boolean b) is_field)

  -- A node that is serialized and deserialized is the same node, whatever the memory of the new one held, if its texts
  -- are UTF-8 and fit in the buffers and its numbers fit in their fields and are at most 2 ^ 53.
  pub deserialize-serialize_sad_node :
      (garbage : SadEntry)
      → Fits node
      → deserialize_sad_node parson garbage (serialize_sad_node parson node) ≡ ok node
  unfolding deserialize_sad_node create_sad_node sad_fields lookup str_eq IsField
  deserialize-serialize_sad_node garbage fits =
      >>=-ok _ (text_field (codes "name") max_path (node.name) (λ before. refl) (fits.name)) (
        >>=-ok _
          (text_field (codes "local_subnet") max_ip (node.local_subnet) (λ before. refl)
            (fits.local_subnet))
          (>>=-ok _
            (text_field (codes "remote_subnet") max_ip (node.remote_subnet) (λ before. refl)
              (fits.remote_subnet))
            (>>=-ok _
              (text_field (codes "tunnel_local") max_ip (node.tunnel_local) (λ before. refl)
                (fits.tunnel_local))
              (>>=-ok _
                (text_field (codes "tunnel_remote") max_ip (node.tunnel_remote) (λ before. refl)
                  (fits.tunnel_remote))
                (>>=-ok _
                  (text_field (codes "encryption_key") max_key (node.encryption_key)
                    (λ before. refl) (fits.encryption_key))
                  (>>=-ok _
                    (text_field (codes "integrity_key") max_key (node.integrity_key)
                      (λ before. refl) (fits.integrity_key))
                    (>>=-ok _
                      (text_field (codes "encryption_iv") max_key (node.encryption_iv)
                        (λ before. refl) (fits.encryption_iv))
                      (λ i. ok (record node {
                        req_id =
                            number_field (codes "req_id") 64 (node.req_id) (λ before. refl)
                              (fits.req_id) i;
                        spi =
                            number_field (codes "spi") 64 (node.spi) (λ before. refl) (fits.spi) i;
                        ext_seq_num =
                            boolean_field (codes "ext_seq_num") (node.ext_seq_num) (λ before. refl)
                              i;
                        seq_overflow =
                            boolean_field (codes "seq_overflow") (node.seq_overflow)
                              (λ before. refl) i;
                        seq_number_counter =
                            number_field (codes "seq_number_counter") 64 (node.seq_number_counter)
                              (λ before. refl) (fits.seq_number_counter) i;
                        anti_replay_window =
                            number_field (codes "anti_replay_window") 64 (node.anti_replay_window)
                              (λ before. refl) (fits.anti_replay_window) i;
                        inner_protocol =
                            number_field (codes "inner_protocol") 32 (node.inner_protocol)
                              (λ before. refl) (fits.inner_protocol) i;
                        srcport =
                            number_field (codes "srcport") 32 (node.srcport) (λ before. refl)
                              (fits.srcport) i;
                        dstport =
                            number_field (codes "dstport") 32 (node.dstport) (λ before. refl)
                              (fits.dstport) i;
                        ipsec_mode =
                            number_field (codes "ipsec_mode") 16 (node.ipsec_mode) (λ before. refl)
                              (fits.ipsec_mode) i;
                        protocol_parameters =
                            number_field (codes "protocol_parameters") 16 (node.protocol_parameters)
                              (λ before. refl) (fits.protocol_parameters) i;
                        integrity_alg =
                            number_field (codes "integrity_alg") 32 (node.integrity_alg)
                              (λ before. refl) (fits.integrity_alg) i;
                        encryption_alg =
                            number_field (codes "encryption_alg") 32 (node.encryption_alg)
                              (λ before. refl) (fits.encryption_alg) i;
                        encryption_key_length =
                            number_field (codes "encryption_key_length") 32
                              (node.encryption_key_length) (λ before. refl)
                              (fits.encryption_key_length) i;
                        bypass_dscp =
                            boolean_field (codes "bypass_dscp") (node.bypass_dscp) (λ before. refl)
                              i;
                        ecn = boolean_field (codes "ecn") (node.ecn) (λ before. refl) i;
                        tfc_pad = boolean_field (codes "tfc_pad") (node.tfc_pad) (λ before. refl) i;
                        df_bit =
                            number_field (codes "df_bit") 16 (node.df_bit) (λ before. refl)
                              (fits.df_bit) i;
                        lft_bytes_hard =
                            number_field (codes "lft_bytes_hard") 64 (node.lft_bytes_hard)
                              (λ before. refl) (fits.lft_bytes_hard) i;
                        lft_bytes_soft =
                            number_field (codes "lft_bytes_soft") 64 (node.lft_bytes_soft)
                              (λ before. refl) (fits.lft_bytes_soft) i;
                        lft_bytes_current =
                            number_field (codes "lft_bytes_current") 64 (node.lft_bytes_current)
                              (λ before. refl) (fits.lft_bytes_current) i;
                        lft_packets_hard =
                            number_field (codes "lft_packets_hard") 64 (node.lft_packets_hard)
                              (λ before. refl) (fits.lft_packets_hard) i;
                        lft_packets_soft =
                            number_field (codes "lft_packets_soft") 64 (node.lft_packets_soft)
                              (λ before. refl) (fits.lft_packets_soft) i;
                        lft_packets_current =
                            number_field (codes "lft_packets_current") 64 (node.lft_packets_current)
                              (λ before. refl) (fits.lft_packets_current) i;
                        lft_time_hard =
                            number_field (codes "lft_time_hard") 64 (node.lft_time_hard)
                              (λ before. refl) (fits.lft_time_hard) i;
                        lft_time_soft =
                            number_field (codes "lft_time_soft") 64 (node.lft_time_soft)
                              (λ before. refl) (fits.lft_time_soft) i;
                        lft_time_current =
                            number_field (codes "lft_time_current") 64 (node.lft_time_current)
                              (λ before. refl) (fits.lft_time_current) i;
                        lft_idle_hard =
                            number_field (codes "lft_idle_hard") 64 (node.lft_idle_hard)
                              (λ before. refl) (fits.lft_idle_hard) i;
                        lft_idle_soft =
                            number_field (codes "lft_idle_soft") 64 (node.lft_idle_soft)
                              (λ before. refl) (fits.lft_idle_soft) i;
                        lft_idle_current =
                            number_field (codes "lft_idle_current") 64 (node.lft_idle_current)
                              (λ before. refl) (fits.lft_idle_current) i;
                      })))))))))

-- ===== src/Utils/Constants.antt =====
-- The constants of src/constants.h that the models use.
use ccips_cfgipsec.Base.{ℕ}

abbrev pub max_path : ℕ
max_path = 200

abbrev pub max_ip : ℕ
max_ip = 40

abbrev pub max_key : ℕ
max_key = 1024

abbrev pub ipsec_mode_transport : ℕ
ipsec_mode_transport = 1

abbrev pub ipsec_mode_tunnel : ℕ
ipsec_mode_tunnel = 2

abbrev pub ipsec_proto_esp : ℕ
ipsec_proto_esp = 50

abbrev pub ipsec_df_bit_clear : ℕ
ipsec_df_bit_clear = 0

abbrev pub ipsec_df_bit_set : ℕ
ipsec_df_bit_set = 1

abbrev pub ipsec_df_bit_copy : ℕ
ipsec_df_bit_copy = 2

abbrev pub ipsec_dir_inbound : ℕ
ipsec_dir_inbound = 1

abbrev pub ipsec_dir_outbound : ℕ
ipsec_dir_outbound = 2

abbrev pub ipsec_dir_forward : ℕ
ipsec_dir_forward = 3

abbrev pub ipsec_policy_discard : ℕ
ipsec_policy_discard = 0

abbrev pub ipsec_policy_protect : ℕ
ipsec_policy_protect = 2

abbrev pub ipsec_policy_bypass : ℕ
ipsec_policy_bypass = 4

-- Authentication and encryption algorithms.
abbrev pub sadb_aalg_none : ℕ
sadb_aalg_none = 0

abbrev pub sadb_aalg_md5hmac : ℕ
sadb_aalg_md5hmac = 2

abbrev pub sadb_aalg_sha1hmac : ℕ
sadb_aalg_sha1hmac = 3

abbrev pub sadb_x_aalg_null : ℕ
sadb_x_aalg_null = 251

abbrev pub sadb_ealg_none : ℕ
sadb_ealg_none = 0

abbrev pub sadb_ealg_descbc : ℕ
sadb_ealg_descbc = 2

abbrev pub sadb_ealg_3descbc : ℕ
sadb_ealg_3descbc = 3

abbrev pub sadb_x_ealg_blowfishcbc : ℕ
sadb_x_ealg_blowfishcbc = 7

abbrev pub sadb_ealg_null : ℕ
sadb_ealg_null = 11

abbrev pub sadb_x_ealg_aescbc : ℕ
sadb_x_ealg_aescbc = 12

abbrev pub sadb_ext_supported_auth : ℕ
sadb_ext_supported_auth = 14

abbrev pub sadb_ext_supported_encrypt : ℕ
sadb_ext_supported_encrypt = 15

-- ===== src/PfKey/Constants.antt =====
-- The constants of src/constants.h that name messages, extensions and sizes of PF_KEY.
use ccips_cfgipsec.Base.{ℕ}

abbrev pub sadb_add : ℕ
sadb_add = 3

abbrev pub sadb_delete : ℕ
sadb_delete = 4

abbrev pub sadb_get : ℕ
sadb_get = 5

abbrev pub sadb_acquire : ℕ
sadb_acquire = 6

abbrev pub sadb_register_type : ℕ
sadb_register_type = 7

abbrev pub sadb_expire : ℕ
sadb_expire = 8

abbrev pub sadb_x_spdadd : ℕ
sadb_x_spdadd = 14

abbrev pub sadb_x_spddelete : ℕ
sadb_x_spddelete = 15

abbrev pub sadb_x_spddump : ℕ
sadb_x_spddump = 18

abbrev pub sadb_sastate_mature : ℕ
sadb_sastate_mature = 1

abbrev pub sadb_satype_unspec : ℕ
sadb_satype_unspec = 0

abbrev pub sadb_satype_esp : ℕ
sadb_satype_esp = 3

abbrev pub sadb_ext_lifetime_hard : ℕ
sadb_ext_lifetime_hard = 3

abbrev pub sadb_ext_lifetime_soft : ℕ
sadb_ext_lifetime_soft = 4

abbrev pub sadb_ext_address_src : ℕ
sadb_ext_address_src = 5

abbrev pub sadb_ext_address_dst : ℕ
sadb_ext_address_dst = 6

abbrev pub sadb_ext_key_auth : ℕ
sadb_ext_key_auth = 8

abbrev pub sadb_ext_key_encrypt : ℕ
sadb_ext_key_encrypt = 9

abbrev pub sadb_x_ext_policy : ℕ
sadb_x_ext_policy = 18

abbrev pub sadb_x_ext_sa2 : ℕ
sadb_x_ext_sa2 = 19

abbrev pub ipsec_level_require : ℕ
ipsec_level_require = 2

abbrev pub ipsec_level_unique : ℕ
ipsec_level_unique = 3

abbrev pub pfkey_buffer_size : ℕ
pfkey_buffer_size = 4096

abbrev pub ealg_descbc_key_bits : ℕ
ealg_descbc_key_bits = 64

abbrev pub ealg_3descbc_key_bits : ℕ
ealg_3descbc_key_bits = 192

abbrev pub eal_aes_key_bits : ℕ
eal_aes_key_bits = 256

abbrev pub aalg_md5hmac_key_bits : ℕ
aalg_md5hmac_key_bits = 160

abbrev pub aalg_sha1hmac_key_bits : ℕ
aalg_sha1hmac_key_bits = 160

-- ===== src/Utils/Algorithms.antt =====
-- The tables of src/utils/utils.c between algorithm numbers and names, and
-- `pf_get_alg_enum_name` of src/pfkeyv2_utils/pfkeyv2_entry.c. The optional cases are those whose
-- macros constants.h defines: SADB_X_EALG_BLOWFISHCBC and SADB_X_AALG_NULL.
use Prim.Native.String.{String}
use ccips_cfgipsec.Base.{ℕ, ◌≡◌, ◌||◌, Option, none, some, ◌++◌, arith, ◌==◌, if◌then◌else◌}
use ccips_cfgipsec.Text.{Text, codes, str_eq}
use ccips_cfgipsec.Utils.Constants.{
  sadb_aalg_none, sadb_aalg_md5hmac, sadb_aalg_sha1hmac, sadb_x_aalg_null, sadb_ealg_none,
  sadb_ealg_descbc, sadb_ealg_3descbc, sadb_x_ealg_blowfishcbc, sadb_ealg_null, sadb_x_ealg_aescbc,
  sadb_ext_supported_auth,
}
use ccips_cfgipsec.Utils.Decimal.{decimal}

-- `sprintf(buf, "[Unknown ... %d]", n)`
abbrev pub unknown : String → ℕ → Text
unknown what n = codes what ++ (decimal n ++ codes "]")

pub get_auth_alg_number : Text → ℕ
unfolding str_eq
get_auth_alg_number alg =
    if str_eq alg (codes "hmac-md5-128") || str_eq alg (codes "hmac-md5-96")
    then sadb_aalg_md5hmac
    else (if str_eq alg (codes "hmac-sha1-96")
          || (str_eq alg (codes "hmac-sha1-96") || str_eq alg (codes "hmac-sha1-160"))
        then sadb_aalg_sha1hmac
        else sadb_aalg_none)

pub get_encrypt_alg_number : Text → ℕ
unfolding str_eq
get_encrypt_alg_number alg =
    if str_eq alg (codes "des")
    then sadb_ealg_descbc
    else (if str_eq alg (codes "3des")
        then sadb_ealg_3descbc
        else (if str_eq alg (codes "aes-cbc") then sadb_x_ealg_aescbc else sadb_ealg_null))

pub get_encrypt_str : ℕ → Text
get_encrypt_str alg =
    if alg == sadb_ealg_descbc
    then codes "des"
    else (if alg == sadb_ealg_3descbc
        then codes "3des"
        else (if alg == sadb_ealg_null
            then codes "null"
            else (if alg == sadb_x_ealg_aescbc
                then codes "aes-cbc"
                else (if alg == sadb_x_ealg_blowfishcbc
                    then codes "blowfish"
                    else unknown "[Unknown encryption algorithm " alg))))

pub get_auth_str : ℕ → Text
get_auth_str alg =
    if alg == sadb_aalg_md5hmac
    then codes "hmac-md5-96"
    else (if alg == sadb_aalg_sha1hmac
        then codes "hmac-sha1-96"
        else unknown "[Unknown authentication algorithm " alg)

unfoldable pub get_auth_alg : ℕ → Text
get_auth_alg alg =
    if alg == sadb_aalg_none
    then codes "None"
    else (if alg == sadb_aalg_md5hmac
        then codes "HMAC-MD5"
        else (if alg == sadb_aalg_sha1hmac
            then codes "HMAC-SHA-1"
            else (if alg == sadb_x_aalg_null
                then codes "Null"
                else unknown "[Unknown authentication algorithm " alg)))

unfoldable pub get_encrypt_alg : ℕ → Text
get_encrypt_alg alg =
    if alg == sadb_ealg_none
    then codes "None"
    else (if alg == sadb_ealg_descbc
        then codes "DES-CBC"
        else (if alg == sadb_ealg_3descbc
            then codes "3DES-CBC"
            else (if alg == sadb_ealg_null
                then codes "Null"
                else (if alg == sadb_x_ealg_aescbc
                    then codes "aes-cbc"
                    else (if alg == sadb_x_ealg_blowfishcbc
                        then codes "Blowfish-CBC"
                        else unknown "[Unknown encryption algorithm " alg)))))

unfoldable pub get_sadb_alg_type : ℕ → ℕ → Text
unfolding get_auth_alg get_encrypt_alg
get_sadb_alg_type alg authenc =
    if authenc == sadb_ext_supported_auth then get_auth_alg alg else get_encrypt_alg alg

-- The test `"Null" == ...` compares addresses. Its two outcomes agree: a name "Null" meets none of
-- the tests below it, and the answer is NULL either way.
pub pf_get_alg_enum_name : ℕ → ℕ → Option Text
unfolding get_sadb_alg_type str_eq
pf_get_alg_enum_name alg exttype =
    let name = get_sadb_alg_type alg exttype in
    if str_eq name (codes "HMAC-MD5")
    then some (codes "hmac-md5-96")
    else (if str_eq name (codes "HMAC-SHA-1")
        then some (codes "hmac-sha1-96")
        else (if str_eq name (codes "DES-CBC")
            then some (codes "des")
            else (if str_eq name (codes "3DES-CBC")
                then some (codes "3des")
                else (if str_eq name (codes "Blowfish-CBC")
                    then some (codes "blowfish")
                    else none))))

-- Reading back the name of an encryption algorithm gives the algorithm for DES, 3DES and AES-CBC, and
-- the null algorithm for every other number, Blowfish included.
pub get_encrypt_alg_number-str :
    (alg : ℕ)
    → get_encrypt_alg_number (get_encrypt_str alg) ≡ (
        if (alg == sadb_ealg_descbc) || ((alg == sadb_ealg_3descbc) || (alg == sadb_x_ealg_aescbc))
        then alg
        else sadb_ealg_null)
unfolding get_encrypt_alg_number get_encrypt_str
get_encrypt_alg_number-str alg = ground arith

-- Reading back the name of an authentication algorithm gives the algorithm for MD5 and SHA1, and
-- "none" for every other number.
pub get_auth_alg_number-str :
    (alg : ℕ)
    → get_auth_alg_number (get_auth_str alg)
      ≡ (if (alg == sadb_aalg_md5hmac) || (alg == sadb_aalg_sha1hmac) then alg else sadb_aalg_none)
unfolding get_auth_alg_number get_auth_str
get_auth_alg_number-str alg = ground arith

-- ===== src/Tests/Words.antt =====
-- The theorems on texts, numbers, prefixes, keys and the names of algorithms.
use ccips_cfgipsec.Base.{◌≡◌, true, some, [], ◌∷◌, ◌++◌, arith, ok}
use ccips_cfgipsec.Text.{codes}
use ccips_cfgipsec.Utils.Decimal.{decimal}
use ccips_cfgipsec.Utils.Address.{get_ip, get_mask, get_ip-get_mask}
use ccips_cfgipsec.Utils.Hex.{hexstr_to_char}
use ccips_cfgipsec.Utils.HexLaws.{format_key, hexstr_to_char-format_key}

get_ip-get_mask_example :
    (get_ip (b'1' ∷ (codes "0.0.0.0" ++ (b'/' ∷ decimal 24))) ≡ some (codes "10.0.0.0"))
    × (get_mask (b'1' ∷ (codes "0.0.0.0" ++ (b'/' ∷ decimal 24))) ≡ ok 24)
get_ip-get_mask_example = get_ip-get_mask b'1' (codes "0.0.0.0") 24 (omega arith) (omega arith)

hexstr_to_char-format_key_example :
    hexstr_to_char (format_key true (10 ∷ 31 ∷ 255 ∷ [])) ≡ ok (some (10 ∷ 31 ∷ 255 ∷ []))
hexstr_to_char-format_key_example =
    hexstr_to_char-format_key true (10 ∷ 31 ∷ 255 ∷ []) (omega arith)

-- ===== src/Sad/Config/Words.antt =====
-- What the branch of each leaf of an association sets.
use ccips_cfgipsec.Base.{
  ℕ, ◌<◌, ◌^◌, ◌%◌, ◌≡◌, refl, Bool, true, false, List, [], arith, ltb, ok, ◌>>=◌,
}
use ccips_cfgipsec.Base.Lists.{length}
use ccips_cfgipsec.Text.{Text, codes, c_string, str_eq, strcpy, str_case_eq}
use ccips_cfgipsec.Utils.Constants.{max_ip}
use ccips_cfgipsec.Utils.HexLaws.{format_key}
use ccips_cfgipsec.Sysrepo.{string_val, uint16_val}
use ccips_cfgipsec.Sad.Leaf.{
  local_prefix, remote_prefix, inner_protocol, mode, local, remote, df_bit, protocol_parameters, iv,
  key,
}
use ccips_cfgipsec.Sad.Read.{read_mode, read_df_bit, read_inner_protocol, read_key, read_sad_leaf}
use ccips_cfgipsec.Sad.ReadLaws.{copy_key-format_key}
use ccips_cfgipsec.Spd.Config.{
  Mode, DfBit, InnerProtocol, mode_word, mode_number, df_word, df_number, inner_data, inner_number,
  InnerFits, word, transport, tunnel, clear, set, copy, protocol, any_at,
}
use ccips_cfgipsec.Sad.Config.{
  leaf_at, path_of, cfg, sel, esp_sa, tunnel_path, encryption_path, integrity_path, Lacks, KeyFits,
}
use ccips_cfgipsec.Sad.Config.Steps.{Sets, holds}

module _ (xpath : Text) (at : ℕ) where
  pub set_mode :
      (m : Mode)
      → Sets xpath
          (leaf_at cfg mode (word at (mode_word m)), λ n. record n { ipsec_mode = mode_number m })
  unfolding read_sad_leaf string_val read_mode str_case_eq
  set_mode transport node = refl
  set_mode tunnel node = refl

  pub set_df_bit :
      (b : DfBit)
      → Sets xpath
          (leaf_at tunnel_path df_bit (word at (df_word b)), λ n. record n { df_bit = df_number b })
  unfolding read_sad_leaf string_val read_df_bit str_eq
  set_df_bit clear node = refl
  set_df_bit set node = refl
  set_df_bit copy node = refl

  pub set_esp : Sets xpath (
    leaf_at cfg protocol_parameters (word at (codes "esp")),
    λ r. record r { protocol_parameters = 50 },
  )
  unfolding read_sad_leaf string_val str_eq
  set_esp node = refl

  copied : (s : Text) → length s < max_ip → strcpy max_ip s ≡ ok s
  unfolding strcpy
  copied s h = let e : ltb (length s) max_ip ≡ true = ground arith in rw e

  module _ (s : Text) (fits : length s < max_ip) where
    pub set_local_prefix :
        Sets xpath (leaf_at sel local_prefix (word at s), λ r. record r { local_subnet = s })
    unfolding read_sad_leaf string_val
    set_local_prefix node = rw (copied s fits, ◌>>=◌)

    pub set_remote_prefix :
        Sets xpath (leaf_at sel remote_prefix (word at s), λ r. record r { remote_subnet = s })
    unfolding read_sad_leaf string_val
    set_remote_prefix node = rw (copied s fits, ◌>>=◌)

    pub set_local :
        Sets xpath (leaf_at tunnel_path local (word at s), λ r. record r { tunnel_local = s })
    unfolding read_sad_leaf string_val
    set_local node = rw (copied s fits, ◌>>=◌)

    pub set_remote :
        Sets xpath (leaf_at tunnel_path remote (word at s), λ r. record r { tunnel_remote = s })
    unfolding read_sad_leaf string_val
    set_remote node = rw (copied s fits, ◌>>=◌)

  pub set_inner :
      (p : InnerProtocol)
      → InnerFits p
      → Sets xpath (
        leaf_at sel inner_protocol (inner_data p),
        λ r. record r { inner_protocol = inner_number p },
      )
  unfolding read_sad_leaf read_inner_protocol uint16_val string_val str_eq
  set_inner (protocol n) h node =
      let e : n % 2 ^ 16 ≡ n = omega arith in
      let small : ltb 256 n ≡ false = ground arith in rw (e, read_inner_protocol) (rw small)
  set_inner (any_at a) h node =
      let big : ltb 256 (a % 2 ^ 16) ≡ true = ground arith in rw (big, read_inner_protocol)

  module _ (upper : Bool) (bs : List ℕ) (fits : KeyFits bs) where
    pub set_iv : Sets xpath (
      leaf_at encryption_path iv (word at (format_key upper bs)),
      λ r. record r { encryption_iv = c_string bs },
    )
    unfolding read_sad_leaf string_val
    set_iv node = rw (copy_key-format_key upper bs (fits.0) (fits.1), ◌>>=◌)

    pub set_encryption_key :
        Lacks (path_of xpath encryption_path key) (codes "/integrity")
        → Sets xpath (
          leaf_at encryption_path key (word at (format_key upper bs)),
          λ r. record r { encryption_key = c_string bs },
        )
    unfolding read_sad_leaf read_key string_val
    set_encryption_key lacks node =
        rw (holds xpath esp_sa (codes "/encryption") [] (codes "/key"), read_key)
          (rw (copy_key-format_key upper bs (fits.0) (fits.1), ◌>>=◌) (rw lacks))

    pub set_integrity_key :
        Lacks (path_of xpath integrity_path key) (codes "/encryption")
        → Sets xpath (
          leaf_at integrity_path key (word at (format_key upper bs)),
          λ r. record r { integrity_key = c_string bs },
        )
    unfolding read_sad_leaf read_key string_val
    set_integrity_key lacks node =
        rw (lacks, read_key)
          (rw (holds xpath esp_sa (codes "/integrity") [] (codes "/key"))
            (rw (copy_key-format_key upper bs (fits.0) (fits.1), ◌>>=◌)))

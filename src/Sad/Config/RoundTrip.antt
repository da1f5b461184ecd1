-- ===== src/Sad/Config/RoundTrip.antt =====
-- An association, the changes that report its creation, and what `readSAD_entry` makes of them.
use ccips_cfgipsec.Base.{ℕ, ◌≡◌, Bool, List, [], ◌∷◌, ◌++◌, map, ok}
use ccips_cfgipsec.Base.Lists.{All}
use ccips_cfgipsec.Text.{Text, codes, c_string, starts_with-append}
use ccips_cfgipsec.Utils.HexLaws.{format_key}
use ccips_cfgipsec.Sysrepo.{err_ok, number, Change}
use ccips_cfgipsec.Sysrepo.ReadLoop.{
  Below, creation, Foreign, read_loop, read_loop-block, read_loop-values,
}
use ccips_cfgipsec.Sad.{SadEntry}
use ccips_cfgipsec.Sad.Leaf.{
  reqid, spi, ext_seq_num, seq_overflow, local_prefix, remote_prefix, inner_protocol, start, mode,
  local, remote, bypass_dscp, ecn, df_bit, protocol_parameters, encryption_algorithm, iv, key,
  integrity_algorithm, time, bytes, packets, idle, other,
}
use ccips_cfgipsec.Sad.Read.{read_sad_value, read_sad_loop, read_sad_entry}
use ccips_cfgipsec.Spd.Config.{
  mode_word, mode_number, df_word, df_number, inner_data, inner_number, flag, word,
}
use ccips_cfgipsec.Sad.Config.{
  SadConfig, item_value, leaf_at, Setting, cfg, sel, tunnel_path, local_ports, remote_ports,
  encryption_path, integrity_path, hard_path, soft_path, ConfigFits, config_entry,
}
use ccips_cfgipsec.Sad.Config.Steps.{Sets, apply_values-Sets}
use ccips_cfgipsec.Sad.Config.Words.{
  set_df_bit, set_encryption_key, set_esp, set_inner, set_integrity_key, set_iv, set_local,
  set_local_prefix, set_mode, set_remote, set_remote_prefix,
}
use ccips_cfgipsec.Sad.Config.Numbers.{
  set_bypass_dscp, set_ecn, set_encryption_algorithm, set_ext_seq_num, set_hard_bytes,
  set_hard_idle, set_hard_packets, set_hard_time, set_integrity_algorithm, set_local_port,
  set_remote_port, set_reqid, set_seq_overflow, set_soft_bytes, set_soft_idle, set_soft_packets,
  set_soft_time, set_spi, skip_window,
}

-- The leaves of an association in the order of the YANG model, each with what reading it sets. Texts are at the address
-- `at`, and keys are printed in upper or lower case.
abbrev pub settings : ℕ → Bool → SadConfig → List Setting
settings at upper c =
    (leaf_at [] reqid (number (c.req_id)), λ r. record r { req_id = c.req_id })
    ∷ (leaf_at cfg spi (number (c.spi)), λ r. record r { spi = c.spi })
    ∷ (leaf_at cfg ext_seq_num (flag (c.esn)), λ r. record r { ext_seq_num = c.esn })
    ∷ (leaf_at cfg seq_overflow (flag (c.overflow)), λ r. record r { seq_overflow = c.overflow })
    ∷ (leaf_at cfg other (number (c.window)), λ r. r)
    ∷ (
      leaf_at sel local_prefix (word at (c.local_subnet)),
      λ r. record r { local_subnet = c.local_subnet },
    )
    ∷ (
      leaf_at sel remote_prefix (word at (c.remote_subnet)),
      λ r. record r { remote_subnet = c.remote_subnet },
    )
    ∷ (
      leaf_at sel inner_protocol (inner_data (c.inner)),
      λ r. record r { inner_protocol = inner_number (c.inner) },
    )
    ∷ (
      leaf_at (local_ports (c.local_keys)) start (number (c.local_port)),
      λ r. record r { srcport = c.local_port },
    )
    ∷ (
      leaf_at (remote_ports (c.remote_keys)) start (number (c.remote_port)),
      λ r. record r { dstport = c.remote_port },
    )
    ∷ (
      leaf_at cfg protocol_parameters (word at (codes "esp")),
      λ r. record r { protocol_parameters = 50 },
    )
    ∷ (
      leaf_at cfg mode (word at (mode_word (c.sa_mode))),
      λ r. record r { ipsec_mode = mode_number (c.sa_mode) },
    )
    ∷ (
      leaf_at encryption_path encryption_algorithm (number (c.encryption_alg)),
      λ r. record r { encryption_alg = c.encryption_alg },
    )
    ∷ (
      leaf_at encryption_path key (word at (format_key upper (c.encryption_key))),
      λ r. record r { encryption_key = c_string (c.encryption_key) },
    )
    ∷ (
      leaf_at encryption_path iv (word at (format_key upper (c.vector))),
      λ r. record r { encryption_iv = c_string (c.vector) },
    )
    ∷ (
      leaf_at integrity_path integrity_algorithm (number (c.integrity_alg)),
      λ r. record r { integrity_alg = c.integrity_alg },
    )
    ∷ (
      leaf_at integrity_path key (word at (format_key upper (c.integrity_key))),
      λ r. record r { integrity_key = c_string (c.integrity_key) },
    )
    ∷ (
      leaf_at hard_path time (number (c.hard.seconds)),
      λ r. record r { lft_time_hard = c.hard.seconds },
    )
    ∷ (
      leaf_at hard_path bytes (number (c.hard.octets)),
      λ r. record r { lft_bytes_hard = c.hard.octets },
    )
    ∷ (
      leaf_at hard_path packets (number (c.hard.count)),
      λ r. record r { lft_packets_hard = c.hard.count },
    )
    ∷ (
      leaf_at hard_path idle (number (c.hard.idle_seconds)),
      λ r. record r { lft_idle_hard = c.hard.idle_seconds },
    )
    ∷ (
      leaf_at soft_path time (number (c.soft.seconds)),
      λ r. record r { lft_time_soft = c.soft.seconds },
    )
    ∷ (
      leaf_at soft_path bytes (number (c.soft.octets)),
      λ r. record r { lft_bytes_soft = c.soft.octets },
    )
    ∷ (
      leaf_at soft_path packets (number (c.soft.count)),
      λ r. record r { lft_packets_soft = c.soft.count },
    )
    ∷ (
      leaf_at soft_path idle (number (c.soft.idle_seconds)),
      λ r. record r { lft_idle_soft = c.soft.idle_seconds },
    )
    ∷ (
      leaf_at tunnel_path local (word at (c.tunnel_local)),
      λ r. record r { tunnel_local = c.tunnel_local },
    )
    ∷ (
      leaf_at tunnel_path remote (word at (c.tunnel_remote)),
      λ r. record r { tunnel_remote = c.tunnel_remote },
    )
    ∷ (
      leaf_at tunnel_path df_bit (word at (df_word (c.df))),
      λ r. record r { df_bit = df_number (c.df) },
    )
    ∷ (leaf_at tunnel_path bypass_dscp (flag (c.dscp)), λ r. record r { bypass_dscp = c.dscp })
    ∷ (leaf_at tunnel_path ecn (flag (c.ecn_bit)), λ r. record r { ecn = c.ecn_bit })
    ∷ []

settings-Sets :
    (xpath : Text) (at : ℕ) (upper : Bool) (c : SadConfig)
    → ConfigFits xpath c
    → All (Sets xpath) (settings at upper c)
settings-Sets xpath at upper c fits = (
  set_reqid xpath (c.req_id) (fits.req_id),
  (
    set_spi xpath (c.spi) (fits.spi),
    (
      set_ext_seq_num xpath (c.esn),
      (
        set_seq_overflow xpath (c.overflow),
        (
          skip_window xpath (c.window),
          (
            set_local_prefix xpath at (c.local_subnet) (fits.local_subnet),
            (
              set_remote_prefix xpath at (c.remote_subnet) (fits.remote_subnet),
              (
                set_inner xpath at (c.inner) (fits.inner),
                (
                  set_local_port xpath (c.local_port) (fits.local_port) (c.local_keys)
                      (fits.apart.local_start),
                  (
                    set_remote_port xpath (c.remote_port) (fits.remote_port) (c.remote_keys)
                        (fits.apart.remote_start),
                    (
                      set_esp xpath at,
                      (
                        set_mode xpath at (c.sa_mode),
                        (
                          set_encryption_algorithm xpath (c.encryption_alg) (fits.encryption_alg),
                          (
                            set_encryption_key xpath at upper (c.encryption_key)
                                (fits.encryption_key) (fits.apart.encryption_key),
                            (
                              set_iv xpath at upper (c.vector) (fits.vector),
                              (
                                set_integrity_algorithm xpath (c.integrity_alg)
                                    (fits.integrity_alg),
                                (
                                  set_integrity_key xpath at upper (c.integrity_key)
                                      (fits.integrity_key) (fits.apart.integrity_key),
                                  (
                                    set_hard_time xpath (c.hard.seconds) (fits.hard.seconds)
                                        (fits.apart.hard_time),
                                    (
                                      set_hard_bytes xpath (c.hard.octets) (fits.hard.octets)
                                          (fits.apart.hard_bytes),
                                      (
                                        set_hard_packets xpath (c.hard.count) (fits.hard.count)
                                            (fits.apart.hard_packets),
                                        (
                                          set_hard_idle xpath (c.hard.idle_seconds)
                                              (fits.hard.idle_seconds) (fits.apart.hard_idle),
                                          (
                                            set_soft_time xpath (c.soft.seconds)
                                                (fits.soft.seconds),
                                            (
                                              set_soft_bytes xpath (c.soft.octets)
                                                  (fits.soft.octets),
                                              (
                                                set_soft_packets xpath (c.soft.count)
                                                    (fits.soft.count),
                                                (
                                                  set_soft_idle xpath (c.soft.idle_seconds)
                                                      (fits.soft.idle_seconds),
                                                  (
                                                    set_local xpath at (c.tunnel_local)
                                                        (fits.tunnel_local),
                                                    (
                                                      set_remote xpath at (c.tunnel_remote)
                                                          (fits.tunnel_remote),
                                                      (
                                                        set_df_bit xpath at (c.df),
                                                        (
                                                          set_bypass_dscp xpath (c.dscp),
                                                          (set_ecn xpath (c.ecn_bit), tt),
                                                        ),
                                                      ),
                                                    ),
                                                  ),
                                                ),
                                              ),
                                            ),
                                          ),
                                        ),
                                      ),
                                    ),
                                  ),
                                ),
                              ),
                            ),
                          ),
                        ),
                      ),
                    ),
                  ),
                ),
              ),
            ),
          ),
        ),
      ),
    ),
  ),
)

values-Below :
    (xpath : Text) (ps : List Setting) → All (Below xpath) (map (λ p. item_value xpath (p.0)) ps)
values-Below xpath [] = tt
values-Below xpath (p ∷ ps) = (starts_with-append xpath _, values-Below xpath ps)

-- The changes that report the creation of the association's leaves.
unfoldable pub config_changes : Text → ℕ → Bool → SadConfig → List Change
config_changes xpath at upper c =
    map creation (map (λ p. item_value xpath (p.0)) (settings at upper c))

pub read_sad_entry-config :
    (xpath : Text) (at : ℕ) (upper : Bool) (c : SadConfig) (node : SadEntry) (next : Change)
    (rest : List Change)
    → ConfigFits xpath c
    → Foreign xpath next
    → read_sad_entry xpath node (config_changes xpath at upper c ++ (next ∷ rest))
      ≡ ok (err_ok, config_entry c node, rest)
unfolding read_sad_entry read_sad_loop config_changes config_entry
read_sad_entry-config xpath at upper c node next rest fits foreign =
    let ps : List Setting = settings at upper c in
    read_loop-block read_sad_value (λ rc. err_ok) xpath (map (λ p. item_value xpath (p.0)) ps) node
      _ next rest (values-Below xpath ps)
      (apply_values-Sets xpath ps node (settings-Sets xpath at upper c fits)) foreign

-- The same, where the changes end behind the association's.
pub read_sad_entry-config_last :
    (xpath : Text) (at : ℕ) (upper : Bool) (c : SadConfig) (node : SadEntry)
    → ConfigFits xpath c
    → read_sad_entry xpath node (config_changes xpath at upper c ++ [])
      ≡ ok (err_ok, config_entry c node, [])
unfolding read_sad_entry read_sad_loop config_changes config_entry read_loop
read_sad_entry-config_last xpath at upper c node fits =
    let ps : List Setting = settings at upper c in
    read_loop-values read_sad_value (λ rc. err_ok) xpath (map (λ p. item_value xpath (p.0)) ps) node
      _ [] (values-Below xpath ps)
      (apply_values-Sets xpath ps node (settings-Sets xpath at upper c fits))

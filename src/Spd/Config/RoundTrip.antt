-- ===== src/Spd/Config/RoundTrip.antt =====
-- A policy, the changes that report its creation, and what `readSPD_entry` makes of them.
use ccips_cfgipsec.Base.{ℕ, ◌<◌, ◌^◌, ◌≡◌, refl, ◌∙◌, List, [], ◌∷◌, ◌++◌, map, ok}
use ccips_cfgipsec.Base.Lists.{All, All-append}
use ccips_cfgipsec.Text.{Text, codes, starts_with-append}
use ccips_cfgipsec.Sysrepo.{err_ok, number, Change}
use ccips_cfgipsec.Sysrepo.ReadLoop.{
  Below, creation, Foreign, read_loop, read_loop-block, read_loop-values,
}
use ccips_cfgipsec.Spd.{SpdEntry}
use ccips_cfgipsec.Spd.Read.{
  direction, reqid, local_prefix, remote_prefix, inner_protocol, start, action, ext_seq_num,
  seq_overflow, pfp_flag, stateful_frag_check, mode, local, remote, bypass_dscp, ecn, df_bit,
  protocol_parameters, tfc_pad, read_spd_value, read_spd_loop, read_spd_entry,
}
use ccips_cfgipsec.Spd.ReadLaws.{
  NoSlash, item_value, window_size, end_port, algorithm_id, algorithm_type, key_length,
  integrity_entry, algorithm_entry, local_range, remote_range,
}
use ccips_cfgipsec.Spd.Config.{
  SpdConfig, Algorithm, dir_word, dir_number, act_word, act_number, mode_word, mode_number, df_word,
  df_number, inner_data, inner_number, flag, word, Setting, sel, info, cfg_path, esp_path,
  tunnel_path, local_path, remote_path, leaf_at, unread_at, last_integrity, encryption_number,
  ConfigFits, config_entry,
}
use ccips_cfgipsec.Spd.Config.Steps.{
  Sets, apply_values-Sets, set_action, set_df_bit, set_direction, set_dscp, set_ecn, set_encryption,
  set_esn, set_esp, set_frag_check, set_inner, set_integrity, set_local, set_local_port,
  set_local_prefix, set_mode, set_overflow, set_pfp, set_remote, set_remote_port, set_remote_prefix,
  set_reqid, set_tfc, skip,
}
use mathlib.Core.List.{foldl}

-- The entries of the leaf-list `integrity`, and the list `encryption`, whose entries have no value, with its leaves.
abbrev pub integrity_settings : List (Text × ℕ) → List Setting
integrity_settings [] = []
integrity_settings (i ∷ is) =
    (
      unread_at esp_path (integrity_entry (i.0)) (number (i.1)),
      λ r. record r { integrity_alg = i.1 },
    )
    ∷ integrity_settings is

abbrev below_algorithm : Text → Text
below_algorithm keys = esp_path ++ (codes "/encryption[" ++ keys)

abbrev pub encryption_settings : List Algorithm → List Setting
encryption_settings [] = []
encryption_settings (a ∷ algorithms) =
    (unread_at esp_path (algorithm_entry (a.keys)) (number 0), λ r. record r { encryption_alg = 0 })
    ∷ (unread_at (below_algorithm (a.keys)) algorithm_id (number (a.id)), λ r. r)
    ∷ (unread_at (below_algorithm (a.keys)) algorithm_type (number (a.kind)), λ r. r)
    ∷ (unread_at (below_algorithm (a.keys)) key_length (number (a.bits)), λ r. r)
    ∷ encryption_settings algorithms

abbrev pub last_settings : ℕ → SpdConfig → List Setting
last_settings at c =
    (leaf_at esp_path tfc_pad (flag (c.tfc)), λ r. record r { tfc_pad = c.tfc })
    ∷ (
      leaf_at tunnel_path local (word at (c.tunnel_local)),
      λ r. record r { tunnel_local = c.tunnel_local },
    )
    ∷ (
      leaf_at tunnel_path remote (word at (c.tunnel_remote)),
      λ r. record r { tunnel_remote = c.tunnel_remote },
    )
    ∷ (
      leaf_at tunnel_path df_bit (word at (df_word (c.df))),
      λ r. record r { df_bit = df_number (c.df) },
    )
    ∷ (leaf_at tunnel_path bypass_dscp (flag (c.dscp)), λ r. record r { bypass_dscp = c.dscp })
    ∷ (leaf_at tunnel_path ecn (flag (c.ecn_bit)), λ r. record r { ecn = c.ecn_bit })
    ∷ []

-- The leaves of a policy in the order of the YANG model, each with what reading it sets.
abbrev pub settings : ℕ → SpdConfig → List Setting
settings at c =
    (
      leaf_at [] direction (word at (dir_word (c.dir))),
      λ r. record r { policy_dir = dir_number (c.dir) },
    )
    ∷ (leaf_at [] reqid (number (c.req_id)), λ r. record r { req_id = c.req_id })
    ∷ (unread_at (codes "/ipsec-policy-config") window_size (number (c.window)), λ r. r)
    ∷ (
      leaf_at sel local_prefix (word at (c.local_subnet)),
      λ r. record r { local_subnet = c.local_subnet },
    )
    ∷ (
      leaf_at sel remote_prefix (word at (c.remote_subnet)),
      λ r. record r { remote_subnet = c.remote_subnet },
    )
    ∷ (
      leaf_at sel inner_protocol (inner_data (c.inner)),
      λ r. record r { inner_protocol = inner_number (c.inner) },
    )
    ∷ (unread_at sel (local_range (c.local_ports.keys)) (number 0), λ r. r)
    ∷ (
      leaf_at (local_path (c.local_ports.keys)) start (number (c.local_ports.first)),
      λ r. record r { srcport = c.local_ports.first },
    )
    ∷ (unread_at (local_path (c.local_ports.keys)) end_port (number (c.local_ports.last)), λ r. r)
    ∷ (unread_at sel (remote_range (c.remote_ports.keys)) (number 0), λ r. r)
    ∷ (
      leaf_at (remote_path (c.remote_ports.keys)) start (number (c.remote_ports.first)),
      λ r. record r { dstport = c.remote_ports.first },
    )
    ∷ (
      unread_at (remote_path (c.remote_ports.keys)) end_port (number (c.remote_ports.last)),
      λ r. r,
    )
    ∷ (
      leaf_at info action (word at (act_word (c.act))),
      λ r. record r { action = act_number (c.act) },
    )
    ∷ (leaf_at cfg_path pfp_flag (flag (c.pfp)), λ r. record r { pfp_flag = c.pfp })
    ∷ (leaf_at cfg_path ext_seq_num (flag (c.esn)), λ r. record r { ext_seq_num = c.esn })
    ∷ (
      leaf_at cfg_path seq_overflow (flag (c.overflow)),
      λ r. record r { seq_overflow = c.overflow },
    )
    ∷ (
      leaf_at cfg_path stateful_frag_check (flag (c.frag_check)),
      λ r. record r { stateful_frag_check = c.frag_check },
    )
    ∷ (
      leaf_at cfg_path mode (word at (mode_word (c.sa_mode))),
      λ r. record r { ipsec_mode = mode_number (c.sa_mode) },
    )
    ∷ (
      leaf_at cfg_path protocol_parameters (word at (codes "esp")),
      λ r. record r { protocol_parameters = 50 },
    )
    ∷ (integrity_settings (c.integrity)
        ++ (encryption_settings (c.encryption) ++ last_settings at c))

abbrev run : SpdEntry → List Setting → SpdEntry
run node ps = foldl (λ n p. p.1 n) node ps

run-integrity :
    (is : List (Text × ℕ)) (node : SpdEntry) (rest : List Setting)
    → run node (integrity_settings is ++ rest)
      ≡ run (record node { integrity_alg = last_integrity is (node.integrity_alg) }) rest
run-integrity [] node rest = refl
run-integrity (i ∷ is) node rest = run-integrity is (record node { integrity_alg = i.1 }) rest

run-encryption :
    (algorithms : List Algorithm) (node : SpdEntry) (rest : List Setting)
    → run node (encryption_settings algorithms ++ rest)
      ≡ run
          (record node { encryption_alg = encryption_number algorithms (node.encryption_alg) })
          rest
run-encryption [] node rest = refl
run-encryption (a ∷ algorithms) node rest =
    run-encryption algorithms (record node { encryption_alg = 0 }) rest

run-settings :
    (at : ℕ) (c : SpdConfig) (node : SpdEntry) → run node (settings at c) ≡ config_entry c node
unfolding config_entry
run-settings at c node =
    run-integrity (c.integrity) _ (encryption_settings (c.encryption) ++ last_settings at c)
    ∙ run-encryption (c.encryption) _ (last_settings at c)

module _ (xpath : Text) (at : ℕ) where
  integrity-Sets :
      (is : List (Text × ℕ))
      → All (λ i. NoSlash (i.0) × (i.1 < 2 ^ 15)) is
      → All (Sets xpath at) (integrity_settings is)
  integrity-Sets [] fits = tt
  integrity-Sets (i ∷ is) ((no_slash, small), fits) =
      (set_integrity xpath at (i.0) (i.1) no_slash small, integrity-Sets is fits)

  encryption-Sets :
      (algorithms : List Algorithm)
      → All (λ a. NoSlash (a.keys)) algorithms
      → All (Sets xpath at) (encryption_settings algorithms)
  encryption-Sets [] fits = tt
  encryption-Sets (a ∷ algorithms) (no_slash, fits) = (
    set_encryption xpath at (a.keys) no_slash,
    (
      skip xpath at (below_algorithm (a.keys)) algorithm_id (number (a.id)) tt refl,
      (
        skip xpath at (below_algorithm (a.keys)) algorithm_type (number (a.kind)) tt refl,
        (
          skip xpath at (below_algorithm (a.keys)) key_length (number (a.bits)) tt refl,
          encryption-Sets algorithms fits,
        ),
      ),
    ),
  )

  module _ (c : SpdConfig) (fits : ConfigFits xpath c) where
    last-Sets : All (Sets xpath at) (last_settings at c)
    last-Sets = (
      set_tfc xpath at (c.tfc),
      (
        set_local xpath at (c.tunnel_local) (fits.tunnel_local),
        (
          set_remote xpath at (c.tunnel_remote) (fits.tunnel_remote),
          (
            set_df_bit xpath at (c.df),
            (set_dscp xpath at (c.dscp), (set_ecn xpath at (c.ecn_bit), tt)),
          ),
        ),
      ),
    )

    settings-Sets : All (Sets xpath at) (settings at c)
    settings-Sets = (
      set_direction xpath at (c.dir),
      (
        set_reqid xpath at (c.req_id) (fits.req_id),
        (
          skip xpath at (codes "/ipsec-policy-config") window_size (number (c.window)) tt refl,
          (
            set_local_prefix xpath at (c.local_subnet) (fits.local_subnet),
            (
              set_remote_prefix xpath at (c.remote_subnet) (fits.remote_subnet),
              (
                set_inner xpath at (c.inner) (fits.inner),
                (
                  skip xpath at sel (local_range (c.local_ports.keys)) (number 0) (fits.local_keys)
                      refl,
                  (
                    set_local_port xpath at c (fits.ports) (fits.local_port),
                    (
                      skip xpath at (local_path (c.local_ports.keys)) end_port
                          (number (c.local_ports.last)) tt refl,
                      (
                        skip xpath at sel (remote_range (c.remote_ports.keys)) (number 0)
                            (fits.remote_keys) refl,
                        (
                          set_remote_port xpath at c (fits.ports) (fits.remote_port),
                          (
                            skip xpath at (remote_path (c.remote_ports.keys)) end_port
                                (number (c.remote_ports.last)) tt refl,
                            (
                              set_action xpath at (c.act),
                              (
                                set_pfp xpath at (c.pfp),
                                (
                                  set_esn xpath at (c.esn),
                                  (
                                    set_overflow xpath at (c.overflow),
                                    (
                                      set_frag_check xpath at (c.frag_check),
                                      (
                                        set_mode xpath at (c.sa_mode),
                                        (
                                          set_esp xpath at,
                                          All-append (Sets xpath at)
                                              (integrity_settings (c.integrity)) _
                                              (integrity-Sets (c.integrity) (fits.integrity))
                                              (All-append (Sets xpath at)
                                                (encryption_settings (c.encryption)) _
                                                (encryption-Sets (c.encryption) (fits.encryption))
                                                last-Sets),
                                        ),
                                      ),
                                    ),
                                  ),
                                ),
                              ),
                            ),
                          ),
                        ),
                      ),
                    ),
                  ),
                ),
              ),
            ),
          ),
        ),
      ),
    )

values-Below :
    (xpath : Text) (ps : List Setting) → All (Below xpath) (map (λ p. item_value xpath (p.0)) ps)
values-Below xpath [] = tt
values-Below xpath (p ∷ ps) = (starts_with-append xpath _, values-Below xpath ps)

-- The changes that report the creation of the policy's leaves, its texts at the address `at`.
unfoldable pub config_changes : Text → ℕ → SpdConfig → List Change
config_changes xpath at c = map creation (map (λ p. item_value xpath (p.0)) (settings at c))

pub read_spd_entry-config :
    (xpath : Text) (at : ℕ) (c : SpdConfig) (node : SpdEntry) (next : Change) (rest : List Change)
    → ConfigFits xpath c
    → Foreign xpath next
    → read_spd_entry xpath node (config_changes xpath at c ++ (next ∷ rest))
      ≡ ok (err_ok, config_entry c node, rest)
unfolding read_spd_entry read_spd_loop config_changes
read_spd_entry-config xpath at c node next rest fits foreign =
    let ps : List Setting = settings at c in
    read_loop-block read_spd_value (λ rc. rc) xpath (map (λ p. item_value xpath (p.0)) ps) node _
      next rest (values-Below xpath ps)
      (apply_values-Sets xpath at ps node (settings-Sets xpath at c fits)
        ∙ rw (run-settings at c node) refl)
      foreign

-- The same, where the changes end behind the policy's.
pub read_spd_entry-config_last :
    (xpath : Text) (at : ℕ) (c : SpdConfig) (node : SpdEntry)
    → ConfigFits xpath c
    → read_spd_entry xpath node (config_changes xpath at c ++ [])
      ≡ ok (err_ok, config_entry c node, [])
unfolding read_spd_entry read_spd_loop config_changes read_loop
read_spd_entry-config_last xpath at c node fits =
    let ps : List Setting = settings at c in
    read_loop-values read_spd_value (λ rc. rc) xpath (map (λ p. item_value xpath (p.0)) ps) node _
      [] (values-Below xpath ps)
      (apply_values-Sets xpath at ps node (settings-Sets xpath at c fits)
        ∙ rw (run-settings at c node) refl)

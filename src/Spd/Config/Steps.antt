-- ===== src/Spd/Config/Steps.antt =====
-- What reading each leaf of a policy sets.
use ccips_cfgipsec.Base.{
  ℕ, ◌<◌, ◌^◌, ◌%◌, ◌≡◌, refl, Bool, true, false, List, [], ◌∷◌, ◌++◌, map, arith, ltb, ok, ◌>>=◌,
  ◌∙◌,
}
use ccips_cfgipsec.Base.Lists.{length, All}
use ccips_cfgipsec.Text.{Text, codes, str_eq, strcpy, strstr, strstr-infix}
use ccips_cfgipsec.Utils.Constants.{max_ip}
use ccips_cfgipsec.Sysrepo.{
  Data, number, string_val, bool_val, uint16_val, uint64_val, int16_val, go_on,
}
use ccips_cfgipsec.Spd.{SpdEntry}
use ccips_cfgipsec.Spd.Read.{
  direction, reqid, local_prefix, remote_prefix, inner_protocol, start, action, ext_seq_num,
  seq_overflow, pfp_flag, stateful_frag_check, mode, local, remote, bypass_dscp, ecn, df_bit,
  protocol_parameters, tfc_pad, read_direction, read_action, read_mode, read_df_bit,
  read_inner_protocol, read_start, read_spd_leaf, read_spd_value, other,
}
use ccips_cfgipsec.Sysrepo.ReadLoop.{apply_values}
use ccips_cfgipsec.Spd.ReadLaws.{
  Leaf, integrity_entry, algorithm_entry, branch, NoSlash, KeysFit, item_value, read_spd_value-item,
}
use mathlib.Core.List.{append_assoc, foldl}
use ccips_cfgipsec.Spd.Config.{
  Direction, Action, Mode, DfBit, InnerProtocol, dir_word, dir_number, act_word, act_number,
  mode_word, mode_number, df_word, df_number, inner_data, inner_number, InnerFits, flag, word,
  Setting, sel, info, cfg_path, leaf_at, PortsApart, inbound, outbound, protect, bypass, discard,
  transport, tunnel, clear, set, copy, protocol, any_at, SpdConfig, unread_at, esp_path,
  tunnel_path, local_path, remote_path,
}

-- The name of a list is in the path of a leaf of its entry.
holds :
    (xpath above name keys rest : Text)
    → strstr (xpath ++ ((above ++ (name ++ keys)) ++ rest)) name ≡ true
holds xpath above name keys rest =
    rw
      (
        append_assoc above (name ++ keys) rest,
        append_assoc name keys rest,
        ← append_assoc xpath above (name ++ (keys ++ rest)),
      )
      (strstr-infix (xpath ++ above) name (keys ++ rest))

module _ (xpath : Text) (at : ℕ) where
  abbrev pub Sets : Setting → Type 0
  Sets p =
      KeysFit (p.0.leaf)
      × ((node : SpdEntry)
          → read_spd_leaf (branch (p.0.leaf)) (item_value xpath (p.0)) node ≡ ok (go_on (p.1 node)))

  pub apply_values-Sets :
      (ps : List Setting) (node : SpdEntry)
      → All Sets ps
      → apply_values read_spd_value (λ rc. rc) (map (λ p. item_value xpath (p.0)) ps) node
        ≡ ok (go_on (foldl (λ n p. p.1 n) node ps))
  unfolding apply_values
  apply_values-Sets [] node h = refl
  apply_values-Sets (p ∷ ps) node ((keys, h), hs) =
      rw (read_spd_value-item xpath (p.0) node keys ∙ h node, ◌>>=◌)
        (apply_values-Sets ps (p.1 node) hs)

  pub set_direction :
      (d : Direction)
      → Sets
          (leaf_at [] direction (word at (dir_word d)), λ n. record n { policy_dir = dir_number d })
  unfolding read_spd_leaf string_val read_direction str_eq
  set_direction inbound = (tt, λ node. refl)
  set_direction outbound = (tt, λ node. refl)

  pub set_action :
      (a : Action)
      → Sets (leaf_at info action (word at (act_word a)), λ n. record n { action = act_number a })
  unfolding read_spd_leaf string_val read_action str_eq
  set_action protect = (tt, λ node. refl)
  set_action bypass = (tt, λ node. refl)
  set_action discard = (tt, λ node. refl)

  pub set_mode :
      (m : Mode)
      → Sets (
        leaf_at cfg_path mode (word at (mode_word m)),
        λ n. record n { ipsec_mode = mode_number m },
      )
  unfolding read_spd_leaf string_val read_mode str_eq
  set_mode transport = (tt, λ node. refl)
  set_mode tunnel = (tt, λ node. refl)

  pub set_df_bit :
      (b : DfBit)
      → Sets
          (leaf_at tunnel_path df_bit (word at (df_word b)), λ n. record n { df_bit = df_number b })
  unfolding read_spd_leaf string_val read_df_bit str_eq
  set_df_bit clear = (tt, λ node. refl)
  set_df_bit set = (tt, λ node. refl)
  set_df_bit copy = (tt, λ node. refl)

  pub set_reqid :
      (n : ℕ) → n < 2 ^ 64 → Sets (leaf_at [] reqid (number n), λ r. record r { req_id = n })
  unfolding read_spd_leaf uint64_val
  set_reqid n h = let e : n % 2 ^ 64 ≡ n = omega arith in (tt, λ node. rw e)

  -- No branch is for a leaf.
  pub skip :
      (b : Text) (l : Leaf) (d : Data)
      → KeysFit l
      → branch l ≡ other
      → Sets (unread_at b l d, λ r. r)
  unfolding read_spd_leaf
  skip b l d keys unread = (keys, λ node. rw unread refl)

  pub copied : (s : Text) → length s < max_ip → strcpy max_ip s ≡ ok s
  unfolding strcpy
  copied s h = let e : ltb (length s) max_ip ≡ true = ground arith in rw e

  module _ (s : Text) (fits : length s < max_ip) where
    pub set_local_prefix :
        Sets (leaf_at sel local_prefix (word at s), λ r. record r { local_subnet = s })
    unfolding read_spd_leaf string_val
    set_local_prefix = (tt, λ node. rw (copied s fits, ◌>>=◌))

    pub set_remote_prefix :
        Sets (leaf_at sel remote_prefix (word at s), λ r. record r { remote_subnet = s })
    unfolding read_spd_leaf string_val
    set_remote_prefix = (tt, λ node. rw (copied s fits, ◌>>=◌))

    pub set_local : Sets (leaf_at tunnel_path local (word at s), λ r. record r { tunnel_local = s })
    unfolding read_spd_leaf string_val
    set_local = (tt, λ node. rw (copied s fits, ◌>>=◌))

    pub set_remote :
        Sets (leaf_at tunnel_path remote (word at s), λ r. record r { tunnel_remote = s })
    unfolding read_spd_leaf string_val
    set_remote = (tt, λ node. rw (copied s fits, ◌>>=◌))

  pub set_inner :
      (p : InnerProtocol)
      → InnerFits p
      → Sets (
        leaf_at sel inner_protocol (inner_data p),
        λ r. record r { inner_protocol = inner_number p },
      )
  unfolding read_spd_leaf read_inner_protocol uint16_val string_val str_eq
  set_inner (protocol n) h =
      let e : n % 2 ^ 16 ≡ n = omega arith in
      let small : ltb 256 n ≡ false = ground arith in
      (tt, λ node. rw (e, read_inner_protocol) (rw small))
  set_inner (any_at a) h =
      let big : ltb 256 (a % 2 ^ 16) ≡ true = ground arith in
      (tt, λ node. rw (big, read_inner_protocol))

  module _ (c : SpdConfig) (apart : PortsApart xpath c) where
    pub set_local_port :
        c.local_ports.first < 2 ^ 16
        → Sets (
          leaf_at (local_path (c.local_ports.keys)) start (number (c.local_ports.first)),
          λ r. record r { srcport = c.local_ports.first },
        )
    unfolding read_spd_leaf read_start uint16_val
    set_local_port fits =
        let e : c.local_ports.first % 2 ^ 16 ≡ c.local_ports.first = omega (arith, fits) in
        (
          tt,
          λ node.
              rw
                (
                  holds xpath sel (codes "/local-ports") (c.local_ports.keys) (codes "/start"),
                  read_start,
                )
                (rw (apart.0, e)),
        )

    pub set_remote_port :
        c.remote_ports.first < 2 ^ 16
        → Sets (
          leaf_at (remote_path (c.remote_ports.keys)) start (number (c.remote_ports.first)),
          λ r. record r { dstport = c.remote_ports.first },
        )
    unfolding read_spd_leaf read_start uint16_val
    set_remote_port fits =
        let e : c.remote_ports.first % 2 ^ 16 ≡ c.remote_ports.first = omega (arith, fits) in
        (
          tt,
          λ node.
              rw
                (
                  holds xpath sel (codes "/remote-ports") (c.remote_ports.keys) (codes "/start"),
                  read_start,
                )
                (rw (apart.1, e)),
        )

  pub bool_val-flag : (b : Bool) → bool_val (flag b) ≡ b
  unfolding bool_val
  bool_val-flag true = refl
  bool_val-flag false = refl

  module _ (b : Bool) where
    pub set_esn : Sets (leaf_at cfg_path ext_seq_num (flag b), λ r. record r { ext_seq_num = b })
    unfolding read_spd_leaf
    set_esn = (tt, λ node. rw (bool_val-flag b))

    pub set_overflow :
        Sets (leaf_at cfg_path seq_overflow (flag b), λ r. record r { seq_overflow = b })
    unfolding read_spd_leaf
    set_overflow = (tt, λ node. rw (bool_val-flag b))

    pub set_pfp : Sets (leaf_at cfg_path pfp_flag (flag b), λ r. record r { pfp_flag = b })
    unfolding read_spd_leaf
    set_pfp = (tt, λ node. rw (bool_val-flag b))

    pub set_frag_check :
        Sets
          (leaf_at cfg_path stateful_frag_check (flag b), λ r. record r { stateful_frag_check = b })
    unfolding read_spd_leaf
    set_frag_check = (tt, λ node. rw (bool_val-flag b))

    pub set_dscp :
        Sets (leaf_at tunnel_path bypass_dscp (flag b), λ r. record r { bypass_dscp = b })
    unfolding read_spd_leaf
    set_dscp = (tt, λ node. rw (bool_val-flag b))

    pub set_ecn : Sets (leaf_at tunnel_path ecn (flag b), λ r. record r { ecn = b })
    unfolding read_spd_leaf
    set_ecn = (tt, λ node. rw (bool_val-flag b))

    pub set_tfc : Sets (leaf_at esp_path tfc_pad (flag b), λ r. record r { tfc_pad = b })
    unfolding read_spd_leaf
    set_tfc = (tt, λ node. rw (bool_val-flag b))

  int16_val-number : (n : ℕ) → n < 2 ^ 15 → int16_val (number n) ≡ n
  unfolding int16_val
  int16_val-number n fits = ground arith

  pub set_integrity :
      (keys : Text) (n : ℕ)
      → NoSlash keys
      → n < 2 ^ 15
      → Sets (
        unread_at esp_path (integrity_entry keys) (number n),
        λ r. record r { integrity_alg = n },
      )
  unfolding read_spd_leaf
  set_integrity keys n no_slash fits = (no_slash, λ node. rw (int16_val-number n fits))

  pub set_encryption :
      (keys : Text)
      → NoSlash keys
      → Sets (
        unread_at esp_path (algorithm_entry keys) (number 0),
        λ r. record r { encryption_alg = 0 },
      )
  unfolding read_spd_leaf
  set_encryption keys no_slash = (no_slash, λ node. rw (int16_val-number 0 (omega arith)))

  pub set_esp : Sets (
    leaf_at cfg_path protocol_parameters (word at (codes "esp")),
    λ r. record r { protocol_parameters = 50 },
  )
  unfolding read_spd_leaf string_val str_eq
  set_esp = (tt, λ node. refl)

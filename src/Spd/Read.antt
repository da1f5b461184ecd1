-- ===== src/Spd/Read.antt =====
-- `readSPD_entry` of src/sysrepo_utils/sysrepo_entries.c: the changes of one transaction are read into
-- a policy node as long as their paths begin with the entry's.
use ccips_cfgipsec.Base.{
  none, some, List, [], ◌∷◌, ltb, if◌then◌else◌, Run, ok, fault, null_deref, ◌>>=◌,
}
use ccips_cfgipsec.Text.{Text, codes, str_eq, starts_with, strrchr, strstr, strcpy}
use ccips_cfgipsec.Utils.Constants.{
  max_ip, ipsec_dir_inbound, ipsec_dir_outbound, ipsec_policy_discard, ipsec_policy_protect,
  ipsec_policy_bypass, ipsec_mode_transport, ipsec_mode_tunnel, ipsec_df_bit_clear,
  ipsec_df_bit_set, ipsec_df_bit_copy, ipsec_proto_esp,
}
use ccips_cfgipsec.Sysrepo.{
  Rc, validation_failed, Data, string_val, bool_val, uint16_val, uint64_val, int16_val, Value,
  Change, Verdict, go_on, leave,
}
use ccips_cfgipsec.Sysrepo.ReadLoop.{read_loop}
use ccips_cfgipsec.Spd.{SpdEntry}

-- The branches of the ladder of tests on the last step of a path, and `other` for what passes none.
pub data SpdLeaf : Type 0 where
  direction reqid anti_replay_window local_prefix remote_prefix inner_protocol start : SpdLeaf
  action ext_seq_num seq_overflow pfp_flag stateful_frag_check mode : SpdLeaf
  local remote bypass_dscp ecn df_bit protocol_parameters integrity encryption tfc_pad : SpdLeaf
  other : SpdLeaf

-- The second half of the ladder.
unfoldable pub spd_leaf_tail : Text → SpdLeaf
spd_leaf_tail name =
    if str_eq (codes "/mode") name
    then mode
    else (if str_eq (codes "/local") name
        then local
        else (if str_eq (codes "/remote") name
            then remote
            else (if str_eq (codes "/bypass-dscp") name
                then bypass_dscp
                else (if str_eq (codes "/ecn") name
                    then ecn
                    else (if str_eq (codes "/df-bit") name
                        then df_bit
                        else (if str_eq (codes "/protocol-parameters") name
                            then protocol_parameters
                            else (if strstr name (codes "/integrity")
                                then integrity
                                else (if strstr name (codes "/encryption")
                                    then encryption
                                    else (if str_eq (codes "/tfc-pad") name
                                        then tfc_pad
                                        else other)))))))))

unfoldable pub spd_leaf : Text → SpdLeaf
unfolding spd_leaf_tail str_eq starts_with strstr
spd_leaf name =
    if str_eq (codes "/direction") name
    then direction
    else (if str_eq (codes "/reqid") name
        then reqid
        else (if str_eq (codes "/anti-replay-window") name
            then anti_replay_window
            else (if str_eq (codes "/local-prefix") name
                then local_prefix
                else (if str_eq (codes "/remote-prefix") name
                    then remote_prefix
                    else (if str_eq (codes "/inner-protocol") name
                        then inner_protocol
                        else (if starts_with (codes "/start") name
                            then start
                            else (if str_eq (codes "/action") name
                                then action
                                else (if str_eq (codes "/ext-seq-num") name
                                    then ext_seq_num
                                    else (if str_eq (codes "/seq-overflow") name
                                        then seq_overflow
                                        else (if str_eq (codes "/pfp-flag") name
                                            then pfp_flag
                                            else (if str_eq (codes "/stateful-frag-check") name
                                                then stateful_frag_check
                                                else spd_leaf_tail name)))))))))))

unfoldable pub read_direction : SpdEntry → Text → Verdict SpdEntry
read_direction node s =
    if str_eq s (codes "outbound")
    then go_on (record node { policy_dir = ipsec_dir_outbound })
    else (if str_eq s (codes "inbound")
        then go_on (record node { policy_dir = ipsec_dir_inbound })
        else leave validation_failed node)

unfoldable pub read_action : SpdEntry → Text → Verdict SpdEntry
read_action node s =
    if str_eq s (codes "protect")
    then go_on (record node { action = ipsec_policy_protect })
    else (if str_eq s (codes "bypass")
        then go_on (record node { action = ipsec_policy_bypass })
        else (if str_eq s (codes "discard")
            then go_on (record node { action = ipsec_policy_discard })
            else leave validation_failed node))

unfoldable pub read_mode : SpdEntry → Text → Verdict SpdEntry
read_mode node s =
    if str_eq s (codes "transport")
    then go_on (record node { ipsec_mode = ipsec_mode_transport })
    else (if str_eq s (codes "tunnel")
        then go_on (record node { ipsec_mode = ipsec_mode_tunnel })
        else go_on node)

unfoldable pub read_df_bit : SpdEntry → Text → Verdict SpdEntry
read_df_bit node s =
    if str_eq s (codes "clear")
    then go_on (record node { df_bit = ipsec_df_bit_clear })
    else (if str_eq s (codes "set")
        then go_on (record node { df_bit = ipsec_df_bit_set })
        else (if str_eq s (codes "copy")
            then go_on (record node { df_bit = ipsec_df_bit_copy })
            else go_on node))

-- The value is read as a 16-bit number first, whatever it is, and as a text only if that is above
-- 256. The break leaves the node with the number.
unfoldable pub read_inner_protocol : SpdEntry → Data → Run (Verdict SpdEntry)
read_inner_protocol node d =
    let n = uint16_val d in
    if ltb 256 n
    then (do
      s ← string_val d
      ok (
          if str_eq s (codes "any")
          then go_on (record node { inner_protocol = 256 })
          else leave validation_failed (record node { inner_protocol = n })))
    else ok (go_on (record node { inner_protocol = n }))

-- Both tests are made, so a path with both steps sets both ports.
unfoldable pub read_start : SpdEntry → Value → SpdEntry
read_start node v =
    let node' =
      if strstr (v.xpath) (codes "/local-ports")
      then record node { srcport = uint16_val (v.val) }
      else node in
    if strstr (v.xpath) (codes "/remote-ports")
    then record node' { dstport = uint16_val (v.val) }
    else node'

-- The body of each branch.
unfoldable pub read_spd_leaf : SpdLeaf → Value → SpdEntry → Run (Verdict SpdEntry)
read_spd_leaf direction v node = do s ← string_val (v.val); ok (read_direction node s)
read_spd_leaf reqid v node = ok (go_on (record node { req_id = uint64_val (v.val) }))
read_spd_leaf anti_replay_window v node =
    ok (go_on (record node { anti_replay_window = uint64_val (v.val) }))
read_spd_leaf local_prefix v node = do
  s ← string_val (v.val)
  s' ← strcpy max_ip s
  ok (go_on (record node { local_subnet = s' }))
read_spd_leaf remote_prefix v node = do
  s ← string_val (v.val)
  s' ← strcpy max_ip s
  ok (go_on (record node { remote_subnet = s' }))
read_spd_leaf inner_protocol v node = read_inner_protocol node (v.val)
read_spd_leaf start v node = ok (go_on (read_start node v))
read_spd_leaf action v node = do s ← string_val (v.val); ok (read_action node s)
read_spd_leaf ext_seq_num v node = ok (go_on (record node { ext_seq_num = bool_val (v.val) }))
read_spd_leaf seq_overflow v node = ok (go_on (record node { seq_overflow = bool_val (v.val) }))
read_spd_leaf pfp_flag v node = ok (go_on (record node { pfp_flag = bool_val (v.val) }))
read_spd_leaf stateful_frag_check v node =
    ok (go_on (record node { stateful_frag_check = bool_val (v.val) }))
read_spd_leaf mode v node = do s ← string_val (v.val); ok (read_mode node s)
read_spd_leaf local v node = do
  s ← string_val (v.val)
  s' ← strcpy max_ip s
  ok (go_on (record node { tunnel_local = s' }))
read_spd_leaf remote v node = do
  s ← string_val (v.val)
  s' ← strcpy max_ip s
  ok (go_on (record node { tunnel_remote = s' }))
read_spd_leaf bypass_dscp v node = ok (go_on (record node { bypass_dscp = bool_val (v.val) }))
read_spd_leaf ecn v node = ok (go_on (record node { ecn = bool_val (v.val) }))
read_spd_leaf df_bit v node = do s ← string_val (v.val); ok (read_df_bit node s)
read_spd_leaf protocol_parameters v node = do
  s ← string_val (v.val)
  ok (
      go_on (
        if str_eq s (codes "esp")
        then record node { protocol_parameters = ipsec_proto_esp }
        else node))
read_spd_leaf integrity v node = ok (go_on (record node { integrity_alg = int16_val (v.val) }))
read_spd_leaf encryption v node = ok (go_on (record node { encryption_alg = int16_val (v.val) }))
read_spd_leaf tfc_pad v node = ok (go_on (record node { tfc_pad = bool_val (v.val) }))
read_spd_leaf other v node = ok (go_on node)

-- One value whose path begins with the entry's. `strcmp` reads through the NULL of a path with no `/`.
unfoldable pub read_spd_value : Value → SpdEntry → Run (Verdict SpdEntry)
read_spd_value v node = elim (strrchr (v.xpath) b'/') [
  | none ↦ fault null_deref
  | some name ↦ read_spd_leaf (spd_leaf name) v node
]

-- The do loop, which `return rc` and `break` leave with the code that the branch has set.
unfoldable pub read_spd_loop : Text → SpdEntry → List Change → Run (Rc × SpdEntry × List Change)
read_spd_loop = read_loop read_spd_value (λ rc. rc)

unfoldable pub read_spd_entry : Text → SpdEntry → List Change → Run (Rc × SpdEntry × List Change)
read_spd_entry xpath node [] = ok (validation_failed, node, [])
read_spd_entry xpath node (c ∷ rest) = read_spd_loop xpath node (c ∷ rest)

-- ===== src/Sad/Read.antt =====
-- `readSAD_entry` of src/sysrepo_utils/sysrepo_entries.c: the changes of one transaction are read into
-- a node of the association database as long as their paths begin with the entry's.
use ccips_cfgipsec.Base.{
  none, some, List, [], ◌∷◌, ltb, if◌then◌else◌, Run, ok, fault, null_deref, ◌>>=◌,
}
use ccips_cfgipsec.Text.{Text, codes, str_eq, str_case_eq, strrchr, strstr, strcpy, c_string}
use ccips_cfgipsec.Utils.Constants.{
  max_ip, max_key, ipsec_mode_transport, ipsec_mode_tunnel, ipsec_df_bit_clear, ipsec_df_bit_set,
  ipsec_df_bit_copy, ipsec_proto_esp,
}
use ccips_cfgipsec.Utils.Hex.{hexstr_to_char}
use ccips_cfgipsec.Sysrepo.{
  Rc, err_ok, not_found, validation_failed, Data, string_val, bool_val, uint16_val, uint32_val,
  uint64_val, int16_val, int32_val, Value, Change, Verdict, go_on, leave,
}
use ccips_cfgipsec.Sysrepo.ReadLoop.{read_loop}
use ccips_cfgipsec.Sad.{SadEntry}
use ccips_cfgipsec.Sad.Leaf.{
  SadLeaf, sad_leaf, reqid, spi, ext_seq_num, seq_number_counter, seq_overflow, anti_replay_window,
  local_prefix, remote_prefix, inner_protocol, start, mode, local, remote, bypass_dscp, ecn, df_bit,
  protocol_parameters, encryption_algorithm, iv, key, integrity_algorithm, time, bytes, packets,
  idle, other,
}

unfoldable pub read_mode : SadEntry → Text → SadEntry
read_mode node s =
    if str_case_eq s (codes "transport")
    then record node { ipsec_mode = ipsec_mode_transport }
    else (if str_case_eq s (codes "tunnel")
        then record node { ipsec_mode = ipsec_mode_tunnel }
        else node)

unfoldable pub read_df_bit : SadEntry → Text → SadEntry
read_df_bit node s =
    if str_eq s (codes "clear")
    then record node { df_bit = ipsec_df_bit_clear }
    else (if str_eq s (codes "set")
        then record node { df_bit = ipsec_df_bit_set }
        else (if str_eq s (codes "copy") then record node { df_bit = ipsec_df_bit_copy } else node))

-- The value is read as a 16-bit number first, whatever it is, and as a text only if that is above
-- 256. The break leaves the node with the number.
unfoldable pub read_inner_protocol : SadEntry → Data → Run (Verdict SadEntry)
read_inner_protocol node d =
    let n = uint16_val d in
    if ltb 256 n
    then (do
      s ← string_val d
      ok (
          if str_eq s (codes "any")
          then go_on (record node { inner_protocol = 256 })
          else leave validation_failed (record node { inner_protocol = n })))
    else ok (go_on (record node { inner_protocol = n }))

-- Both tests are made, so a path with both steps sets both ports.
unfoldable pub read_start : SadEntry → Value → SadEntry
read_start node v =
    let node' =
      if strstr (v.xpath) (codes "/local-ports")
      then record node { srcport = uint16_val (v.val) }
      else node in
    if strstr (v.xpath) (codes "/remote-ports")
    then record node' { dstport = uint16_val (v.val) }
    else node'

-- `strcpy(buffer, hexstr_to_char(text))`: the key is copied as a text, up to its first zero byte.
unfoldable pub copy_key : Text → Run Text
copy_key s = do
  decoded ← hexstr_to_char s
  elim decoded [ none ↦ fault null_deref | some bs ↦ strcpy max_key (c_string bs) ]

-- `hexstr_to_char` leaves its argument without colons, and a second call on that gives the same key.
unfoldable pub read_key : Value → SadEntry → Run SadEntry
read_key v node = do
  s ← string_val (v.val)
  node' ←
      if strstr (v.xpath) (codes "/encryption")
      then (do k ← copy_key s; ok (record node { encryption_key = k }))
      else ok node
  if strstr (v.xpath) (codes "/integrity")
      then (do k ← copy_key s; ok (record node' { integrity_key = k }))
      else ok node'

-- A soft limit, else a hard one, else none.
unfoldable pub read_lifetime : Text → SadEntry → SadEntry → SadEntry → SadEntry
read_lifetime xpath soft hard neither =
    if strstr xpath (codes "/sa-lifetime-soft")
    then soft
    else (if strstr xpath (codes "/sa-lifetime-hard") then hard else neither)

-- The body of each branch.
unfoldable pub read_sad_leaf : SadLeaf → Value → SadEntry → Run (Verdict SadEntry)
read_sad_leaf reqid v node = ok (go_on (record node { req_id = uint64_val (v.val) }))
read_sad_leaf spi v node = ok (go_on (record node { spi = uint32_val (v.val) }))
read_sad_leaf ext_seq_num v node = ok (go_on (record node { ext_seq_num = bool_val (v.val) }))
read_sad_leaf seq_number_counter v node =
    ok (go_on (record node { seq_number_counter = uint64_val (v.val) }))
read_sad_leaf seq_overflow v node = ok (go_on (record node { seq_overflow = bool_val (v.val) }))
read_sad_leaf anti_replay_window v node =
    ok (go_on (record node { anti_replay_window = uint64_val (v.val) }))
read_sad_leaf local_prefix v node = do
  s ← string_val (v.val)
  s' ← strcpy max_ip s
  ok (go_on (record node { local_subnet = s' }))
read_sad_leaf remote_prefix v node = do
  s ← string_val (v.val)
  s' ← strcpy max_ip s
  ok (go_on (record node { remote_subnet = s' }))
read_sad_leaf inner_protocol v node = read_inner_protocol node (v.val)
read_sad_leaf start v node = ok (go_on (read_start node v))
read_sad_leaf mode v node = do s ← string_val (v.val); ok (go_on (read_mode node s))
read_sad_leaf local v node = do
  s ← string_val (v.val)
  s' ← strcpy max_ip s
  ok (go_on (record node { tunnel_local = s' }))
read_sad_leaf remote v node = do
  s ← string_val (v.val)
  s' ← strcpy max_ip s
  ok (go_on (record node { tunnel_remote = s' }))
read_sad_leaf bypass_dscp v node = ok (go_on (record node { bypass_dscp = bool_val (v.val) }))
read_sad_leaf ecn v node = ok (go_on (record node { ecn = bool_val (v.val) }))
read_sad_leaf df_bit v node = do s ← string_val (v.val); ok (go_on (read_df_bit node s))
read_sad_leaf protocol_parameters v node = do
  s ← string_val (v.val)
  ok (
      go_on (
        if str_eq s (codes "esp")
        then record node { protocol_parameters = ipsec_proto_esp }
        else node))
read_sad_leaf encryption_algorithm v node =
    ok (go_on (record node { encryption_alg = int16_val (v.val) }))
read_sad_leaf iv v node = do
  s ← string_val (v.val)
  k ← copy_key s
  ok (go_on (record node { encryption_iv = k }))
read_sad_leaf key v node = do node' ← read_key v node; ok (go_on node')
read_sad_leaf integrity_algorithm v node =
    ok (go_on (record node { integrity_alg = int16_val (v.val) }))
read_sad_leaf time v node =
    let n = int32_val (v.val) in
    ok (
      go_on (
        read_lifetime (v.xpath) (record node { lft_time_soft = n })
          (record node { lft_time_hard = n }) node))
read_sad_leaf bytes v node =
    let n = int32_val (v.val) in
    ok (
      go_on (
        read_lifetime (v.xpath) (record node { lft_bytes_soft = n })
          (record node { lft_bytes_hard = n }) node))
read_sad_leaf packets v node =
    let n = int32_val (v.val) in
    ok (
      go_on (
        read_lifetime (v.xpath) (record node { lft_packets_soft = n })
          (record node { lft_packets_hard = n }) node))
read_sad_leaf idle v node =
    let n = int32_val (v.val) in
    ok (
      go_on (
        read_lifetime (v.xpath) (record node { lft_idle_soft = n })
          (record node { lft_idle_hard = n }) node))
read_sad_leaf other v node = ok (go_on node)

-- One value whose path begins with the entry's. `strcmp` reads through the NULL of a path with no `/`.
unfoldable pub read_sad_value : Value → SadEntry → Run (Verdict SadEntry)
read_sad_value v node = elim (strrchr (v.xpath) b'/') [
  | none ↦ fault null_deref
  | some name ↦ read_sad_leaf (sad_leaf name) v node
]

-- The do loop. The function returns SR_ERR_OK on every way out of it, the break of a bad inner protocol
-- included.
unfoldable pub read_sad_loop : Text → SadEntry → List Change → Run (Rc × SadEntry × List Change)
read_sad_loop = read_loop read_sad_value (λ rc. err_ok)

unfoldable pub read_sad_entry : Text → SadEntry → List Change → Run (Rc × SadEntry × List Change)
read_sad_entry xpath node [] = ok (not_found, node, [])
read_sad_entry xpath node (c ∷ rest) = read_sad_loop xpath node (c ∷ rest)

-- ===== src/Sad/Leaf.antt =====
-- The ladder of `readSAD_entry` of src/sysrepo_utils/sysrepo_entries.c on the last step of a path.
use ccips_cfgipsec.Base.{if◌then◌else◌}
use ccips_cfgipsec.Text.{Text, codes, str_eq, starts_with}

-- The branches of the ladder of tests on the last step of a path, and `other` for what passes none.
-- The five branches that the source has twice are here once: their second copies are never reached.
pub data SadLeaf : Type 0 where
  reqid spi ext_seq_num seq_number_counter seq_overflow anti_replay_window : SadLeaf
  local_prefix remote_prefix inner_protocol start mode local remote bypass_dscp ecn df_bit : SadLeaf
  protocol_parameters encryption_algorithm iv key integrity_algorithm : SadLeaf
  time bytes packets idle : SadLeaf
  other : SadLeaf

-- The second half of the ladder.
unfoldable pub sad_leaf_tail : Text → SadLeaf
sad_leaf_tail name =
    if str_eq (codes "/bypass-dscp") name
    then bypass_dscp
    else (if str_eq (codes "/ecn") name
        then ecn
        else (if str_eq (codes "/df-bit") name
            then df_bit
            else (if str_eq (codes "/protocol-parameters") name
                then protocol_parameters
                else (if str_eq (codes "/encryption-algorithm") name
                    then encryption_algorithm
                    else (if str_eq (codes "/iv") name
                        then iv
                        else (if starts_with (codes "/key") name
                            then key
                            else (if str_eq (codes "/integrity-algorithm") name
                                then integrity_algorithm
                                else (if str_eq (codes "/time") name
                                    then time
                                    else (if str_eq (codes "/bytes") name
                                        then bytes
                                        else (if str_eq (codes "/packets") name
                                            then packets
                                            else (if str_eq (codes "/idle") name
                                                then idle
                                                else other)))))))))))

unfoldable pub sad_leaf : Text → SadLeaf
unfolding sad_leaf_tail str_eq starts_with
sad_leaf name =
    if str_eq (codes "/reqid") name
    then reqid
    else (if str_eq (codes "/spi") name
        then spi
        else (if str_eq (codes "/ext-seq-num") name
            then ext_seq_num
            else (if str_eq (codes "/seq-number-counter") name
                then seq_number_counter
                else (if str_eq (codes "/seq-overflow") name
                    then seq_overflow
                    else (if str_eq (codes "/anti-replay-window") name
                        then anti_replay_window
                        else (if str_eq (codes "/local-prefix") name
                            then local_prefix
                            else (if str_eq (codes "/remote-prefix") name
                                then remote_prefix
                                else (if str_eq (codes "/inner-protocol") name
                                    then inner_protocol
                                    else (if starts_with (codes "/start") name
                                        then start
                                        else (if str_eq (codes "/mode") name
                                            then mode
                                            else (if str_eq (codes "/local") name
                                                then local
                                                else (if str_eq (codes "/remote") name
                                                    then remote
                                                    else sad_leaf_tail name))))))))))))

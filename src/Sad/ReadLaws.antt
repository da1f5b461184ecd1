-- ===== src/Sad/ReadLaws.antt =====
-- The ladder of `readSAD_entry`, its result code and its keys.
use ccips_cfgipsec.Base.{ℕ, ◌<◌, ◌≡◌, refl, Bool, true, List, ◌∷◌, ltb, arith, ok, ◌>>=◌}
use ccips_cfgipsec.Base.Lists.{length, All}
use ccips_cfgipsec.Text.{Text, codes, c_string, strcpy}
use ccips_cfgipsec.Utils.Constants.{max_key}
use ccips_cfgipsec.Utils.HexLaws.{IsByte, format_key, hexstr_to_char-format_key}
use ccips_cfgipsec.Sysrepo.{Rc, err_ok, Change}
use ccips_cfgipsec.Sysrepo.ReadLoop.{read_loop-code}
use ccips_cfgipsec.Sad.{SadEntry}
use ccips_cfgipsec.Sad.Leaf.{
  SadLeaf, reqid, spi, ext_seq_num, seq_number_counter, seq_overflow, anti_replay_window,
  local_prefix, remote_prefix, inner_protocol, start, mode, local, remote, bypass_dscp, ecn, df_bit,
  protocol_parameters, encryption_algorithm, iv, key, integrity_algorithm, time, bytes, packets,
  idle, other, sad_leaf,
}
use ccips_cfgipsec.Sad.Read.{copy_key, read_sad_value, read_sad_loop, read_sad_entry}

-- The step that names each leaf in the YANG model.
abbrev pub leaf_step : SadLeaf → Text
leaf_step reqid = codes "/reqid"
leaf_step spi = codes "/spi"
leaf_step ext_seq_num = codes "/ext-seq-num"
leaf_step seq_number_counter = codes "/seq-number-counter"
leaf_step seq_overflow = codes "/seq-overflow"
leaf_step anti_replay_window = codes "/anti-replay-window"
leaf_step local_prefix = codes "/local-prefix"
leaf_step remote_prefix = codes "/remote-prefix"
leaf_step inner_protocol = codes "/inner-protocol"
leaf_step start = codes "/start"
leaf_step mode = codes "/mode"
leaf_step local = codes "/local"
leaf_step remote = codes "/remote"
leaf_step bypass_dscp = codes "/bypass-dscp"
leaf_step ecn = codes "/ecn"
leaf_step df_bit = codes "/df-bit"
leaf_step protocol_parameters = codes "/protocol-parameters"
leaf_step encryption_algorithm = codes "/encryption-algorithm"
leaf_step iv = codes "/iv"
leaf_step key = codes "/key"
leaf_step integrity_algorithm = codes "/integrity-algorithm"
leaf_step time = codes "/time"
leaf_step bytes = codes "/bytes"
leaf_step packets = codes "/packets"
leaf_step idle = codes "/idle"
leaf_step other = codes "/end"

-- Every step of an association is sorted into its own branch: no test of the ladder hides a later one.
pub sad_leaf-leaf_step : (l : SadLeaf) → sad_leaf (leaf_step l) ≡ l
unfolding sad_leaf
sad_leaf-leaf_step reqid = refl
sad_leaf-leaf_step _ = refl

-- Reading an association never fails: where it comes to an end it reports SR_ERR_OK, unless the
-- iterator was empty. An inner protocol that is no number and not `any` does not change that.
pub read_sad_entry-ok :
    (xpath : Text) (node node' : SadEntry) (c : Change) (it rest : List Change) (rc : Rc)
    → read_sad_entry xpath node (c ∷ it) ≡ ok (rc, node', rest)
    → rc ≡ err_ok
unfolding read_sad_entry read_sad_loop
read_sad_entry-ok xpath node node' c it rest rc run =
    read_loop-code read_sad_value (λ rc. err_ok) (λ rc. refl) xpath node node' (c ∷ it) rest rc run

-- A key that is printed as pairs of hexadecimal digits with `:` between them is stored up to its first
-- zero byte, where that fits the buffer.
pub copy_key-format_key :
    (upper : Bool) (bs : List ℕ)
    → All IsByte bs
    → length (c_string bs) < max_key
    → copy_key (format_key upper bs) ≡ ok (c_string bs)
unfolding copy_key strcpy
copy_key-format_key upper bs h fits =
    let e : ltb (length (c_string bs)) max_key ≡ true = ground arith in
    rw (hexstr_to_char-format_key upper bs h, ◌>>=◌) (rw e refl)

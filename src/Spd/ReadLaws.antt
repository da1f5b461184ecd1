-- ===== src/Spd/ReadLaws.antt =====
-- What `readSPD_entry` makes of the changes that sysrepo reports for one policy.
use ccips_cfgipsec.Base.{◌==◌, false, ◌≡◌, ◌≢◌, refl, some, [], ◌∷◌, ◌++◌, arith}
use ccips_cfgipsec.Base.Lists.{All, All-append}
use ccips_cfgipsec.Text.{Text, codes, strrchr, strstr, starts_with, str_eq, strrchr-last}
use ccips_cfgipsec.Sysrepo.{Data, Value}
use ccips_cfgipsec.Spd.{SpdEntry}
use ccips_cfgipsec.Spd.Read.{
  SpdLeaf, direction, reqid, anti_replay_window, local_prefix, remote_prefix, inner_protocol, start,
  action, ext_seq_num, seq_overflow, pfp_flag, stateful_frag_check, mode, local, remote,
  bypass_dscp, ecn, df_bit, protocol_parameters, integrity, encryption, tfc_pad, other, spd_leaf,
  read_spd_leaf, read_spd_value,
}
use mathlib.Core.List.{append_assoc}

abbrev pub NoSlash : Text → Type 0
NoSlash s = All (λ c. c ≢ b'/') s

-- The name that each branch looks for, some of which the YANG model does not have; `other` has one that no branch is for.
abbrev pub leaf_step : SpdLeaf → Text
leaf_step direction = codes "direction"
leaf_step reqid = codes "reqid"
leaf_step anti_replay_window = codes "anti-replay-window"
leaf_step local_prefix = codes "local-prefix"
leaf_step remote_prefix = codes "remote-prefix"
leaf_step inner_protocol = codes "inner-protocol"
leaf_step start = codes "start"
leaf_step action = codes "action"
leaf_step ext_seq_num = codes "ext-seq-num"
leaf_step seq_overflow = codes "seq-overflow"
leaf_step pfp_flag = codes "pfp-flag"
leaf_step stateful_frag_check = codes "stateful-frag-check"
leaf_step mode = codes "mode"
leaf_step local = codes "local"
leaf_step remote = codes "remote"
leaf_step bypass_dscp = codes "bypass-dscp"
leaf_step ecn = codes "ecn"
leaf_step df_bit = codes "df-bit"
leaf_step protocol_parameters = codes "protocol-parameters"
leaf_step integrity = codes "integrity"
leaf_step encryption = codes "encryption"
leaf_step tfc_pad = codes "tfc-pad"
leaf_step other = codes "end"

-- Every such name is sorted into its own branch: no test of the ladder hides a later one.
pub spd_leaf-leaf_step : (l : SpdLeaf) → spd_leaf (b'/' ∷ leaf_step l) ≡ l
unfolding spd_leaf
spd_leaf-leaf_step direction = refl
spd_leaf-leaf_step _ = refl

leaf_step-NoSlash : (l : SpdLeaf) → NoSlash (leaf_step l)
leaf_step-NoSlash direction = omega arith
leaf_step-NoSlash _ = omega arith

-- A node of the YANG model: one that a branch is for; an entry of the leaf-list `integrity` or of the list `encryption`, with
-- its keys as sysrepo prints them behind the name; or one that no branch is for: the size of the window, a range of ports and
-- its end, or a leaf of an encryption algorithm.
pub data Leaf : Type 0 where
  known : SpdLeaf → Leaf
  window_size end_port algorithm_id algorithm_type key_length : Leaf
  integrity_entry algorithm_entry local_range remote_range : Text → Leaf

abbrev pub step : Leaf → Text
step (known l) = leaf_step l
step window_size = codes "anti-replay-window-size"
step end_port = codes "end"
step algorithm_id = codes "id"
step algorithm_type = codes "algorithm-type"
step key_length = codes "key-length"
step (integrity_entry keys) = codes "integrity[" ++ keys
step (algorithm_entry keys) = codes "encryption[" ++ keys
step (local_range keys) = codes "local-ports" ++ keys
step (remote_range keys) = codes "remote-ports" ++ keys

abbrev pub branch : Leaf → SpdLeaf
branch (known l) = l
branch (integrity_entry keys) = integrity
branch (algorithm_entry keys) = encryption
branch _ = other

-- The keys of an entry hold no slash.
abbrev pub KeysFit : Leaf → Type 0
KeysFit (integrity_entry keys) = NoSlash keys
KeysFit (algorithm_entry keys) = NoSlash keys
KeysFit (local_range keys) = NoSlash keys
KeysFit (remote_range keys) = NoSlash keys
KeysFit _ = Unit

step-NoSlash : (l : Leaf) → KeysFit l → NoSlash (step l)
step-NoSlash (known l) fits = leaf_step-NoSlash l
step-NoSlash (integrity_entry keys) fits =
    All-append (λ c. c ≢ b'/') (codes "integrity[") keys (omega arith) fits
step-NoSlash (algorithm_entry keys) fits =
    All-append (λ c. c ≢ b'/') (codes "encryption[") keys (omega arith) fits
step-NoSlash (local_range keys) fits =
    All-append (λ c. c ≢ b'/') (codes "local-ports") keys (omega arith) fits
step-NoSlash (remote_range keys) fits =
    All-append (λ c. c ≢ b'/') (codes "remote-ports") keys (omega arith) fits
step-NoSlash window_size fits = omega arith
step-NoSlash _ fits = omega arith

strstr-NoSlash : (s m : Text) → NoSlash s → strstr s (b'/' ∷ m) ≡ false
unfolding strstr starts_with
strstr-NoSlash [] m no_slash = refl
strstr-NoSlash (c ∷ s) m (other_byte, no_slash) =
    let e : (b'/' == c) ≡ false = ground arith in rw e (strstr-NoSlash s m no_slash)

-- Each is sorted into its branch: no test of the ladder hides a later one.
spd_leaf-step : (l : Leaf) → KeysFit l → spd_leaf (b'/' ∷ step l) ≡ branch l
unfolding spd_leaf strstr starts_with str_eq
spd_leaf-step (known l) fits = spd_leaf-leaf_step l
spd_leaf-step (algorithm_entry keys) fits =
    rw
      (
        strstr-NoSlash (step (algorithm_entry keys)) (codes "integrity")
            (step-NoSlash (algorithm_entry keys) fits),
        spd_leaf,
      )
      refl
spd_leaf-step (local_range keys) fits =
    let lacks : (m : Text) → strstr (step (local_range keys)) (b'/' ∷ m) ≡ false =
      λ m. strstr-NoSlash (step (local_range keys)) m (step-NoSlash (local_range keys) fits) in
    rw (lacks (codes "integrity"), spd_leaf) (rw (lacks (codes "encryption"), spd_leaf) refl)
spd_leaf-step (remote_range keys) fits =
    let lacks : (m : Text) → strstr (step (remote_range keys)) (b'/' ∷ m) ≡ false =
      λ m. strstr-NoSlash (step (remote_range keys)) m (step-NoSlash (remote_range keys) fits) in
    rw (lacks (codes "integrity"), spd_leaf) (rw (lacks (codes "encryption"), spd_leaf) refl)
spd_leaf-step window_size fits = refl
spd_leaf-step _ fits = refl

-- A leaf below the entry: the steps between the entry and it, its own step, and its value.
pub record Item : Type 0 where
  pub between : Text
  pub leaf : Leaf
  pub val : Data

abbrev pub item_value : Text → Item → Value
item_value xpath i = record { xpath = xpath ++ (i.between ++ (b'/' ∷ step (i.leaf))); val = i.val }

pub read_spd_value-item :
    (xpath : Text) (i : Item) (node : SpdEntry)
    → KeysFit (i.leaf)
    → read_spd_value (item_value xpath i) node
      ≡ read_spd_leaf (branch (i.leaf)) (item_value xpath i) node
unfolding read_spd_value
read_spd_value-item xpath i node fits =
    let last : strrchr (xpath ++ (i.between ++ (b'/' ∷ step (i.leaf)))) b'/'
        ≡ some (b'/' ∷ step (i.leaf)) =
      rw (← append_assoc xpath (i.between) (b'/' ∷ step (i.leaf)))
        (strrchr-last (xpath ++ i.between) (step (i.leaf)) b'/' (step-NoSlash (i.leaf) fits)) in
    rw (last, read_spd_value) (rw (spd_leaf-step (i.leaf) fits))

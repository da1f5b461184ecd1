-- ===== src/State.antt =====
-- `get_sad_state` of src/sysrepo_utils/sysrepo_entries.c, and the two functions of
-- src/sysrepo_utils/sysrepo_utils.c that only pass a result on. `lyd_new_path` of libyang is two
-- parameters: without a tree it makes one that holds a leaf with a value, or gives NULL; with one it puts the leaf into that.
pub mod Walk
pub mod Notify
pub mod NotifyLaws
use ccips_cfgipsec.Base.{
  ℕ, zero, suc, ◌%◌, ◌^◌, Bool, true, false, ◌&&◌, Option, none, some, List, [], ◌∷◌, ◌++◌, ◌==◌,
  if◌then◌else◌, Run, ok, fault, out_of_fuel, ◌>>=◌,
}
use ccips_cfgipsec.Text.{Text, codes, str_eq, strcpy}
use ccips_cfgipsec.Utils.Constants.{max_path}
use ccips_cfgipsec.Utils.Decimal.{decimal}
use ccips_cfgipsec.Sysrepo.{Rc, err_ok, internal, is_ok}
use ccips_cfgipsec.Store.{Ptr, null, Store, load, set_payload}
use ccips_cfgipsec.Sad.{SadEntry}
use ccips_cfgipsec.PfKey.Lifetime.{pf_get_sad_lifetime_current_by_spi}

-- The path that is printed for an association.
abbrev pub state_path : Text → SadEntry → Text
state_path xpath e =
    xpath ++ (codes "[name='" ++ (e.name ++ codes "']/ipsec-sa-state/sa-lifetime-current"))

-- `sprintf(buf, "%u", n)` of an unsigned long
abbrev pub low_word : ℕ → Text
low_word n = decimal (n % 2 ^ 32)

-- `reads` is what the kernel answers while an association is looked up.
module _ {T : Type 0} (new_tree : Text → Text → Option T) (add_leaf : T → Text → Text → T)
    (reads : SadEntry → List (ℕ × List ℕ)) where
  -- A leaf for `*parent`: without a tree and a context libyang does nothing.
  unfoldable pub put_leaf : Text → Text → ℕ → Option T → Run (Option T)
  put_leaf base leaf n tree = do
    path ← strcpy max_path (base ++ leaf)
    ok (elim tree [ none ↦ none | some t ↦ some (add_leaf t path (low_word n)) ])

  -- The leaf `bytes`: that of the first association makes a new tree, which replaces `*parent`.
  unfoldable pub put_bytes : Bool → Text → ℕ → Option T → Run (Option T)
  unfolding put_leaf
  put_bytes true base n tree = do
    path ← strcpy max_path (base ++ codes "/bytes")
    ok (new_tree path (low_word n))
  put_bytes false base n tree = put_leaf base (codes "/bytes") n tree

  -- The while loop over the list. `first` is `i == 0`.
  unfoldable pub state_loop :
      ℕ → Text → Store SadEntry → Ptr → Bool → Option T → Run (Rc × Store SadEntry × Option T)
  state_loop zero xpath s node first tree = fault out_of_fuel
  state_loop (suc fuel) xpath s node first tree = elim (node == null) [
    | true ↦ ok (err_ok, s, tree)
    | false ↦ do
      c ← load s node
      new_xpath ← strcpy max_path (state_path xpath (c.payload))
      (rc, e) ← pf_get_sad_lifetime_current_by_spi (reads (c.payload)) (c.payload)
      s' ← set_payload s node e
      elim (is_ok rc) [
        | false ↦ ok (rc, s', tree)
        | true ↦ do
          tree1 ← put_bytes first new_xpath (e.lft_bytes_current) tree
          tree2 ← put_leaf new_xpath (codes "/packets") (e.lft_packets_current) tree1
          tree3 ← put_leaf new_xpath (codes "/idle") (e.lft_idle_current) tree2
          tree4 ← put_leaf new_xpath (codes "/time") (e.lft_time_current) tree3
          state_loop fuel xpath s' (c.next) false tree4
      ]
  ]

  unfoldable pub get_sad_state :
      Text → Text → Store SadEntry → Option T → Run (Rc × Store SadEntry × Option T)
  get_sad_state module_name xpath s tree =
      elim (str_eq module_name (codes "ietf-ipsec-ikeless")
        && str_eq xpath (codes "/ietf-i2nsf-ikeless:ipsec-ikeless/sad/sad-entry")) [
          | true ↦ state_loop (suc (s.brk)) xpath s (s.head) true tree
          | false ↦ ok (err_ok, s, tree)
        ]

  unfoldable pub sad_state_cb :
      Text → Text → Store SadEntry → Option T → Run (Rc × Store SadEntry × Option T)
  sad_state_cb module_name xpath s tree = do
    (rc, s', tree') ← get_sad_state module_name xpath s tree
    elim (is_ok rc) [ true ↦ ok (err_ok, s', tree') | false ↦ ok (rc, s', tree') ]

-- `pf_exec_register` gives zero for success.
unfoldable pub sadb_register : ℕ → Rc
sadb_register exec = if exec == 0 then err_ok else internal

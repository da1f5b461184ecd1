-- ===== src/Entries/Spd.antt =====
-- `addSPD_entry` and `removeSPD_entry`, as compiled on Linux.
pub mod Install
pub mod Apply
use ccips_cfgipsec.Base.{
  ℕ, ◌≡◌, Bool, true, false, Option, none, some, List, [], ◌∷◌, ◌==◌, if◌then◌else◌, Run, ok, ◌>>=◌,
}
use ccips_cfgipsec.Text.{Text, str_eq, strcpy}
use ccips_cfgipsec.Utils.Constants.{max_path, ipsec_dir_inbound, ipsec_dir_forward}
use ccips_cfgipsec.Sysrepo.{Rc, err_ok, operation_failed, is_ok, Change}
use ccips_cfgipsec.Store.{
  Ptr, null, Cell, cell_of, Store, malloc, load, set_payload, add_node, get_node, del_node,
}
use ccips_cfgipsec.Spd.{SpdEntry, create_spd_node}
use ccips_cfgipsec.Spd.Read.{read_spd_entry}
use ccips_cfgipsec.Entries.{Pfkey}

-- `!strcmp(node->name, name)`
abbrev pub named : Text → SpdEntry → Bool
named name e = str_eq (e.name) name

-- The functions on the list `init_spd_node`.
abbrev pub get_spd_node : Text → Store SpdEntry → Run Ptr
get_spd_node name = get_node (named name)

abbrev pub get_spd_node_by_index : ℕ → Store SpdEntry → Run Ptr
get_spd_node_by_index index = get_node (λ e. e.index == index)

abbrev pub add_spd_node : Store SpdEntry → Ptr → Run (Store SpdEntry)
add_spd_node = add_node

abbrev pub del_spd_node : Text → Cell SpdEntry → Store SpdEntry → Run (Bool × Store SpdEntry)
del_spd_node name = del_node (named name)

-- A fresh node where `malloc` gives memory that holds `garbage`: its `next` is not set.
abbrev pub spd_cell : Cell SpdEntry → Cell SpdEntry
spd_cell garbage = cell_of (create_spd_node (garbage.payload)) (garbage.next)

-- `garbage` is what fresh memory holds, by its address.
module _ (pf : Pfkey) (garbage : Ptr → Cell SpdEntry) where
  open pf use {Kernel, pf_addpolicy, pf_delpolicy}

  abbrev pub SpdState : Type 0
  SpdState = Store SpdEntry × Kernel

  -- The two calls of `pf_addpolicy` for the node `node`: a policy that is inbound is added as a forward
  -- policy too. The second call is given the direction `forward`, which is put back behind it.
  unfoldable pub install_policy : Ptr → SpdEntry → SpdState → Run (Rc × SpdState)
  install_policy node entry (s, k) = do
    (rc, e, k') ← pf_addpolicy entry k
    s' ← set_payload s node e
    elim (is_ok rc) [
      | false ↦ ok (rc, (s', k'))
      | true ↦ elim (e.policy_dir == ipsec_dir_inbound) [
        | false ↦ ok (err_ok, (s', k'))
        | true ↦ do
          (rc', e', k'') ← pf_addpolicy (record e { policy_dir = ipsec_dir_forward }) k'
          s'' ← set_payload s' node (record e' { policy_dir = ipsec_dir_inbound })
          ok (rc', (s'', k''))
      ]
    ]

  -- The result has what the change iterator still holds. Nothing else points at the new node before it is
  -- linked, so it is allocated here with the fields that reading gives it.
  unfoldable pub add_spd_entry :
      Text → Text → ℕ → List Change → SpdState → Run (Rc × SpdState × List Change)
  add_spd_entry xpath spd_name case_value it (s, k) = do
    found ← get_spd_node spd_name s
    elim (found == null) [
      | false ↦ ok (err_ok, (s, k), it)
      | true ↦ do
        name ← strcpy max_path spd_name
        let fresh = spd_cell (garbage (s.brk))
        (rc, entry, rest) ← read_spd_entry xpath (record (fresh.payload) { name = name }) it
        let (node, s') = malloc (cell_of entry (fresh.next)) s
        elim (is_ok rc) [
          | false ↦ ok (rc, (s', k), rest)
          | true ↦ do
            s'' ← add_spd_node s' node
            elim (case_value == 2) [
              | false ↦ ok (err_ok, (s'', k), rest)
              | true ↦ do (rc', state) ← install_policy node entry (s'', k); ok (rc', state, rest)
            ]
        ]
    ]

  -- The calls of `pf_delpolicy`: for an inbound policy the second call's code is the one that counts.
  -- The direction is put back before anything else reads it.
  unfoldable pub withdraw_policy : SpdEntry → Kernel → Run (Rc × Kernel)
  withdraw_policy e k = do
    (rc, k') ← pf_delpolicy e k
    elim (e.policy_dir == ipsec_dir_inbound) [
      | true ↦ pf_delpolicy (record e { policy_dir = ipsec_dir_forward }) k'
      | false ↦ ok (rc, k')
    ]

  unfoldable pub remove_spd_entry : Text → ℕ → SpdState → Run (Rc × SpdState)
  remove_spd_entry spd_name case_value (s, k) = elim (case_value == 1) [
    | true ↦ ok (err_ok, (s, k))
    | false ↦ do
      node ← get_spd_node spd_name s
      elim (node == null) [
        | true ↦ ok (operation_failed, (s, k))
        | false ↦ do
          c ← load s node
          (rc, k') ← withdraw_policy (c.payload) k
          elim (is_ok rc) [
            | false ↦ ok (rc, (s, k'))
            | true ↦ do
              (found, s') ← del_spd_node spd_name (spd_cell (garbage (s.brk))) s
              ok (if found then err_ok else operation_failed, (s', k'))
          ]
      ]
  ]

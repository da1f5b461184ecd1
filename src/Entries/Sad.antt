-- ===== src/Entries/Sad.antt =====
-- `addSAD_entry` and `removeSAD_entry`.
pub mod Apply
use ccips_cfgipsec.Base.{
  ℕ, ◌≡◌, Bool, true, false, Option, none, some, List, [], ◌∷◌, ◌==◌, if◌then◌else◌, Run, ok, ◌>>=◌,
}
use ccips_cfgipsec.Text.{Text, str_eq, strcpy}
use ccips_cfgipsec.Utils.Constants.{max_path}
use ccips_cfgipsec.Sysrepo.{Rc, err_ok, operation_failed, is_ok, Change}
use ccips_cfgipsec.Store.{
  Ptr, null, Cell, cell_of, Store, malloc, load, add_node, get_node, del_node,
}
use ccips_cfgipsec.Sad.{SadEntry, create_sad_node}
use ccips_cfgipsec.Sad.Read.{read_sad_entry}
use ccips_cfgipsec.Entries.{Pfkey}

-- `!strcmp(node->name, sad_name)`
abbrev pub named : Text → SadEntry → Bool
named name e = str_eq (e.name) name

-- The functions on the list `init_sad_node`.
abbrev pub get_sad_node : Text → Store SadEntry → Run Ptr
get_sad_node name = get_node (named name)

abbrev pub get_sad_node_by_spi : ℕ → Store SadEntry → Run Ptr
get_sad_node_by_spi spi = get_node (λ e. e.spi == spi)

abbrev pub add_sad_node : Store SadEntry → Ptr → Run (Store SadEntry)
add_sad_node = add_node

abbrev pub del_sad_node : Text → Cell SadEntry → Store SadEntry → Run (Bool × Store SadEntry)
del_sad_node name = del_node (named name)

-- A fresh node where `malloc` gives memory that holds `garbage`: its `next` is NULL.
abbrev pub sad_cell : SadEntry → Cell SadEntry
sad_cell garbage = cell_of (create_sad_node garbage) null

-- `garbage` is what fresh memory holds, by its address.
module _ (pf : Pfkey) (garbage : Ptr → SadEntry) where
  open pf use {Kernel, pf_addsad, pf_delsad, pf_getsad}

  abbrev pub SadState : Type 0
  SadState = Store SadEntry × Kernel

  -- The node stays in the list where the kernel refuses it.
  unfoldable pub add_sad_entry :
      Text → Text → List Change → SadState → Run (Rc × SadState × List Change)
  add_sad_entry xpath sad_name it (s, k) = do
    name ← strcpy max_path sad_name
    let fresh = sad_cell (garbage (s.brk))
    (rc, entry, rest) ← read_sad_entry xpath (record (fresh.payload) { name = name }) it
    let (node, s') = malloc (cell_of entry null) s
    elim (is_ok rc) [
      | false ↦ ok (rc, (s', k), rest)
      | true ↦ do
        s'' ← add_sad_node s' node
        (rc', k') ← pf_addsad entry k
        (rc'', k'') ← pf_getsad entry k'
        ok (rc', (s'', k''), rest)
    ]

  unfoldable pub remove_sad_entry : Text → SadState → Run (Rc × SadState)
  remove_sad_entry sad_name (s, k) = do
    node ← get_sad_node sad_name s
    elim (node == null) [
      | true ↦ ok (operation_failed, (s, k))
      | false ↦ do
        c ← load s node
        (rc, k') ← pf_getsad (c.payload) k
        (rc', k'') ← pf_delsad (c.payload) k'
        elim (is_ok rc') [
          | false ↦ ok (operation_failed, (s, k''))
          | true ↦ do
            (found, s') ← del_sad_node sad_name (sad_cell (garbage (s.brk))) s
            ok (if found then err_ok else operation_failed, (s', k''))
        ]
    ]

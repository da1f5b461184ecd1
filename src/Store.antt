-- ===== src/Store.antt =====
-- The singly linked lists of src/sysrepo_utils/sysrepo_entries.c (`init_spd_node`, `init_sad_node`)
-- over an explicit heap. The two families of functions there are the same text over two node types;
-- here they are one family over the type `A` of a node's fields other than `next`. Addresses are
-- handed out in rising order and never twice, so a freed address stays dead.
pub mod Seg
pub mod Find
pub mod Add
pub mod Cut
pub mod Delete
pub mod Last
use ccips_cfgipsec.Base.{
  ℕ, zero, suc, ◌+◌, Bool, true, false, Option, none, some, ◌==◌, if◌then◌else◌, Run, ok, fault,
  null_deref, bad_pointer, out_of_fuel, ◌>>=◌,
}

abbrev pub Ptr : Type 0
Ptr = ℕ

abbrev pub null : Ptr
null = 0

pub record Cell (A : Type 0) : Type 0 where
  pub payload : A
  pub next : Ptr

abbrev pub cell_of : {A : Type 0} → A → Ptr → Cell A
cell_of a n = record { payload = a; next = n }

-- `head` is the global variable; addresses from `brk` on were never handed out.
pub record Store (A : Type 0) : Type 0 where
  pub cell : Ptr → Option (Cell A)
  pub head : Ptr
  pub brk : Ptr

module _ {A : Type 0} where
  abbrev pub write : Store A → Ptr → Option (Cell A) → Store A
  write s p c = record s { cell = λ q. if q == p then c else s.cell q }

  -- `malloc`, with what the fresh memory holds once the node's fields are set
  abbrev pub malloc : Cell A → Store A → Ptr × Store A
  malloc c s = (s.brk, write (record s { brk = s.brk + 1 }) s.brk (some c))

  -- `*p`
  unfoldable pub load : Store A → Ptr → Run (Cell A)
  load s p =
      if p == null
      then fault null_deref
      else elim (s.cell p) [ none ↦ fault bad_pointer | some c ↦ ok c ]

  -- `p->next = q`
  unfoldable pub set_next : Store A → Ptr → Ptr → Run (Store A)
  set_next s p q = do c ← load s p; ok (write s p (some (record c { next = q })))

  -- a write to the other fields of `*p`
  unfoldable pub set_payload : Store A → Ptr → A → Run (Store A)
  set_payload s p a = do c ← load s p; ok (write s p (some (record c { payload = a })))

  unfoldable pub free_node : Store A → Ptr → Run (Store A)
  free_node s p = if p == null then ok s else do _ ← load s p; ok (write s p none)

  -- The walk to the last node and the write behind it.
  unfoldable pub last_loop : ℕ → Store A → Ptr → Ptr → Run (Store A)
  last_loop zero s node entry = fault out_of_fuel
  last_loop (suc fuel) s node entry = do
    c ← load s node
    elim (c.next == null) [ true ↦ set_next s node entry | false ↦ last_loop fuel s c.next entry ]

  unfoldable pub add_node : Store A → Ptr → Run (Store A)
  add_node s entry =
      if s.head == null
      then set_next (record s { head = entry }) entry null
      else last_loop (suc s.brk) s s.head entry

  module _ (test : A → Bool) where
    -- The walk of `get_*_node` and `get_*_node_by_*`: the first node that passes, or NULL.
    unfoldable pub find_loop : ℕ → Store A → Ptr → Run Ptr
    find_loop zero s node = fault out_of_fuel
    find_loop (suc fuel) s node = elim (node == null) [
      | true ↦ ok null
      | false ↦ do
        c ← load s node
        elim (test c.payload) [ true ↦ ok node | false ↦ find_loop fuel s c.next ]
    ]

    unfoldable pub get_node : Store A → Run Ptr
    get_node s = find_loop (suc s.brk) s s.head

    -- The walk of `del_*_node`, which does not test for NULL: `prev_node` and `node` at its end.
    unfoldable pub del_loop : ℕ → Store A → Ptr → Ptr → Run (Ptr × Ptr)
    del_loop zero s prev_node node = fault out_of_fuel
    del_loop (suc fuel) s prev_node node = do
      c ← load s node
      elim (test c.payload) [ true ↦ ok (prev_node, node) | false ↦ del_loop fuel s node c.next ]

    -- Behind the walk: unlink `node` and free it, or free `prev_node` where `node` is the head.
    unfoldable pub unlink : Store A → Ptr → Ptr → Run (Store A)
    unlink s prev_node node =
        if node == s.head
        then (do c ← load s node; free_node (record s { head = c.next }) prev_node)
        else do
          c ← load s node
          if test c.payload then (do s' ← set_next s prev_node c.next; free_node s' node) else ok s

    -- `scratch` is the node that `create_*_node` makes for `prev_node`. `false` is
    -- SR_ERR_OPERATION_FAILED, and `true` is SR_ERR_OK.
    unfoldable pub del_node : Cell A → Store A → Run (Bool × Store A)
    del_node scratch s =
        if s.head == null
        then ok (false, s)
        else let (prev_node, s') = malloc scratch s in
          do
            (prev_node, node) ← del_loop (suc s'.brk) s' prev_node s'.head
            s'' ← unlink s' prev_node node
            ok (true, s'')

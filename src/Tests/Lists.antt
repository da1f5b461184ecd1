-- ===== src/Tests/Lists.antt =====
-- The theorems on the linked lists, at lists of numbers.
use ccips_cfgipsec.Base.{
  ℕ, ◌≡◌, refl, Bool, some, [], ◌∷◌, arith, ◌==◌, ok, fault, null_deref, bad_pointer, true,
}
use ccips_cfgipsec.Store.{null, cell_of, Store, malloc, add_node, get_node, del_node}
use ccips_cfgipsec.Store.Seg.{IsList}
use ccips_cfgipsec.Store.Find.{find}
use ccips_cfgipsec.Store.Add.{add_node-append, add_node-stray}
use ccips_cfgipsec.Store.Cut.{erase}
use ccips_cfgipsec.Store.Delete.{del_node-erase, del_node-absent}
use ccips_cfgipsec.Tests.{two_nodes, two_nodes-IsList}

abbrev is_eight : ℕ → Bool
is_eight n = n == 8

abbrev is_nine : ℕ → Bool
is_nine n = n == 9

add_node-append_example :
    (t : Store ℕ) × (add_node (malloc (cell_of 9 null) (two_nodes 7 8)).1 3 ≡ ok t)
    × (t.brk ≡ 4)
    × (t.cell 3 ≡ some (cell_of 9 null))
    × IsList t (7 ∷ 8 ∷ 9 ∷ [])
add_node-append_example =
    add_node-append (two_nodes 7 8) (7 ∷ 8 ∷ []) 9 null (two_nodes-IsList 7 8) refl

add_node-stray_example :
    (t : Store ℕ) × (add_node (malloc (cell_of 6 77) (two_nodes 7 8)).1 3 ≡ ok t)
    × (get_node is_nine t ≡ fault bad_pointer)
add_node-stray_example =
    add_node-stray (two_nodes 7 8) (7 ∷ 8 ∷ []) 6 77 is_nine (two_nodes-IsList 7 8) (λ e. cc)
      (omega arith) (omega arith) refl (unfold find in refl)

del_node-erase_example :
    (t : Store ℕ) × (del_node is_eight (cell_of 0 null) (two_nodes 7 8) ≡ ok (true, t))
    × IsList t (erase is_eight (7 ∷ 8 ∷ []))
del_node-erase_example =
    del_node-erase is_eight (cell_of 0 null) (two_nodes 7 8) (7 ∷ 8 ∷ []) 8 (two_nodes-IsList 7 8)
      (unfold find in refl)

del_node-absent_example : del_node is_nine (cell_of 0 null) (two_nodes 7 8) ≡ fault null_deref
del_node-absent_example =
    del_node-absent is_nine (cell_of 0 null) (two_nodes 7 8) (7 ∷ 8 ∷ []) (two_nodes-IsList 7 8)
      (unfold find in refl)

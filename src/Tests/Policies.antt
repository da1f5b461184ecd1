-- ===== src/Tests/Policies.antt =====
-- The theorems on reading, adding and removing a policy.
use ccips_cfgipsec.Base.{◌≡◌, refl, List, [], ◌∷◌, ◌++◌, ok}
use ccips_cfgipsec.Text.{Text, codes, strcpy, starts_with, str_eq}
use ccips_cfgipsec.Sysrepo.{err_ok, validation_failed, Value, number}
use ccips_cfgipsec.Sysrepo.ReadLoop.{creation, read_loop}
use ccips_cfgipsec.Store.{Store}
use ccips_cfgipsec.Store.Seg.{IsList}
use ccips_cfgipsec.Store.Find.{find}
use ccips_cfgipsec.Store.Cut.{erase}
use ccips_cfgipsec.Spd.{SpdEntry, create_spd_node}
use ccips_cfgipsec.Spd.Read.{read_spd_entry, read_spd_loop}
use ccips_cfgipsec.Entries.Spd.{named, add_spd_entry, remove_spd_entry, withdraw_policy}
use ccips_cfgipsec.Entries.Spd.Install.{one_way}
use ccips_cfgipsec.Entries.Spd.Apply.{
  add_spd_entry-present, add_spd_entry-unread, add_spd_entry-append, remove_spd_entry-erase,
}
use ccips_cfgipsec.Tests.{
  two_nodes, two_nodes-IsList, blank_spd, spd_named, counting, spd_memory, root,
}

abbrev a : Text
a = codes "a"

abbrev b : Text
b = codes "b"

abbrev policies : Store SpdEntry
policies = two_nodes (spd_named a) (spd_named b)

abbrev listed : List SpdEntry
listed = spd_named a ∷ spd_named b ∷ []

abbrev elsewhere : Value
elsewhere = record { xpath = codes "/spd/other"; val = number 0 }

add_spd_entry-present_example :
    add_spd_entry counting spd_memory root b 2 (creation elsewhere ∷ []) (policies, 5)
    ≡ ok (err_ok, (policies, 5), creation elsewhere ∷ [])
add_spd_entry-present_example =
    add_spd_entry-present counting spd_memory policies 5 listed root b (creation elsewhere ∷ []) 2
      (spd_named b) (two_nodes-IsList _ _) (unfold find str_eq in refl)

abbrev c : Text
c = codes "c"

-- No change is left to read.
add_spd_entry-unread_example :
    (t : Store SpdEntry) × (add_spd_entry counting spd_memory root c 2 [] (policies, 5)
      ≡ ok (validation_failed, (t, 5), []))
    × IsList t listed
add_spd_entry-unread_example =
    add_spd_entry-unread counting spd_memory policies 5 listed root c [] 2 validation_failed
      (record (create_spd_node blank_spd) { name = c }) [] (two_nodes-IsList _ _)
      (unfold find str_eq in refl) (unfold strcpy in refl) (unfold read_spd_entry in refl) refl

-- The first change is not the entry's, so the node is stored as it was made.
add_spd_entry-append_example :
    (t : Store SpdEntry) × (add_spd_entry counting spd_memory root c 2
        (creation elsewhere ∷ [])
        (policies, 5)
      ≡ ok (err_ok, (t, 6), []))
    × IsList t (listed ++ (record (spd_named c) { index = 5 } ∷ []))
    × (record (spd_named c) { index = 5 } ≡ record (spd_named c) { index = 5 })
add_spd_entry-append_example =
    add_spd_entry-append counting spd_memory policies 5 listed root c (creation elsewhere ∷ [])
      (spd_named c) (record (spd_named c) { index = 5 }) [] err_ok 6 (two_nodes-IsList _ _)
      (unfold find str_eq in refl) refl (unfold strcpy in refl)
      (unfold create_spd_node read_spd_entry read_spd_loop read_loop starts_with in refl)
      (one_way refl refl)

remove_spd_entry-erase_example :
    (t : Store SpdEntry) × (remove_spd_entry counting spd_memory b 2 (policies, 5)
      ≡ ok (err_ok, (t, 6)))
    × IsList t (erase (named b) listed)
remove_spd_entry-erase_example =
    remove_spd_entry-erase counting spd_memory policies 5 listed root b [] (spd_named b) 6
      (two_nodes-IsList _ _) (unfold find str_eq in refl) (unfold withdraw_policy in refl)

-- ===== src/Tests/Associations.antt =====
-- The theorems on reading, adding and removing an association.
use ccips_cfgipsec.Base.{◌≡◌, refl, List, [], ◌∷◌, ◌++◌, ok}
use ccips_cfgipsec.Text.{Text, codes, strcpy, starts_with, strrchr, str_eq}
use ccips_cfgipsec.Sysrepo.{err_ok, Change, number, uint32_val}
use ccips_cfgipsec.Sysrepo.ReadLoop.{creation, read_loop}
use ccips_cfgipsec.Store.{Store}
use ccips_cfgipsec.Store.Seg.{IsList}
use ccips_cfgipsec.Store.Find.{find}
use ccips_cfgipsec.Store.Cut.{erase}
use ccips_cfgipsec.Sad.{SadEntry, create_sad_node}
use ccips_cfgipsec.Sad.Leaf.{sad_leaf}
use ccips_cfgipsec.Sad.Read.{read_sad_entry, read_sad_loop, read_sad_value, read_sad_leaf}
use ccips_cfgipsec.Entries.Sad.{named, add_sad_entry, remove_sad_entry}
use ccips_cfgipsec.Entries.Sad.Apply.{add_sad_entry-append, remove_sad_entry-erase}
use ccips_cfgipsec.Tests.{two_nodes, two_nodes-IsList, sad_named, counting, sad_memory}

abbrev a : Text
a = codes "a"

abbrev b : Text
b = codes "b"

abbrev c : Text
c = codes "c"

abbrev associations : Store SadEntry
associations = two_nodes (sad_named a) (sad_named b)

abbrev listed : List SadEntry
listed = sad_named a ∷ sad_named b ∷ []

abbrev entry : Text
entry = codes "/sad/sad-entry"

abbrev spi_changed : Change
spi_changed = creation (record { xpath = codes "/sad/sad-entry/spi"; val = number 300 })

add_sad_entry-append_example :
    (t : Store SadEntry) × (add_sad_entry counting sad_memory entry c
        (spi_changed ∷ [])
        (associations, 5)
      ≡ ok (err_ok, (t, 7), []))
    × IsList t (listed ++ (record (sad_named c) { spi = 300 } ∷ []))
add_sad_entry-append_example =
    add_sad_entry-append counting sad_memory associations 5 listed entry c (spi_changed ∷ []) []
      (record (sad_named c) { spi = 300 }) err_ok err_ok 6 7 (two_nodes-IsList _ _)
      (unfold strcpy in refl)
      (unfold create_sad_node read_sad_entry read_sad_loop read_loop read_sad_value read_sad_leaf
          sad_leaf starts_with strrchr uint32_val in
        refl)
      refl refl

remove_sad_entry-erase_example :
    (t : Store SadEntry) × (remove_sad_entry counting sad_memory b (associations, 5)
      ≡ ok (err_ok, (t, 7)))
    × IsList t (erase (named b) listed)
remove_sad_entry-erase_example =
    remove_sad_entry-erase counting sad_memory associations 5 listed entry b (sad_named b) err_ok 6
      7 (two_nodes-IsList _ _) (unfold find str_eq in refl) refl refl

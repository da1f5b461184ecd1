-- ===== src/Tests/Transactions.antt =====
-- The theorems on the callbacks, at transactions.
use ccips_cfgipsec.Entries.Spd
use ccips_cfgipsec.Entries.Sad
use ccips_cfgipsec.Sad.{SadEntry}
use ccips_cfgipsec.Base.{◌≡◌, refl, List, [], ◌∷◌, map, some, ok}
use ccips_cfgipsec.Entries.Spd.{withdraw_policy}
use ccips_cfgipsec.Callbacks.{last_four}
use ccips_cfgipsec.Callbacks.Removal.{Deletion, entry, part, deletion, removed, removals}
use ccips_cfgipsec.Callbacks.Composed.{
  Named, after_withdraw, after_delete, spd_entry_change_cb-deleted, sad_entry_change_cb-deleted,
}
use ccips_cfgipsec.PfKey.Kernel.Fill.{pfkey}
use ccips_cfgipsec.Tests.Kernel.{
  here_subnet, there_subnet, here-Prefix, there-Prefix, heap-Sized, machine,
}
use ccips_cfgipsec.Text.{Text, codes, str_eq}
use ccips_cfgipsec.Sysrepo.{err_ok, number}
use ccips_cfgipsec.Store.{Store}
use ccips_cfgipsec.Store.Seg.{IsList}
use ccips_cfgipsec.Store.Find.{find}
use ccips_cfgipsec.Spd.{SpdEntry}
use ccips_cfgipsec.Entries.Spd.{add_spd_entry, remove_spd_entry}
use ccips_cfgipsec.Entries.Sad.{add_sad_entry, remove_sad_entry}
use ccips_cfgipsec.Callbacks.{change, spd_entry_change_cb, sad_entry_change_cb}
use ccips_cfgipsec.Callbacks.Policies.{Policy}
use ccips_cfgipsec.Tests.{
  spd_named, sad_named, two_nodes-IsList, two_nodes, spd_memory, sad_memory, tunnel_policy,
  host_policy,
}

abbrev first : Policy
first = record { name = codes "in"; address = 4096; config = tunnel_policy }

abbrev second : Policy
second = record { name = codes "out"; address = 8192; config = host_policy }

abbrev both : List Policy
both = first ∷ second ∷ []

abbrev b : Text
b = codes "b"

-- An inbound policy between two hosts
abbrev b_policy : SpdEntry
b_policy = record (spd_named b) {
  local_subnet = here_subnet;
  remote_subnet = there_subnet;
  policy_dir = 1;
}

abbrev listed : List SpdEntry
listed = spd_named (codes "a") ∷ b_policy ∷ []

abbrev b_deleted : List Deletion
b_deleted =
    part (record { xpath = codes "/spd/spd-entry[name='b']"; val = number 0 })
    ∷ entry (codes "/spd/spd-entry[name='b']") 4096 b
    ∷ part (record { xpath = codes "/spd/spd-entry[name='b']/reqid"; val = number 7 })
    ∷ []

hosts-Named : Named here_subnet there_subnet
hosts-Named = record { local = here-Prefix; remote = there-Prefix }

spd_entry_change_cb-deleted_example :
    (t : Store SpdEntry) × (spd_entry_change_cb
        (pfkey machine)
        spd_memory
        change
        (some (map deletion b_deleted))
        (two_nodes (spd_named (codes "a")) b_policy, 5)
      ≡ ok (err_ok, (t, removals Spd.named (after_withdraw machine) b_deleted listed 5)))
    × IsList t (removed Spd.named b_deleted listed)
spd_entry_change_cb-deleted_example =
    spd_entry_change_cb-deleted machine heap-Sized spd_memory b_deleted
      (two_nodes (spd_named (codes "a")) b_policy) 5 listed
      (
        codes "'b']",
        (unfold last_four in refl),
        (unfold str_eq in refl),
        (
          b_policy,
          (unfold find str_eq in refl),
          hosts-Named,
          (codes "eqid", (unfold last_four in refl), (unfold str_eq in refl), tt),
        ),
      )
      (two_nodes-IsList _ _)

abbrev b_association : SadEntry
b_association = record (sad_named b) { local_subnet = here_subnet; remote_subnet = there_subnet }

abbrev associations : List SadEntry
associations = sad_named (codes "a") ∷ b_association ∷ []

abbrev b_gone : List Deletion
b_gone = entry (codes "/sad/sad-entry[name='b']") 4096 b ∷ []

sad_entry_change_cb-deleted_example :
    (t : Store SadEntry) × (sad_entry_change_cb
        (pfkey machine)
        sad_memory
        change
        (some (map deletion b_gone))
        (two_nodes (sad_named (codes "a")) b_association, 5)
      ≡ ok (err_ok, (t, removals Sad.named (after_delete machine) b_gone associations 5)))
    × IsList t (removed Sad.named b_gone associations)
sad_entry_change_cb-deleted_example =
    sad_entry_change_cb-deleted machine heap-Sized sad_memory b_gone
      (two_nodes (sad_named (codes "a")) b_association) 5 associations
      (b_association, (unfold find str_eq in refl), hosts-Named, tt) (two_nodes-IsList _ _)

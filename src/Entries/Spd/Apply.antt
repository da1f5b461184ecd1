-- ===== src/Entries/Spd/Apply.antt =====
-- What adding and removing an entry does to the list of policies, path by path.
use ccips_cfgipsec.Base.{ℕ, ◌≡◌, refl, false, none, some, List, [], ◌∷◌, ◌++◌, ok, ◌>>=◌}
use ccips_cfgipsec.Text.{Text, strcpy}
use ccips_cfgipsec.Utils.Constants.{max_path}
use ccips_cfgipsec.Sysrepo.{Rc, err_ok, operation_failed, is_ok, Change}
use ccips_cfgipsec.Store.{Ptr, null, Cell, cell_of, Store, malloc}
use ccips_cfgipsec.Store.Seg.{IsList}
use ccips_cfgipsec.Store.Find.{find, get_node-none, get_node-some}
use ccips_cfgipsec.Store.Add.{end_of}
use ccips_cfgipsec.Store.Last.{Ends-IsList, add_node-Ends, malloc-IsList}
use ccips_cfgipsec.Store.Cut.{erase}
use ccips_cfgipsec.Store.Delete.{del_node-erase}
use ccips_cfgipsec.Spd.{SpdEntry, create_spd_node}
use ccips_cfgipsec.Spd.Read.{read_spd_entry}
use ccips_cfgipsec.Entries.{Pfkey}
use ccips_cfgipsec.Entries.Spd.{named, spd_cell, add_spd_entry, remove_spd_entry, withdraw_policy}
use ccips_cfgipsec.Entries.Spd.Install.{Installed, Installed-keeps, install_policy-Installed}

module _ (pf : Pfkey) (garbage : Ptr → Cell SpdEntry) (s : Store SpdEntry) (k : pf.Kernel)
    (xs : List SpdEntry) (xpath spd_name : Text) (it : List Change) where
  open pf use {Kernel}

  -- Adding an entry of a name that the list has reports SR_ERR_OK, and changes neither the list nor the
  -- kernel; the entry's changes stay in the iterator.
  pub add_spd_entry-present :
      (case_value : ℕ) (a : SpdEntry)
      → IsList s xs
      → find (named spd_name) xs ≡ some a
      → add_spd_entry pf garbage xpath spd_name case_value it (s, k) ≡ ok (err_ok, (s, k), it)
  unfolding add_spd_entry
  add_spd_entry-present case_value a is there =
      let (q, ran, live, _, _) = get_node-some (named spd_name) s xs a is there in
      rw (ran, ◌>>=◌) (rw live)

  -- The node as reading is given it.
  abbrev fresh : SpdEntry
  fresh = record (create_spd_node (garbage (s.brk)).payload) { name = spd_name }

  -- Where reading the changes of a new entry fails, its code is reported, and neither the list nor the kernel is changed.
  pub add_spd_entry-unread :
      (case_value : ℕ) (rc : Rc) (entry : SpdEntry) (rest : List Change)
      → IsList s xs
      → find (named spd_name) xs ≡ none
      → strcpy max_path spd_name ≡ ok spd_name
      → read_spd_entry xpath fresh it ≡ ok (rc, entry, rest)
      → is_ok rc ≡ false
      → (t : Store SpdEntry) × (add_spd_entry pf garbage xpath spd_name case_value it (s, k)
          ≡ ok (rc, (t, k), rest))
        × IsList t xs
  unfolding add_spd_entry
  add_spd_entry-unread case_value rc entry rest is there fits read bad =
      let c = cell_of entry (garbage (s.brk)).next in
      (
        (malloc c s).1,
        rw (get_node-none (named spd_name) s xs is there, ◌>>=◌)
            (rw (fits, ◌>>=◌) (rw (read, ◌>>=◌) (rw bad))),
        malloc-IsList s xs c is,
      )

  -- Where the list has no entry of that name, the list is empty or the new node's `next` happens to be NULL, the name
  -- fits its buffer, and the changes are read with SR_ERR_OK: the entry that was read is appended to the list, and the
  -- kernel has been given it: once, or for an inbound policy as a forward policy too. The code is the kernel's, and the
  -- entry stays in the list whatever it is. No field of the entry but its index is other than what was read.
  pub add_spd_entry-append :
      (entry e : SpdEntry) (rest : List Change) (rc : Rc) (k' : Kernel)
      → IsList s xs
      → find (named spd_name) xs ≡ none
      → end_of xs (garbage (s.brk)).next ≡ null
      → strcpy max_path spd_name ≡ ok spd_name
      → read_spd_entry xpath fresh it ≡ ok (err_ok, entry, rest)
      → Installed pf entry k rc e k'
      → (t : Store SpdEntry) × (add_spd_entry pf garbage xpath spd_name 2 it (s, k)
          ≡ ok (rc, (t, k'), rest))
        × IsList t (xs ++ (e ∷ []))
        × (e ≡ record entry { index = e.index })
  unfolding add_spd_entry
  add_spd_entry-append entry e rest rc k' is there closed fits read install =
      let (t, added, ends) = add_node-Ends s xs entry (garbage (s.brk)).next is closed in
      let (u, ran, ends') = install_policy-Installed pf garbage install ends in
      (
        u,
        rw (get_node-none (named spd_name) s xs is there, ◌>>=◌)
            (rw (fits, ◌>>=◌) (rw (read, ◌>>=◌) (rw (added, ◌>>=◌) (rw (ran, ◌>>=◌))))),
        Ends-IsList ends',
        Installed-keeps pf install,
      )

  -- Removing an entry by a name that the list does not have reports SR_ERR_OPERATION_FAILED, and
  -- changes neither the list nor the kernel.
  pub remove_spd_entry-absent :
      IsList s xs
      → find (named spd_name) xs ≡ none
      → remove_spd_entry pf garbage spd_name 2 (s, k) ≡ ok (operation_failed, (s, k))
  unfolding remove_spd_entry
  remove_spd_entry-absent is miss = rw (get_node-none (named spd_name) s xs is miss, ◌>>=◌)

  -- Removing an entry that the list has withdraws the first entry of that name from the kernel, with
  -- the fields that the list has of it. Where the kernel reports SR_ERR_OK that entry, and no other,
  -- leaves the list, and the code is SR_ERR_OK.
  pub remove_spd_entry-erase :
      (a : SpdEntry) (k' : Kernel)
      → IsList s xs
      → find (named spd_name) xs ≡ some a
      → withdraw_policy pf garbage a k ≡ ok (err_ok, k')
      → (t : Store SpdEntry) × (remove_spd_entry pf garbage spd_name 2 (s, k)
          ≡ ok (err_ok, (t, k')))
        × IsList t (erase (named spd_name) xs)
  unfolding remove_spd_entry
  remove_spd_entry-erase a k' is hit ran =
      let (q, walk, live, n, loaded) = get_node-some (named spd_name) s xs a is hit in
      let (t, cut, is') =
        del_node-erase (named spd_name) (spd_cell (garbage (s.brk))) s xs a is hit in
      (
        t,
        rw (walk, ◌>>=◌) (rw live (rw (loaded, ◌>>=◌) (rw (ran, ◌>>=◌) (rw (cut, ◌>>=◌) refl)))),
        is',
      )

  -- Where the kernel does not report SR_ERR_OK for the withdrawal, its code is the result, and the list is unchanged.
  pub remove_spd_entry-refused :
      (a : SpdEntry) (rc : Rc) (k' : Kernel)
      → IsList s xs
      → find (named spd_name) xs ≡ some a
      → withdraw_policy pf garbage a k ≡ ok (rc, k')
      → is_ok rc ≡ false
      → remove_spd_entry pf garbage spd_name 2 (s, k) ≡ ok (rc, (s, k'))
  unfolding remove_spd_entry
  remove_spd_entry-refused a rc k' is hit ran bad =
      let (q, walk, live, n, loaded) = get_node-some (named spd_name) s xs a is hit in
      rw (walk, ◌>>=◌) (rw live (rw (loaded, ◌>>=◌) (rw (ran, ◌>>=◌) (rw bad refl))))

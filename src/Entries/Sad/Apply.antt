-- ===== src/Entries/Sad/Apply.antt =====
-- What adding and removing an entry does to the list of associations, path by path.
use ccips_cfgipsec.Base.{◌≡◌, refl, false, none, some, List, [], ◌∷◌, ◌++◌, ok, ◌>>=◌}
use ccips_cfgipsec.Text.{Text, strcpy}
use ccips_cfgipsec.Utils.Constants.{max_path}
use ccips_cfgipsec.Sysrepo.{Rc, err_ok, operation_failed, is_ok, Change}
use ccips_cfgipsec.Store.{Ptr, null, Store}
use ccips_cfgipsec.Store.Seg.{IsList}
use ccips_cfgipsec.Store.Find.{find, get_node-none, get_node-some}
use ccips_cfgipsec.Store.Last.{Ends-IsList, add_node-Ends}
use ccips_cfgipsec.Store.Add.{end_of-null}
use ccips_cfgipsec.Store.Cut.{erase}
use ccips_cfgipsec.Store.Delete.{del_node-erase}
use ccips_cfgipsec.Sad.{SadEntry, create_sad_node}
use ccips_cfgipsec.Sad.Read.{read_sad_entry}
use ccips_cfgipsec.Entries.{Pfkey}
use ccips_cfgipsec.Entries.Sad.{named, sad_cell, add_sad_entry, remove_sad_entry}

module _ (pf : Pfkey) (garbage : Ptr → SadEntry) (s : Store SadEntry) (k : pf.Kernel)
    (xs : List SadEntry) (xpath sad_name : Text) where
  open pf use {Kernel, pf_addsad, pf_delsad, pf_getsad}

  -- Where the changes are read, the entry that was read is appended to the list, whether or not the list has one of that name,
  -- and the kernel is given it and then asked for it. The code is the kernel's for the addition; the
  -- entry is in the list whatever it is.
  pub add_sad_entry-append :
      (it rest : List Change) (entry : SadEntry) (rc got : Rc) (k' k'' : Kernel)
      → IsList s xs
      → strcpy max_path sad_name ≡ ok sad_name
      → read_sad_entry xpath (record (create_sad_node (garbage (s.brk))) { name = sad_name }) it
        ≡ ok (err_ok, entry, rest)
      → pf_addsad entry k ≡ ok (rc, k')
      → pf_getsad entry k' ≡ ok (got, k'')
      → (t : Store SadEntry) × (add_sad_entry pf garbage xpath sad_name it (s, k)
          ≡ ok (rc, (t, k''), rest))
        × IsList t (xs ++ (entry ∷ []))
  unfolding add_sad_entry
  add_sad_entry-append it rest entry rc got k' k'' is fits read ran asked =
      let (t, added, ends) = add_node-Ends s xs entry null is (end_of-null xs) in
      (
        t,
        rw (fits, ◌>>=◌)
            (rw (read, ◌>>=◌) (rw (added, ◌>>=◌) (rw (ran, ◌>>=◌) (rw (asked, ◌>>=◌) refl)))),
        Ends-IsList ends,
      )

  -- Removing an association by a name that the list does not have reports SR_ERR_OPERATION_FAILED, and
  -- changes neither the list nor the kernel.
  pub remove_sad_entry-absent :
      IsList s xs
      → find (named sad_name) xs ≡ none
      → remove_sad_entry pf garbage sad_name (s, k) ≡ ok (operation_failed, (s, k))
  unfolding remove_sad_entry
  remove_sad_entry-absent is miss = rw (get_node-none (named sad_name) s xs is miss, ◌>>=◌) refl

  -- Removing an association that the list has asks the kernel for the first entry of that name and then deletes it
  -- there. Where that succeeds the entry, and no other, leaves the list, and the code is SR_ERR_OK.
  pub remove_sad_entry-erase :
      (a : SadEntry) (got : Rc) (k' k'' : Kernel)
      → IsList s xs
      → find (named sad_name) xs ≡ some a
      → pf_getsad a k ≡ ok (got, k')
      → pf_delsad a k' ≡ ok (err_ok, k'')
      → (t : Store SadEntry) × (remove_sad_entry pf garbage sad_name (s, k) ≡ ok (err_ok, (t, k'')))
        × IsList t (erase (named sad_name) xs)
  unfolding remove_sad_entry
  remove_sad_entry-erase a got k' k'' is hit asked ran =
      let (q, walk, live, n, loaded) = get_node-some (named sad_name) s xs a is hit in
      let (t, cut, is') =
        del_node-erase (named sad_name) (sad_cell (garbage (s.brk))) s xs a is hit in
      (
        t,
        rw (walk, ◌>>=◌)
            (rw live
              (rw (loaded, ◌>>=◌) (rw (asked, ◌>>=◌) (rw (ran, ◌>>=◌) (rw (cut, ◌>>=◌) refl))))),
        is',
      )

  -- Where the kernel does not delete it, the code is SR_ERR_OPERATION_FAILED, whatever the kernel's
  -- was, and the list is unchanged.
  pub remove_sad_entry-refused :
      (a : SadEntry) (got rc : Rc) (k' k'' : Kernel)
      → IsList s xs
      → find (named sad_name) xs ≡ some a
      → pf_getsad a k ≡ ok (got, k')
      → pf_delsad a k' ≡ ok (rc, k'')
      → is_ok rc ≡ false
      → remove_sad_entry pf garbage sad_name (s, k) ≡ ok (operation_failed, (s, k''))
  unfolding remove_sad_entry
  remove_sad_entry-refused a got rc k' k'' is hit asked ran bad =
      let (q, walk, live, n, loaded) = get_node-some (named sad_name) s xs a is hit in
      rw (walk, ◌>>=◌)
        (rw live (rw (loaded, ◌>>=◌) (rw (asked, ◌>>=◌) (rw (ran, ◌>>=◌) (rw bad refl)))))

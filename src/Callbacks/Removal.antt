-- ===== src/Callbacks/Removal.antt =====
-- The callback on a transaction that deletes policies.
use ccips_cfgipsec.Base.{
  Bool, ℕ, zero, suc, ◌<◌, ◌≡◌, refl, arith, false, none, some, List, [], ◌∷◌, ◌++◌, map, Run, ok,
  ◌>>=◌,
}
use ccips_cfgipsec.Base.Lists.{length}
use ccips_cfgipsec.Text.{Text, codes, str_eq, str_eq_refl}
use ccips_cfgipsec.Sysrepo.{Rc, err_ok, deleted, Value, Change, text, string_val}
use ccips_cfgipsec.Store.{Ptr, Cell, Store}
use ccips_cfgipsec.Store.Seg.{IsList}
use ccips_cfgipsec.Store.Find.{find}
use ccips_cfgipsec.Store.Cut.{erase}
use ccips_cfgipsec.Spd.{SpdEntry}
use ccips_cfgipsec.Entries.{Pfkey}
use ccips_cfgipsec.Entries.Spd
use ccips_cfgipsec.Entries.Sad
use ccips_cfgipsec.Entries.Spd.{withdraw_policy}
use ccips_cfgipsec.Entries.Sad.Apply.{remove_sad_entry-erase}
use ccips_cfgipsec.Sad.{SadEntry}
use ccips_cfgipsec.Entries.Spd.Apply.{remove_spd_entry-erase}
use ccips_cfgipsec.Callbacks.{
  change, last_four, new_entry, value_at, on_deleted, apply_change, change_loop, entry_change_cb,
  spd_entry_change_cb, sad_entry_change_cb,
}
use ccips_cfgipsec.Callbacks.Loop.{last_four-name}

-- What a transaction deletes: the key of an entry, with the entry's path, the address of the name and the name; or another
-- node of the tree.
pub data Deletion : Type 0 where
  entry : Text → ℕ → Text → Deletion
  part : Value → Deletion

abbrev pub deletion : Deletion → Change
deletion (entry path at name) = record {
  oper = deleted;
  old_value = some (record { xpath = path ++ codes "/name"; val = text at name });
  new_value = none;
}
deletion (part v) = record { oper = deleted; old_value = some v; new_value = none }

module _ {E : Type 0} (named : Text → E → Bool) where
  -- The list less the first entry of each name, one name after the other.
  abbrev pub removed : List Deletion → List E → List E
  removed [] xs = xs
  removed (entry path at name ∷ ds) xs = removed ds (erase (named name) xs)
  removed (part v ∷ ds) xs = removed ds xs

  -- Each name is in the list when its turn comes, with an entry of a kind, and the path of what is no key does not end in
  -- `name`.
  abbrev pub Removable : (E → Type 0) → List Deletion → List E → Type 0
  Removable Sendable [] xs = Unit
  Removable Sendable (entry path at name ∷ ds) xs =
      (a : E) × (find (named name) xs ≡ some a)
      × Sendable a
      × Removable Sendable ds (erase (named name) xs)
  Removable Sendable (part v ∷ ds) xs =
      (last : Text) × (last_four (v.xpath) ≡ ok last)
      × (str_eq last (codes "name") ≡ false)
      × Removable Sendable ds xs

  -- The kernel after each of these entries was removed from it.
  abbrev pub removals : {K : Type 0} → (E → K → K) → List Deletion → List E → K → K
  removals after [] xs k = k
  removals after (entry path at name ∷ ds) xs k =
      removals after ds (erase (named name) xs)
        (elim (find (named name) xs) [ none ↦ k | some a ↦ after a k ])
  removals after (part v ∷ ds) xs k = removals after ds xs k

module _ {S : Type 0} (add : Text → Text → List Change → S → Run (Rc × S × List Change))
    (remove : Text → S → Run (Rc × S)) where
  apply_change-part :
      (v : Value) (it : List Change) (state : S) (last : Text)
      → last_four (v.xpath) ≡ ok last
      → str_eq last (codes "name") ≡ false
      → apply_change add remove (deletion (part v)) it state ≡ ok (err_ok, state, it)
  unfolding apply_change on_deleted new_entry value_at
  apply_change-part v it state last ran other = rw (ran, ◌>>=◌) (rw other refl)

  apply_change-entry :
      (path name : Text) (at : ℕ) (it : List Change) (state : S)
      → apply_change add remove (deletion (entry path at name)) it state
        ≡ (remove name state >>= λ r. ok (r.0, r.1, it))
  unfolding apply_change on_deleted new_entry value_at string_val
  apply_change-entry path name at it state =
      rw (last_four-name path, ◌>>=◌) (rw (str_eq_refl (codes "name")) refl)

module _ {E K : Type 0} (named : Text → E → Bool)
    (add : Text → Text → List Change → Store E × K → Run (Rc × (Store E × K) × List Change))
    (remove : Text → Store E × K → Run (Rc × (Store E × K))) where
  -- Removing an entry of a kind that the list has takes it from the list, with SR_ERR_OK, and leaves the kernel `after`.
  abbrev Removes : (E → Type 0) → (E → K → K) → Type 0
  Removes Sendable after =
      (name : Text) (s : Store E) (k : K) (xs : List E) (a : E)
      → IsList s xs
      → find (named name) xs ≡ some a
      → Sendable a
      → (t : Store E) × (remove name (s, k) ≡ ok (err_ok, (t, after a k)))
        × IsList t (erase (named name) xs)

  change_loop-removed :
      (Sendable : E → Type 0) (after : E → K → K)
      → Removes Sendable after
      → (fuel : ℕ) (ds : List Deletion) (s : Store E) (k : K) (xs : List E)
      → length (map deletion ds) < fuel
      → Removable named Sendable ds xs
      → IsList s xs
      → (t : Store E) × (change_loop add remove fuel (map deletion ds) (s, k)
          ≡ ok (err_ok, (t, removals named after ds xs k)))
        × IsList t (removed named ds xs)
  unfolding change_loop
  change_loop-removed Sendable after removes zero ds s k xs lt can is = absurd (omega arith)
  change_loop-removed Sendable after removes (suc fuel) [] s k xs lt can is = (s, refl, is)
  change_loop-removed Sendable after removes (suc fuel) (entry path at name ∷ ds) s k xs lt
        (a, there, send, can) is =
      let (u, ran, is') = removes name s k xs a is there send in
      let (t, on, is'') =
        change_loop-removed Sendable after removes fuel ds u (after a k) (erase (named name) xs)
          (omega arith) can is' in
      (
        t,
        rw (apply_change-entry add remove path name at (map deletion ds) (s, k))
            (rw (ran, ◌>>=◌) (rw there on)),
        is'',
      )
  change_loop-removed Sendable after removes (suc fuel) (part v ∷ ds) s k xs lt
        (last, ran, other, can) is =
      let (t, on, is') =
        change_loop-removed Sendable after removes fuel ds s k xs (omega arith) can is in
      (
        t,
        rw (apply_change-part add remove v (map deletion ds) (s, k) last ran other, ◌>>=◌) on,
        is',
      )

module _ (pf : Pfkey) where
  open pf use {Kernel, pf_getsad, pf_delsad}

  -- The kernel withdraws each policy of a kind, and is then `after`.
  abbrev pub Withdraws :
      (Ptr → Cell SpdEntry) → (SpdEntry → Type 0) → (SpdEntry → Kernel → Kernel) → Type 0
  Withdraws garbage Sendable after =
      (e : SpdEntry) (k : Kernel)
      → Sendable e
      → withdraw_policy pf garbage e k ≡ ok (err_ok, after e k)

  -- The kernel answers for each association of a kind, deletes it, and is then `after`.
  abbrev pub Deletes : (SadEntry → Type 0) → (SadEntry → Kernel → Kernel) → Type 0
  Deletes Sendable after =
      (e : SadEntry) (k : Kernel)
      → Sendable e
      → (got : Rc) × (k' : Kernel) × (pf_getsad e k ≡ ok (got, k'))
        × (pf_delsad e k' ≡ ok (err_ok, after e k))

  pub spd_entry_change_cb-removed :
      (garbage : Ptr → Cell SpdEntry) (Sendable : SpdEntry → Type 0)
      (after : SpdEntry → Kernel → Kernel)
      → Withdraws garbage Sendable after
      → (ds : List Deletion) (s : Store SpdEntry) (k : Kernel) (xs : List SpdEntry)
      → Removable Spd.named Sendable ds xs
      → IsList s xs
      → (t : Store SpdEntry) × (spd_entry_change_cb pf garbage change
            (some (map deletion ds))
            (s, k)
          ≡ ok (err_ok, (t, removals Spd.named after ds xs k)))
        × IsList t (removed Spd.named ds xs)
  unfolding spd_entry_change_cb entry_change_cb
  spd_entry_change_cb-removed garbage Sendable after withdraws ds s k xs can is =
      change_loop-removed Spd.named _ _ Sendable after
        (λ name s' k1 ys a is' there send.
          let (t, done, is'') =
            remove_spd_entry-erase pf garbage s' k1 ys [] name [] a (after a k1) is' there
              (withdraws a k1 send) in
          (t, done, is''))
        (suc (length (map deletion ds))) ds s k xs (omega arith) can is

  pub sad_entry_change_cb-removed :
      (garbage : Ptr → SadEntry) (Sendable : SadEntry → Type 0) (after : SadEntry → Kernel → Kernel)
      → Deletes Sendable after
      → (ds : List Deletion) (s : Store SadEntry) (k : Kernel) (xs : List SadEntry)
      → Removable Sad.named Sendable ds xs
      → IsList s xs
      → (t : Store SadEntry) × (sad_entry_change_cb pf garbage change
            (some (map deletion ds))
            (s, k)
          ≡ ok (err_ok, (t, removals Sad.named after ds xs k)))
        × IsList t (removed Sad.named ds xs)
  unfolding sad_entry_change_cb entry_change_cb
  sad_entry_change_cb-removed garbage Sendable after deletes ds s k xs can is =
      change_loop-removed Sad.named _ _ Sendable after
        (λ name s' k1 ys a is' there send.
          let (got, k2, asked, ran) = deletes a k1 send in
          let (t, done, is'') =
            remove_sad_entry-erase pf garbage s' k1 ys [] name a got k2 (after a k1) is' there asked
              ran in
          (t, done, is''))
        (suc (length (map deletion ds))) ds s k xs (omega arith) can is

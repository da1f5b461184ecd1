-- ===== src/Callbacks/Fuel.antt =====
-- The rounds of the two callbacks' loops: adding an entry only takes changes from the iterator.
use ccips_cfgipsec.Base.{
  ℕ, suc, ◌≤◌, ◌<◌, ◌≡◌, refl, some, List, [], ◌∷◌, arith, ◌==◌, Run, ok, fault, ◌>>=◌, Bool-cases,
  inl, inr,
}
use ccips_cfgipsec.Base.Lists.{length}
use ccips_cfgipsec.Text.{Text, strcpy}
use ccips_cfgipsec.Utils.Constants.{max_path}
use ccips_cfgipsec.Sysrepo.{Rc, err_ok, is_ok, Change}
use ccips_cfgipsec.Sysrepo.ReadLoop.{read_loop-Consumes}
use ccips_cfgipsec.Store.{Ptr, null, Cell, cell_of, Store, malloc, add_node, get_node}
use ccips_cfgipsec.Spd.{SpdEntry, create_spd_node}
use ccips_cfgipsec.Spd.Read.{read_spd_entry, read_spd_loop, read_spd_value}
use ccips_cfgipsec.Sad.{SadEntry, create_sad_node}
use ccips_cfgipsec.Sad.Read.{read_sad_entry, read_sad_loop, read_sad_value}
use ccips_cfgipsec.Entries.{Pfkey}
use ccips_cfgipsec.Entries.Spd.{named, add_spd_entry, remove_spd_entry, install_policy}
use ccips_cfgipsec.Entries.Sad.{add_sad_entry, remove_sad_entry}
use ccips_cfgipsec.Callbacks.{
  change, change_loop, entry_change_cb, spd_entry_change_cb, sad_entry_change_cb,
}
use ccips_cfgipsec.Callbacks.Loop.{change_loop-fuel}

-- Where the run succeeds, the iterator that it leaves is no longer than `n`.
abbrev AtMost : {S : Type 0} → ℕ → Run (Rc × S × List Change) → Type 0
AtMost n (ok (rc, state, rest)) = length rest ≤ n
AtMost n (fault e) = Unit

AtMost-bind :
    {S B : Type 0} (n : ℕ) (m : Run B) (f : B → Run (Rc × S × List Change))
    → ((b : B) → m ≡ ok b → AtMost n (f b))
    → AtMost n (m >>= f)
AtMost-bind n (ok b) f all = all b refl
AtMost-bind n (fault e) f all = tt

AtMost-ok :
    {S : Type 0} (n : ℕ) (m : Run (Rc × S × List Change)) {rc : Rc} {state : S} {rest : List Change}
    → AtMost n m
    → m ≡ ok (rc, state, rest)
    → length rest ≤ n
AtMost-ok n m bound e = rw e at bound

read_spd_entry-Consumes :
    (xpath : Text) (node node' : SpdEntry) (it rest : List Change) (rc : Rc)
    → read_spd_entry xpath node it ≡ ok (rc, node', rest)
    → length rest ≤ length it
unfolding read_spd_entry read_spd_loop
read_spd_entry-Consumes xpath node node' [] rest rc run =
    let same : [] ≡ rest = cc in rw (← same) (omega arith)
read_spd_entry-Consumes xpath node node' (c ∷ it) rest rc run =
    read_loop-Consumes read_spd_value (λ rc. rc) xpath node node' (c ∷ it) rest rc run

read_sad_entry-Consumes :
    (xpath : Text) (node node' : SadEntry) (it rest : List Change) (rc : Rc)
    → read_sad_entry xpath node it ≡ ok (rc, node', rest)
    → length rest ≤ length it
unfolding read_sad_entry read_sad_loop
read_sad_entry-Consumes xpath node node' [] rest rc run =
    let same : [] ≡ rest = cc in rw (← same) (omega arith)
read_sad_entry-Consumes xpath node node' (c ∷ it) rest rc run =
    read_loop-Consumes read_sad_value (λ rc. err_ok) xpath node node' (c ∷ it) rest rc run

module _ (pf : Pfkey) where
  open pf use {Kernel, pf_addsad, pf_getsad}

  add_spd_entry-AtMost :
      (garbage : Ptr → Cell SpdEntry) (xpath name : Text) (it : List Change) (s : Store SpdEntry)
      (k : Kernel)
      → AtMost (length it) (add_spd_entry pf garbage xpath name 2 it (s, k))
  unfolding add_spd_entry
  add_spd_entry-AtMost garbage xpath name it s k =
      AtMost-bind _ (get_node (named name) s) _ (λ found _. elim (Bool-cases (found == null)) [
        | inr there ↦ rw there (omega arith)
        | inl absent ↦ rw absent (
            AtMost-bind _ (strcpy max_path name) _ (λ name' _.
              AtMost-bind _
                (read_spd_entry xpath
                  (record (create_spd_node (garbage (s.brk)).payload) { name = name' }) it)
                _
                (λ r ran.
                  let le = read_spd_entry-Consumes xpath _ _ it (r.2) (r.0) ran in
                  elim (Bool-cases (is_ok r.0)) [
                    | inr bad ↦ rw bad le
                    | inl good ↦ rw good (
                        AtMost-bind _
                          (add_node (malloc (cell_of (r.1) (garbage (s.brk)).next) s).1 s.brk) _
                          (λ s'' _.
                            AtMost-bind _ (install_policy pf garbage (s.brk) (r.1) (s'', k)) _
                              (λ q _. le)))
                  ])))
      ])

  add_sad_entry-AtMost :
      (garbage : Ptr → SadEntry) (xpath name : Text) (it : List Change) (s : Store SadEntry)
      (k : Kernel)
      → AtMost (length it) (add_sad_entry pf garbage xpath name it (s, k))
  unfolding add_sad_entry
  add_sad_entry-AtMost garbage xpath name it s k =
      AtMost-bind _ (strcpy max_path name) _ (λ name' _.
        AtMost-bind _
          (read_sad_entry xpath (record (create_sad_node (garbage (s.brk))) { name = name' }) it) _
          (λ r ran.
            let le = read_sad_entry-Consumes xpath _ _ it (r.2) (r.0) ran in
            elim (Bool-cases (is_ok r.0)) [
              | inr bad ↦ rw bad le
              | inl good ↦ rw good (
                  AtMost-bind _ (add_node (malloc (cell_of (r.1) null) s).1 s.brk) _ (λ s'' _.
                    AtMost-bind _ (pf_addsad (r.1) k) _
                      (λ p _. AtMost-bind _ (pf_getsad (r.1) (p.1)) _ (λ q _. le))))
            ]))

  -- The policies' callback makes as many rounds as it needs: with any number of rounds above the number
  -- of changes its loop comes to the same.
  pub spd_entry_change_cb-fuel :
      (garbage : Ptr → Cell SpdEntry) (fuel : ℕ) (it : List Change)
      (state : Store SpdEntry × Kernel)
      → length it < fuel
      → change_loop
          (λ xpath name. add_spd_entry pf garbage xpath name 2)
          (λ name. remove_spd_entry pf garbage name 2)
          fuel
          it
          state
        ≡ spd_entry_change_cb pf garbage change (some it) state
  unfolding spd_entry_change_cb entry_change_cb
  spd_entry_change_cb-fuel garbage fuel it state lt =
      change_loop-fuel _ _
        (λ xpath name it' rest (s, k) state' rc run.
          AtMost-ok _ _ (add_spd_entry-AtMost garbage xpath name it' s k) run)
        fuel (suc (length it)) it state lt (omega arith)

  -- So does the associations' callback.
  pub sad_entry_change_cb-fuel :
      (garbage : Ptr → SadEntry) (fuel : ℕ) (it : List Change) (state : Store SadEntry × Kernel)
      → length it < fuel
      → change_loop (add_sad_entry pf garbage) (remove_sad_entry pf garbage) fuel it state
        ≡ sad_entry_change_cb pf garbage change (some it) state
  unfolding sad_entry_change_cb entry_change_cb
  sad_entry_change_cb-fuel garbage fuel it state lt =
      change_loop-fuel _ _
        (λ xpath name it' rest (s, k) state' rc run.
          AtMost-ok _ _ (add_sad_entry-AtMost garbage xpath name it' s k) run)
        fuel (suc (length it)) it state lt (omega arith)

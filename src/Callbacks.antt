-- ===== src/Callbacks.antt =====
-- src/sysrepo_utils/sysrepo_utils.c: the callbacks that sysrepo calls with the changes of a
-- transaction. The two callbacks are one text over the two databases, and one function here over what
-- adds and removes an entry. `S` is the state: the list of one database and the kernel.
pub mod Loop
pub mod Fuel
pub mod Policies
pub mod Transaction
pub mod Associations
pub mod Removal
pub mod Composed
pub mod Creation
use ccips_cfgipsec.Base.{
  ℕ, zero, suc, ◌-◌, Bool, true, false, Option, none, some, List, [], ◌∷◌, ltb, if◌then◌else◌, Run,
  ok, fault, null_deref, bad_pointer, out_of_fuel, ◌>>=◌,
}
use ccips_cfgipsec.Base.Lists.{length, take, drop}
use ccips_cfgipsec.Text.{Text, codes, str_eq}
use ccips_cfgipsec.Sysrepo.{
  Rc, err_ok, operation_failed, is_ok, Oper, created, deleted, modified, moved, Value, Change,
  string_val,
}
use ccips_cfgipsec.Store.{Ptr, Cell, Store}
use ccips_cfgipsec.Spd.{SpdEntry}
use ccips_cfgipsec.Sad.{SadEntry}
use ccips_cfgipsec.Entries.{Pfkey}
use ccips_cfgipsec.Entries.Spd.{add_spd_entry, remove_spd_entry}
use ccips_cfgipsec.Entries.Sad.{add_sad_entry, remove_sad_entry}

-- `sr_event_t`
pub data Event : Type 0 where
  update change done abort enabled rpc : Event

-- The path without its last five bytes, as long as `strlen("/name")`. For a shorter path `malloc` is
-- given a negative size, as a size_t, and gives NULL, which reading the entry then dereferences. The terminating NUL is
-- written one byte behind the allocation; here that byte is taken to be the text's.
unfoldable pub get_new_xpath : Text → Run Text
get_new_xpath xpath =
    if ltb (length xpath) 5 then fault null_deref else ok (take (length xpath - 5) xpath)

-- `*value`
unfoldable pub value_at : Option Value → Run Value
value_at none = fault null_deref
value_at (some v) = ok v

-- `&xpath[len-4]`, which of a shorter path is no address in it.
unfoldable pub last_four : Text → Run Text
last_four xpath =
    if ltb (length xpath) 4 then fault bad_pointer else ok (drop (length xpath - 4) xpath)

unfoldable pub new_entry : Oper → Option Value → Option Value → Run Bool
new_entry created old_val new_val = do
  v ← value_at new_val
  last ← last_four (v.xpath)
  ok (str_eq last (codes "name"))
new_entry deleted old_val new_val = do
  v ← value_at old_val
  last ← last_four (v.xpath)
  ok (str_eq last (codes "name"))
new_entry modified old_val new_val = ok true
new_entry moved old_val new_val = ok true

module _ {S : Type 0} (add : Text → Text → List Change → S → Run (Rc × S × List Change))
    (remove : Text → S → Run (Rc × S)) where
  -- The case SR_OP_CREATED, behind `new_entry`, with what the iterator holds.
  unfoldable pub on_created : Bool → Option Value → List Change → S → Run (Rc × S × List Change)
  on_created false new_value it state = ok (err_ok, state, it)
  on_created true new_value it state = do
    v ← value_at new_value
    name ← string_val (v.val)
    new_xpath ← get_new_xpath (v.xpath)
    add new_xpath name it state

  -- The case SR_OP_DELETED. The entry's path is made here too, but not used.
  unfoldable pub on_deleted : Bool → Option Value → List Change → S → Run (Rc × S × List Change)
  on_deleted false old_value it state = ok (err_ok, state, it)
  on_deleted true old_value it state = do
    v ← value_at old_value
    name ← string_val (v.val)
    (rc, state') ← remove name state
    ok (rc, state', it)

  -- The body of the loop for one change. The result's code is SR_ERR_OK where the loop goes on.
  unfoldable pub apply_change : Change → List Change → S → Run (Rc × S × List Change)
  apply_change c it state = elim (c.oper) [
    | created ↦ do
      is_new ← new_entry created (c.old_value) (c.new_value)
      on_created is_new (c.new_value) it state
    | deleted ↦ do
      is_new ← new_entry deleted (c.old_value) (c.new_value)
      on_deleted is_new (c.old_value) it state
    | modified ↦ ok (err_ok, state, it)
    | moved ↦ ok (err_ok, state, it)
  ]

  -- The while loop over the iterator, which adding an entry takes changes from too.
  unfoldable pub change_loop : ℕ → List Change → S → Run (Rc × S)
  change_loop zero it state = fault out_of_fuel
  change_loop (suc fuel) [] state = ok (err_ok, state)
  change_loop (suc fuel) (c ∷ rest) state = do
    (rc, state', rest') ← apply_change c rest state
    elim (is_ok rc) [ true ↦ change_loop fuel rest' state' | false ↦ ok (operation_failed, state') ]

  -- `changes` is what `sr_get_changes_iter` gives, none where it fails. Nothing but SR_EV_CHANGE changes the state: behind a
  -- change that is done the running configuration would be printed.
  unfoldable pub entry_change_cb : Event → Option (List Change) → S → Run (Rc × S)
  entry_change_cb change none state = ok (err_ok, state)
  entry_change_cb change (some it) state = change_loop (suc (length it)) it state
  entry_change_cb _ changes state = ok (err_ok, state)

module _ (pf : Pfkey) where
  -- `feature_case_value` is 2.
  unfoldable pub spd_entry_change_cb :
      (Ptr → Cell SpdEntry)
      → Event
      → Option (List Change)
      → Store SpdEntry × pf.Kernel
      → Run (Rc × (Store SpdEntry × pf.Kernel))
  spd_entry_change_cb garbage =
      entry_change_cb (λ xpath name. add_spd_entry pf garbage xpath name 2)
        (λ name. remove_spd_entry pf garbage name 2)

  unfoldable pub sad_entry_change_cb :
      (Ptr → SadEntry)
      → Event
      → Option (List Change)
      → Store SadEntry × pf.Kernel
      → Run (Rc × (Store SadEntry × pf.Kernel))
  sad_entry_change_cb garbage =
      entry_change_cb (add_sad_entry pf garbage) (remove_sad_entry pf garbage)

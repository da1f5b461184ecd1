-- ===== src/Callbacks/Loop.antt =====
-- The loop of the callbacks, over any pair of functions that add and remove an entry.
use ccips_cfgipsec.Base.{
  ℕ, zero, suc, ◌+◌, ◌-◌, ◌≤◌, ◌<◌, ◌≡◌, ◌≢◌, refl, ap, sym, ◌∙◌, arith, Bool, true, false, Option,
  List, [], ◌∷◌, ◌++◌, ltb, Run, ok, ◌>>=◌, >>=-eq-ok, Run-cases, Bool-cases, inl, inr,
}
use ccips_cfgipsec.Base.Lists.{
  length, take, drop, length-append, take-append, drop-append, take-drop, last_or, last_or-append,
}
use ccips_cfgipsec.Text.{Text, codes, str_eq, str_eq→eq, str_eq_refl}
use ccips_cfgipsec.Sysrepo.{
  Rc, err_ok, is_ok, Oper, created, deleted, modified, moved, Value, Change, string_val, text,
}
use ccips_cfgipsec.Sysrepo.ReadLoop.{creation}
use mathlib.Core.List.{append_assoc}
use ccips_cfgipsec.Callbacks.{
  get_new_xpath, value_at, last_four, new_entry, on_created, on_deleted, apply_change, change_loop,
}

-- The four last bytes of a path that ends in another byte than `e` are not `name`.
last_four-other :
    (xpath : Text)
    → 4 ≤ length xpath
    → last_or xpath 0 ≢ b'e'
    → (last : Text) × (last_four xpath ≡ ok last) × (str_eq last (codes "name") ≡ false)
unfolding last_four
last_four-other xpath long ne =
    let n : ℕ = length xpath - 4 in
    let fits : ltb (length xpath) 4 ≡ false = ground arith in
    (
      drop n xpath,
      rw fits,
      elim (Bool-cases (str_eq (drop n xpath) (codes "name"))) [
        | inr other ↦ other
        | inl same ↦ absurd (
            ne (
              ap (λ t. last_or t 0)
                (sym (take-drop n xpath) ∙ ap (λ t. take n xpath ++ t) (str_eq→eq _ _ same))
              ∙ last_or-append (take n xpath) b'n' (codes "ame") 0))
      ],
    )

pub last_four-name : (path : Text) → last_four (path ++ codes "/name") ≡ ok (codes "name")
unfolding last_four
last_four-name path =
    let whole : path ++ codes "/name" ≡ (path ++ codes "/") ++ codes "name" =
      sym (append_assoc path (codes "/") (codes "name")) in
    let l : length ((path ++ codes "/") ++ codes "name") ≡ length (path ++ codes "/") + 4 =
      length-append (path ++ codes "/") (codes "name") in
    let fits : ltb (length ((path ++ codes "/") ++ codes "name")) 4 ≡ false = ground (arith, l) in
    let n : length ((path ++ codes "/") ++ codes "name") - 4 ≡ length (path ++ codes "/") =
      omega (arith, l) in
    rw whole (rw fits (rw n (ap (λ t. ok t) (drop-append (path ++ codes "/") (codes "name")))))

get_new_xpath-name : (path : Text) → get_new_xpath (path ++ codes "/name") ≡ ok path
unfolding get_new_xpath
get_new_xpath-name path =
    let l : length (path ++ codes "/name") ≡ length path + 5 = length-append path (codes "/name") in
    let fits : ltb (length (path ++ codes "/name")) 5 ≡ false = ground (arith, l) in
    let n : length (path ++ codes "/name") - 5 ≡ length path = omega (arith, l) in
    rw fits (rw n (ap (λ t. ok t) (take-append path (codes "/name"))))

module _ {S : Type 0} (add : Text → Text → List Change → S → Run (Rc × S × List Change))
    (remove : Text → S → Run (Rc × S)) where
  -- The creation of what is no leaf `name` is passed over.
  pub apply_change-other :
      (v : Value) (rest : List Change) (state : S)
      → 4 ≤ length (v.xpath)
      → last_or (v.xpath) 0 ≢ b'e'
      → apply_change add remove (creation v) rest state ≡ ok (err_ok, state, rest)
  unfolding apply_change on_created new_entry value_at
  apply_change-other v rest state long ne =
      let (last, ran, other) = last_four-other (v.xpath) long ne in rw (ran, ◌>>=◌) (rw other refl)

  -- The creation of the leaf `name` of an entry adds the entry of the path that the leaf is below.
  pub apply_change-name :
      (path name : Text) (at : ℕ) (rest : List Change) (state : S)
      → apply_change add remove
          (creation (record { xpath = path ++ codes "/name"; val = text at name }))
          rest
          state
        ≡ add path name rest state
  unfolding apply_change on_created new_entry value_at string_val
  apply_change-name path name at rest state =
      rw (last_four-name path, ◌>>=◌)
        (rw (str_eq_refl (codes "name")) (rw (get_new_xpath-name path, ◌>>=◌) refl))

  module _
      (consumes : (xpath name : Text) (it rest : List Change) (state state' : S) (rc : Rc)
        → add xpath name it state ≡ ok (rc, state', rest)
        → length rest ≤ length it) where
    kept :
        {rc rc' : Rc} {state state' : S} (it rest : List Change)
        → ◌≡◌ {A = Run (Rc × S × List Change)} (ok (rc, state, it)) (ok (rc', state', rest))
        → length rest ≤ length it
    kept {rc} {rc'} {state} {state'} it rest e =
        let same : it ≡ rest = cc in omega (arith, ap length same)

    on_created-Consumes :
        (is_new : Bool) (new : Option Value) (it rest : List Change) (state state' : S) (rc : Rc)
        → on_created add remove is_new new it state ≡ ok (rc, state', rest)
        → length rest ≤ length it
    unfolding on_created
    on_created-Consumes false new it rest state state' rc run = kept it rest run
    on_created-Consumes true new it rest state state' rc run =
        let (v, _, run1) = >>=-eq-ok (value_at new) _ run in
        let (name, _, run2) = >>=-eq-ok (string_val (v.val)) _ run1 in
        let (path, _, run3) = >>=-eq-ok (get_new_xpath (v.xpath)) _ run2 in
        consumes path name it rest state state' rc run3

    on_deleted-Consumes :
        (is_new : Bool) (old : Option Value) (it rest : List Change) (state state' : S) (rc : Rc)
        → on_deleted add remove is_new old it state ≡ ok (rc, state', rest)
        → length rest ≤ length it
    unfolding on_deleted
    on_deleted-Consumes false old it rest state state' rc run = kept it rest run
    on_deleted-Consumes true old it rest state state' rc run =
        let (v, _, run1) = >>=-eq-ok (value_at old) _ run in
        let (name, _, run2) = >>=-eq-ok (string_val (v.val)) _ run1 in
        let (r, _, run3) = >>=-eq-ok (remove name state) _ run2 in kept it rest run3

    apply_change-Consumes :
        (o : Oper) (old new : Option Value) (it rest : List Change) (state state' : S) (rc : Rc)
        → apply_change add remove (record { oper = o; old_value = old; new_value = new }) it state
          ≡ ok (rc, state', rest)
        → length rest ≤ length it
    unfolding apply_change
    apply_change-Consumes created old new it rest state state' rc run =
        let (is_new, _, run') = >>=-eq-ok (new_entry created old new) _ run in
        on_created-Consumes is_new new it rest state state' rc run'
    apply_change-Consumes deleted old new it rest state state' rc run =
        let (is_new, _, run') = >>=-eq-ok (new_entry deleted old new) _ run in
        on_deleted-Consumes is_new old it rest state state' rc run'
    apply_change-Consumes modified old new it rest state state' rc run = kept it rest run
    apply_change-Consumes moved old new it rest state state' rc run = kept it rest run

    -- Adding an entry only takes changes from the iterator, so that two numbers of rounds of which each is above
    -- the number of changes give the same.
    pub change_loop-fuel :
        (fuel fuel' : ℕ) (it : List Change) (state : S)
        → length it < fuel
        → length it < fuel'
        → change_loop add remove fuel it state ≡ change_loop add remove fuel' it state
    unfolding change_loop
    change_loop-fuel zero fuel' it state lt lt' = absurd (omega arith)
    change_loop-fuel (suc fuel) zero it state lt lt' = absurd (omega arith)
    change_loop-fuel (suc fuel) (suc fuel') [] state lt lt' = refl
    change_loop-fuel (suc fuel) (suc fuel') (c ∷ it) state lt lt' =
        elim (Run-cases (apply_change add remove c it state)) [
          | inl (e, bad) ↦ rw (bad, ◌>>=◌) refl
          | inr ((rc, state', rest), run) ↦
              let le =
                apply_change-Consumes (c.oper) (c.old_value) (c.new_value) it rest state state' rc
                  run in
              rw (run, ◌>>=◌)
                (elim (Bool-cases (is_ok rc)) [
                  | inl good ↦
                      rw good (change_loop-fuel fuel fuel' rest state' (omega arith) (omega arith))
                  | inr bad ↦ rw bad refl
                ])
        ]

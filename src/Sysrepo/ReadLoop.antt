-- ===== src/Sysrepo/ReadLoop.antt =====
-- The loop that `readSPD_entry` and `readSAD_entry` of src/sysrepo_utils/sysrepo_entries.c share, over
-- what one value does to the node and the result code of a loop that is left early.
use ccips_cfgipsec.Base.{
  ◌≡◌, refl, ◌∙◌, true, false, none, some, List, [], ◌∷◌, ◌++◌, map, Run, ok, fault, null_deref,
  ◌>>=◌, >>=-eq-ok, ◌≤◌, ap, arith, Option-cases, Bool-cases, Run-cases, inl, inr, ◌⊎◌, sym, Fault,
}
use ccips_cfgipsec.Base.Lists.{All, length}
use ccips_cfgipsec.Text.{Text, starts_with}
use ccips_cfgipsec.Sysrepo.{Rc, err_ok, created, Value, Change, value_of, Verdict, go_on, leave}

module _ {A : Type 0} (read_value : Value → A → Run (Verdict A)) (code : Rc → Rc) where
  -- The list is the change at hand and those that the iterator still holds; the result has the result
  -- code, and what the iterator holds when the loop is left. A change whose path does not begin with
  -- the entry's ends the loop, and has left the iterator by then.
  unfoldable pub read_loop : Text → A → List Change → Run (Rc × A × List Change)
  read_loop xpath node [] = ok (err_ok, node, [])
  read_loop xpath node (c ∷ rest) = elim (value_of c) [
    | none ↦ fault null_deref
    | some v ↦ elim (starts_with xpath (v.xpath)) [
      | false ↦ ok (err_ok, node, rest)
      | true ↦ do
        verdict ← read_value v node
        elim verdict [
          | go_on node' ↦ read_loop xpath node' rest
          | leave rc node' ↦ ok (code rc, node', rest)
        ]
    ]
  ]

  -- The values one after the other.
  unfoldable pub apply_values : List Value → A → Run (Verdict A)
  apply_values [] node = ok (go_on node)
  apply_values (v ∷ vs) node = do
    verdict ← read_value v node
    elim verdict [ go_on node' ↦ apply_values vs node' | leave rc node' ↦ ok (leave rc node') ]

-- The change that reports that a value was created.
abbrev pub creation : Value → Change
creation v = record { oper = created; old_value = none; new_value = some v }

-- A change that is not the entry's: its value has another path.
pub record Foreign (xpath : Text) (c : Change) : Type 0 where
  pub elsewhere : Value
  pub has_value : value_of c ≡ some elsewhere
  pub other_path : starts_with xpath (elsewhere.xpath) ≡ false

abbrev pub Below : Text → Value → Type 0
Below xpath v = starts_with xpath (v.xpath) ≡ true

leave-ne-go_on :
    {A : Type 0} (node node' : A) (rc : Rc)
    → ◌≡◌ {A = Run (Verdict A)} (ok (leave rc node)) (ok (go_on node'))
    → ⊥
leave-ne-go_on node node' rc e = cc

module _ {A : Type 0} (read_value : Value → A → Run (Verdict A)) (code : Rc → Rc)
    (xpath : Text) where
  read_loop-step :
      (v : Value) (node node' : A) (tail : List Change)
      → Below xpath v
      → read_value v node ≡ ok (go_on node')
      → read_loop read_value code xpath node (creation v ∷ tail)
        ≡ read_loop read_value code xpath node' tail
  unfolding read_loop
  read_loop-step v node node' tail below run = rw (below, read_loop) (rw (run, ◌>>=◌))

  -- Reading the creation of values of the entry takes the values in order.
  pub read_loop-values :
      (vs : List Value) (node node' : A) (tail : List Change)
      → All (Below xpath) vs
      → apply_values read_value code vs node ≡ ok (go_on node')
      → read_loop read_value code xpath node (map creation vs ++ tail)
        ≡ read_loop read_value code xpath node' tail
  unfolding apply_values
  read_loop-values [] node node' tail below run = cc
  read_loop-values (v ∷ vs) node node' tail (below, belows) run =
      let (verdict, ran, rest) = >>=-eq-ok (read_value v node) _ run in
      after verdict ran rest (λ n r. read_loop-values vs n node' tail belows r)
    where
      after :
          (verdict : Verdict A)
          → read_value v node ≡ ok verdict
          → elim verdict [
            | go_on n ↦ apply_values read_value code vs n
            | leave rc n ↦ ok (leave rc n)
          ]
            ≡ ok (go_on node')
          → ((n : A)
              → apply_values read_value code vs n ≡ ok (go_on node')
              → read_loop read_value code xpath n (map creation vs ++ tail)
                ≡ read_loop read_value code xpath node' tail)
          → read_loop read_value code xpath node (creation v ∷ (map creation vs ++ tail))
            ≡ read_loop read_value code xpath node' tail
      after (go_on n) ran rest ih = read_loop-step v node n _ below ran ∙ ih n rest
      after (leave rc n) ran rest ih = absurd (leave-ne-go_on n node' rc rest)

  -- The values are read in the order of the changes; reading ends with SR_ERR_OK at the first change of
  -- another path, and what is left in the iterator is what follows that change.
  pub read_loop-block :
      (vs : List Value) (node node' : A) (c : Change) (rest : List Change)
      → All (Below xpath) vs
      → apply_values read_value code vs node ≡ ok (go_on node')
      → Foreign xpath c
      → read_loop read_value code xpath node (map creation vs ++ (c ∷ rest))
        ≡ ok (err_ok, node', rest)
  unfolding read_loop
  read_loop-block vs node node' c rest below run f =
      read_loop-values vs node node' (c ∷ rest) below run
      ∙ rw (f.has_value, read_loop) (rw (f.other_path))

module _ {A : Type 0} (read_value : Value → A → Run (Verdict A)) (code : Rc → Rc) where
  kept :
      {rc rc' : Rc} {node node' : A} (it rest : List Change)
      → ◌≡◌ {A = Run (Rc × A × List Change)} (ok (rc, node, it)) (ok (rc', node', rest))
      → length rest ≤ length it
  kept it rest e = let same : it ≡ rest = cc in omega (arith, ap length same)

  loop : Text → A → List Change → Run (Rc × A × List Change)
  loop = read_loop read_value code

  -- What a round comes to, by what the value makes of the node.
  round :
      (xpath : Text) (node : A) (c : Change) (it : List Change)
      → ((e : Fault) × (loop xpath node (c ∷ it) ≡ fault e))
        ⊎ ((rc : Rc) × (n : A) × ((rc ≡ err_ok) ⊎ ((r : Rc) × (rc ≡ code r)))
            × (loop xpath node (c ∷ it) ≡ ok (rc, n, it)))
        ⊎ ((n : A) × (loop xpath node (c ∷ it) ≡ loop xpath n it))
  unfolding loop read_loop
  round xpath node c it = elim (Option-cases (value_of c)) [
    | inl no_value ↦ inl (null_deref, rw (no_value, read_loop))
    | inr (v, has) ↦ elim (Bool-cases (starts_with xpath (v.xpath))) [
      | inr other ↦ inr (inl (err_ok, node, inl refl, rw (has, read_loop) (rw other refl)))
      | inl below ↦ elim (Run-cases (read_value v node)) [
        | inl (e, bad) ↦ inl (e, rw (has, read_loop) (rw below (rw (bad, ◌>>=◌) refl)))
        | inr (go_on n, ran) ↦ inr (inr (n, rw (has, read_loop) (rw below (rw (ran, ◌>>=◌) refl))))
        | inr (leave rc n, ran) ↦ inr (
            inl (code rc, n, inr (rc, refl), rw (has, read_loop) (rw below (rw (ran, ◌>>=◌) refl))))
      ]
    ]
  ]

  -- Reading takes changes from the iterator and puts none into it.
  pub read_loop-Consumes :
      (xpath : Text) (node node' : A) (it rest : List Change) (rc : Rc)
      → read_loop read_value code xpath node it ≡ ok (rc, node', rest)
      → length rest ≤ length it
  unfolding read_loop loop
  read_loop-Consumes xpath node node' [] rest rc run = kept [] rest run
  read_loop-Consumes xpath node node' (c ∷ it) rest rc run = elim (round xpath node c it) [
    | inl (e, bad) ↦
        let no : ◌≡◌ {A = Run (Rc × A × List Change)} (fault e) (ok (rc, node', rest)) =
          sym bad ∙ run in
        cc
    | inr (inl (rc', n, why, left)) ↦ omega (arith, kept it rest (sym left ∙ run))
    | inr (inr (n, on)) ↦ omega (arith, read_loop-Consumes xpath n node' it rest rc (sym on ∙ run))
  ]

  -- Where the code of a loop that is left early is SR_ERR_OK, so is the code of every loop that ends.
  pub read_loop-code :
      ((rc : Rc) → code rc ≡ err_ok)
      → (xpath : Text) (node node' : A) (it rest : List Change) (rc : Rc)
      → read_loop read_value code xpath node it ≡ ok (rc, node', rest)
      → rc ≡ err_ok
  unfolding read_loop loop
  read_loop-code fine xpath node node' [] rest rc run = cc
  read_loop-code fine xpath node node' (c ∷ it) rest rc run = elim (round xpath node c it) [
    | inl (e, bad) ↦ faulty (sym bad ∙ run)
    | inr (inl (rc', n, inl good, left)) ↦ same (sym left ∙ run) ∙ good
    | inr (inl (rc', n, inr (r, e), left)) ↦ same (sym left ∙ run) ∙ e ∙ fine r
    | inr (inr (n, on)) ↦ read_loop-code fine xpath n node' it rest rc (sym on ∙ run)
  ]
    where
      faulty :
          {e : Fault}
          → ◌≡◌ {A = Run (Rc × A × List Change)} (fault e) (ok (rc, node', rest))
          → rc ≡ err_ok
      faulty clash = cc

      same :
          {rc' : Rc} {n : A}
          → ◌≡◌ {A = Run (Rc × A × List Change)} (ok (rc', n, it)) (ok (rc, node', rest))
          → rc ≡ rc'
      same e = cc

-- ===== src/Store/Add.antt =====
-- Appending a node.
use ccips_cfgipsec.Base.{
  ℕ, zero, suc, ◌+◌, ◌≤◌, ◌<◌, ◌≡◌, ◌≢◌, refl, ◌∙◌, ◌-◌, Bool, true, false, none, some, List, [],
  ◌∷◌, ◌++◌, arith, ◌==◌, ok, fault, bad_pointer, ◌>>=◌,
}
use ccips_cfgipsec.Base.Lists.{length}
use ccips_cfgipsec.Store.Find.{find, find_loop-Seg, find_loop-dead}
use ccips_cfgipsec.Store.{
  get_node, Ptr, null, Cell, cell_of, Store, write, malloc, set_next, last_loop, add_node,
}
use ccips_cfgipsec.Store.Seg.{Seg, IsList, Seg-length, Seg-frame, Seg-snoc, load-ok}

-- `t` is `s` with the list's end redirected to `entry`, and no address outside the list changed.
record Relinked {A : Type 0} (s : Store A) (hi lo : ℕ) (p : Ptr) (xs : List A) (entry : Ptr)
    (t : Store A) : Type 0 where
  same_head : t.head ≡ s.head
  same_brk : t.brk ≡ s.brk
  chain : Seg t.cell hi lo p xs entry
  lower : (q : Ptr) → q ≤ lo → t.cell q ≡ s.cell q
  upper : (q : Ptr) → hi ≤ q → t.cell q ≡ s.cell q

-- What ends the list once a node with the `next` field `n` is added: an empty list gets a NULL
-- behind the node; on any other list the field stays as it was.
abbrev pub end_of : {A : Type 0} → List A → Ptr → Ptr
end_of [] n = null
end_of (x ∷ xs) n = n

pub end_of-null : {A : Type 0} (xs : List A) → end_of xs null ≡ null
end_of-null [] = refl
end_of-null (x ∷ xs) = refl

module _ {A : Type 0} where
  pub set_next-ok :
      (s : Store A) (p q : Ptr) {c : Cell A}
      → 0 < p
      → s.cell p ≡ some c
      → set_next s p q ≡ ok (write s p (some (record c { next = q })))
  unfolding set_next
  set_next-ok s p q pos at = rw (load-ok s p pos at, set_next)

  last_loop-Relinked :
      (fuel : ℕ) (s : Store A) (hi lo : ℕ) (p : Ptr) (a : A) (xs : List A) (entry : Ptr)
      → length xs < fuel
      → Seg s.cell hi lo p (a ∷ xs) null
      → (t : Store A) × (last_loop fuel s p entry ≡ ok t) × Relinked s hi lo p (a ∷ xs) entry t
  unfolding last_loop
  last_loop-Relinked zero s hi lo p a xs entry lt seg = absurd (omega arith)
  last_loop-Relinked (suc fuel) s hi lo p a [] entry lt (above, below, n, at, rest) = (
    write s p (some (cell_of a entry)),
    rw (load-ok s p (omega arith) at) (rw rest (set_next-ok s p entry (omega arith) at)),
    record {
      same_head = refl;
      same_brk = refl;
      chain = (above, below, entry, ground arith, refl);
      lower = λ q le. ground arith;
      upper = λ q le. ground arith;
    },
  )
  last_loop-Relinked (suc fuel) s hi lo p a (b ∷ xs) entry lt (above, below, n, at, rest) =
      let live : (n == null) ≡ false = ground arith in
      let (t, ran, r) = last_loop-Relinked fuel s hi p n b xs entry (omega arith) rest in
      (
        t,
        rw (load-ok s p (omega arith) at, ◌>>=◌) (rw live ran),
        record {
          same_head = r.same_head;
          same_brk = r.same_brk;
          chain = (above, below, n, rw (r.lower p (omega arith)) at, r.chain);
          lower = λ q le. r.lower q (omega arith);
          upper = r.upper;
        },
      )

  -- A node that was just allocated, with the fields `a` and the `next` field `n`, becomes the last of
  -- the list. Only where the list was empty is it given a NULL to end it.
  pub add_node-Seg :
      (s : Store A) (xs : List A) (a : A) (n : Ptr)
      → IsList s xs
      → (t : Store A) × (add_node (malloc (cell_of a n) s).1 s.brk ≡ ok t)
        × (t.brk ≡ s.brk + 1)
        × Seg t.cell s.brk 0 t.head xs s.brk
        × (t.cell s.brk ≡ some (cell_of a (end_of xs n)))
        × ((q : Ptr) → s.brk < q → t.cell q ≡ s.cell q)
  unfolding add_node
  add_node-Seg s [] a n (pos, seg) =
      let e : (s.head == null) ≡ true = ground arith in
      let m : Store A = (malloc (cell_of a n) s).1 in
      let at : m.cell s.brk ≡ some (cell_of a n) = ground arith in
      (
        write (record m { head = s.brk }) s.brk (some (cell_of a null)),
        rw e (set_next-ok (record m { head = s.brk }) s.brk null pos at),
        refl,
        refl,
        ground arith,
        λ q far. ground arith,
      )
  add_node-Seg s (x ∷ xs) a n (pos, seg) =
      let e : (s.head == null) ≡ false = ground arith in
      let m : Store A = (malloc (cell_of a n) s).1 in
      let framed : Seg m.cell s.brk 0 s.head (x ∷ xs) null =
        Seg-frame m.cell s.cell s.brk 0 s.head (x ∷ xs) null (λ q l u. ground arith) seg in
      let (t, ran, r) =
        last_loop-Relinked (suc m.brk) m s.brk 0 s.head x xs s.brk
          (omega (arith, Seg-length s.cell s.brk 0 s.head (x ∷ xs) null pos seg)) framed in
      (
        t,
        rw e ran,
        r.same_brk,
        rw r.same_head r.chain,
        rw (r.upper s.brk (omega arith)) (ground arith),
        λ q far. rw (r.upper q (omega arith)) (ground arith),
      )

  -- Where the new node's `next` is NULL, or the list was empty, the result is the list with the new
  -- node at its end.
  pub add_node-append :
      (s : Store A) (xs : List A) (a : A) (n : Ptr)
      → IsList s xs
      → end_of xs n ≡ null
      → (t : Store A) × (add_node (malloc (cell_of a n) s).1 s.brk ≡ ok t)
        × (t.brk ≡ s.brk + 1)
        × (t.cell s.brk ≡ some (cell_of a null))
        × IsList t (xs ++ (a ∷ []))
  add_node-append s xs a n (pos, seg) closed =
      let (t, ran, grown, chain, at, _) = add_node-Seg s xs a n (pos, seg) in
      let last : t.cell s.brk ≡ some (cell_of a null) = rw (← closed) at in
      (
        t,
        ran,
        grown,
        last,
        (
          omega arith,
          Seg-snoc t.cell s.brk t.brk 0 t.head xs s.brk a null pos (omega arith) (omega arith) chain
              last,
        ),
      )

  -- Where the list has nodes and the new node's `next` is no NULL and lies above every address that was ever handed out,
  -- the list has lost its end: every later walk that finds nothing in it reads through the stray pointer.
  pub add_node-stray :
      (s : Store A) (xs : List A) (a : A) (n : Ptr) (test : A → Bool)
      → IsList s xs
      → xs ≢ []
      → n ≢ null
      → s.brk < n
      → s.cell n ≡ none
      → find test (xs ++ (a ∷ [])) ≡ none
      → (t : Store A) × (add_node (malloc (cell_of a n) s).1 s.brk ≡ ok t)
        × (get_node test t ≡ fault bad_pointer)
  unfolding get_node
  add_node-stray s [] a n test is ne live far dead miss = absurd (ne refl)
  add_node-stray s (x ∷ xs) a n test (pos, seg) ne live far dead miss =
      let (t, ran, grown, chain, at, spared) = add_node-Seg s (x ∷ xs) a n (pos, seg) in
      let whole : Seg t.cell t.brk 0 t.head ((x ∷ xs) ++ (a ∷ [])) n =
        Seg-snoc t.cell s.brk t.brk 0 t.head (x ∷ xs) s.brk a n pos (omega arith) (omega arith)
          chain at in
      let short : length ((x ∷ xs) ++ (a ∷ [])) < t.brk =
        omega
          (arith, Seg-length t.cell t.brk 0 t.head ((x ∷ xs) ++ (a ∷ [])) n (omega arith) whole) in
      let left : ℕ = t.brk + 1 - length ((x ∷ xs) ++ (a ∷ [])) in
      (
        t,
        ran,
        find_loop-Seg test (suc t.brk) left t t.brk 0 t.head ((x ∷ xs) ++ (a ∷ [])) n (omega arith)
              miss whole
            ∙ find_loop-dead test left t n (omega arith) live (rw (spared n far) dead),
      )

-- ===== src/Store/Delete.antt =====
-- Deleting the first node that passes a test.
use ccips_cfgipsec.Base.{
  ℕ, zero, suc, ◌+◌, ◌<◌, ◌≡◌, ◌≢◌, refl, ◌∙◌, Bool, true, false, none, some, List, [], ◌∷◌, arith,
  ◌==◌, ok, fault, null_deref, Bool-cases, inl, inr, ◌>>=◌,
}
use ccips_cfgipsec.Base.Lists.{length}
use ccips_cfgipsec.Store.{
  Ptr, null, Cell, cell_of, Store, write, malloc, load, free_node, del_loop, unlink, del_node,
}
use ccips_cfgipsec.Store.Seg.{Seg, IsList, Seg-length, Seg-frame, Seg-widen, Seg-lower, load-ok}
use ccips_cfgipsec.Store.Add.{set_next-ok}
use ccips_cfgipsec.Store.Find.{find, find-none}
use ccips_cfgipsec.Store.Cut.{cut_at, erase, cut}

module _ {A : Type 0} (test : A → Bool) where
  free_node-ok :
      (s : Store A) (p : Ptr) {c : Cell A}
      → 0 < p
      → s.cell p ≡ some c
      → free_node s p ≡ ok (write s p none)
  unfolding free_node
  free_node-ok s p pos at =
      let live : (p == null) ≡ false = ground arith in rw (live, load-ok s p pos at)

  unlink-cut :
      (s : Store A) (last node : Ptr) {b a : A} {n : Ptr}
      → 0 < last
      → last < node
      → node ≢ s.head
      → s.cell last ≡ some (cell_of b node)
      → s.cell node ≡ some (cell_of a n)
      → test a ≡ true
      → unlink test s last node ≡ ok (cut_at s last b node n)
  unfolding unlink
  unlink-cut s last node {b} {a} {n} pos rising inner at_last at_node hit =
      let away : (node == s.head) ≡ false = ground arith in
      let m : Store A = write s last (some (cell_of b n)) in
      let at_node' : m.cell node ≡ some (cell_of a n) = ground arith in
      rw (away, load-ok s node (omega arith) at_node, ◌>>=◌)
        (rw (hit, set_next-ok s last n pos at_last, ◌>>=◌)
          (rw (free_node-ok m node (omega arith) at_node', ◌>>=◌)))

  del_loop-hit :
      (fuel : ℕ) (s : Store A) (prev p : Ptr) {a : A} {n : Ptr}
      → 0 < p
      → s.cell p ≡ some (cell_of a n)
      → test a ≡ true
      → del_loop test (suc fuel) s prev p ≡ ok (prev, p)
  unfolding del_loop
  del_loop-hit fuel s prev p pos at hit = rw (load-ok s p pos at, ◌>>=◌) (rw hit)

  del_loop-pass :
      (fuel : ℕ) (s : Store A) (prev p : Ptr) {a : A} {n : Ptr}
      → 0 < p
      → s.cell p ≡ some (cell_of a n)
      → test a ≡ false
      → del_loop test (suc fuel) s prev p ≡ del_loop test fuel s p n
  unfolding del_loop
  del_loop-pass fuel s prev p pos at pass = rw (load-ok s p pos at, ◌>>=◌) (rw pass)

  unlink-head :
      (s : Store A) (prev : Ptr) {a : A} {n : Ptr} {c : Cell A}
      → 0 < prev
      → 0 < s.head
      → s.cell prev ≡ some c
      → s.cell s.head ≡ some (cell_of a n)
      → unlink test s prev s.head ≡ ok (write (record s { head = n }) prev none)
  unfolding unlink
  unlink-head s prev {n} pos live at_prev at =
      let same : (s.head == s.head) ≡ true = ground arith in
      rw (same, load-ok s s.head live at, ◌>>=◌)
        (free_node-ok (record s { head = n }) prev pos at_prev)

  module _ (scratch : Cell A) (s : Store A) (a : A) (xs : List A) (n : Ptr) (above : 0 < s.head)
      (below : s.head < s.brk) (at : s.cell s.head ≡ some (cell_of a n))
      (rest : Seg s.cell s.brk s.head n xs null) where
    -- The heap once the scratch node is allocated.
    with_scratch : Store A
    with_scratch = (malloc scratch s).1

    head_kept : with_scratch.cell s.head ≡ some (cell_of a n)
    unfolding with_scratch
    head_kept = ground arith

    rest_kept : Seg with_scratch.cell s.brk s.head n xs null
    unfolding with_scratch
    rest_kept = Seg-frame _ s.cell s.brk s.head n xs null (λ q l u. ground arith) rest

    del_node-run :
        (last node : Ptr) (t : Store A)
        → del_loop test (suc (s.brk + 1)) with_scratch s.brk s.head ≡ ok (last, node)
        → unlink test with_scratch last node ≡ ok t
        → del_node test scratch s ≡ ok (true, t)
    unfolding del_node with_scratch
    del_node-run last node t walk cut_off =
        let live : (s.head == null) ≡ false = ground arith in
        rw live (rw (walk, ◌>>=◌) (rw (cut_off, ◌>>=◌)))

    del_node-head :
        test a ≡ true → (t : Store A) × (del_node test scratch s ≡ ok (true, t)) × IsList t xs
    unfolding with_scratch
    del_node-head hit =
        let m : Store A = with_scratch in
        let t : Store A = write (record m { head = n }) s.brk none in
        (
          t,
          del_node-run s.brk s.head t (del_loop-hit _ m s.brk s.head above head_kept hit)
              (unlink-head m s.brk {c = scratch} (omega arith) above (ground arith) head_kept),
          (
            omega arith,
            Seg-lower t.cell t.brk s.head 0 n xs null (omega arith) (
                Seg-widen t.cell s.brk t.brk s.head n xs null (omega arith)
                  (Seg-frame t.cell s.cell s.brk s.head n xs null (λ q l u. ground arith) rest)),
          ),
        )

    del_node-inner :
        (found : A)
        → test a ≡ false
        → find test xs ≡ some found
        → (t : Store A) × (del_node test scratch s ≡ ok (true, t)) × IsList t (a ∷ erase test xs)
    unfolding with_scratch
    del_node-inner found miss there =
        let m : Store A = with_scratch in
        let c =
          cut test (s.brk + 1) m s.brk s.head a n xs found there
            (omega (arith, Seg-length s.cell s.brk s.head n xs null below rest)) head_kept
            rest_kept in
        let t : Store A = cut_at m c.last c.last_fields c.node c.next in
        (
          t,
          del_node-run c.last c.node t
              (del_loop-pass (s.brk + 1) m s.brk s.head above head_kept miss ∙ c.ran)
              (unlink-cut m c.last c.node (omega (arith, c.from_prev)) c.rising
                (omega (arith, c.from_prev, c.rising)) c.at_last c.at_node c.hit),
          (
            omega arith,
            (
              above,
              omega arith,
              c.behind,
              c.at_prev,
              Seg-widen t.cell s.brk t.brk s.head c.behind (erase test xs) null (omega arith)
                  c.chain,
            ),
          ),
        )

  -- Deleting from a list that has a node that passes removes the first such node, and no other.
  pub del_node-erase :
      (scratch : Cell A) (s : Store A) (xs : List A) (found : A)
      → IsList s xs
      → find test xs ≡ some found
      → (t : Store A) × (del_node test scratch s ≡ ok (true, t)) × IsList t (erase test xs)
  unfolding find erase
  del_node-erase scratch s [] found is there = cc
  del_node-erase scratch s (a ∷ xs) found (pos, (above, below, n, at, rest)) there =
      elim (Bool-cases (test a)) [
        | inl hit ↦ rw hit (del_node-head scratch s a xs n above below at rest hit)
        | inr miss ↦
            rw miss
              (del_node-inner scratch s a xs n above below at rest found miss (rw miss at there))
      ]

  del_loop-miss :
      (fuel : ℕ) (s : Store A) (hi lo : ℕ) (prev p : Ptr) (xs : List A)
      → find test xs ≡ none
      → length xs < fuel
      → Seg s.cell hi lo p xs null
      → del_loop test fuel s prev p ≡ fault null_deref
  unfolding del_loop
  del_loop-miss zero s hi lo prev p xs miss lt seg = absurd (omega arith)
  del_loop-miss (suc fuel) s hi lo prev p [] miss lt seg = rw seg (unfold load in refl)
  del_loop-miss (suc fuel) s hi lo prev p (a ∷ xs) miss lt (above, below, n, at, rest) =
      let (pass, miss') = find-none test a xs miss in
      rw (load-ok s p (omega arith) at, ◌>>=◌)
        (rw pass (del_loop-miss fuel s hi p p n xs miss' (omega arith) rest))

  -- Deleting from an empty list reports SR_ERR_OPERATION_FAILED and changes nothing; deleting from a
  -- list that has nodes, none of which passes, walks off its end and dereferences NULL.
  pub del_node-absent :
      (scratch : Cell A) (s : Store A) (xs : List A)
      → IsList s xs
      → find test xs ≡ none
      → del_node test scratch s ≡ elim xs [ [] ↦ ok (false, s) | _ ∷ _ ↦ fault null_deref ]
  unfolding del_node
  del_node-absent scratch s [] (pos, seg) miss =
      let e : (s.head == null) ≡ true = ground arith in rw e
  del_node-absent scratch s (a ∷ xs) (pos, seg) miss =
      let live : (s.head == null) ≡ false = ground arith in
      let m : Store A = (malloc scratch s).1 in
      let kept : Seg m.cell s.brk 0 s.head (a ∷ xs) null =
        Seg-frame m.cell s.cell s.brk 0 s.head (a ∷ xs) null (λ q l u. ground arith) seg in
      let walk : del_loop test (suc m.brk) m s.brk s.head ≡ fault null_deref =
        del_loop-miss (suc m.brk) m s.brk 0 s.brk s.head (a ∷ xs) miss
          (omega (arith, Seg-length s.cell s.brk 0 s.head (a ∷ xs) null pos seg)) kept in
      rw live (rw (walk, ◌>>=◌))

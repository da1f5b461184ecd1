-- ===== src/Store/Last.antt =====
-- A list with a hand on its last node, as the functions that add an entry have it.
use ccips_cfgipsec.Base.{◌+◌, ◌<◌, ◌≡◌, some, List, [], ◌∷◌, ◌++◌, arith, ok, ◌>>=◌}
use ccips_cfgipsec.Store.{Ptr, null, Cell, cell_of, Store, write, malloc, set_payload, add_node}
use ccips_cfgipsec.Store.Seg.{Seg, IsList, Seg-frame, Seg-widen, Seg-snoc, load-ok}
use ccips_cfgipsec.Store.Add.{end_of, add_node-Seg}

-- A new node that is not linked leaves the list alone.
pub malloc-IsList :
    {A : Type 0} (s : Store A) (xs : List A) (c : Cell A) → IsList s xs → IsList (malloc c s).1 xs
malloc-IsList s xs c (pos, seg) =
    let m = (malloc c s).1 in
    (
      omega arith,
      Seg-widen m.cell s.brk m.brk 0 s.head xs null (omega arith)
          (Seg-frame m.cell s.cell s.brk 0 s.head xs null (λ q l u. ground arith) seg),
    )

module _ {A : Type 0} where
  -- The nodes of `xs` and then the node `p`, the youngest address, with the fields `a`.
  pub record Ends (t : Store A) (xs : List A) (a : A) (p : Ptr) : Type 0 where
    pub live : 0 < p
    pub youngest : t.brk ≡ p + 1
    pub chain : Seg t.cell p 0 t.head xs p
    pub last : t.cell p ≡ some (cell_of a null)

  pub Ends-IsList :
      {t : Store A} {xs : List A} {a : A} {p : Ptr} → Ends t xs a p → IsList t (xs ++ (a ∷ []))
  Ends-IsList {t} {xs} {a} {p} e = (
    omega (arith, e.youngest),
    Seg-snoc t.cell p t.brk 0 t.head xs p a null e.live (omega arith) (omega (arith, e.youngest))
        e.chain e.last,
  )

  -- The list is handed to `add_node` with a node that was just allocated.
  pub add_node-Ends :
      (s : Store A) (xs : List A) (a : A) (n : Ptr)
      → IsList s xs
      → end_of xs n ≡ null
      → (t : Store A) × (add_node (malloc (cell_of a n) s).1 s.brk ≡ ok t) × Ends t xs a s.brk
  add_node-Ends s xs a n (pos, seg) closed =
      let (t, ran, grown, chain, at, _) = add_node-Seg s xs a n (pos, seg) in
      (t, ran, record { live = pos; youngest = grown; chain = chain; last = rw (← closed) at })

  pub set_payload-Ends :
      {t : Store A} {xs : List A} {a : A} {p : Ptr} (b : A)
      → Ends t xs a p
      → (u : Store A) × (set_payload t p b ≡ ok u) × Ends u xs b p
  unfolding set_payload
  set_payload-Ends {t} {xs} {a} {p} b e = (
    write t p (some (cell_of b null)),
    rw (load-ok t p e.live e.last, ◌>>=◌),
    record {
      live = e.live;
      youngest = e.youngest;
      chain = Seg-frame _ t.cell p 0 t.head xs p (λ q l u. ground arith) e.chain;
      last = ground arith;
    },
  )

-- ===== src/Store/Seg.antt =====
-- List segments of the heap, at rising addresses.
use ccips_cfgipsec.Base.{
  ℕ, ◌+◌, ◌≤◌, ◌<◌, ◌≡◌, refl, false, Option, none, some, ◌≢◌, List, [], ◌∷◌, ◌++◌, arith, ◌==◌, ok,
  fault, bad_pointer,
}
use ccips_cfgipsec.Base.Lists.{length}
use ccips_cfgipsec.Store.{Ptr, null, Cell, cell_of, Store, load}

module _ {A : Type 0} where
  -- From `p` the `next` fields lead through nodes with the fields `xs`, above `lo` and below `hi`, to
  -- `stop`.
  abbrev pub Seg : (Ptr → Option (Cell A)) → ℕ → ℕ → Ptr → List A → Ptr → Type 0
  Seg h hi lo p [] stop = p ≡ stop
  Seg h hi lo p (a ∷ xs) stop =
      (lo < p) × (p < hi) × (n : Ptr) × (h p ≡ some (cell_of a n)) × Seg h hi p n xs stop

  -- The global list is the nodes with the fields `xs`, and ends in NULL.
  abbrev pub IsList : Store A → List A → Type 0
  IsList s xs = (0 < s.brk) × Seg s.cell s.brk 0 s.head xs null

  -- A segment survives what leaves its addresses alone.
  pub Seg-frame :
      (g h : Ptr → Option (Cell A)) (hi lo : ℕ) (p : Ptr) (xs : List A) (stop : Ptr)
      → ((q : Ptr) → lo < q → q < hi → g q ≡ h q)
      → Seg h hi lo p xs stop
      → Seg g hi lo p xs stop
  Seg-frame g h hi lo p [] stop same seg = seg
  Seg-frame g h hi lo p (a ∷ xs) stop same (above, below, n, at, rest) = (
    above,
    below,
    n,
    rw (same p above below) at,
    Seg-frame g h hi p n xs stop (λ q l u. same q (omega arith) u) rest,
  )

  pub Seg-widen :
      (h : Ptr → Option (Cell A)) (hi hi' lo : ℕ) (p : Ptr) (xs : List A) (stop : Ptr)
      → hi ≤ hi'
      → Seg h hi lo p xs stop
      → Seg h hi' lo p xs stop
  Seg-widen h hi hi' lo p [] stop le seg = seg
  Seg-widen h hi hi' lo p (a ∷ xs) stop le (above, below, n, at, rest) =
      (above, omega arith, n, at, Seg-widen h hi hi' p n xs stop le rest)

  -- Rising addresses bound the length, and so the rounds of a walk.
  pub Seg-length :
      (h : Ptr → Option (Cell A)) (hi lo : ℕ) (p : Ptr) (xs : List A) (stop : Ptr)
      → lo < hi
      → Seg h hi lo p xs stop
      → lo + length xs < hi
  Seg-length h hi lo p [] stop lt seg = omega arith
  Seg-length h hi lo p (a ∷ xs) stop lt (above, below, n, at, rest) =
      omega (arith, Seg-length h hi p n xs stop below rest)

  -- A segment that ends at a node above it takes that node in.
  pub Seg-snoc :
      (h : Ptr → Option (Cell A)) (hi hi' lo : ℕ) (p : Ptr) (xs : List A) (q : Ptr) (a : A)
      (n : Ptr)
      → lo < hi
      → hi ≤ q
      → q < hi'
      → Seg h hi lo p xs q
      → h q ≡ some (cell_of a n)
      → Seg h hi' lo p (xs ++ (a ∷ [])) n
  Seg-snoc h hi hi' lo p [] q a n lt le up seg at = rw seg (omega arith, up, n, at, refl)
  Seg-snoc h hi hi' lo p (x ∷ xs) q a n lt le up (above, below, m, atp, rest) atq =
      (above, omega arith, m, atp, Seg-snoc h hi hi' p m xs q a n below le up rest atq)

  pub load-ok : (s : Store A) (p : Ptr) {c : Cell A} → 0 < p → s.cell p ≡ some c → load s p ≡ ok c
  unfolding load
  load-ok s p pos at = let e : (p == null) ≡ false = ground arith in rw (e, at)

  pub load-dead :
      (s : Store A) (p : Ptr) → p ≢ null → s.cell p ≡ none → load s p ≡ fault bad_pointer
  unfolding load
  load-dead s p live dead = let e : (p == null) ≡ false = ground arith in rw (e, dead)

  pub Seg-lower :
      (h : Ptr → Option (Cell A)) (hi lo lo' : ℕ) (p : Ptr) (xs : List A) (stop : Ptr)
      → lo' ≤ lo
      → Seg h hi lo p xs stop
      → Seg h hi lo' p xs stop
  Seg-lower h hi lo lo' p [] stop le seg = seg
  Seg-lower h hi lo lo' p (a ∷ xs) stop le (above, below, n, at, rest) =
      (omega arith, below, n, at, rest)

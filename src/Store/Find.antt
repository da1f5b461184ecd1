-- ===== src/Store/Find.antt =====
-- What a walk finds.
use ccips_cfgipsec.Base.{
  ℕ, zero, suc, ◌+◌, ◌<◌, ◌≡◌, ◌≢◌, refl, Bool, false, Option, none, some, List, [], ◌∷◌, ◌++◌,
  arith, ◌==◌, if◌then◌else◌, ok, fault, bad_pointer, Bool-cases, inl, inr, ap, subst, ◌∙◌,
}
use ccips_cfgipsec.Base.Lists.{length}
use ccips_cfgipsec.Store.{Ptr, null, cell_of, Store, load, find_loop, get_node}
use ccips_cfgipsec.Store.Seg.{Seg, IsList, Seg-length, load-ok, load-dead}

module _ {A : Type 0} (test : A → Bool) where
  -- The first of a list that passes.
  unfoldable pub find : List A → Option A
  find [] = none
  find (a ∷ xs) = let rest = find xs in if test a then some a else rest

  -- `p` is NULL where nothing passes, and else the address of a node with the fields found.
  abbrev pub Found : Store A → Option A → Ptr → Type 0
  Found s none p = p ≡ null
  Found s (some a) p = (0 < p) × (p < s.brk) × (n : Ptr) × (s.cell p ≡ some (cell_of a n))

  find_loop-Found :
      (fuel : ℕ) (s : Store A) (lo : ℕ) (p : Ptr) (xs : List A)
      → length xs < fuel
      → Seg s.cell s.brk lo p xs null
      → (q : Ptr) × (find_loop test fuel s p ≡ ok q) × Found s (find xs) q
  unfolding find_loop find
  find_loop-Found zero s lo p xs lt seg = absurd (omega arith)
  find_loop-Found (suc fuel) s lo p [] lt seg = (null, rw seg, refl)
  find_loop-Found (suc fuel) s lo p (a ∷ xs) lt (above, below, n, at, rest) =
      let live : (p == null) ≡ false = ground arith in
      rw (live, load-ok s p (omega arith) at, find_loop)
        (elim (Bool-cases (test a)) [
          | inl hit ↦ rw hit (p, refl, (omega arith, below, n, at))
          | inr miss ↦ rw miss (find_loop-Found fuel s p n xs (omega arith) rest)
        ])

  -- On every list that is well formed the walk ends without a fault, within the addresses handed out:
  -- at the first node that passes the test, and at NULL where no node does.
  pub get_node-find :
      (s : Store A) (xs : List A)
      → IsList s xs
      → (q : Ptr) × (get_node test s ≡ ok q) × Found s (find xs) q
  unfolding get_node
  get_node-find s xs (pos, seg) =
      find_loop-Found (suc s.brk) s 0 s.head xs
        (omega (arith, Seg-length s.cell s.brk 0 s.head xs null pos seg)) seg

  pub get_node-none :
      (s : Store A) (xs : List A) → IsList s xs → find xs ≡ none → get_node test s ≡ ok null
  get_node-none s xs is miss =
      let (q, ran, found) = get_node-find s xs is in
      ran ∙ ap (λ p. ok p) (subst (λ o. Found s o q) miss found)

  pub get_node-some :
      (s : Store A) (xs : List A) (a : A)
      → IsList s xs
      → find xs ≡ some a
      → (q : Ptr) × (get_node test s ≡ ok q)
        × ((q == null) ≡ false)
        × (n : Ptr) × (load s q ≡ ok (cell_of a n))
  get_node-some s xs a is hit =
      let (q, ran, found) = get_node-find s xs is in
      let (live, below, n, at) = subst (λ o. Found s o q) hit found in
      (q, ran, ground arith, n, load-ok s q live at)

  pub find-none : (a : A) (xs : List A) → find (a ∷ xs) ≡ none → (test a ≡ false) × (find xs ≡ none)
  unfolding find
  find-none a xs miss = ground arith

  -- A walk that meets no node that passes goes on behind the segment, with the rounds left.
  pub find_loop-Seg :
      (rounds fuel : ℕ) (s : Store A) (hi lo : ℕ) (p : Ptr) (xs : List A) (stop : Ptr)
      → rounds ≡ length xs + fuel
      → find xs ≡ none
      → Seg s.cell hi lo p xs stop
      → find_loop test rounds s p ≡ find_loop test fuel s stop
  unfolding find_loop
  find_loop-Seg rounds fuel s hi lo p [] stop e miss seg =
      let e' : rounds ≡ fuel = omega arith in rw (e', seg)
  find_loop-Seg zero fuel s hi lo p (a ∷ xs) stop e miss seg = absurd (omega arith)
  find_loop-Seg (suc rounds) fuel s hi lo p (a ∷ xs) stop e miss (above, below, n, at, rest) =
      let live : (p == null) ≡ false = ground arith in
      let (pass, miss') = find-none a xs miss in
      rw (live, load-ok s p (omega arith) at, find_loop)
        (rw (pass, find_loop) (find_loop-Seg rounds fuel s hi p n xs stop (omega arith) miss' rest))

  -- A walk that reaches an address where nothing lives reads through it.
  pub find_loop-dead :
      (fuel : ℕ) (s : Store A) (p : Ptr)
      → 0 < fuel
      → p ≢ null
      → s.cell p ≡ none
      → find_loop test fuel s p ≡ fault bad_pointer
  unfolding find_loop
  find_loop-dead zero s p pos live dead = absurd (omega arith)
  find_loop-dead (suc fuel) s p pos live dead =
      let e : (p == null) ≡ false = ground arith in rw (e, load-dead s p live dead, find_loop)

  pub find-snoc :
      (xs : List A) (a : A) → find xs ≡ none → test a ≡ false → find (xs ++ (a ∷ [])) ≡ none
  unfolding find
  find-snoc [] a miss other = rw other refl
  find-snoc (x ∷ xs) a miss other =
      let (pass, miss') = find-none x xs miss in rw pass (find-snoc xs a miss' other)

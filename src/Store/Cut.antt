-- ===== src/Store/Cut.antt =====
-- The walk that looks for the node to delete, and the list less that node.
use ccips_cfgipsec.Base.{
  ℕ, zero, suc, ◌≤◌, ◌<◌, ◌≡◌, Bool, true, none, some, List, [], ◌∷◌, arith, if◌then◌else◌, ok,
  Bool-cases, inl, inr, ◌>>=◌,
}
use ccips_cfgipsec.Base.Lists.{length}
use ccips_cfgipsec.Store.{Ptr, null, cell_of, Store, write, del_loop}
use ccips_cfgipsec.Store.Seg.{Seg, Seg-frame, Seg-lower, load-ok}
use ccips_cfgipsec.Store.Find.{find}

abbrev pub cut_at : {A : Type 0} → Store A → Ptr → A → Ptr → Ptr → Store A
cut_at s prev b node n = write (write s prev (some (cell_of b n))) node none

module _ {A : Type 0} (test : A → Bool) where
  -- The list less the first element that passes.
  unfoldable pub erase : List A → List A
  erase [] = []
  erase (a ∷ xs) = let rest = erase xs in if test a then xs else a ∷ rest

  -- Where the walk from `prev` and its successor `p` ends: at `node`, behind `last`. Unlinking the node
  -- there leaves `prev` in front of the list less the node.
  pub record Cut (fuel : ℕ) (s : Store A) (hi : ℕ) (prev : Ptr) (b : A) (p : Ptr) (xs : List A)
      : Type 0 where
    pub last : Ptr
    pub last_fields : A
    pub node : Ptr
    pub node_fields : A
    pub next : Ptr
    pub ran : del_loop test fuel s prev p ≡ ok (last, node)
    pub at_last : s.cell last ≡ some (cell_of last_fields node)
    pub at_node : s.cell node ≡ some (cell_of node_fields next)
    pub hit : test node_fields ≡ true
    pub from_prev : prev ≤ last
    pub rising : last < node
    pub below : node < hi
    pub behind : Ptr
    pub at_prev : (cut_at s last last_fields node next).cell prev ≡ some (cell_of b behind)
    pub chain : Seg (cut_at s last last_fields node next).cell hi prev behind (erase xs) null

  pub cut :
      (fuel : ℕ) (s : Store A) (hi : ℕ) (prev : Ptr) (b : A) (p : Ptr) (xs : List A) (found : A)
      → find test xs ≡ some found
      → length xs ≤ fuel
      → s.cell prev ≡ some (cell_of b p)
      → Seg s.cell hi prev p xs null
      → Cut fuel s hi prev b p xs
  unfolding find erase del_loop
  cut fuel s hi prev b p [] found there le at_prev seg = cc
  cut zero s hi prev b p (a ∷ xs) found there le at_prev seg = absurd (omega arith)
  cut (suc fuel) s hi prev b p (a ∷ xs) found there le at_prev (above, below, n, at, rest) =
      elim (Bool-cases (test a)) [
        | inl hit ↦ record {
          last = prev;
          last_fields = b;
          node = p;
          node_fields = a;
          next = n;
          ran = rw (load-ok s p (omega arith) at, ◌>>=◌) (rw hit);
          at_last = at_prev;
          at_node = at;
          hit = hit;
          from_prev = omega arith;
          rising = above;
          below = below;
          behind = n;
          at_prev = ground arith;
          chain = rw hit (
              Seg-lower _ hi p prev n xs null (omega arith)
                (Seg-frame _ s.cell hi p n xs null (λ q l u. ground arith) rest));
        }
        | inr miss ↦
            let c = cut fuel s hi p a n xs found (rw miss at there) (omega arith) at rest in
            record {
              last = c.last;
              last_fields = c.last_fields;
              node = c.node;
              node_fields = c.node_fields;
              next = c.next;
              ran = rw (load-ok s p (omega arith) at, ◌>>=◌) (rw miss c.ran);
              at_last = c.at_last;
              at_node = c.at_node;
              hit = c.hit;
              from_prev = omega (arith, c.from_prev);
              rising = c.rising;
              below = c.below;
              behind = p;
              at_prev = ground (arith, c.from_prev, c.rising);
              chain = rw miss (above, below, c.behind, c.at_prev, c.chain);
            }
      ]

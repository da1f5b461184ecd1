-- ===== src/State/Walk.antt =====
-- What `get_sad_state` reports: four leaves for each association, in the order of the list.
use ccips_cfgipsec.Base.{
  ℕ, zero, suc, ◌+◌, ◌≤◌, ◌<◌, ◌≡◌, refl, ◌∙◌, arith, Bool, true, false, Option, none, some, List,
  [], ◌∷◌, ◌++◌, map, ltb, ◌==◌, ok, ◌>>=◌,
}
use ccips_cfgipsec.Base.Lists.{length, All, length-append}
use ccips_cfgipsec.Text.{Text, codes, str_eq, strcpy}
use ccips_cfgipsec.Utils.Constants.{max_path}
use ccips_cfgipsec.Sysrepo.{err_ok}
use ccips_cfgipsec.Store.{Ptr, null, cell_of, Store, write, set_payload}
use ccips_cfgipsec.Store.Seg.{Seg, IsList, Seg-frame, Seg-length, load-ok}
use ccips_cfgipsec.Sad.{SadEntry}
use ccips_cfgipsec.PfKey.Lifetime.{pf_get_sad_lifetime_current_by_spi}
use ccips_cfgipsec.State.{state_path, low_word, put_leaf, put_bytes, state_loop, get_sad_state}

module _ {T : Type 0} (new_tree : Text → Text → Option T) (add_leaf : T → Text → Text → T)
    (reads : SadEntry → List (ℕ × List ℕ)) (xpath : Text) (looked_up : SadEntry → SadEntry) where
  -- The leaf of a path and a number, in the tree that is there.
  abbrev pub leaf : Text → ℕ → Option T → Option T
  leaf path n none = none
  leaf path n (some t) = some (add_leaf t path (low_word n))

  -- The leaf that starts a new tree, for the first association.
  abbrev pub bytes_leaf : Bool → Text → ℕ → Option T → Option T
  bytes_leaf true path n tree = new_tree path (low_word n)
  bytes_leaf false path n tree = leaf path n tree

  -- The four leaves of each association, by the name that the list has and the lifetimes that were looked up.
  abbrev pub leaves : Bool → List SadEntry → Option T → Option T
  leaves first [] tree = tree
  leaves first (a ∷ xs) tree =
      let base = state_path xpath a in
      let e = looked_up a in
      leaves false xs (
        leaf (base ++ codes "/time") (e.lft_time_current) (
          leaf (base ++ codes "/idle") (e.lft_idle_current) (
            leaf (base ++ codes "/packets") (e.lft_packets_current)
              (bytes_leaf first (base ++ codes "/bytes") (e.lft_bytes_current) tree))))

  -- The lookup succeeds, and the longest of the paths fits its buffer.
  pub record Reportable (a : SadEntry) : Type 0 where
    pub found : pf_get_sad_lifetime_current_by_spi (reads a) a ≡ ok (err_ok, looked_up a)
    pub path_fits : length (state_path xpath a) + 8 < max_path

  path_copied : (s : Text) → length s < max_path → strcpy max_path s ≡ ok s
  unfolding strcpy
  path_copied s fits = let e : ltb (length s) max_path ≡ true = ground arith in rw e refl

  put_leaf-ok :
      (base step : Text) (n : ℕ) (tree : Option T)
      → length base + length step < max_path
      → put_leaf new_tree add_leaf reads base step n tree ≡ ok (leaf (base ++ step) n tree)
  unfolding put_leaf
  put_leaf-ok base step n none fits =
      rw (path_copied (base ++ step) (omega (arith, length-append base step)), ◌>>=◌) refl
  put_leaf-ok base step n (some t) fits =
      rw (path_copied (base ++ step) (omega (arith, length-append base step)), ◌>>=◌) refl

  put_bytes-ok :
      (first : Bool) (base : Text) (n : ℕ) (tree : Option T)
      → length base + 6 < max_path
      → put_bytes new_tree add_leaf reads first base n tree
        ≡ ok (bytes_leaf first (base ++ codes "/bytes") n tree)
  unfolding put_bytes
  put_bytes-ok true base n tree fits =
      rw
        (
          path_copied (base ++ codes "/bytes") (omega (arith, length-append base (codes "/bytes"))),
          ◌>>=◌,
        )
        refl
  put_bytes-ok false base n tree fits = put_leaf-ok base (codes "/bytes") n tree fits

  state_loop-leaves :
      (fuel : ℕ) (s : Store SadEntry) (lo : ℕ) (p : Ptr) (xs : List SadEntry) (first : Bool)
      (tree : Option T)
      → length xs < fuel
      → All Reportable xs
      → Seg s.cell s.brk lo p xs null
      → (t : Store SadEntry) × (state_loop new_tree add_leaf reads fuel xpath s p first tree
          ≡ ok (err_ok, t, leaves first xs tree))
        × (t.head ≡ s.head)
        × (t.brk ≡ s.brk)
        × Seg t.cell s.brk lo p (map looked_up xs) null
        × ((q : Ptr) → q ≤ lo → t.cell q ≡ s.cell q)
  unfolding state_loop
  state_loop-leaves zero s lo p xs first tree lt fine seg = absurd (omega arith)
  state_loop-leaves (suc fuel) s lo p [] first tree lt fine seg =
      (s, rw seg refl, refl, refl, seg, λ q le. refl)
  state_loop-leaves (suc fuel) s lo p (a ∷ xs) first tree lt (r, fine) (above, below, n, at, rest) =
      let live : (p == null) ≡ false = ground arith in
      let s1 : Store SadEntry = write s p (some (cell_of (looked_up a) n)) in
      let rest1 : Seg s1.cell s.brk p n xs null =
        Seg-frame s1.cell s.cell s.brk p n xs null (λ q l u. ground arith) rest in
      let loaded = load-ok s p (omega arith) at in
      let wrote : set_payload s p (looked_up a) ≡ ok s1 =
        unfold set_payload in rw (loaded, ◌>>=◌) refl in
      let at1 : s1.cell p ≡ some (cell_of (looked_up a) n) = ground arith in
      let e : SadEntry = looked_up a in
      let base : Text = state_path xpath a in
      let base_fits : strcpy max_path base ≡ ok base =
        path_copied base (omega (arith, r.path_fits)) in
      let tree1 = bytes_leaf first (base ++ codes "/bytes") (e.lft_bytes_current) tree in
      let tree2 = leaf (base ++ codes "/packets") (e.lft_packets_current) tree1 in
      let tree3 = leaf (base ++ codes "/idle") (e.lft_idle_current) tree2 in
      let tree4 = leaf (base ++ codes "/time") (e.lft_time_current) tree3 in
      let put1 = put_bytes-ok first base (e.lft_bytes_current) tree (omega (arith, r.path_fits)) in
      let put2 =
        put_leaf-ok base (codes "/packets") (e.lft_packets_current) tree1
          (omega (arith, r.path_fits)) in
      let put3 =
        put_leaf-ok base (codes "/idle") (e.lft_idle_current) tree2 (omega (arith, r.path_fits)) in
      let put4 =
        put_leaf-ok base (codes "/time") (e.lft_time_current) tree3 (omega (arith, r.path_fits)) in
      let (t, ran, same_head, same_brk, seg', kept) =
        state_loop-leaves fuel s1 p n xs false tree4 (omega arith) fine rest1 in
      (
        t,
        rw (live, state_loop)
            (rw (loaded, ◌>>=◌)
              (rw (base_fits, ◌>>=◌)
                (rw (r.found, ◌>>=◌)
                  (rw (wrote, ◌>>=◌)
                    (rw (put1, ◌>>=◌)
                      (rw (put2, ◌>>=◌) (rw (put3, ◌>>=◌) (rw (put4, ◌>>=◌) ran)))))))),
        same_head,
        same_brk,
        (above, below, n, kept p (omega arith) ∙ at1, seg'),
        λ q le. kept q (omega arith) ∙ ground arith,
      )

  -- Asked for the associations under the module name that it knows, the function reports, in the order of the list, four
  -- leaves for each, with the numbers that the kernel has just given modulo 2^32, in a new tree that the first leaf makes: the
  -- tree that the caller gave is replaced where the list has an entry, and no leaf is reported where libyang cannot make the
  -- first. It leaves the list with these numbers in it. The conditions: every lookup succeeds, and every path fits its buffer.
  pub get_sad_state-leaves :
      (module_name : Text) (s : Store SadEntry) (xs : List SadEntry) (tree : Option T)
      → str_eq module_name (codes "ietf-ipsec-ikeless") ≡ true
      → str_eq xpath (codes "/ietf-i2nsf-ikeless:ipsec-ikeless/sad/sad-entry") ≡ true
      → All Reportable xs
      → IsList s xs
      → (t : Store SadEntry) × (get_sad_state new_tree add_leaf reads module_name xpath s tree
          ≡ ok (err_ok, t, leaves true xs tree))
        × IsList t (map looked_up xs)
  unfolding get_sad_state
  get_sad_state-leaves module_name s xs tree known path fine (pos, seg) =
      let (t, ran, same_head, same_brk, seg', _) =
        state_loop-leaves (suc s.brk) s 0 s.head xs true tree
          (omega (arith, Seg-length s.cell s.brk 0 s.head xs null pos seg)) fine seg in
      (
        t,
        rw (known, get_sad_state) (rw (path, get_sad_state) ran),
        (rw same_brk pos, rw (same_brk, same_head) seg'),
      )

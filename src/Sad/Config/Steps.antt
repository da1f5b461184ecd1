-- ===== src/Sad/Config/Steps.antt =====
-- What reading each leaf of an association sets.
use ccips_cfgipsec.Base.{
  ◌≡◌, ◌≢◌, refl, ◌∙◌, true, some, List, [], ◌∷◌, ◌++◌, map, arith, ok, ◌>>=◌,
}
use ccips_cfgipsec.Base.Lists.{All}
use ccips_cfgipsec.Text.{Text, strstr, strstr-infix, strrchr, strrchr-last}
use ccips_cfgipsec.Sysrepo.{go_on, err_ok}
use ccips_cfgipsec.Sysrepo.ReadLoop.{apply_values}
use ccips_cfgipsec.Sad.{SadEntry}
use ccips_cfgipsec.Sad.Leaf.{SadLeaf, sad_leaf, reqid}
use ccips_cfgipsec.Sad.Read.{read_sad_leaf, read_sad_value}
use ccips_cfgipsec.Sad.Config.{Item, path_of, item_value, step, Setting, inside}
use mathlib.Core.List.{append_assoc, foldl}

-- Every step is sorted into its own branch.
sad_leaf-step : (l : SadLeaf) → sad_leaf (b'/' ∷ step l) ≡ l
unfolding sad_leaf
sad_leaf-step reqid = refl
sad_leaf-step _ = refl

step-NoSlash : (l : SadLeaf) → All (λ c. c ≢ b'/') (step l)
step-NoSlash reqid = omega arith
step-NoSlash _ = omega arith

-- The name of a container on the way to a leaf is in the path of the leaf.
pub holds :
    (xpath above name keys rest : Text)
    → strstr (xpath ++ (inside above name keys ++ rest)) name ≡ true
holds xpath above name keys rest =
    rw
      (
        append_assoc above (name ++ keys) rest,
        append_assoc name keys rest,
        ← append_assoc xpath above (name ++ (keys ++ rest)),
      )
      (strstr-infix (xpath ++ above) name (keys ++ rest))

module _ (xpath : Text) where
  read_sad_value-item :
      (i : Item) (node : SadEntry)
      → read_sad_value (item_value xpath i) node ≡ read_sad_leaf (i.leaf) (item_value xpath i) node
  unfolding read_sad_value
  read_sad_value-item i node =
      let last : strrchr (path_of xpath (i.between) (i.leaf)) b'/' ≡ some (b'/' ∷ step (i.leaf)) =
        rw (← append_assoc xpath (i.between) (b'/' ∷ step (i.leaf)))
          (strrchr-last (xpath ++ i.between) (step (i.leaf)) b'/' (step-NoSlash (i.leaf))) in
      rw (last, read_sad_value) (rw (sad_leaf-step (i.leaf)))

  abbrev pub Sets : Setting → Type 0
  Sets p =
      (node : SadEntry)
      → read_sad_leaf (p.0.leaf) (item_value xpath (p.0)) node ≡ ok (go_on (p.1 node))

  pub apply_values-Sets :
      (ps : List Setting) (node : SadEntry)
      → All Sets ps
      → apply_values read_sad_value (λ rc. err_ok) (map (λ p. item_value xpath (p.0)) ps) node
        ≡ ok (go_on (foldl (λ n p. p.1 n) node ps))
  unfolding apply_values
  apply_values-Sets [] node h = refl
  apply_values-Sets (p ∷ ps) node (h, hs) =
      rw (read_sad_value-item (p.0) node ∙ h node, ◌>>=◌) (apply_values-Sets ps (p.1 node) hs)

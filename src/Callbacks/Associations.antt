-- ===== src/Callbacks/Associations.antt =====
-- The callback on a transaction that creates associations.
use ccips_cfgipsec.Base.{
  ℕ, zero, suc, ◌≤◌, ◌<◌, ◌≡◌, refl, sym, subst, arith, Bool, false, some, List, [], ◌∷◌, ◌++◌, Run,
  ok, ◌>>=◌,
}
use ccips_cfgipsec.Base.Lists.{length, All, length-append}
use ccips_cfgipsec.Text.{Text, codes, str_eq, strcpy}
use ccips_cfgipsec.Utils.Constants.{max_path}
use ccips_cfgipsec.Sysrepo.{Rc, err_ok, Change, number, text}
use ccips_cfgipsec.Sysrepo.ReadLoop.{creation}
use ccips_cfgipsec.Store.{Ptr, Store}
use ccips_cfgipsec.Store.Seg.{IsList}
use ccips_cfgipsec.Sad.{SadEntry, create_sad_node}
use ccips_cfgipsec.Sad.Read.{read_sad_entry}
use ccips_cfgipsec.Sad.Config.{SadConfig, ConfigFits, config_entry}
use ccips_cfgipsec.Sad.Config.RoundTrip.{
  config_changes, read_sad_entry-config, read_sad_entry-config_last,
}
use ccips_cfgipsec.Entries.{Pfkey}
use ccips_cfgipsec.Entries.Sad.{add_sad_entry, remove_sad_entry}
use ccips_cfgipsec.Entries.Sad.Apply.{add_sad_entry-append}
use ccips_cfgipsec.Callbacks.{change, change_loop, entry_change_cb, sad_entry_change_cb}
use ccips_cfgipsec.Callbacks.Loop.{apply_change-name}
use ccips_cfgipsec.Callbacks.Policies.{entry_path, NoQuote, entry_path-Apart, instance_passed}
use mathlib.Core.List.{append_assoc, append-nil, foldl}

-- An association of the configuration, the address of its texts, and the case of its keys.
pub record Association : Type 0 where
  pub name : Text
  pub address : ℕ
  pub upper : Bool
  pub config : SadConfig

module _ (root : Text) where
  abbrev pub path_to : Association → Text
  path_to a = entry_path root a.name

  abbrev leaves : Association → List Change
  leaves a = config_changes (path_to a) (a.address) (a.upper) (a.config)

  abbrev pub instance_created : Association → Change
  instance_created a = creation (record { xpath = path_to a; val = number 0 })

  abbrev pub name_created : Association → Change
  name_created a =
      creation (record { xpath = path_to a ++ codes "/name"; val = text (a.address) (a.name) })

  -- The changes of the associations, and those behind the first one's instance.
  unfoldable pub association_changes : List Association → List Change
  association_changes [] = []
  association_changes (a ∷ later) =
      instance_created a ∷ (name_created a ∷ (leaves a ++ association_changes later))

  unfoldable pub behind_instance : List Association → List Change
  behind_instance [] = []
  behind_instance (a ∷ later) = name_created a ∷ (leaves a ++ association_changes later)

  pub record Storable (a : Association) : Type 0 where
    pub name_fits : strcpy max_path (a.name) ≡ ok (a.name)
    pub config_fits : ConfigFits (path_to a) (a.config)
    pub no_quote : NoQuote (a.name)

  -- What one association needs of another that is created behind it.
  pub record Apart (a b : Association) : Type 0 where
    pub other_name : str_eq (a.name) (b.name) ≡ false
    pub no_quote_in_it : NoQuote (b.name)

  abbrev pub Creatable : List Association → Type 0
  Creatable [] = Unit
  Creatable (a ∷ later) = Storable a × All (Apart a) later × Creatable later

  read_association :
      (a : Association) (later : List Association) (node : SadEntry)
      → Storable a
      → All (Apart a) later
      → read_sad_entry (path_to a) node (leaves a ++ association_changes later)
        ≡ ok (err_ok, config_entry (a.config) node, behind_instance later)
  unfolding association_changes behind_instance
  read_association a [] node st apart =
      read_sad_entry-config_last (path_to a) (a.address) (a.upper) (a.config) node (st.config_fits)
  read_association a (b ∷ later) node st (apart, _) =
      read_sad_entry-config (path_to a) (a.address) (a.upper) (a.config) node (instance_created b) _
        (st.config_fits)
        (record {
          elsewhere = record { xpath = path_to b; val = number 0 };
          has_value = refl;
          other_path =
              entry_path-Apart root (a.name) (b.name) (st.no_quote) (apart.no_quote_in_it)
                (apart.other_name);
        })

  length-association_changes :
      (later : List Association) → length later ≤ length (association_changes later)
  unfolding association_changes
  length-association_changes [] = omega arith
  length-association_changes (a ∷ later) = omega (
    arith,
    length-association_changes later,
    length-append (leaves a) (association_changes later),
  )

-- What an association makes of a fresh node: its name and each of its values; the other fields are as `create_sad_node` has
-- them.
unfoldable pub association_entry : Association → SadEntry → SadEntry
association_entry a memory =
    config_entry (a.config) (record (create_sad_node memory) { name = a.name })

-- The entries are those of the associations, in order, each in a node of some memory.
abbrev pub Created : (Ptr → SadEntry) → List Association → List SadEntry → Type 0
Created garbage [] [] = Unit
Created garbage [] (e ∷ es) = ⊥
Created garbage (a ∷ later) [] = ⊥
Created garbage (a ∷ later) (e ∷ es) =
    ((p : Ptr) × (e ≡ association_entry a (garbage p))) × Created garbage later es

module _ (pf : Pfkey) (garbage : Ptr → SadEntry) where
  open pf use {Kernel, pf_addsad, pf_getsad}

  -- The kernel accepts each association of a kind, answers for it, and is then `after`.
  abbrev pub Accepts : (SadEntry → Type 0) → (SadEntry → Kernel → Kernel) → Type 0
  Accepts Sendable after =
      (e : SadEntry) (k : Kernel)
      → Sendable e
      → (got : Rc) × (k' : Kernel) × (pf_addsad e k ≡ ok (err_ok, k'))
        × (pf_getsad e k' ≡ ok (got, after e k))

  module _ (root : Text) (Sendable : SadEntry → Type 0) (after : SadEntry → Kernel → Kernel)
      (accepts : Accepts Sendable after) where
    -- Whatever memory the node of an association is given, the node is of the kind.
    abbrev pub SendableAs : Association → Type 0
    SendableAs a = (memory : SadEntry) → Sendable (association_entry a memory)

    abbrev add :
        Text
        → Text
        → List Change
        → Store SadEntry × Kernel
        → Run (Rc × (Store SadEntry × Kernel) × List Change)
    add = add_sad_entry pf garbage

    abbrev remove : Text → Store SadEntry × Kernel → Run (Rc × (Store SadEntry × Kernel))
    remove = remove_sad_entry pf garbage

    change_loop-associations :
        (fuel : ℕ) (given : List Association) (s : Store SadEntry) (k : Kernel) (xs : List SadEntry)
        → length given < fuel
        → Creatable root given
        → All SendableAs given
        → IsList s xs
        → (t : Store SadEntry) × (es : List SadEntry) × (change_loop add remove fuel
              (behind_instance root given)
              (s, k)
            ≡ ok (err_ok, (t, foldl (λ k' e. after e k') k es)))
          × IsList t (xs ++ es)
          × Created garbage given es
    unfolding change_loop behind_instance association_entry
    change_loop-associations zero given s k xs lt fine send is = absurd (omega arith)
    change_loop-associations (suc fuel) [] s k xs lt fine send is =
        (s, [], refl, subst (IsList s) (sym (append-nil xs)) is, tt)
    change_loop-associations (suc fuel) (a ∷ later) s k xs lt (st, apart, fine) (send, sends) is =
        let node = record (create_sad_node (garbage (s.brk))) { name = a.name } in
        let entry = config_entry (a.config) node in
        let (got, k', ran, asked) = accepts entry k (send (garbage (s.brk))) in
        let k'' = after entry k in
        let (u, added, is') =
          add_sad_entry-append pf garbage s k xs (path_to root a) (a.name) _
            (behind_instance root later) entry err_ok got k' k'' is (st.name_fits)
            (read_association root a later node st apart) ran asked in
        let (t, es, looped, is'', made) =
          change_loop-associations fuel later u k'' (xs ++ (entry ∷ [])) (omega arith) fine sends
            is' in
        (
          t,
          entry ∷ es,
          rw (apply_change-name add remove (path_to root a) (a.name) (a.address) _ (s, k), ◌>>=◌)
              (rw (added, ◌>>=◌) looped),
          subst (IsList t) (append_assoc xs (entry ∷ []) es) is'',
          ((s.brk, refl), made),
        )

    pub sad_entry_change_cb-associations :
        (given : List Association) (s : Store SadEntry) (k : Kernel) (xs : List SadEntry)
        → Creatable root given
        → All SendableAs given
        → IsList s xs
        → (t : Store SadEntry) × (es : List SadEntry) × (sad_entry_change_cb pf garbage change
              (some (association_changes root given))
              (s, k)
            ≡ ok (err_ok, (t, foldl (λ k' e. after e k') k es)))
          × IsList t (xs ++ es)
          × Created garbage given es
    unfolding sad_entry_change_cb entry_change_cb change_loop association_changes behind_instance
    sad_entry_change_cb-associations [] s k xs fine send is =
        (s, [], refl, subst (IsList s) (sym (append-nil xs)) is, tt)
    sad_entry_change_cb-associations (a ∷ later) s k xs fine send is =
        let enough : length (a ∷ later) < suc (length (behind_instance root (a ∷ later))) = omega (
          arith,
          length-association_changes root later,
          length-append (leaves root a) (association_changes root later),
        ) in
        let (t, es, ran, is', made) =
          change_loop-associations (suc (length (behind_instance root (a ∷ later)))) (a ∷ later) s k
            xs enough fine send is in
        (t, es, rw (instance_passed root add remove (a.name) _ (s, k), ◌>>=◌) ran, is', made)

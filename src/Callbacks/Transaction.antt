-- ===== src/Callbacks/Transaction.antt =====
-- The callback on a transaction that creates policies.
use ccips_cfgipsec.Base.{
  ℕ, zero, suc, ◌<◌, ◌≡◌, refl, ap, sym, subst, ◌∙◌, arith, Bool-cases, inl, inr, ◌==◌, none, some,
  List, [], ◌∷◌, ◌++◌, Run, ok, ◌>>=◌,
}
use ccips_cfgipsec.Base.Lists.{length, All, All-zip, length-append}
use ccips_cfgipsec.Text.{Text, str_eq}
use ccips_cfgipsec.Utils.Constants.{ipsec_dir_inbound, ipsec_dir_forward}
use ccips_cfgipsec.Sysrepo.{Rc, err_ok, Change}
use ccips_cfgipsec.Store.{Ptr, null, Cell, Store}
use ccips_cfgipsec.Store.Seg.{IsList}
use ccips_cfgipsec.Store.Find.{find, find-snoc}
use ccips_cfgipsec.Store.Add.{end_of, end_of-null}
use ccips_cfgipsec.Spd.{SpdEntry, create_spd_node}
use ccips_cfgipsec.Spd.Config.{SpdConfig, config_entry}
use ccips_cfgipsec.Spd.Config.RoundTrip.{config_changes}
use ccips_cfgipsec.Entries.{Pfkey}
use ccips_cfgipsec.Entries.Spd.{named, add_spd_entry, remove_spd_entry}
use ccips_cfgipsec.Entries.Spd.Install.{Installed, one_way, forwarded}
use ccips_cfgipsec.Entries.Spd.Apply.{add_spd_entry-append}
use ccips_cfgipsec.Callbacks.{change, change_loop, entry_change_cb, spd_entry_change_cb}
use ccips_cfgipsec.Callbacks.Loop.{apply_change-name}
use mathlib.Core.List.{append_assoc, append-nil}
use ccips_cfgipsec.Callbacks.Policies.{
  Policy, path_of, policy_changes, behind_instance, Creatable, read_policy, instance_passed,
  length-policy_changes,
}

-- What a policy makes of a fresh node: its name, and the values that are read; the other fields are as `create_spd_node` has
-- them.
unfoldable pub policy_entry : Policy → SpdEntry → SpdEntry
policy_entry p memory = config_entry (p.config) (record (create_spd_node memory) { name = p.name })

-- The entries are those of the policies, in order, each in a node of some memory and with an index of the kernel.
abbrev pub Created : (Ptr → Cell SpdEntry) → List Policy → List SpdEntry → Type 0
Created garbage [] [] = Unit
Created garbage [] (e ∷ es) = ⊥
Created garbage (p ∷ ps) [] = ⊥
Created garbage (p ∷ ps) (e ∷ es) =
    ((q : Ptr) × (e ≡ record (policy_entry p (garbage q).payload) { index = e.index }))
    × Created garbage ps es

config_entry-name :
    (c : SpdConfig) (node e : SpdEntry)
    → e ≡ record (config_entry c node) { index = e.index }
    → e.name ≡ node.name
unfolding config_entry
config_entry-name c node e keeps = ap (λ x. x.name) keeps

module _ (pf : Pfkey) (garbage : Ptr → Cell SpdEntry) where
  open pf use {Kernel, pf_addpolicy, addpolicy_sets_index}

  -- The kernel accepts each policy of a kind.
  abbrev pub Accepts : (SpdEntry → Type 0) → Type 0
  Accepts Sendable =
      (e : SpdEntry) (k : Kernel)
      → Sendable e
      → (e' : SpdEntry) × (k' : Kernel) × (pf_addpolicy e k ≡ ok (err_ok, e', k'))

  -- A policy stays of the kind with another index and another direction.
  abbrev pub Steady : (SpdEntry → Type 0) → Type 0
  Steady Sendable =
      (e : SpdEntry) (i d : ℕ) → Sendable e → Sendable (record e { index = i; policy_dir = d })

  accepted :
      (Sendable : SpdEntry → Type 0)
      → Accepts Sendable
      → Steady Sendable
      → (a : SpdEntry) (k : Kernel) → Sendable a
      → (e : SpdEntry) × (k' : Kernel) × Installed pf a k err_ok e k'
  accepted Sendable accepts steady a k send =
      let (e, k', ran) = accepts a k send in
      elim (Bool-cases (e.policy_dir == ipsec_dir_inbound)) [
        | inr away ↦ (e, k', one_way ran away)
        | inl there ↦
            let same : record e { policy_dir = ipsec_dir_forward }
                ≡ record a { index = e.index; policy_dir = ipsec_dir_forward } =
              ap {A = SpdEntry} {B = SpdEntry} (λ n. record n { policy_dir = ipsec_dir_forward })
                (addpolicy_sets_index _ _ _ _ _ ran) in
            let (e', k'', again) =
              accepts (record e { policy_dir = ipsec_dir_forward }) k'
                (subst Sendable (sym same) (steady a (e.index) ipsec_dir_forward send)) in
            (record e' { policy_dir = ipsec_dir_inbound }, k'', forwarded ran there again)
      ]

  module _ (root : Text) (Sendable : SpdEntry → Type 0) (accepts : Accepts Sendable)
      (steady : Steady Sendable) (zeroed : (p : Ptr) → (garbage p).next ≡ null) where
    -- Whatever node a policy is read into, it is of the kind.
    abbrev pub SendableAs : Policy → Type 0
    SendableAs p = (node : SpdEntry) → Sendable (config_entry (p.config) node)

    abbrev add :
        Text
        → Text
        → List Change
        → Store SpdEntry × Kernel
        → Run (Rc × (Store SpdEntry × Kernel) × List Change)
    add xpath name = add_spd_entry pf garbage xpath name 2

    abbrev remove : Text → Store SpdEntry × Kernel → Run (Rc × (Store SpdEntry × Kernel))
    remove name = remove_spd_entry pf garbage name 2

    abbrev pub New : List SpdEntry → Policy → Type 0
    New xs p = find (named (p.name)) xs ≡ none

    change_loop-policies :
        (fuel : ℕ) (ps : List Policy) (s : Store SpdEntry) (k : Kernel) (xs : List SpdEntry)
        → length ps < fuel
        → Creatable root ps
        → All (New xs) ps
        → All SendableAs ps
        → IsList s xs
        → (t : Store SpdEntry) × (k' : Kernel) × (es : List SpdEntry) × (change_loop add remove fuel
              (behind_instance root ps)
              (s, k)
            ≡ ok (err_ok, (t, k')))
          × IsList t (xs ++ es)
          × Created garbage ps es
    unfolding change_loop behind_instance policy_entry
    change_loop-policies zero ps s k xs lt ok_ps new send is = absurd (omega arith)
    change_loop-policies (suc fuel) [] s k xs lt ok_ps new send is =
        (s, k, [], refl, subst (IsList s) (sym (append-nil xs)) is, tt)
    change_loop-policies (suc fuel) (p ∷ ps) s k xs lt (st, apart, ok_ps) (new, news) (send, sends)
          is =
        let node = record (create_spd_node (garbage (s.brk)).payload) { name = p.name } in
        let entry = config_entry (p.config) node in
        let (e, k', installed) = accepted Sendable accepts steady entry k (send node) in
        let closed : end_of xs (garbage (s.brk)).next ≡ null =
          ap (end_of xs) (zeroed (s.brk)) ∙ end_of-null xs in
        let (u, added, is', keeps) =
          add_spd_entry-append pf garbage s k xs (path_of root p) (p.name) _ entry e
            (behind_instance root ps) err_ok k' is new closed (st.name_fits)
            (read_policy root p ps node st apart) installed in
        let named_so = config_entry-name (p.config) node e keeps in
        let news' : All (New (xs ++ (e ∷ []))) ps =
          All-zip ps
            (λ q a n.
              find-snoc (named (q.name)) xs e n (ap (λ x. str_eq x q.name) named_so ∙ a.other_name))
            apart news in
        let (t, k'', es, ran, is'', made) =
          change_loop-policies fuel ps u k' (xs ++ (e ∷ [])) (omega arith) ok_ps news' sends is' in
        (
          t,
          k'',
          e ∷ es,
          rw (apply_change-name add remove (path_of root p) (p.name) (p.address) _ (s, k), ◌>>=◌)
              (rw (added, ◌>>=◌) ran),
          subst (IsList t) (append_assoc xs (e ∷ []) es) is'',
          ((s.brk, keeps), made),
        )

    pub spd_entry_change_cb-policies :
        (ps : List Policy) (s : Store SpdEntry) (k : Kernel) (xs : List SpdEntry)
        → Creatable root ps
        → All (New xs) ps
        → All SendableAs ps
        → IsList s xs
        → (t : Store SpdEntry) × (k' : Kernel) × (es : List SpdEntry) × (spd_entry_change_cb pf
              garbage change
              (some (policy_changes root ps))
              (s, k)
            ≡ ok (err_ok, (t, k')))
          × IsList t (xs ++ es)
          × Created garbage ps es
    unfolding spd_entry_change_cb entry_change_cb change_loop policy_changes behind_instance
    spd_entry_change_cb-policies [] s k xs ok_ps new send is =
        (s, k, [], refl, subst (IsList s) (sym (append-nil xs)) is, tt)
    spd_entry_change_cb-policies (p ∷ ps) s k xs ok_ps new send is =
        let enough : length (p ∷ ps) < suc (length (behind_instance root (p ∷ ps))) = omega (
          arith,
          length-policy_changes root ps,
          length-append (config_changes (path_of root p) p.address p.config)
              (policy_changes root ps),
        ) in
        let (t, k', es, ran, is', made) =
          change_loop-policies (suc (length (behind_instance root (p ∷ ps)))) (p ∷ ps) s k xs enough
            ok_ps new send is in
        (t, k', es, rw (instance_passed root add remove (p.name) _ (s, k), ◌>>=◌) ran, is', made)

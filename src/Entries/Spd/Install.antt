-- ===== src/Entries/Spd/Install.antt =====
-- `addSPD_entry` behind the reading: the node at the end of the list and the kernel.
use ccips_cfgipsec.Base.{◌≡◌, true, false, List, ◌==◌, ok, ◌>>=◌, ap, sym, ◌∙◌, ==_iff}
use ccips_cfgipsec.Utils.Constants.{ipsec_dir_inbound, ipsec_dir_forward}
use ccips_cfgipsec.Sysrepo.{Rc, err_ok, is_ok}
use ccips_cfgipsec.Store.{Ptr, Cell, Store}
use ccips_cfgipsec.Store.Last.{Ends, set_payload-Ends}
use ccips_cfgipsec.Spd.{SpdEntry}
use ccips_cfgipsec.Entries.{Pfkey}
use ccips_cfgipsec.Entries.Spd.{install_policy}

module _ (pf : Pfkey) where
  open pf use {Kernel, pf_addpolicy, addpolicy_sets_index}

  -- What adding the policy `a` to the kernel state `k` comes to: a result code, the fields of the node
  -- and the kernel.
  pub data Installed (a : SpdEntry) (k : Kernel) : Rc → SpdEntry → Kernel → Type 0 where
    refused :
        {rc : Rc} {e : SpdEntry} {k' : Kernel}
        → pf_addpolicy a k ≡ ok (rc, e, k')
        → is_ok rc ≡ false
        → Installed a k rc e k'
    one_way :
        {e : SpdEntry} {k' : Kernel}
        → pf_addpolicy a k ≡ ok (err_ok, e, k')
        → (e.policy_dir == ipsec_dir_inbound) ≡ false
        → Installed a k err_ok e k'
    forwarded :
        {e e' : SpdEntry} {k' k'' : Kernel} {rc : Rc}
        → pf_addpolicy a k ≡ ok (err_ok, e, k')
        → (e.policy_dir == ipsec_dir_inbound) ≡ true
        → pf_addpolicy (record e { policy_dir = ipsec_dir_forward }) k' ≡ ok (rc, e', k'')
        → Installed a k rc (record e' { policy_dir = ipsec_dir_inbound }) k''

  -- On every path the node keeps its fields, the direction included; only its index may be new.
  pub Installed-keeps :
      {a e : SpdEntry} {k k' : Kernel} {rc : Rc}
      → Installed a k rc e k'
      → e ≡ record a { index = e.index }
  Installed-keeps (refused ran bad) = addpolicy_sets_index _ _ _ _ _ ran
  Installed-keeps (one_way ran away) = addpolicy_sets_index _ _ _ _ _ ran
  Installed-keeps (forwarded {e = e} {e' = e'} ran there again) =
      let inbound : ipsec_dir_inbound ≡ e.policy_dir =
        sym ((==_iff e.policy_dir ipsec_dir_inbound).0 there) in
      ap {A = SpdEntry} (λ x. record x { policy_dir = ipsec_dir_inbound })
        (addpolicy_sets_index _ _ _ _ _ again)
      ∙ ap (λ d. record e { index = e'.index; policy_dir = d }) inbound
      ∙ ap {A = SpdEntry} (λ x. record x { index = e'.index }) (addpolicy_sets_index _ _ _ _ _ ran)

  pub install_policy-Installed :
      {a e : SpdEntry} {k k' : Kernel} {rc : Rc} {s : Store SpdEntry} {xs : List SpdEntry} {p : Ptr}
      (garbage : Ptr → Cell SpdEntry)
      → Installed a k rc e k'
      → Ends s xs a p
      → (t : Store SpdEntry) × (install_policy pf garbage p a (s, k) ≡ ok (rc, (t, k')))
        × Ends t xs e p
  unfolding install_policy
  install_policy-Installed {e = e} garbage (refused ran bad) ends =
      let (t, wrote, ends') = set_payload-Ends e ends in
      (t, rw (ran, ◌>>=◌) (rw (wrote, ◌>>=◌) (rw bad)), ends')
  install_policy-Installed {e = e} garbage (one_way ran away) ends =
      let (t, wrote, ends') = set_payload-Ends e ends in
      (t, rw (ran, ◌>>=◌) (rw (wrote, ◌>>=◌) (rw away)), ends')
  install_policy-Installed garbage (forwarded {e = e} {e' = e'} ran there again) ends =
      let (t, wrote, ends') = set_payload-Ends e ends in
      let (u, wrote', ends'') =
        set_payload-Ends (record e' { policy_dir = ipsec_dir_inbound }) ends' in
      (
        u,
        rw (ran, ◌>>=◌) (rw (wrote, ◌>>=◌) (rw there (rw (again, ◌>>=◌) (rw (wrote', ◌>>=◌))))),
        ends'',
      )

-- ===== src/Entries.antt =====
-- The functions of src/sysrepo_utils/sysrepo_entries.c that apply one entry of the configuration: they
-- keep the process's lists and the kernel's databases together. PF_KEY is the interface `Pfkey`.
pub mod Spd
pub mod Sad
use ccips_cfgipsec.Base.{ℕ, ◌≡◌, Run, ok}
use ccips_cfgipsec.Sysrepo.{Rc}
use ccips_cfgipsec.Spd.{SpdEntry}
use ccips_cfgipsec.Sad.{SadEntry}

-- The functions of src/pfkeyv2_utils/pfkeyv2_entry.c that talk to the kernel, over a state of the
-- kernel. Adding a policy may set the `index` of the node that it is given, and nothing else of it.
pub record Pfkey : Type 1 where
  pub Kernel : Type 0
  pub pf_addpolicy : SpdEntry → Kernel → Run (Rc × SpdEntry × Kernel)
  pub pf_delpolicy : SpdEntry → Kernel → Run (Rc × Kernel)
  pub pf_addsad : SadEntry → Kernel → Run (Rc × Kernel)
  pub pf_delsad : SadEntry → Kernel → Run (Rc × Kernel)
  pub pf_getsad : SadEntry → Kernel → Run (Rc × Kernel)
  pub addpolicy_sets_index :
      (e e' : SpdEntry) (k k' : Kernel) (rc : Rc)
      → pf_addpolicy e k ≡ ok (rc, e', k')
      → e' ≡ record e { index = e'.index }

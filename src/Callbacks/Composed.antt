-- ===== src/Callbacks/Composed.antt =====
-- The callbacks of src/sysrepo_utils/sysrepo_utils.c over the program's own functions of
-- src/pfkeyv2_utils/pfkeyv2_entry.c: what a transaction does to the lists, and which messages the kernel is sent.
use ccips_cfgipsec.Base.{
  ℕ, ◌≡◌, refl, Bool-cases, inl, inr, some, List, map, ◌==◌, if◌then◌else◌, Run, ok, fault, >>=-ok,
}
use ccips_cfgipsec.Text.{Text, c_string}
use ccips_cfgipsec.Utils.Constants.{ipsec_dir_inbound, ipsec_dir_forward}
use ccips_cfgipsec.Sysrepo.{err_ok}
use ccips_cfgipsec.Store.{Ptr, Cell, Store}
use ccips_cfgipsec.Store.Seg.{IsList}
use ccips_cfgipsec.Spd.{SpdEntry}
use ccips_cfgipsec.Sad.{SadEntry}
use ccips_cfgipsec.Entries.Spd
use ccips_cfgipsec.Entries.Sad
use ccips_cfgipsec.Entries.Spd.{withdraw_policy}
use ccips_cfgipsec.PfKey.Send.{delpolicy_request}
use ccips_cfgipsec.PfKey.Send.Sad.{
  addsad_request, delsad_request, getsad_request, encrypt_key_size, auth_key_size,
}
use ccips_cfgipsec.PfKey.Send.Addresses.{Prefix, Sized}
use ccips_cfgipsec.PfKey.Send.Key.{KeyFits}
use ccips_cfgipsec.PfKey.Send.Policy.{delpolicy_request-message}
use ccips_cfgipsec.PfKey.Send.SadParts.{KeysFit}
use ccips_cfgipsec.PfKey.Send.SadLaws.{naming_request-message}
use ccips_cfgipsec.PfKey.Kernel.{Machine, pf_delpolicy, pf_delsad, pf_getsad}
use ccips_cfgipsec.PfKey.Kernel.Fill.{pfkey}
use ccips_cfgipsec.Callbacks.{change, spd_entry_change_cb, sad_entry_change_cb}
use ccips_cfgipsec.Callbacks.Associations.{Association}
use ccips_cfgipsec.Callbacks.Removal.{
  Deletion, deletion, removed, removals, Removable, Withdraws, Deletes, spd_entry_change_cb-removed,
  sad_entry_change_cb-removed,
}

-- The two prefixes of an entry can be taken apart.
pub record Named (local_subnet remote_subnet : Text) : Type 0 where
  pub local : Prefix local_subnet
  pub remote : Prefix remote_subnet

abbrev pub NamedSpd : SpdEntry → Type 0
NamedSpd e = Named (e.local_subnet) (e.remote_subnet)

abbrev pub NamedSad : SadEntry → Type 0
NamedSad e = Named (e.local_subnet) (e.remote_subnet)

-- The keys fit the words that are stated for them, too.
abbrev pub Sendable : SadEntry → Type 0
Sendable e = NamedSad e × KeysFit e

module _ (machine : Machine) where
  -- The kernel after a request was sent, where there is one.
  abbrev pub sent : Run (List ℕ) → machine.State → machine.State
  sent (ok bytes) k = machine.write bytes k
  sent (fault e) k = k

  -- An association is added and asked for; it is asked for and deleted; a policy is deleted, and an inbound one as a forward
  -- policy too.
  abbrev pub after_add : SadEntry → machine.State → machine.State
  after_add e k =
      sent (getsad_request (machine.pid) (machine.heap) e)
        (sent (addsad_request (machine.pid) (machine.heap) e) k)

  abbrev pub after_delete : SadEntry → machine.State → machine.State
  after_delete e k =
      sent (delsad_request (machine.pid) (machine.heap) e)
        (sent (getsad_request (machine.pid) (machine.heap) e) k)

  abbrev pub after_withdraw : SpdEntry → machine.State → machine.State
  after_withdraw e k =
      let first = sent (delpolicy_request (machine.heap) e) k in
      if e.policy_dir == ipsec_dir_inbound
      then sent (delpolicy_request (machine.heap) (record e { policy_dir = ipsec_dir_forward }))
          first
      else first

  module _ (sized : Sized (machine.heap)) where
    getsad-ok :
        (e : SadEntry) (k : machine.State)
        → NamedSad e
        → pf_getsad machine e k
          ≡ ok (err_ok, sent (getsad_request (machine.pid) (machine.heap) e) k)
    unfolding pf_getsad getsad_request
    getsad-ok e k named =
        rw
          (naming_request-message (machine.heap) e (named.local) (named.remote) sized 5
            (machine.pid))
          refl

    delsad-ok :
        (e : SadEntry) (k : machine.State)
        → NamedSad e
        → pf_delsad machine e k
          ≡ ok (err_ok, sent (delsad_request (machine.pid) (machine.heap) e) k)
    unfolding pf_delsad delsad_request
    delsad-ok e k named =
        rw
          (naming_request-message (machine.heap) e (named.local) (named.remote) sized 4
            (machine.pid))
          refl

    delpolicy-ok :
        (e : SpdEntry) (k : machine.State)
        → NamedSpd e
        → pf_delpolicy machine e k ≡ ok (err_ok, sent (delpolicy_request (machine.heap) e) k)
    unfolding pf_delpolicy
    delpolicy-ok e k named =
        rw (delpolicy_request-message (machine.heap) e (named.local) (named.remote) sized) refl

    withdraw-ok :
        (garbage : Ptr → Cell SpdEntry) → Withdraws (pfkey machine) garbage NamedSpd after_withdraw
    unfolding withdraw_policy
    withdraw-ok garbage e k named =
        >>=-ok _ (delpolicy-ok e k named) (elim (Bool-cases (e.policy_dir == ipsec_dir_inbound)) [
          | inl inward ↦
              rw inward (delpolicy-ok (record e { policy_dir = ipsec_dir_forward }) _ named)
          | inr outward ↦ rw outward refl
        ])

    delete-ok : Deletes (pfkey machine) NamedSad after_delete
    delete-ok e k named = (err_ok, _, getsad-ok e k named, delsad-ok e _ named)

    module _ (garbage : Ptr → SadEntry) where
      -- The prefixes of an association can be taken apart, and what is stored of its keys fits the words that are stated for
      -- them.
      abbrev pub Told : Association → Type 0
      Told a =
          Named (a.config.local_subnet) (a.config.remote_subnet)
          × KeyFits (encrypt_key_size (a.config.encryption_alg)).0
              (c_string (a.config.encryption_key))
          × KeyFits (auth_key_size (a.config.integrity_alg)).0 (c_string (a.config.integrity_key))

      -- The associations' callback for a change, called with the changes of a transaction that deletes associations, reports
      -- SR_ERR_OK and takes from the list the first entry of each name whose key is deleted, and no other. For each of these
      -- entries, in order, the kernel is sent the message that asks for it and the one that deletes it. The conditions: each
      -- name is in the list when its turn comes, with an entry whose prefixes can be taken apart, and the other nodes' paths
      -- have four bytes at least and do not end in `name`.
      pub sad_entry_change_cb-deleted :
          (ds : List Deletion) (s : Store SadEntry) (k : machine.State) (xs : List SadEntry)
          → Removable Sad.named NamedSad ds xs
          → IsList s xs
          → (t : Store SadEntry) × (sad_entry_change_cb
                (pfkey machine)
                garbage
                change
                (some (map deletion ds))
                (s, k)
              ≡ ok (err_ok, (t, removals Sad.named after_delete ds xs k)))
            × IsList t (removed Sad.named ds xs)
      sad_entry_change_cb-deleted ds s k xs can is =
          sad_entry_change_cb-removed (pfkey machine) garbage NamedSad after_delete delete-ok ds s k
            xs can is

    -- The callback for a change, called with the changes of a transaction that deletes policies, reports SR_ERR_OK and takes
    -- from the list the first entry of each name whose key is deleted, and no other; the other nodes of the tree that are
    -- deleted change nothing. For each of these entries, in order, the kernel is sent the message that deletes it, and for an
    -- inbound one also that for the forward direction. The conditions: each name is in the list when its turn comes, with an
    -- entry whose prefixes can be taken apart, and the other nodes' paths have four bytes at least and do not end in `name`.
    pub spd_entry_change_cb-deleted :
        (garbage : Ptr → Cell SpdEntry) (ds : List Deletion) (s : Store SpdEntry)
        (k : machine.State) (xs : List SpdEntry)
        → Removable Spd.named NamedSpd ds xs
        → IsList s xs
        → (t : Store SpdEntry) × (spd_entry_change_cb
              (pfkey machine)
              garbage
              change
              (some (map deletion ds))
              (s, k)
            ≡ ok (err_ok, (t, removals Spd.named after_withdraw ds xs k)))
          × IsList t (removed Spd.named ds xs)
    spd_entry_change_cb-deleted garbage ds s k xs can is =
        spd_entry_change_cb-removed (pfkey machine) garbage NamedSpd after_withdraw
          (withdraw-ok garbage) ds s k xs can is

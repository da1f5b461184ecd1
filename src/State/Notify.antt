-- ===== src/State/Notify.antt =====
-- The notifications and the request that src/sysrepo_utils/sysrepo_entries.c sends: `send_acquire_notification`,
-- `send_sa_expire_notification` and `send_delete_SAD_request`. libyang and sysrepo are parameters.
use ccips_cfgipsec.Base.{
  ℕ, Bool, true, false, Option, none, some, List, [], ◌∷◌, ◌++◌, ◌==◌, if◌then◌else◌, Run, ok,
  fault, null_deref, ◌>>=◌,
}
use ccips_cfgipsec.Text.{Text, codes, strcpy}
use ccips_cfgipsec.Utils.Constants.{max_path}
use ccips_cfgipsec.Sysrepo.{Rc, is_ok}
use ccips_cfgipsec.Store.{null, Store, load}
use ccips_cfgipsec.Spd.{SpdEntry}
use ccips_cfgipsec.Sad.{SadEntry}
use ccips_cfgipsec.Entries.Spd.{get_spd_node_by_index}
use ccips_cfgipsec.Entries.Sad.{get_sad_node_by_spi}

-- libyang and sysrepo, over a state of theirs. `none` is NULL.
pub record Datastore : Type 1 where
  pub State : Type 0
  pub Tree : Type 0
  pub new_notif : Text → Option Tree
  pub new_leaf : Tree → Text → Text → Option Tree
  pub event_notif_send_tree : Tree → State → Rc × State
  pub connect : State → Rc × State
  pub session_start : State → Rc × State
  pub delete_item : Text → State → Rc × State
  pub apply_changes : State → Rc × State

-- The `int` that a notification gives: EXIT_SUCCESS (which is SR_ERR_OK), EXIT_FAILURE, or SR_ERR_NOT_FOUND.
pub data Sent : Type 0 where
  success : Sent
  failure : Sent
  missing : Sent

module _ (db : Datastore) where
  -- `rc = sr_event_notif_send_tree(...)`, and `rc ? EXIT_FAILURE : EXIT_SUCCESS` at its end
  unfoldable pub send_tree : db.Tree → db.State → Sent × db.State
  send_tree tree s =
      let (rc, s') = db.event_notif_send_tree tree s in (if is_ok rc then success else failure, s')

  -- The leaves are put in one after the other. Where that fails `rc` is still SR_ERR_OK, and so is the result.
  unfoldable pub send_leaves : Option db.Tree → List (Text × Text) → db.State → Sent × db.State
  unfolding send_tree
  send_leaves none leaves s = (success, s)
  send_leaves (some tree) [] s = send_tree tree s
  send_leaves (some tree) ((path, value) ∷ leaves) s =
      send_leaves (db.new_leaf tree path value) leaves s

  abbrev pub expire_path : Text
  expire_path = codes "/ietf-i2nsf-ikeless:sadb-expire"

  abbrev pub expire_leaves : SadEntry → Bool → List (Text × Text)
  expire_leaves node soft =
      (expire_path ++ codes "/ipsec-sa-name", node.name)
      ∷ (expire_path ++ codes "/soft-lifetime-expire", if soft then codes "true" else codes "false")
      ∷ []

  -- The list is looked at only where there is a notification.
  unfoldable pub send_sa_expire_notification :
      ℕ → Bool → Store SadEntry → db.State → Run (Sent × db.State)
  send_sa_expire_notification spi soft store s = elim (db.new_notif expire_path) [
    | none ↦ ok (success, s)
    | some tree ↦ do
      node ← get_sad_node_by_spi spi store
      elim (node == null) [
        | true ↦ ok (missing, s)
        | false ↦ do
          c ← load store node
          ok (send_leaves (some tree) (expire_leaves (c.payload) soft) s)
      ]
  ]

  abbrev pub acquire_path : Text
  acquire_path = codes "/ietf-i2nsf-ikeless:sadb-acquire"

  abbrev pub acquire_leaves : SpdEntry → List (Text × Text)
  acquire_leaves node =
      (acquire_path ++ codes "/ipsec-policy-name", node.name)
      ∷ (acquire_path ++ codes "/traffic-selector/local-subnet", node.local_subnet)
      ∷ (acquire_path ++ codes "/traffic-selector/remote-subnet", node.remote_subnet)
      ∷ []

  -- For a policy that is not there the result is SR_ERR_OK.
  unfoldable pub send_acquire_notification : ℕ → Store SpdEntry → db.State → Run (Sent × db.State)
  send_acquire_notification policy_index store s = elim (db.new_notif acquire_path) [
    | none ↦ ok (success, s)
    | some tree ↦ do
      node ← get_spd_node_by_index policy_index store
      elim (node == null) [
        | true ↦ ok (success, s)
        | false ↦ do
          c ← load store node
          ok (send_leaves (some tree) (acquire_leaves (c.payload)) s)
      ]
  ]

  abbrev pub delete_path : SadEntry → Text
  delete_path node =
      codes "/ietf-i2nsf-ikeless:ipsec-ikeless/sad/sad-entry[name='" ++ (node.name ++ codes "']")

  -- Whether zero is returned. On an error the function ends without a value, which its caller only logs.
  unfoldable pub send_delete_sad_request : ℕ → Store SadEntry → db.State → Run (Bool × db.State)
  send_delete_sad_request spi store s = do
    let (rc, s1) = db.connect s
    let (rc', s2) = db.session_start s1
    elim (is_ok rc) [
      | false ↦ ok (false, s1)
      | true ↦ elim (is_ok rc') [
        | false ↦ ok (false, s2)
        | true ↦ do
          node ← get_sad_node_by_spi spi store
          elim (node == null) [
            | true ↦ fault null_deref
            | false ↦ do
              c ← load store node
              xpath ← strcpy max_path (delete_path (c.payload))
              let (rc1, s3) = db.delete_item xpath s2
              let (rc2, s4) = db.apply_changes s3
              ok (if is_ok rc1 then (is_ok rc2, s4) else (false, s3))
          ]
      ]
    ]

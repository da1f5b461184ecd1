-- ===== src/State/NotifyLaws.antt =====
-- Notifications and requests about an association that is, or is not, in the list.
use ccips_cfgipsec.Base.{
  ℕ, ◌<◌, ◌≡◌, refl, ap, arith, Bool, true, none, some, List, [], ◌∷◌, ltb, ◌==◌, ok, fault,
  null_deref, >>=-ok,
}
use ccips_cfgipsec.Base.Lists.{length}
use ccips_cfgipsec.Text.{Text, strcpy}
use ccips_cfgipsec.Sysrepo.{is_ok}
use ccips_cfgipsec.Store.{Store}
use ccips_cfgipsec.Store.Seg.{IsList}
use ccips_cfgipsec.Store.Find.{find, get_node-none, get_node-some}
use ccips_cfgipsec.Sad.{SadEntry}
use ccips_cfgipsec.State.Notify.{
  Datastore, success, missing, send_tree, send_leaves, expire_path, expire_leaves,
  send_sa_expire_notification, delete_path, send_delete_sad_request,
}

-- Every call of the datastore does what it is asked to.
pub record Works (db : Datastore) : Type 0 where
  pub makes_notif : (path : Text) → (tree : db.Tree) × (db.new_notif path ≡ some tree)
  pub makes_leaf :
      (tree : db.Tree) (path value : Text)
      → (tree' : db.Tree) × (db.new_leaf tree path value ≡ some tree')
  pub sends : (tree : db.Tree) (s : db.State) → is_ok (db.event_notif_send_tree tree s).0 ≡ true
  pub connects : (s : db.State) → is_ok (db.connect s).0 ≡ true
  pub starts : (s : db.State) → is_ok (db.session_start s).0 ≡ true
  pub deletes : (xpath : Text) (s : db.State) → is_ok (db.delete_item xpath s).0 ≡ true
  pub applies : (s : db.State) → is_ok (db.apply_changes s).0 ≡ true

module _ (db : Datastore) where
  -- The state after a deletion was asked for.
  abbrev pub after_delete : SadEntry → db.State → db.State
  after_delete e s =
      (db.apply_changes
        (db.delete_item (delete_path db e) (db.session_start (db.connect s).1).1).1).1

  module _ (works : Works db) (store : Store SadEntry) (xs : List SadEntry) (is : IsList store xs)
      (spi : ℕ) where
    send_leaves-success :
        (tree : db.Tree) (leaves : List (Text × Text)) (s : db.State)
        → (send_leaves db (some tree) leaves s).0 ≡ success
    unfolding send_leaves send_tree
    send_leaves-success tree [] s = rw (works.sends tree s) refl
    send_leaves-success tree ((path, value) ∷ leaves) s =
        let (tree', made) = works.makes_leaf tree path value in
        rw made (send_leaves-success tree' leaves s)

    -- The state after the notification of an expiry was sent.
    abbrev pub after_notify : SadEntry → Bool → db.State → db.State
    after_notify e soft s =
        (send_leaves db (some (works.makes_notif (expire_path db)).0) (expire_leaves db e soft) s).1

    pub send_sa_expire_notification-listed :
        (e : SadEntry) (soft : Bool) (s : db.State)
        → find (λ e. e.spi == spi) xs ≡ some e
        → send_sa_expire_notification db spi soft store s ≡ ok (success, after_notify e soft s)
    unfolding send_sa_expire_notification
    send_sa_expire_notification-listed e soft s found =
        let (tree, made) = works.makes_notif (expire_path db) in
        let (q, ran, live, n, at) = get_node-some (λ e. e.spi == spi) store xs e is found in
        let sent = send_leaves-success tree (expire_leaves db e soft) s in
        rw (made, send_sa_expire_notification)
          (>>=-ok _ ran (rw live (>>=-ok _ at (ap (λ r. ok (r, after_notify e soft s)) sent))))

    pub send_sa_expire_notification-unlisted :
        (soft : Bool) (s : db.State)
        → find (λ e. e.spi == spi) xs ≡ none
        → send_sa_expire_notification db spi soft store s ≡ ok (missing, s)
    unfolding send_sa_expire_notification
    send_sa_expire_notification-unlisted soft s miss =
        let (tree, made) = works.makes_notif (expire_path db) in
        rw (made, send_sa_expire_notification)
          (>>=-ok _ (get_node-none (λ e. e.spi == spi) store xs is miss) refl)

    pub send_delete_sad_request-listed :
        (e : SadEntry) (s : db.State)
        → find (λ e. e.spi == spi) xs ≡ some e
        → length (delete_path db e) < 200
        → send_delete_sad_request db spi store s ≡ ok (true, after_delete e s)
    unfolding send_delete_sad_request strcpy
    send_delete_sad_request-listed e s found short =
        let s1 : db.State = (db.connect s).1 in
        let s2 : db.State = (db.session_start s1).1 in
        let s3 : db.State = (db.delete_item (delete_path db e) s2).1 in
        let (q, ran, live, n, at) = get_node-some (λ e. e.spi == spi) store xs e is found in
        let fits : strcpy 200 (delete_path db e) ≡ ok (delete_path db e) =
          let e' : ltb (length (delete_path db e)) 200 ≡ true = ground (arith, short) in
          rw (e', strcpy) refl in
        rw (works.connects s, send_delete_sad_request)
          (rw (works.starts s1) (
            >>=-ok _ ran (
              rw live (
                >>=-ok _ at (
                  >>=-ok _ fits (
                    rw (works.deletes (delete_path db e) s2)
                      (ap (λ r. ok (r, after_delete e s)) (works.applies s3))))))))

    pub send_delete_sad_request-unlisted :
        (s : db.State)
        → find (λ e. e.spi == spi) xs ≡ none
        → send_delete_sad_request db spi store s ≡ fault null_deref
    unfolding send_delete_sad_request strcpy
    send_delete_sad_request-unlisted s miss =
        rw (works.connects s, send_delete_sad_request)
          (rw (works.starts (db.connect s).1)
            (>>=-ok _ (get_node-none (λ e. e.spi == spi) store xs is miss) refl))

-- ===== src/PfKey/Register/Invariant.antt =====
-- What every run of the thread keeps: it tells of expiries, and deletes associations of the list only.
use ccips_cfgipsec.Base.{
  ℕ, ◌≡◌, refl, ap, subst, sym, ◌∙◌, arith, Bool, true, false, Bool-cases, Option-cases, inl, inr,
  Option, none, some, List, [], ◌∷◌, ◌==◌, if◌then◌else◌, Run, ok, fault, null_deref, ◌>>=◌,
  >>=-eq-ok,
}
use ccips_cfgipsec.Base.Lists.{All}
use ccips_cfgipsec.Text.{Text, strcpy, strcpy-eq-ok}
use ccips_cfgipsec.Utils.Constants.{max_path}
use ccips_cfgipsec.Sysrepo.{is_ok}
use ccips_cfgipsec.Store.{Ptr, null, Cell, cell_of, Store, load, get_node}
use ccips_cfgipsec.Store.Seg.{IsList}
use ccips_cfgipsec.Store.Find.{find, get_node-none, get_node-some}
use ccips_cfgipsec.Sad.{SadEntry}
use ccips_cfgipsec.Entries.Sad.{get_sad_node_by_spi}
use ccips_cfgipsec.State.Notify.{
  Datastore, Sent, success, missing, send_tree, send_leaves, expire_path, expire_leaves,
  send_sa_expire_notification, delete_path, send_delete_sad_request,
}
use ccips_cfgipsec.PfKey.Register.{register_run}
use ccips_cfgipsec.PfKey.Register.Steps.{
  Step, on_nothing, on_soft, on_hard, Reach, here, next, ok-inj, register_run-Reach,
}

module _ (db : Datastore) (store : Store SadEntry) where
  module _ (xs : List SadEntry) (is : IsList store xs) (P : db.State → Type 0)
      (Q : SadEntry → Type 0) (listed : All Q xs) where
    -- The datastore keeps P where trees are sent, sessions started, changes applied, and entries with Q deleted.
    pub record Keeps : Type 0 where
      pub keeps_send : (tree : db.Tree) (s : db.State) → P s → P (db.event_notif_send_tree tree s).1
      pub keeps_connect : (s : db.State) → P s → P (db.connect s).1
      pub keeps_start : (s : db.State) → P s → P (db.session_start s).1
      pub keeps_delete :
          (e : SadEntry) (s : db.State) → Q e → P s → P (db.delete_item (delete_path db e) s).1
      pub keeps_apply : (s : db.State) → P s → P (db.apply_changes s).1

    find-All :
        (test : SadEntry → Bool) (ys : List SadEntry) (e : SadEntry)
        → find test ys ≡ some e
        → All Q ys
        → Q e
    unfolding find
    find-All test [] e hit qs = cc
    find-All test (y ∷ ys) e hit (q, qs) = elim (Bool-cases (test y)) [
      | inl pass ↦
          let same : y ≡ e = let h : some y ≡ some e = rw pass at hit in cc in subst Q same q
      | inr fail ↦ find-All test ys e (rw fail at hit) qs
    ]

    -- A node that is found has Q.
    found-Q :
        (test : SadEntry → Bool) (q : Ptr) (c : Cell SadEntry)
        → get_node test store ≡ ok q
        → (q == null) ≡ false
        → load store q ≡ ok c
        → Q (c.payload)
    found-Q test q c got live at = elim (Option-cases (find test xs)) [
      | inl miss ↦
          let none_got : ok q ≡ ok null = sym got ∙ get_node-none test store xs is miss in
          let null_q : q ≡ null = ok-inj db store q null none_got in
          absurd (ground (arith, null_q, live))
      | inr (e, hit) ↦
          let (q', got', live', n, at') = get_node-some test store xs e is hit in
          let same : q' ≡ q = ok-inj db store q' q (sym got' ∙ got) in
          let cells : cell_of e n ≡ c =
            ok-inj db store (cell_of e n) c (sym at' ∙ ap (load store) same ∙ at) in
          subst (λ c. Q (c.payload)) cells (find-All test xs e hit listed)
    ]

    module _ (keeps : Keeps) where
      send_leaves-keeps :
          (tree : Option db.Tree) (leaves : List (Text × Text)) (s : db.State)
          → P s
          → P (send_leaves db tree leaves s).1
      unfolding send_leaves send_tree
      send_leaves-keeps none leaves s p = p
      send_leaves-keeps (some tree) [] s p = keeps.keeps_send tree s p
      send_leaves-keeps (some tree) ((path, value) ∷ leaves) s p =
          send_leaves-keeps (db.new_leaf tree path value) leaves s p

      notify-keeps :
          (tree : Option db.Tree) (spi : ℕ) (soft : Bool) (s : db.State) (y : Sent × db.State)
          → P s
          → (elim tree as (λ t. Run (Sent × db.State)) [
            | none ↦ ok (success, s)
            | some t ↦ do
              node ← get_sad_node_by_spi spi store
              elim (node == null) [
                | true ↦ ok (missing, s)
                | false ↦ do
                  c ← load store node
                  ok (send_leaves db (some t) (expire_leaves db (c.payload) soft) s)
              ]
          ])
            ≡ ok y
          → P y.1
      notify-keeps none spi soft s y p run =
          subst (λ y. P y.1) (ok-inj db store (success, s) y run) p
      notify-keeps (some t) spi soft s y p run =
          let (node, got, run') = >>=-eq-ok (get_sad_node_by_spi spi store) _ run in
          node-keeps (node == null) node run'
        where
          node-keeps :
              (absent : Bool) (node : Ptr)
              → (elim absent as (λ b. Run (Sent × db.State)) [
                | true ↦ ok (missing, s)
                | false ↦ do
                  c ← load store node
                  ok (send_leaves db (some t) (expire_leaves db (c.payload) soft) s)
              ])
                ≡ ok y
              → P y.1
          node-keeps true node run = subst (λ y. P y.1) (ok-inj db store (missing, s) y run) p
          node-keeps false node run =
              let (c, _, run') = >>=-eq-ok (load store node) _ run in
              subst (λ y. P y.1)
                (ok-inj db store (send_leaves db (some t) (expire_leaves db (c.payload) soft) s) y
                  run')
                (send_leaves-keeps (some t) (expire_leaves db (c.payload) soft) s p)

      either-keeps : (b : Bool) (x y : Bool × db.State) → P x.1 → P y.1 → P (if b then x else y).1
      either-keeps true x y px py = px
      either-keeps false x y px py = py

      delete-keeps :
          (spi : ℕ) (s : db.State) (y : Bool × db.State)
          → P s
          → send_delete_sad_request db spi store s ≡ ok y
          → P y.1
      unfolding send_delete_sad_request
      delete-keeps spi s y p run =
          let s1 : db.State = (db.connect s).1 in
          let p1 : P s1 = keeps.keeps_connect s p in
          asked-keeps (is_ok (db.connect s).0) (is_ok (db.session_start s1).0) s1
            (db.session_start s1).1 p1 (keeps.keeps_start s1 p1) run
        where
          path-keeps :
              (absent : Bool) (node : Ptr) (s2 : db.State)
              → get_sad_node_by_spi spi store ≡ ok node
              → (node == null) ≡ absent
              → P s2
              → (elim absent as (λ b. Run (Bool × db.State)) [
                | true ↦ fault null_deref
                | false ↦ do
                  c ← load store node
                  xpath ← strcpy max_path (delete_path db (c.payload))
                  let (rc1, s3) = db.delete_item xpath s2
                  let (rc2, s4) = db.apply_changes s3
                  ok (if is_ok rc1 then (is_ok rc2, s4) else (false, s3))
              ])
                ≡ ok y
              → P y.1
          path-keeps true node s2 got null' p2 run = cc
          path-keeps false node s2 got live p2 run =
              let (c, at, run') = >>=-eq-ok (load store node) _ run in
              let (xpath, copied, run'') =
                >>=-eq-ok (strcpy max_path (delete_path db (c.payload))) _ run' in
              let same : xpath ≡ delete_path db (c.payload) =
                strcpy-eq-ok max_path (delete_path db (c.payload)) xpath copied in
              let q : Q (c.payload) = found-Q (λ e. e.spi == spi) node c got live at in
              let p3 : P (db.delete_item xpath s2).1 =
                subst (λ x. P (db.delete_item x s2).1) (sym same)
                  (keeps.keeps_delete (c.payload) s2 q p2) in
              let s3 : db.State = (db.delete_item xpath s2).1 in
              subst (λ y. P y.1)
                (ok-inj db store
                  (if is_ok (db.delete_item xpath s2).0
                    then (is_ok (db.apply_changes s3).0, (db.apply_changes s3).1)
                    else (false, s3))
                  y run'')
                (either-keeps (is_ok (db.delete_item xpath s2).0)
                  (is_ok (db.apply_changes s3).0, (db.apply_changes s3).1) (false, s3)
                  (keeps.keeps_apply s3 p3) p3)

          asked-keeps :
              (connected started : Bool) (s1 s2 : db.State)
              → P s1
              → P s2
              → (elim connected as (λ b. Run (Bool × db.State)) [
                | false ↦ ok (false, s1)
                | true ↦ elim started [
                  | false ↦ ok (false, s2)
                  | true ↦ do
                    node ← get_sad_node_by_spi spi store
                    elim (node == null) [
                      | true ↦ fault null_deref
                      | false ↦ do
                        c ← load store node
                        xpath ← strcpy max_path (delete_path db (c.payload))
                        let (rc1, s3) = db.delete_item xpath s2
                        let (rc2, s4) = db.apply_changes s3
                        ok (if is_ok rc1 then (is_ok rc2, s4) else (false, s3))
                    ]
                ]
              ])
                ≡ ok y
              → P y.1
          asked-keeps false started s1 s2 p1 p2 run =
              subst (λ y. P y.1) (ok-inj db store (false, s1) y run) p1
          asked-keeps true false s1 s2 p1 p2 run =
              subst (λ y. P y.1) (ok-inj db store (false, s2) y run) p2
          asked-keeps true true s1 s2 p1 p2 run =
              let (node, got, run') = >>=-eq-ok (get_sad_node_by_spi spi store) _ run in
              path-keeps (node == null) node s2 got refl p2 run'

      notification-keeps :
          (spi : ℕ) (soft : Bool) (s : db.State) (y : Sent × db.State)
          → P s
          → send_sa_expire_notification db spi soft store s ≡ ok y
          → P y.1
      unfolding send_sa_expire_notification
      notification-keeps spi soft s y p run =
          notify-keeps (db.new_notif (expire_path db)) spi soft s y p run

      Step-keeps : {x y : Sent × db.State} → Step db store x y → P x.1 → P y.1
      Step-keeps (on_nothing x) p = p
      Step-keeps (on_soft spi rc s y told) p = notification-keeps spi true s y p told
      Step-keeps (on_hard spi s rc s1 s2 deleted told asked) p =
          delete-keeps spi s1 (deleted, s2) (notification-keeps spi false s (rc, s1) p told) asked

      Reach-keeps : {x y : Sent × db.State} → P x.1 → Reach db store x y → P y.1
      Reach-keeps p here = p
      Reach-keeps p (next r step) = Step-keeps step (Reach-keeps p r)

      -- Whatever messages the kernel sends: a property of the datastore's state that sending a tree, starting a
      -- session, applying changes and deleting the entry of an association of the list keep, each run of the
      -- thread keeps.
      pub register_run-keeps :
          (answers : List (ℕ × List ℕ)) (rc rc' : Sent) (s s' : db.State)
          → P s
          → register_run db store answers (rc, s) ≡ ok (rc', s')
          → P s'
      register_run-keeps answers rc rc' s s' p run =
          Reach-keeps p (register_run-Reach db store answers (rc, s) (rc', s') run)

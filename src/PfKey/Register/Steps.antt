-- ===== src/PfKey/Register/Steps.antt =====
-- The thread as a step relation on its state, and what every run of it keeps.
use ccips_cfgipsec.Base.{
  ℕ, ◌≡◌, subst, Bool, true, false, List, [], ◌∷◌, ◌==◌, Run, ok, ◌>>=◌, >>=-eq-ok,
}
use ccips_cfgipsec.Store.{Store}
use ccips_cfgipsec.Sad.{SadEntry}
use ccips_cfgipsec.State.Notify.{
  Datastore, Sent, success, failure, missing, send_sa_expire_notification, send_delete_sad_request,
}
use ccips_cfgipsec.PfKey.Constants.{sadb_acquire, sadb_expire}
use ccips_cfgipsec.PfKey.Lifetime.{read_byte}
use ccips_cfgipsec.PfKey.Register.{sign_extend, on_expire, on_message, register_run}

module _ (db : Datastore) (store : Store SadEntry) where
  -- What the thread may do at a message: nothing, tell of a soft expiry, or, where its last notification
  -- succeeded, tell of a hard expiry and ask for a deletion.
  pub data Step : Sent × db.State → Sent × db.State → Type 0 where
    on_nothing : (x : Sent × db.State) → Step x x
    on_soft :
        (spi : ℕ) (rc : Sent) (s : db.State) (y : Sent × db.State)
        → send_sa_expire_notification db spi true store s ≡ ok y
        → Step (rc, s) y
    on_hard :
        (spi : ℕ) (s : db.State) (rc : Sent) (s1 s2 : db.State) (deleted : Bool)
        → send_sa_expire_notification db spi false store s ≡ ok (rc, s1)
        → send_delete_sad_request db spi store s1 ≡ ok (deleted, s2)
        → Step (success, s) (rc, s2)

  pub data Reach (x : Sent × db.State) : Sent × db.State → Type 0 where
    here : Reach x x
    next : {y z : Sent × db.State} → Reach x y → Step y z → Reach x z

  then-Reach : {x y z : Sent × db.State} → Step x y → Reach y z → Reach x z
  then-Reach step here = next here step
  then-Reach step (next r s) = next (then-Reach step r) s

  pub ok-inj : {A : Type 0} (a b : A) → ok a ≡ ok b → a ≡ b
  ok-inj a b e = cc

  on_expire-Step :
      (spi : ℕ) (is_hard : Bool) (x y : Sent × db.State)
      → on_expire db store spi is_hard x ≡ ok y
      → Step x y
  unfolding on_expire
  on_expire-Step spi false (rc, s) y run = on_soft (sign_extend spi) rc s y run
  on_expire-Step spi true (success, s) y run =
      let ((rc, s1), told, run') =
        >>=-eq-ok (send_sa_expire_notification db (sign_extend spi) false store s) _ run in
      let ((deleted, s2), asked, run'') =
        >>=-eq-ok (send_delete_sad_request db (sign_extend spi) store s1) _ run' in
      subst (λ y. Step (success, s) y) (ok-inj (rc, s2) y run'')
        (on_hard (sign_extend spi) s rc s1 s2 deleted told asked)
  on_expire-Step spi true (failure, s) y run =
      subst (λ y. Step (failure, s) y) (ok-inj (failure, s) y run) (on_nothing (failure, s))
  on_expire-Step spi true (missing, s) y run =
      subst (λ y. Step (missing, s) y) (ok-inj (missing, s) y run) (on_nothing (missing, s))

  -- The end of a round, in all its cases.
  kind-Step :
      (is_acquire is_expire : Bool) (index : Run ℕ) (expired : Run (ℕ × Bool))
      (x y : Sent × db.State)
      → (elim is_acquire as (λ b. Run (Sent × db.State)) [
        | true ↦ do i ← index; ok x
        | false ↦ elim is_expire [
          | true ↦ do (spi, is_hard) ← expired; on_expire db store spi is_hard x
          | false ↦ ok x
        ]
      ])
        ≡ ok y
      → Step x y
  kind-Step true is_expire index expired x y run =
      let (i, _, run') = >>=-eq-ok index _ run in
      subst (λ y. Step x y) (ok-inj x y run') (on_nothing x)
  kind-Step false true index expired x y run =
      let ((spi, is_hard), _, run') = >>=-eq-ok expired _ run in on_expire-Step spi is_hard x y run'
  kind-Step false false index expired x y run =
      subst (λ y. Step x y) (ok-inj x y run) (on_nothing x)

  on_message-Step :
      (answer : ℕ × List ℕ) (x y : Sent × db.State) → on_message db store answer x ≡ ok y → Step x y
  unfolding on_message
  on_message-Step (msglen, buffer) x y run =
      let (type, _, run') = >>=-eq-ok (read_byte buffer 1) _ run in
      kind-Step (type == sadb_acquire) (type == sadb_expire) _ _ x y run'

  pub register_run-Reach :
      (answers : List (ℕ × List ℕ)) (x y : Sent × db.State)
      → register_run db store answers x ≡ ok y
      → Reach x y
  unfolding register_run
  register_run-Reach [] x y run = subst (λ y. Reach x y) (ok-inj x y run) here
  register_run-Reach (answer ∷ answers) x y run =
      let (x', one, run') = >>=-eq-ok (on_message db store answer x) _ run in
      then-Reach (on_message-Step answer x x' one) (register_run-Reach answers x' y run')

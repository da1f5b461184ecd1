-- ===== src/PfKey/Register/Thread.antt =====
-- What the thread makes of the messages that the kernel sends.
use ccips_cfgipsec.Base.{
  ℕ, suc, ◌+◌, ◌-◌, ◌*◌, ◌^◌, ◌<◌, ◌≡◌, refl, ap, ◌∙◌, arith, Bool, true, false, none, some, List,
  [], ◌∷◌, ◌++◌, map, ltb, ◌==◌, if◌then◌else◌, ok, fault, null_deref, ◌>>=◌, >>=-ok,
}
use ccips_cfgipsec.Base.Lists.{length, All}
use ccips_cfgipsec.Store.{Store}
use ccips_cfgipsec.Store.Seg.{IsList}
use ccips_cfgipsec.Store.Find.{find}
use ccips_cfgipsec.Sad.{SadEntry}
use ccips_cfgipsec.State.Notify.{Datastore, Sent, success, missing, delete_path}
use ccips_cfgipsec.State.NotifyLaws.{
  Works, after_delete, after_notify, send_sa_expire_notification-listed,
  send_sa_expire_notification-unlisted, send_delete_sad_request-listed,
  send_delete_sad_request-unlisted,
}
use ccips_cfgipsec.PfKey.Lifetime.{read_byte}
use ccips_cfgipsec.PfKey.Lifetime.Fields.{
  field, network, read_byte-shift, byte_head, read_network-shift, read_network-network,
}
use ccips_cfgipsec.PfKey.Lifetime.Spec.{
  Extension, association, lifetime, other_type, Fits, type_of, extension_bytes, total,
}
use ccips_cfgipsec.PfKey.Lifetime.Dump.{Message, Sound, header, buffer_of, answer}
use ccips_cfgipsec.PfKey.Walk.Effects.{effects, extension_walk-effects}
use ccips_cfgipsec.PfKey.Register.{
  take_expire, expire_loop, sign_extend, on_expire, on_message, register_run,
}

-- What an extension says of an expiry: the SPI, and whether it is a hard one.
abbrev pub expire_effect : Extension → ℕ × Bool → ℕ × Bool
expire_effect (association spi body) (spi', hard) = (spi, hard)
expire_effect (lifetime a b c d) r = r
expire_effect (other_type type n body) (spi, hard) = (spi, if type == 3 then true else hard)

take_expire-effect :
    (e : Extension) (front s : List ℕ) (r : ℕ × Bool)
    → Fits e
    → take_expire (type_of e) (front ++ (extension_bytes e ++ s)) (length front) r
      ≡ ok (expire_effect e r)
unfolding take_expire
take_expire-effect (association spi body) front s (spi', hard) fits =
    >>=-ok _
      (read_network-shift front _ 4
        ∙ read_network-shift (field 2 2 ++ field 2 1) (network spi ++ (body ++ s)) 0
        ∙ read_network-network spi (body ++ s))
      refl
take_expire-effect (lifetime a b c d) front s (spi, hard) fits = refl
take_expire-effect (other_type type n body) front s (spi, hard) (_, h, _, _) =
    let e : (type == 1) ≡ false = ground arith in rw (e, take_expire) refl

-- What a message of expiry says.
abbrev pub expiry : Message → ℕ × Bool
expiry m = effects expire_effect (m.extensions) (0, false)

read_kind : (m : Message) → read_byte (buffer_of m) 1 ≡ ok (m.kind)
read_kind m = read_byte-shift (2 ∷ []) _ 0 ∙ byte_head (m.kind) _

map_same : (es : List Extension) → map (λ e. e) es ≡ es
map_same [] = refl
map_same (e ∷ es) = ap (λ t. e ∷ t) (map_same es)

expire_loop-effects :
    (m : Message) (r : ℕ × Bool)
    → Sound m
    → expire_loop
        (suc (8 * (2 + total (m.extensions))))
        (buffer_of m)
        16
        (8 * (2 + total (m.extensions)) - 16)
        r
      ≡ ok (effects expire_effect (m.extensions) r)
unfolding expire_loop
expire_loop-effects m r sound =
    let t : ℕ = total (m.extensions) in
    let e : 8 * (2 + t) - 16 ≡ 8 * t = omega arith in
    let walked =
      extension_walk-effects take_expire (λ e. e) Fits expire_effect (λ e fit. fit)
        take_expire-effect (suc (8 * (2 + t))) (header m) (m.extensions) (m.stale) r
        (rw (map_same (m.extensions)) (omega arith)) (sound.extensions_fit) in
    rw e (rw (map_same (m.extensions)) at walked)

module _ (db : Datastore) (store : Store SadEntry) where
  on_message-expiry :
      (m : Message) (state : Sent × db.State)
      → Sound m
      → m.kind ≡ 8
      → on_message db store (answer m) state ≡ on_expire db store (expiry m).0 (expiry m).1 state
  unfolding on_message
  on_message-expiry m state sound kind =
      >>=-ok _ (read_kind m ∙ ap (λ k. ok k) kind)
        (>>=-ok _ (expire_loop-effects m (0, false) sound) refl)

-- An expiry of the SPI, hard or soft.
pub record Expiry (spi : ℕ) (hard : Bool) (m : Message) : Type 0 where
  pub sound : Sound m
  pub is_expire : m.kind ≡ 8
  pub says : expiry m ≡ (spi, hard)

sign_extend-small : (n : ℕ) → n < 2 ^ 31 → sign_extend n ≡ n
unfolding sign_extend
sign_extend-small n small = let e : ltb n (2 ^ 31) ≡ true = ground (arith, small) in rw e refl

module _ (db : Datastore) (works : Works db) (store : Store SadEntry) (xs : List SadEntry)
    (is : IsList store xs) where
  on_message-says :
      (spi : ℕ) (hard : Bool) (m : Message) (state : Sent × db.State)
      → Expiry spi hard m
      → on_message db store (answer m) state ≡ on_expire db store spi hard state
  on_message-says spi hard m state e =
      on_message-expiry db store m state (e.sound) (e.is_expire)
      ∙ ap (λ r. on_expire db store r.0 r.1 state) (e.says)

  -- Where the last notification succeeded and the datastore works, a hard expiry of an association of the list, with an
  -- SPI below 2 ^ 31 and a name that leaves its path shorter than 200 bytes, sends the notification of it and asks
  -- the datastore to delete its entry, and the thread waits for the next message as before.
  pub register_run-hard :
      (spi : ℕ) (m : Message) (e : SadEntry) (s : db.State)
      → Expiry spi true m
      → spi < 2 ^ 31
      → find (λ e. e.spi == spi) xs ≡ some e
      → length (delete_path db e) < 200
      → register_run db store (answer m ∷ []) (success, s)
        ≡ ok (success, after_delete db e (after_notify db works store xs is spi e false s))
  unfolding register_run on_expire
  register_run-hard spi m e s says small found short =
      let same : sign_extend spi ≡ spi = sign_extend-small spi small in
      >>=-ok _
        (on_message-says spi true m (success, s) says
          ∙ rw same (
              >>=-ok _ (send_sa_expire_notification-listed db works store xs is spi e false s found)
                (>>=-ok _
                  (send_delete_sad_request-listed db works store xs is spi e
                    (after_notify db works store xs is spi e false s) found short)
                  refl)))
        refl

  -- Where the last notification succeeded and the datastore makes and sends what it is asked for, a hard expiry of an SPI
  -- that no association of the list has, its sign extended, dereferences NULL, whatever messages follow.
  pub register_run-unlisted :
      (spi : ℕ) (m : Message) (answers : List (ℕ × List ℕ)) (s : db.State)
      → Expiry spi true m
      → find (λ e. e.spi == sign_extend spi) xs ≡ none
      → register_run db store (answer m ∷ answers) (success, s) ≡ fault null_deref
  unfolding register_run on_expire
  register_run-unlisted spi m answers s says miss =
      ap (λ r. r >>= register_run db store answers)
        (on_message-says spi true m (success, s) says
          ∙ >>=-ok _
              (send_sa_expire_notification-unlisted db works store xs is (sign_extend spi) false s
                miss)
              (ap (λ r. r >>= (λ x. ok (missing, x.1)))
                (send_delete_sad_request-unlisted db works store xs is (sign_extend spi) s miss)))

  register_run-stuck :
      (ms : List Message) (s : db.State)
      → All (λ m. (spi : ℕ) × Expiry spi true m) ms
      → register_run db store (map answer ms) (missing, s) ≡ ok (missing, s)
  unfolding register_run on_expire
  register_run-stuck [] s hards = refl
  register_run-stuck (m ∷ ms) s ((spi, says), hards) =
      >>=-ok _ (on_message-says spi true m (missing, s) says) (register_run-stuck ms s hards)

  -- Where the datastore makes and sends what it is asked for: after a soft expiry of an SPI that no association of the
  -- list has, its sign extended, none of the hard expiries that come directly behind it is handled, of whatever SPI, and
  -- the thread is left with the failed result.
  pub register_run-disabled :
      (spi : ℕ) (m : Message) (ms : List Message) (rc : Sent) (s : db.State)
      → Expiry spi false m
      → find (λ e. e.spi == sign_extend spi) xs ≡ none
      → All (λ m. (spi : ℕ) × Expiry spi true m) ms
      → register_run db store (map answer (m ∷ ms)) (rc, s) ≡ ok (missing, s)
  unfolding register_run on_expire
  register_run-disabled spi m ms rc s says miss hards =
      >>=-ok _
        (on_message-says spi false m (rc, s) says
          ∙ send_sa_expire_notification-unlisted db works store xs is (sign_extend spi) true s miss)
        (register_run-stuck ms s hards)

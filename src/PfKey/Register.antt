-- ===== src/PfKey/Register.antt =====
-- The thread `pf_sadb_esp_register_run` of src/pfkeyv2_utils/pfkeyv2_entry.c, which handles the messages that the kernel
-- sends of itself, and `pf_exec_register`, which starts it.
pub mod Thread
pub mod Steps
pub mod Invariant
pub mod Lock
use ccips_cfgipsec.Base.{
  ℕ, zero, suc, ◌+◌, ◌-◌, ◌*◌, ◌%◌, ◌^◌, Bool, true, false, List, [], ◌∷◌, ltb, ◌==◌, if◌then◌else◌,
  Run, ok, fault, out_of_fuel, ◌>>=◌,
}
use ccips_cfgipsec.PfKey.Constants.{
  sadb_acquire, sadb_expire, sadb_x_ext_policy, sadb_ext_lifetime_hard, sadb_satype_esp,
  sadb_register_type,
}
use ccips_cfgipsec.PfKey.Lifetime.{sadb_ext_sa, read_byte, read_field, read_network}
use ccips_cfgipsec.PfKey.Lifetime.Fields.{field}
use ccips_cfgipsec.PfKey.Walk.{extension_walk}
use ccips_cfgipsec.Store.{Store}
use ccips_cfgipsec.Sad.{SadEntry}
use ccips_cfgipsec.State.Notify.{
  Datastore, Sent, success, failure, missing, send_sa_expire_notification, send_delete_sad_request,
}

-- The switch on an extension of SADB_EXPIRE: the SPI, and whether a hard lifetime was met.
unfoldable pub take_expire : ℕ → List ℕ → ℕ → ℕ × Bool → Run (ℕ × Bool)
take_expire type buffer at (spi, hard) = elim (type == sadb_ext_sa) [
  | true ↦ do spi' ← read_network buffer (at + 4); ok (spi', hard)
  | false ↦ ok (spi, if type == sadb_ext_lifetime_hard then true else hard)
]

-- The loop over its extensions
unfoldable pub expire_loop : ℕ → List ℕ → ℕ → ℕ → ℕ × Bool → Run (ℕ × Bool)
expire_loop = extension_walk take_expire

-- The loop over the extensions of SADB_ACQUIRE finds the index of a policy, which is not used any more.
unfoldable pub take_acquire : ℕ → List ℕ → ℕ → ℕ → Run ℕ
take_acquire type buffer at index = elim (type == sadb_x_ext_policy) [
  | true ↦ read_field 4 buffer (at + 8)
  | false ↦ ok index
]

unfoldable pub acquire_loop : ℕ → List ℕ → ℕ → ℕ → ℕ → Run ℕ
acquire_loop = extension_walk take_acquire

-- An `int` as an `unsigned long`: the sign is extended.
unfoldable pub sign_extend : ℕ → ℕ
sign_extend n = if ltb n (2 ^ 31) then n else n + (2 ^ 64 - 2 ^ 32)

module _ (db : Datastore) (store : Store SadEntry) where
  -- The handling of an expiry, with the result `rc` of the last notification: after one that failed, a hard
  -- expiry is only logged.
  unfoldable pub on_expire : ℕ → Bool → Sent × db.State → Run (Sent × db.State)
  on_expire spi hard (rc, s) = elim hard [
    | false ↦ send_sa_expire_notification db (sign_extend spi) true store s
    | true ↦ elim rc [
      | success ↦ do
        (rc', s1) ← send_sa_expire_notification db (sign_extend spi) false store s
        (deleted, s2) ← send_delete_sad_request db (sign_extend spi) store s1
        ok (rc', s2)
      | failure ↦ ok (failure, s)
      | missing ↦ ok (missing, s)
    ]
  ]

  -- One round of the thread: what `Read` gives, and its state.
  unfoldable pub on_message : ℕ × List ℕ → Sent × db.State → Run (Sent × db.State)
  on_message (msglen, buffer) state = do
    type ← read_byte buffer 1
    elim (type == sadb_acquire) [
      | true ↦ do index ← acquire_loop (suc msglen) buffer 16 (msglen - 16) 0; ok state
      | false ↦ elim (type == sadb_expire) [
        | true ↦ do
          (spi, hard) ← expire_loop (suc msglen) buffer 16 (msglen - 16) (0, false)
          on_expire spi hard state
        | false ↦ ok state
      ]
    ]

  -- The loop never ends: what it comes to when it waits for the next message.
  unfoldable pub register_run : List (ℕ × List ℕ) → Sent × db.State → Run (Sent × db.State)
  register_run [] state = ok state
  register_run (answer ∷ answers) state = do
    state' ← on_message answer state
    register_run answers state'

-- The message SADB_REGISTER: a header of two words
unfoldable pub register_request : ℕ → ℕ → List ℕ
register_request satype pid =
    2 ∷ sadb_register_type ∷ 0 ∷ (satype % 256) ∷ 2 ∷ 0 ∷ 0 ∷ 0 ∷ 0 ∷ 0 ∷ 0 ∷ 0 ∷ field 4 pid

pub data Exec : Type 0 where
  registered : Exec
  refused : Exec

-- `pf_exec_register`, over whether the lock is taken and whether a thread can be created: the result, whether the lock is
-- taken afterwards, whether the thread runs, and what is written. The kernel's answer is only logged. The lock is
-- never given back: the thread does not end, and where it cannot be created the lock stays taken.
unfoldable pub pf_exec_register : ℕ → ℕ → Bool → Bool → Exec × Bool × Bool × List (List ℕ)
pf_exec_register satype pid locked can_create =
    if satype == sadb_satype_esp
    then (if locked
        then (refused, true, false, [])
        else (if can_create
            then (registered, true, true, register_request satype pid ∷ [])
            else (refused, true, false, register_request satype pid ∷ [])))
    else (refused, locked, false, [])

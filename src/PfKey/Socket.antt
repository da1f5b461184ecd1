-- ===== src/PfKey/Socket.antt =====
-- `pfkey_send_socket` and `pfkey_send` of src/pfkeyv2_utils/pfkeyv2_entry.c. What the calls of `recv` and `send` give is an input.
pub mod Bytes
pub mod Reply
pub mod Answer
use ccips_cfgipsec.Base.{
  ℕ, zero, suc, ◌+◌, ◌-◌, ◌*◌, ◌/◌, Bool, true, false, ◌||◌, Option, none, some, List, [], ◌∷◌,
  ◌++◌, ltb, ◌==◌, if◌then◌else◌, Run, ok, fault, blocked, ◌>>=◌,
}
use ccips_cfgipsec.Base.Lists.{length, take}
use ccips_cfgipsec.PfKey.{pfkey_len, pfkey_user_len, sizeof_msg}
use ccips_cfgipsec.PfKey.Constants.{pfkey_buffer_size}
use ccips_cfgipsec.PfKey.Lifetime.{read_byte, read_field}
use ccips_cfgipsec.PfKey.Lifetime.Fields.{field}
use ccips_cfgipsec.PfKey.Send.{poke}

-- What a call of `recv` gives: the bytes that it received, or an error, EINTR or another.
pub data Received : Type 0 where
  message : List ℕ → Received
  recv_interrupted : Received
  recv_failed : Received

-- What a call of `send` gives: the number of bytes that it sent, or an error, EINTR or another.
pub data Transmitted : Type 0 where
  bytes_sent : ℕ → Transmitted
  send_interrupted : Transmitted
  send_failed : Transmitted

-- Messages that wait are read and dropped, up to an error other than EINTR. The result is what is received later.
unfoldable pub drain : List Received → Run (List Received)
drain [] = fault blocked
drain (message bytes ∷ rs) = drain rs
drain (recv_interrupted ∷ rs) = drain rs
drain (recv_failed ∷ rs) = ok rs

-- Whether the message was sent. `interrupted` says that `errno` is EINTR, which a call that sends something leaves as it was.
unfoldable pub send_loop : ℕ → Bool → List Transmitted → Run Bool
send_loop in_len interrupted [] = fault blocked
send_loop in_len interrupted (bytes_sent n ∷ ts) =
    let again = send_loop in_len interrupted ts in
    elim (n == in_len) [
      | true ↦ ok true
      | false ↦ elim interrupted [ true ↦ again | false ↦ ok false ]
    ]
send_loop in_len interrupted (send_interrupted ∷ ts) = send_loop in_len true ts
send_loop in_len interrupted (send_failed ∷ ts) = ok false

-- The tests on a message that was received; `again` is the next round. A message of another type is accepted.
unfoldable pub check_reply : ℕ → List ℕ → Run (Option (List ℕ)) → Run (Option (List ℕ))
unfolding pfkey_len
check_reply pid buffer again = elim (ltb (length buffer) sizeof_msg) [
  | true ↦ ok none
  | false ↦ do
    msg_len ← read_field 2 buffer 4
    elim (ltb msg_len (pfkey_len sizeof_msg) || ltb (length buffer / 8) msg_len) [
      | true ↦ ok none
      | false ↦ do
        msg_pid ← read_field 4 buffer 12
        elim (msg_pid == pid) [ true ↦ ok (some buffer) | false ↦ again ]
    ]
]

-- The reply, or `none` for an error. Of a message `recv` gives what the buffer holds.
unfoldable pub reply_loop : ℕ → List Received → Run (Option (List ℕ))
reply_loop pid [] = fault blocked
reply_loop pid (recv_interrupted ∷ rs) = reply_loop pid rs
reply_loop pid (recv_failed ∷ rs) = ok none
reply_loop pid (message bytes ∷ rs) =
    check_reply pid (take pfkey_buffer_size bytes) (reply_loop pid rs)

-- `errno` is not EINTR after the messages were dropped.
unfoldable pub pfkey_send_socket :
    ℕ → List ℕ → List Received → List Transmitted → Run (Option (List ℕ))
unfolding pfkey_user_len
pfkey_send_socket pid request rs ts = do
  rs' ← drain rs
  request' ← poke request 12 (field 4 pid)
  in_len ← read_field 2 request' 4
  sent ← send_loop (pfkey_user_len in_len) false ts
  elim sent [ true ↦ reply_loop pid rs' | false ↦ ok none ]

unfoldable pub pfkey_send : ℕ → List ℕ → List Received → List Transmitted → Run (Option (List ℕ))
pfkey_send = pfkey_send_socket

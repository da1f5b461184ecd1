-- ===== src/PfKey/Socket/Reply.antt =====
-- What is known of a reply, and that a reply is waited for.
use ccips_cfgipsec.Base.{
  ℕ, ◌*◌, ◌/◌, ◌^◌, ◌≤◌, ◌<◌, ◌≡◌, refl, ap, subst, ◌∙◌, arith, Bool, true, false, ◌||◌, Option,
  none, some, List, [], ◌∷◌, ltb, ◌==◌, Run, ok, ◌>>=◌, >>=-eq-ok,
}
use ccips_cfgipsec.Base.Lists.{length, take, All}
use ccips_cfgipsec.PfKey.{pfkey_len, pfkey_align, pfkey_user_len, parse_pfkey_message}
use ccips_cfgipsec.PfKey.Parse.{Inside, parse_pfkey_message-Inside}
use ccips_cfgipsec.PfKey.Found.{read_u16-field}
use ccips_cfgipsec.PfKey.Lifetime.{read_field}
use ccips_cfgipsec.PfKey.Lifetime.Fields.{field}
use ccips_cfgipsec.PfKey.Send.{poke}
use ccips_cfgipsec.PfKey.Socket.{
  Received, message, recv_interrupted, recv_failed, Transmitted, drain, send_loop, check_reply,
  reply_loop, pfkey_send_socket,
}
use ccips_cfgipsec.PfKey.Socket.Bytes.{length-take, take-All, read_field-small}

-- A whole message with the process id.
pub record Whole (pid : ℕ) (reply : List ℕ) : Type 0 where
  pub msg_len : ℕ
  pub stated : read_field 2 reply 4 ≡ ok msg_len
  pub has_header : 2 ≤ msg_len
  pub small : msg_len < 256 ^ 2
  pub complete : 8 * msg_len ≤ length reply
  pub own : read_field 4 reply 12 ≡ ok pid
  pub in_buffer : length reply ≤ 4096

-- The tests on a message that was received, in all their cases.
check_reply-Whole :
    (pid : ℕ) (buffer : List ℕ) (again : Run (Option (List ℕ))) (reply : List ℕ)
    → length buffer ≤ 4096
    → All (λ b. b < 256) buffer
    → (again ≡ ok (some reply) → Whole pid reply)
    → check_reply pid buffer again ≡ ok (some reply)
    → Whole pid reply
unfolding check_reply pfkey_len pfkey_align
check_reply-Whole pid buffer again reply room bytes more run = long (ltb (length buffer) 16) run
  where
    own :
        (msg_len msg_pid : ℕ)
        → read_field 2 buffer 4 ≡ ok msg_len
        → 2 ≤ msg_len
        → 8 * msg_len ≤ length buffer
        → read_field 4 buffer 12 ≡ ok msg_pid
        → (same : Bool) → (msg_pid == pid) ≡ same
        → (elim same as (λ b. Run (Option (List ℕ))) [ true ↦ ok (some buffer) | false ↦ again ])
          ≡ ok (some reply)
        → Whole pid reply
    own msg_len msg_pid stated two fits read false other run = more run
    own msg_len msg_pid stated two fits read true same run =
        let pids : msg_pid ≡ pid = ground (arith, same) in
        let b : buffer ≡ reply = cc in
        subst (λ r. Whole pid r) b
          (record {
            msg_len = msg_len;
            stated = stated;
            has_header = two;
            small = read_field-small 2 buffer 4 msg_len bytes stated;
            complete = fits;
            own = read ∙ ap (λ p. ok p) pids;
            in_buffer = room;
          })

    sized :
        (msg_len : ℕ)
        → read_field 2 buffer 4 ≡ ok msg_len
        → (bad : Bool) → (ltb msg_len 2 || ltb (length buffer / 8) msg_len) ≡ bad
        → (elim bad as (λ b. Run (Option (List ℕ))) [
          | true ↦ ok none
          | false ↦ do
            msg_pid ← read_field 4 buffer 12
            elim (msg_pid == pid) [ true ↦ ok (some buffer) | false ↦ again ]
        ])
          ≡ ok (some reply)
        → Whole pid reply
    sized msg_len stated true bad run = cc
    sized msg_len stated false fine run =
        let (msg_pid, read, run') = >>=-eq-ok (read_field 4 buffer 12) _ run in
        let within : (2 ≤ msg_len) × (8 * msg_len ≤ length buffer) = ground (arith, fine) in
        own msg_len msg_pid stated (within.0) (within.1) read (msg_pid == pid) refl run'

    long :
        (short : Bool)
        → (elim short as (λ b. Run (Option (List ℕ))) [
          | true ↦ ok none
          | false ↦ do
            msg_len ← read_field 2 buffer 4
            elim (ltb msg_len 2 || ltb (length buffer / 8) msg_len) [
              | true ↦ ok none
              | false ↦ do
                msg_pid ← read_field 4 buffer 12
                elim (msg_pid == pid) [ true ↦ ok (some buffer) | false ↦ again ]
            ]
        ])
          ≡ ok (some reply)
        → Whole pid reply
    long true run = cc
    long false run =
        let (msg_len, stated, run') = >>=-eq-ok (read_field 2 buffer 4) _ run in
        sized msg_len stated (ltb msg_len 2 || ltb (length buffer / 8) msg_len) refl run'

-- What was received are bytes.
abbrev pub Bytes : Received → Type 0
Bytes (message bytes) = All (λ b. b < 256) bytes
Bytes recv_interrupted = Unit
Bytes recv_failed = Unit

reply_loop-Whole :
    (pid : ℕ) (rs : List Received) (reply : List ℕ)
    → All Bytes rs
    → reply_loop pid rs ≡ ok (some reply)
    → Whole pid reply
unfolding reply_loop
reply_loop-Whole pid [] reply h run = cc
reply_loop-Whole pid (recv_interrupted ∷ rs) reply (_, h) run = reply_loop-Whole pid rs reply h run
reply_loop-Whole pid (recv_failed ∷ rs) reply h run = cc
reply_loop-Whole pid (message bytes ∷ rs) reply (hb, h) run =
    check_reply-Whole pid (take 4096 bytes) (reply_loop pid rs) reply (length-take 4096 bytes)
      (take-All 4096 bytes hb) (reply_loop-Whole pid rs reply h) run

drain-Bytes : (rs rs' : List Received) → All Bytes rs → drain rs ≡ ok rs' → All Bytes rs'
unfolding drain
drain-Bytes [] rs' h run = cc
drain-Bytes (message bytes ∷ rs) rs' (_, h) run = drain-Bytes rs rs' h run
drain-Bytes (recv_interrupted ∷ rs) rs' (_, h) run = drain-Bytes rs rs' h run
drain-Bytes (recv_failed ∷ rs) rs' (_, h) run = let e : rs ≡ rs' = cc in subst (All Bytes) e h

sent-Whole :
    (pid : ℕ) (sent : Bool) (rs : List Received) (reply : List ℕ)
    → All Bytes rs
    → (elim sent as (λ b. Run (Option (List ℕ))) [ true ↦ reply_loop pid rs | false ↦ ok none ])
      ≡ ok (some reply)
    → Whole pid reply
sent-Whole pid true rs reply h run = reply_loop-Whole pid rs reply h run
sent-Whole pid false rs reply h run = cc

-- Whatever is received and sent: where `pfkey_send_socket` hands out a reply, that is a whole message with the
-- process id, not longer than its buffer, and parsing it ends without a read outside of it and finds extensions
-- inside of it.
pub pfkey_send_socket-Inside :
    (pid : ℕ) (request : List ℕ) (rs : List Received) (ts : List Transmitted) (reply : List ℕ)
    → All Bytes rs
    → pfkey_send_socket pid request rs ts ≡ ok (some reply)
    → Whole pid reply
      × (rc : ℕ) × (exts : List (ℕ × ℕ)) × (parse_pfkey_message reply ≡ ok (rc, exts))
      × All (Inside reply) exts
unfolding pfkey_send_socket pfkey_user_len
pfkey_send_socket-Inside pid request rs ts reply h run =
    let (rs', drained, run1) = >>=-eq-ok (drain rs) _ run in
    let (request', _, run2) = >>=-eq-ok (poke request 12 (field 4 pid)) _ run1 in
    let (in_len, _, run3) = >>=-eq-ok (read_field 2 request' 4) _ run2 in
    let (sent, _, run4) = >>=-eq-ok (send_loop (in_len * 8) false ts) _ run3 in
    let whole = sent-Whole pid sent rs' reply (drain-Bytes rs rs' h drained) run4 in
    let (rc, exts, parsed, inside) =
      parse_pfkey_message-Inside reply (whole.msg_len) (read_u16-field reply 4 ∙ whole.stated)
        (whole.has_header) (omega (arith, whole.small)) (whole.complete) in
    (whole, rc, exts, parsed, inside)

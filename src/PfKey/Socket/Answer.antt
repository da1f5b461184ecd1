-- ===== src/PfKey/Socket/Answer.antt =====
-- A request is answered: messages that are not for this process, and interruptions, do not keep the reply away.
use ccips_cfgipsec.Base.{
  ℕ, zero, suc, ◌+◌, ◌*◌, ◌/◌, ◌≤◌, ◌≡◌, ◌≢◌, refl, ap, ◌∙◌, arith, true, false, ◌||◌, Option, none,
  some, List, [], ◌∷◌, ◌++◌, map, ltb, ◌==◌, Run, ok, >>=-ok,
}
use ccips_cfgipsec.Base.Lists.{length, take, All}
use ccips_cfgipsec.PfKey.{pfkey_len, pfkey_align, pfkey_user_len}
use ccips_cfgipsec.PfKey.Lifetime.{read_field}
use ccips_cfgipsec.PfKey.Lifetime.Fields.{field}
use ccips_cfgipsec.PfKey.Lifetime.Spec.{total, all_bytes}
use ccips_cfgipsec.PfKey.Lifetime.Dump.{Message, Sound, buffer_of, read_header}
use ccips_cfgipsec.PfKey.Send.{poke}
use ccips_cfgipsec.PfKey.Send.Buffer.{poke-ok}
use ccips_cfgipsec.PfKey.Socket.{
  Received, message, recv_interrupted, recv_failed, Transmitted, bytes_sent, send_interrupted,
  drain, send_loop, check_reply, reply_loop, pfkey_send_socket,
}

-- A message that passes the tests on its length, with a process id.
pub record Sized (pid : ℕ) (bytes : List ℕ) : Type 0 where
  pub short : length bytes ≤ 4096
  pub header : 16 ≤ length bytes
  pub msg_len : ℕ
  pub stated : read_field 2 bytes 4 ≡ ok msg_len
  pub two : 2 ≤ msg_len
  pub complete : 8 * msg_len ≤ length bytes
  pub has_pid : read_field 4 bytes 12 ≡ ok pid

-- What does not end the wait for the reply: an interruption, or a message for another process.
abbrev pub passed_over : Option (List ℕ) → Received
passed_over none = recv_interrupted
passed_over (some bytes) = message bytes

abbrev pub ForAnother : ℕ → Option (List ℕ) → Type 0
ForAnother pid none = Unit
ForAnother pid (some bytes) = (other : ℕ) × Sized other bytes × (other ≢ pid)

take-all : (n : ℕ) (xs : List ℕ) → length xs ≤ n → take n xs ≡ xs
take-all zero [] h = refl
take-all zero (x ∷ xs) h = absurd (omega arith)
take-all (suc n) [] h = refl
take-all (suc n) (x ∷ xs) h = ap (λ t. x ∷ t) (take-all n xs (omega arith))

long-enough : (n : ℕ) → 16 ≤ n → ltb n 16 ≡ false
long-enough n h = ground arith

fine-length : (n k : ℕ) → 2 ≤ k → 8 * k ≤ n → (ltb k 2 || ltb (n / 8) k) ≡ false
fine-length n k two fits = ground arith

check_reply-Sized :
    (pid other : ℕ) (bytes : List ℕ) (again : Run (Option (List ℕ)))
    → Sized other bytes
    → check_reply pid bytes again ≡ (elim (other == pid) as (λ b. Run (Option (List ℕ))) [
      | true ↦ ok (some bytes)
      | false ↦ again
    ])
unfolding check_reply pfkey_len pfkey_align
check_reply-Sized pid other bytes again sized =
    let long : ltb (length bytes) 16 ≡ false = long-enough (length bytes) (sized.header) in
    let fine : (ltb (sized.msg_len) 2 || ltb (length bytes / 8) (sized.msg_len)) ≡ false =
      fine-length (length bytes) (sized.msg_len) (sized.two) (sized.complete) in
    rw (long, check_reply) (>>=-ok _ (sized.stated) (rw fine (>>=-ok _ (sized.has_pid) refl)))

reply_loop-Sized :
    (pid other : ℕ) (bytes : List ℕ) (rs : List Received)
    → Sized other bytes
    → reply_loop pid (message bytes ∷ rs) ≡ (elim (other == pid) as (λ b. Run (Option (List ℕ))) [
      | true ↦ ok (some bytes)
      | false ↦ reply_loop pid rs
    ])
unfolding reply_loop
reply_loop-Sized pid other bytes rs sized =
    ap (λ b. check_reply pid b (reply_loop pid rs)) (take-all 4096 bytes (sized.short))
    ∙ check_reply-Sized pid other bytes (reply_loop pid rs) sized

reply_loop-answered :
    (pid : ℕ) (others : List (Option (List ℕ))) (reply : List ℕ) (after : List Received)
    → All (ForAnother pid) others
    → Sized pid reply
    → reply_loop pid (map passed_over others ++ (message reply ∷ after)) ≡ ok (some reply)
unfolding reply_loop
reply_loop-answered pid [] reply after passed sized =
    let same : (pid == pid) ≡ true = ground arith in
    reply_loop-Sized pid pid reply after sized ∙ rw same refl
reply_loop-answered pid (none ∷ others) reply after (p, passed) sized =
    reply_loop-answered pid others reply after passed sized
reply_loop-answered pid (some bytes ∷ others) reply after ((other, found, apart), passed) sized =
    let differ : (other == pid) ≡ false = ground (arith, apart) in
    reply_loop-Sized pid other bytes (map passed_over others ++ (message reply ∷ after)) found
    ∙ rw differ (reply_loop-answered pid others reply after passed sized)

-- Errors of EINTR, and messages, are passed over when the socket is emptied.
abbrev pub NoFailure : Received → Type 0
NoFailure r = r ≢ recv_failed

drain-stale :
    (stale rs : List Received) → All NoFailure stale → drain (stale ++ (recv_failed ∷ rs)) ≡ ok rs
unfolding drain
drain-stale [] rs h = refl
drain-stale (message bytes ∷ stale) rs (_, h) = drain-stale stale rs h
drain-stale (recv_interrupted ∷ stale) rs (_, h) = drain-stale stale rs h
drain-stale (recv_failed ∷ stale) rs (no_failure, h) = absurd (no_failure refl)

-- The process id is written over the one of the header.
poke-pid :
    (m : Message) (pid : ℕ)
    → poke (buffer_of m) 12 (field 4 pid) ≡ ok (buffer_of (record m { pid = pid }))
poke-pid m pid =
    let n : ℕ = 2 + total (m.extensions) in
    let front : List ℕ =
      2 ∷ m.kind ∷ m.error ∷ m.satype ∷ (field 2 n ++ (field 2 (m.reserved) ++ field 4 (m.seq))) in
    poke-ok front (field 4 (m.pid) ++ (all_bytes (m.extensions) ++ m.stale)) (field 4 pid)
      (omega arith)

send_loop-whole :
    (n k : ℕ) (ts : List Transmitted)
    → k ≡ n
    → send_loop n false (send_interrupted ∷ bytes_sent k ∷ ts) ≡ ok true
unfolding send_loop
send_loop-whole n k ts same =
    let e : (k == n) ≡ true = ground (arith, same) in rw (e, send_loop) refl

-- For a sound request that is sent whole after an interruption: whatever messages wait on the socket, and however often the calls are
-- interrupted or give messages for other processes before the reply, `pfkey_send_socket` gives the first
-- message for this process that is complete.
pub pfkey_send_socket-answered :
    (pid : ℕ) (m : Message) (stale : List Received) (others : List (Option (List ℕ)))
    (reply : List ℕ) (after : List Received) (ts : List Transmitted)
    → Sound m
    → All NoFailure stale
    → All (ForAnother pid) others
    → Sized pid reply
    → pfkey_send_socket pid
        (buffer_of m)
        (stale ++ (recv_failed ∷ (map passed_over others ++ (message reply ∷ after))))
        (send_interrupted ∷ bytes_sent (8 * (2 + total (m.extensions))) ∷ ts)
      ≡ ok (some reply)
unfolding pfkey_send_socket pfkey_user_len
pfkey_send_socket-answered pid m stale others reply after ts sound no_failure passed sized =
    let n : ℕ = 2 + total (m.extensions) in
    let m' : Message = record m { pid = pid } in
    let sound' : Sound m' = record {
      some_words = sound.some_words;
      length_fits = sound.length_fits;
      seq_fits = sound.seq_fits;
      extensions_fit = sound.extensions_fit;
    } in
    >>=-ok _ (drain-stale stale _ no_failure) (
      >>=-ok _ (poke-pid m pid) (
        >>=-ok _ (read_header m' sound').0 (
          >>=-ok _ (send_loop-whole (n * 8) (8 * n) ts (omega arith))
            (reply_loop-answered pid others reply after passed sized))))

-- ===== src/Tests/Socket.antt =====
-- The theorems on `pfkey_send_socket`: a message for another process comes before the reply.
use ccips_cfgipsec.Base.{ℕ, ◌≡◌, refl, none, some, List, [], ◌∷◌, arith, ok}
use ccips_cfgipsec.Base.Lists.{All}
use ccips_cfgipsec.PfKey.{parse_pfkey_message}
use ccips_cfgipsec.PfKey.Parse.{Inside}
use ccips_cfgipsec.PfKey.Lifetime.{read_byte, read_field}
use ccips_cfgipsec.PfKey.Lifetime.Spec.{association}
use ccips_cfgipsec.PfKey.Lifetime.Dump.{Message, Sound, buffer_of}
use ccips_cfgipsec.PfKey.Socket.{
  Received, message, recv_interrupted, recv_failed, Transmitted, bytes_sent, send_interrupted,
  pfkey_send_socket,
}
use ccips_cfgipsec.PfKey.Socket.Reply.{Whole, pfkey_send_socket-Inside}
use ccips_cfgipsec.PfKey.Socket.Answer.{Sized, pfkey_send_socket-answered}

abbrev zeros8 : List ℕ
zeros8 = 0 ∷ 0 ∷ 0 ∷ 0 ∷ 0 ∷ 0 ∷ 0 ∷ 0 ∷ []

abbrev get_message : Message
get_message = record {
  kind = 5;
  error = 0;
  satype = 3;
  reserved = 0;
  seq = 0;
  pid = 0;
  extensions = association 300 zeros8 ∷ [];
  stale = [];
}

get_message-Sound : Sound get_message
get_message-Sound = record {
  some_words = omega arith;
  length_fits = omega arith;
  seq_fits = omega arith;
  extensions_fit = omega arith;
}

-- A message of two words for a process
abbrev reply_to : ℕ → List ℕ
reply_to pid = 2 ∷ 5 ∷ 0 ∷ 3 ∷ 2 ∷ 0 ∷ 0 ∷ 0 ∷ 0 ∷ 0 ∷ 0 ∷ 0 ∷ pid ∷ 0 ∷ 0 ∷ 0 ∷ []

mine-Sized : Sized 99 (reply_to 99)
unfolding read_field read_byte
mine-Sized = record {
  short = omega arith;
  header = omega arith;
  msg_len = 2;
  stated = refl;
  two = omega arith;
  complete = omega arith;
  has_pid = refl;
}

other-Sized : Sized 7 (reply_to 7)
unfolding read_field read_byte
other-Sized = record {
  short = omega arith;
  header = omega arith;
  msg_len = 2;
  stated = refl;
  two = omega arith;
  complete = omega arith;
  has_pid = refl;
}

abbrev incoming : List Received
incoming =
    message (1 ∷ 2 ∷ [])
    ∷ recv_failed
    ∷ recv_interrupted
    ∷ message (reply_to 7)
    ∷ message (reply_to 99)
    ∷ []

abbrev outgoing : List Transmitted
outgoing = send_interrupted ∷ bytes_sent 32 ∷ []

answered : pfkey_send_socket 99 (buffer_of get_message) incoming outgoing ≡ ok (some (reply_to 99))
answered =
    pfkey_send_socket-answered 99 get_message (message (1 ∷ 2 ∷ []) ∷ [])
      (none ∷ some (reply_to 7) ∷ []) (reply_to 99) [] [] get_message-Sound ((λ e. cc), tt)
      (tt, ((7, other-Sized, omega arith), tt)) mine-Sized

pfkey_send_socket-answered_example :
    pfkey_send_socket 99 (buffer_of get_message) incoming outgoing ≡ ok (some (reply_to 99))
pfkey_send_socket-answered_example =
    pfkey_send_socket-answered 99 get_message (message (1 ∷ 2 ∷ []) ∷ [])
      (none ∷ some (reply_to 7) ∷ []) (reply_to 99) [] [] get_message-Sound ((λ e. cc), tt)
      (tt, ((7, other-Sized, omega arith), tt)) mine-Sized

pfkey_send_socket-Inside_example :
    Whole 99 (reply_to 99)
    × (rc : ℕ) × (exts : List (ℕ × ℕ)) × (parse_pfkey_message (reply_to 99) ≡ ok (rc, exts))
    × All (Inside (reply_to 99)) exts
pfkey_send_socket-Inside_example =
    pfkey_send_socket-Inside 99 (buffer_of get_message) incoming outgoing (reply_to 99)
      (omega arith) answered

-- ===== src/Sockets/Untested.antt =====
-- Programs that use what socket() and its like return without a test: a failure is the descriptor -1.
use geek_network_programming.Base.{
  ℕ, zero, suc, List, [], ◌∷◌, ◌==◌, ℤ, pos, minus_one, not, is_neg,
}
use geek_network_programming.Sys.{
  Reply, number, bytes, failed, Sys, pure, ◌>>=◌, call, exit, ignored, either,
}
use geek_network_programming.Sockets.{Kind, stream, dgram}

pub data Call : Type 0 where
  socket : Kind → Call
  bind : ℤ → (port : ℕ) → Call
  listen : ℤ → (backlog : ℕ) → Call
  connect : ℤ → (port : ℕ) → Call
  accept : ℤ → Call
  send : ℤ → List ℕ → Call
  close : ℤ → Call

-- what a call returns as an `int`
abbrev pub result : Reply → ℤ
result (number n) = pos n
result (failed e) = minus_one
result (bytes x) = pos 0

-- `if (call < 0) error(1, …)`
abbrev pub tested : Call → Sys Call ℤ
tested c = call c >>= λ r. either (is_neg (result r)) (exit 1) (pure (result r))

-- a program that wants one argument
abbrev pub with_argument : (argc : ℕ) → Sys Call ℤ → Sys Call ℤ
with_argument argc m = either (not (argc == 2)) (exit 1) m

-- chap-5/tcp_server.c, up to the loop of main
pub bulk_server : Sys Call ℤ
bulk_server = do
  s ← call (socket stream)
  _ ← ignored (bind (result s) 12345)
  _ ← ignored (listen (result s) 1024)
  pure (result s)

-- main of chap-5/tcp_client.c, up to send_data(): a failed connect() is only reported.
pub bulk_client : (argc : ℕ) → Sys Call ℤ
bulk_client argc =
    with_argument argc
      do s ← call (socket stream); _ ← ignored (connect (result s) 12345); pure (result s)

-- chap-6/udp_server.c, up to the loop of main
pub datagram_server : Sys Call ℤ
datagram_server = do s ← call (socket dgram); _ ← ignored (bind (result s) 8090); pure (result s)

-- chap-6/udp_client.c, up to the loop of main
pub datagram_client : (argc : ℕ) → Sys Call ℤ
datagram_client argc = with_argument argc do s ← call (socket dgram); pure (result s)

-- chap-12/ping_server.c, up to the loop of main: a failed socket() is only reported.
pub ping_server : (argc : ℕ) → Sys Call ℤ
ping_server argc = with_argument argc do
  s ← call (socket stream)
  _ ← tested (bind (result s) 8012)
  _ ← tested (listen (result s) 128)
  tested (accept (result s))

-- chap-4/make_socket.c: the text that each client gets, `hello, my bro.` and CR LF
abbrev pub hello : List ℕ
hello =
    b'h' ∷ b'e' ∷ b'l' ∷ b'l' ∷ b'o' ∷ b',' ∷ b' ' ∷ b'm' ∷ b'y' ∷ b' ' ∷ b'b' ∷ b'r' ∷ b'o' ∷ b'.'
    ∷ 13 ∷ 10 ∷ []

-- the `while` of its main function, for some rounds: nothing is tested
unfoldable pub hello_loop : (rounds : ℕ) (sock : ℤ) → Sys Call (Unit {0})
hello_loop zero sock = pure tt
hello_loop (suc n) sock = call (accept sock) >>= λ r.
    ignored (send (result r) hello) >>= λ _. ignored (close (result r)) >>= λ _. hello_loop n sock

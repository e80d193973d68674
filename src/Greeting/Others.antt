-- ===== src/Greeting/Others.antt =====
-- What the servers of chap-6/udp_server.c and chap-7/unix_server.c answer.
use geek_network_programming.Base.{
  ℕ, zero, suc, ◌+◌, ◌<◌, ◌≡◌, refl, List, [], ◌∷◌, ◌++◌, arith, length, drop, replicate, ltb, true,
}
use geek_network_programming.Base.Result.{ok}
use geek_network_programming.Sys.{Reply, number, bytes, failed, done, fault}
use geek_network_programming.Strings.{NoZero, c_string-append}
use geek_network_programming.Greeting.{
  Call, read, recvfrom, send, write_array, close, max_line, buffer_size, hi, greet, udp_server_loop,
  unix_server_loop,
}
use geek_network_programming.Greeting.Dialogue.{Message, body, replies, Short, greet_fits}

abbrev pub datagrams : ℕ → List Message → List Call
datagrams fd [] = []
datagrams fd (m ∷ ms) = recvfrom fd max_line ∷ send fd (hi ++ body m) ∷ datagrams fd ms

-- The server of chap-6 answers each datagram that leaves room, whose bytes are not zero, with the
-- greeting in front of it, in order; a recvfrom() that fails makes it write in front of its array.
pub udp_server_loop-datagrams :
    (fd e : ℕ) (ms : List Message) (rs : List Reply)
    → Short ms
    → udp_server_loop fd (replies ms (failed e ∷ rs))
      ≡ fault (datagrams fd ms ++ recvfrom fd max_line ∷ [])
unfolding udp_server_loop
udp_server_loop-datagrams fd e [] rs p = refl
udp_server_loop-datagrams fd e (m ∷ ms) rs (lt, p) =
    rw (greet_fits max_line (body m) m.text lt, udp_server_loop-datagrams fd e ms rs p) refl

-- the replies to a session over the local socket: every write takes the whole array
abbrev pub local_replies : List Message → List Reply → List Reply
local_replies [] rs = rs
local_replies (m ∷ ms) rs = bytes (body m) ∷ number buffer_size ∷ local_replies ms rs

abbrev pub arrays : ℕ → List Message → List Call
arrays fd [] = []
arrays fd (m ∷ ms) = read fd buffer_size ∷ write_array fd buffer_size (hi ++ body m) ∷ arrays fd ms

abbrev pub Fitting : List Message → Type 0
Fitting [] = Unit {0}
Fitting (m ∷ ms) = (length (body m) + 4 < buffer_size) × Fitting ms

drop-replicate :
    (n k : ℕ) → n < k → drop {A = ℕ} n (replicate k 0) ≡ 0 ∷ drop (suc n) (replicate k 0)
drop-replicate n zero h = absurd (omega arith)
drop-replicate zero (suc k) h = refl
drop-replicate (suc n) (suc k) h = drop-replicate n k (omega arith)

greet-zeroed :
    (bs : List ℕ)
    → NoZero bs
    → length bs + 4 < buffer_size
    → greet buffer_size (bs ++ drop (length bs) (replicate buffer_size 0)) ≡ ok (hi ++ bs)
unfolding greet
greet-zeroed bs n lt =
    let fits : ltb (length bs + 4) buffer_size ≡ true = ground arith in
    rw
      (
        drop-replicate (length bs) buffer_size (omega arith),
        c_string-append bs (drop (suc (length bs)) (replicate buffer_size 0)) n,
        fits,
      )
      refl

-- The server of chap-7 answers each message that leaves room, whose bytes are not zero, with an array
-- that starts with the greeting, in order, and when the client closes it closes both sockets and
-- ends.
pub unix_server_loop-greetings :
    (listen fd : ℕ) (ms : List Message) (rest : List Reply)
    → Fitting ms
    → unix_server_loop listen fd (local_replies ms (bytes [] ∷ rest))
      ≡ done tt rest (arrays fd ms ++ (read fd buffer_size ∷ close listen ∷ close fd ∷ []))
unfolding unix_server_loop
unix_server_loop-greetings listen fd [] rest p = refl
unix_server_loop-greetings listen fd (m ∷ ms) rest (lt, p) =
    rw (greet-zeroed (body m) m.text lt, unix_server_loop-greetings listen fd ms rest p) refl

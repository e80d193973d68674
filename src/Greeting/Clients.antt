-- ===== src/Greeting/Clients.antt =====
-- The loops of the clients that send what fgets() reads: chap-6/udp_client.c, chap-7/unix_client.c,
-- chap-11/close_client.c, chap-13/writev_client.c and chap-14/udp_connect_client.c. A line is what
-- fgets() stores before the zero byte; at the end of the input there is none. Printing is left out.
use geek_network_programming.Base.{
  ℕ, suc, ◌+◌, Bool, true, false, not, ◌&&◌, List, [], ◌∷◌, ◌++◌, ◌==◌, if◌then◌else◌,
}
use geek_network_programming.Base.Result as Result
use geek_network_programming.Base.Result.{Result, ok, out_of_fuel}
use geek_network_programming.Sys.{
  either, lift, Reply, number, bytes, Sys, pure, ◌>>=◌, call, exit, is_failed,
}
use geek_network_programming.Strings.{c_string, overwrite, starts_with, strip_newline}

abbrev pub max_line : ℕ
max_line = 4096

pub data Call : Type 0 where
  select : ℕ → Call
  read : (fd size : ℕ) → Call
  recv : (fd size : ℕ) → Call
  write : ℕ → List ℕ → Call
  send : ℕ → List ℕ → Call
  writev : ℕ → List ℕ → List ℕ → Call
  shut_down : ℕ → Call
  close : ℕ → Call

abbrev pub Line : Type 0
Line = List ℕ

-- `strlen` bytes of the line
abbrev pub line_text : Line → Sys Call (List ℕ)
line_text line = lift (c_string (line ++ 0 ∷ []))

-- `message` of chap-13/writev_client.c
abbrev pub hello : List ℕ
hello = b'h' ∷ b'e' ∷ b'l' ∷ b'l' ∷ b'o' ∷ b',' ∷ b' ' ∷ []

-- the loop of chap-13/writev_client.c, and the exit behind it
unfoldable pub writev_client_loop : ℕ → List Line → Sys Call (Unit {0})
writev_client_loop fd [] = exit 0
writev_client_loop fd (line ∷ lines) = line_text line >>= λ s.
    call (writev fd hello s) >>= λ r. either (is_failed r) (exit 1) (writev_client_loop fd lines)

-- The loop of chap-6/udp_client.c, where a failed sendto() is not found out: the result of the call is
-- a `size_t`.
unfoldable pub udp_client_loop : ℕ → List Line → Sys Call (Unit {0})
udp_client_loop fd [] = pure tt
udp_client_loop fd (line ∷ lines) = line_text line >>= λ s. lift (strip_newline s) >>= λ s'.
    call (send fd s') >>= λ _.
    call (recv fd max_line) >>= λ r. either (is_failed r) (exit 1) (udp_client_loop fd lines)

-- the line with its newline replaced by a zero byte
unfoldable pub zero_newline : List ℕ → Result (List ℕ)
zero_newline [] = Result.fault
zero_newline (c ∷ []) = ok ((if c == b'\n' then 0 else c) ∷ [])
zero_newline (c ∷ d ∷ cs) = Result.◌>>=◌ (zero_newline (d ∷ cs)) (λ s. ok (c ∷ s))

-- The loop of chap-14/udp_connect_client.c: the length sent is that before the newline was replaced.
unfoldable pub udp_connect_client_loop : ℕ → List Line → Sys Call (Unit {0})
unfolding zero_newline
udp_connect_client_loop fd [] = pure tt
udp_connect_client_loop fd (line ∷ lines) = line_text line >>= λ s. lift (zero_newline s) >>= λ s'.
    call (send fd s') >>= λ _. call (recv fd max_line) >>= λ r.
    either (is_failed r) (exit 1) (udp_connect_client_loop fd lines)

-- a call that returns as many bytes as the array has
abbrev pub whole : ℕ → Reply → Bool
whole size (number n) = n == size
whole size _ = false

abbrev pub at_end : Reply → Bool
at_end (bytes []) = true
at_end _ = false

-- The loop of chap-7/unix_client.c and the close() behind it: the whole array `arr` is sent, with what
-- earlier lines have left in it.
unfoldable pub unix_client_loop : ℕ → (arr : List ℕ) → List Line → Sys Call (Unit {0})
unix_client_loop fd arr [] = call (close fd) >>= λ _. pure tt
unix_client_loop fd arr (line ∷ lines) =
    let arr' = overwrite (line ++ 0 ∷ []) arr in
    call (write fd arr') >>= λ r.
    either (not (whole 1024 r)) (exit 1)
      (call (read fd 1024) >>= λ q. either (at_end q) (exit 1) (unix_client_loop fd arr' lines))

-- what select() of chap-11/close_client.c finds ready
pub record Ready : Type 0 where
  pub socket : Bool
  pub input : Bool

-- the words `shutdown` and `close`
abbrev pub shutdown_word : List ℕ
shutdown_word = b's' ∷ b'h' ∷ b'u' ∷ b't' ∷ b'd' ∷ b'o' ∷ b'w' ∷ b'n' ∷ []

abbrev pub close_word : List ℕ
close_word = b'c' ∷ b'l' ∷ b'o' ∷ b's' ∷ b'e' ∷ []

-- the branch for a line of the input; the result is whether the input is watched from then on
unfoldable pub on_line : ℕ → Line → Sys Call Bool
on_line fd line = line_text line >>= λ s.
    either (starts_with shutdown_word s)
      (call (shut_down fd) >>= λ r. either (is_failed r) (exit 1) (pure false))
      (either (starts_with close_word s)
        (call (close fd) >>= λ r. either (is_failed r) (exit 1) (exit 0))
        (lift (strip_newline s) >>= λ s'. call (write fd s') >>= λ _. pure true))

-- the branch for the socket
unfoldable pub on_socket : ℕ → Sys Call (Unit {0})
on_socket fd = call (read fd max_line) >>= λ r.
    either (is_failed r) (exit 1) (either (at_end r) (exit 1) (pure tt))

-- `rc <= 0`
abbrev pub none_ready : Reply → Bool
none_ready (number (suc n)) = false
none_ready _ = true

-- a ready input: at its end fgets() gives no line
abbrev pub on_input :
    ℕ → (next : Bool → List Line → Sys Call (Unit {0})) → List Line → Sys Call (Unit {0})
on_input fd next [] = next true []
on_input fd next (line ∷ lines) = on_line fd line >>= λ w. next w lines

-- The `for` of chap-11/close_client.c, as long as select() returns. `watched` is whether descriptor 0 is
-- in `all_reads`.
unfoldable pub close_client_loop :
    ℕ → List Ready → (watched : Bool) → List Line → Sys Call (Unit {0})
close_client_loop fd [] watched lines = pure tt
close_client_loop fd (r ∷ later) watched lines = call (select (fd + 1)) >>= λ found.
    either (none_ready found) (exit 1) (
      either r.socket (on_socket fd) (pure tt) >>= λ _.
      either (watched && r.input) (on_input fd (close_client_loop fd later) lines)
        (close_client_loop fd later watched lines))

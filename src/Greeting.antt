-- ===== src/Greeting.antt =====
-- The servers that answer each message with `Hi, ` in front of it: the loops of main in
-- chap-11/close_server.c, chap-6/udp_server.c, chap-7/unix_server.c and chap-14/udp_connect_server.c,
-- and the loop of chap-15/tcp_reuse_server.c, which only reads. Printing and sleeping are left out.
pub mod Connected
pub mod Clients
pub mod Dialogue
pub mod Others
use geek_network_programming.Base.{
  ℕ, zero, suc, ◌+◌, Bool, true, false, List, [], ◌∷◌, ◌++◌, ◌==◌, ltb, if◌then◌else◌, length,
  replicate,
}
use geek_network_programming.Base.Result as Result
use geek_network_programming.Base.Result.{Result, ok, out_of_fuel, ◌>>=◌}
use geek_network_programming.Sys.{
  Reply, number, bytes, failed, Outcome, done, exited, blocked, fault, after, Sys,
}
use geek_network_programming.Strings.{c_string, overwrite, starts_with}

abbrev pub max_line : ℕ
max_line = 4096

-- `BUFFER_SIZE` of chap-7/unix_server.c, where `MAX_LINE` is the same
abbrev pub buffer_size : ℕ
buffer_size = 1024

pub data Call : Type 0 where
  read : (fd size : ℕ) → Call
  recvfrom : (fd size : ℕ) → Call
  send : ℕ → List ℕ → Call
  -- a write of a whole array, which starts with the string
  write_array : (fd size : ℕ) → List ℕ → Call
  close : ℕ → Call
  connect : ℕ → Call

-- `Hi, `
abbrev pub hi : List ℕ
hi = b'H' ∷ b'i' ∷ b',' ∷ b' ' ∷ []

-- `sprintf(send_line, "Hi, %s", message)` for arrays of the two sizes; `arr` is what `message` holds
unfoldable pub greet : (size : ℕ) → (arr : List ℕ) → Result (List ℕ)
greet size arr = do s ← c_string arr; if ltb (length s + 4) size then ok (hi ++ s) else Result.fault

-- `message[n] = 0` behind the `n` bytes that were read, and the greeting
unfoldable pub greet_message : (size : ℕ) → (bs : List ℕ) → Result (List ℕ)
greet_message size bs = if ltb (length bs) size then greet size (bs ++ 0 ∷ []) else Result.fault

-- the run behind the calls `t`, if the greeting is made
abbrev pub with_line :
    List Call → Result (List ℕ) → (List ℕ → Outcome Call (Unit {0})) → Outcome Call (Unit {0})
with_line t (ok line) next = next line
with_line t Result.fault next = fault t
with_line t out_of_fuel next = fault t

-- a failed send ends the program
abbrev pub or_exit : {A : Type 0} → Reply → Outcome Call A → Outcome Call A
or_exit (failed e) o = exited 1 []
or_exit _ o = o

-- the `for` of chap-11/close_server.c
unfoldable pub close_server_loop : ℕ → Sys Call (Unit {0})
unfolding greet_message
close_server_loop fd [] = blocked (read fd max_line ∷ [])
close_server_loop fd (number n ∷ rs) = fault (read fd max_line ∷ [])
close_server_loop fd (failed e ∷ rs) = exited 1 (read fd max_line ∷ [])
close_server_loop fd (bytes [] ∷ rs) = exited 1 (read fd max_line ∷ [])
close_server_loop fd (bytes (b ∷ bs) ∷ []) =
    with_line (read fd max_line ∷ []) (greet_message max_line (b ∷ bs))
      (λ line. blocked (read fd max_line ∷ send fd line ∷ []))
close_server_loop fd (bytes (b ∷ bs) ∷ r ∷ rs) =
    let rest = close_server_loop fd rs in
    with_line (read fd max_line ∷ []) (greet_message max_line (b ∷ bs))
      (λ line. after (read fd max_line ∷ send fd line ∷ []) (or_exit r rest))

-- The `for` of chap-6/udp_server.c: -1 is an index like any other, and what sendto() returns is not
-- used. It never ends.
unfoldable pub udp_server_loop : ℕ → Sys Call (Unit {0})
unfolding greet_message
udp_server_loop fd [] = blocked (recvfrom fd max_line ∷ [])
udp_server_loop fd (number n ∷ rs) = fault (recvfrom fd max_line ∷ [])
udp_server_loop fd (failed e ∷ rs) = fault (recvfrom fd max_line ∷ [])
udp_server_loop fd (bytes bs ∷ []) =
    with_line (recvfrom fd max_line ∷ []) (greet_message max_line bs)
      (λ line. blocked (recvfrom fd max_line ∷ send fd line ∷ []))
udp_server_loop fd (bytes bs ∷ r ∷ rs) =
    let rest = udp_server_loop fd rs in
    with_line (recvfrom fd max_line ∷ []) (greet_message max_line bs)
      (λ line. after (recvfrom fd max_line ∷ send fd line ∷ []) rest)

-- `write(conn_fd, send_line, bytes) != bytes`
abbrev pub or_fail : ℕ → Reply → Outcome Call (Unit {0}) → Outcome Call (Unit {0})
or_fail size (number n) o = if n == size then o else exited 1 []
or_fail size _ o = exited 1 []

-- The `while` of chap-7/unix_server.c and the two close() behind it, by the replies: the array is
-- zeroed before each read, and a read that fails is not tested for.
unfoldable pub unix_server_loop : (listen fd : ℕ) → Sys Call (Unit {0})
unfolding greet
unix_server_loop listen fd [] = blocked (read fd buffer_size ∷ [])
unix_server_loop listen fd (number n ∷ rs) = fault (read fd buffer_size ∷ [])
unix_server_loop listen fd (bytes [] ∷ rs) =
    done tt rs (read fd buffer_size ∷ close listen ∷ close fd ∷ [])
unix_server_loop listen fd (failed e ∷ []) =
    with_line (read fd buffer_size ∷ []) (greet buffer_size (replicate buffer_size 0))
      (λ line. blocked (read fd buffer_size ∷ write_array fd buffer_size line ∷ []))
unix_server_loop listen fd (failed e ∷ r ∷ rs) =
    let rest = unix_server_loop listen fd rs in
    with_line (read fd buffer_size ∷ []) (greet buffer_size (replicate buffer_size 0)) (λ line.
      after (read fd buffer_size ∷ write_array fd buffer_size line ∷ [])
        (or_fail buffer_size r rest))
unix_server_loop listen fd (bytes (b ∷ bs) ∷ []) =
    with_line (read fd buffer_size ∷ [])
      (greet buffer_size (overwrite (b ∷ bs) (replicate buffer_size 0)))
      (λ line. blocked (read fd buffer_size ∷ write_array fd buffer_size line ∷ []))
unix_server_loop listen fd (bytes (b ∷ bs) ∷ r ∷ rs) =
    let rest = unix_server_loop listen fd rs in
    with_line (read fd buffer_size ∷ [])
      (greet buffer_size (overwrite (b ∷ bs) (replicate buffer_size 0)))
      (λ line.
        after (read fd buffer_size ∷ write_array fd buffer_size line ∷ [])
          (or_fail buffer_size r rest))

-- the `for` of chap-15/tcp_reuse_server.c, which prints what it reads
unfoldable pub reuse_server_loop : ℕ → Sys Call (Unit {0})
reuse_server_loop fd [] = blocked (read fd max_line ∷ [])
reuse_server_loop fd (number n ∷ rs) = fault (read fd max_line ∷ [])
reuse_server_loop fd (failed e ∷ rs) = exited 1 (read fd max_line ∷ [])
reuse_server_loop fd (bytes [] ∷ rs) = exited 1 (read fd max_line ∷ [])
reuse_server_loop fd (bytes (b ∷ bs) ∷ rs) =
    let rest = reuse_server_loop fd rs in
    if ltb (length (b ∷ bs)) max_line
    then after (read fd max_line ∷ []) rest
    else fault (read fd max_line ∷ [])

-- ===== src/Transfer.antt =====
-- The loops of chap-5/tcp_client.c and chap-5/tcp_server.c. Printing and usleep() are left out.
pub mod Endless
use geek_network_programming.Base.{
  ℕ, zero, suc, Bool, true, false, Option, none, some, List, [], ◌∷◌, leb, if◌then◌else◌, length,
  drop, replicate, negsuc, ℤ, pos,
}
use geek_network_programming.Sys.{
  either, Reply, number, bytes, failed, Outcome, done, blocked, fault, after, Sys, pure, ◌>>=◌,
}
use geek_network_programming.Framing.{Call, send, readn}

-- The `while` of `send_data`, by the replies, with the bytes that remain: it returns when they are sent,
-- and when send() fails or takes none. A send() takes no more than it is given.
unfoldable pub send_loop : ℕ → List ℕ → Sys Call (Unit {0})
send_loop fd [] rs = done tt rs []
send_loop fd (b ∷ bs) [] = blocked (send fd (b ∷ bs) ∷ [])
send_loop fd (b ∷ bs) (failed e ∷ rs) = done tt rs (send fd (b ∷ bs) ∷ [])
send_loop fd (b ∷ bs) (number zero ∷ rs) = done tt rs (send fd (b ∷ bs) ∷ [])
send_loop fd (b ∷ bs) (number (suc n) ∷ rs) =
    after (send fd (b ∷ bs) ∷ []) (send_loop fd (drop n bs) rs)
send_loop fd (b ∷ bs) (bytes x ∷ rs) = fault (send fd (b ∷ bs) ∷ [])

abbrev pub message_size : ℕ
message_size = 10240000

-- `send_data`
unfoldable pub send_data : ℕ → Sys Call (Unit {0})
unfolding send_loop
send_data fd = send_loop fd (replicate message_size b'a')

-- `(n = readn(…)) == 0`
abbrev pub at_end : Option (List ℕ) → Bool
at_end (some []) = true
at_end _ = false

-- the `for` of `read_data`, for at most `rounds` calls of readn(); a -1 does not end it
unfoldable pub read_data : (rounds fd : ℕ) → Sys Call (Unit {0})
read_data zero fd = λ rs. blocked []
read_data (suc f) fd = readn fd 1024 >>= λ got. either (at_end got) (pure tt) (read_data f fd)

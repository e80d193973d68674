-- ===== src/Http.antt =====
-- `read_line` of chap-16/tcp_http_server.c, and the calls of its server.
pub mod Lines
pub mod Request
pub mod RequestLine
pub mod Parsing
pub mod Overflow
pub mod Storing
use geek_network_programming.Base.{
  ℕ, zero, suc, ◌+◌, ◌-◌, ◌&&◌, Bool, true, false, List, [], ◌∷◌, ◌++◌, ◌==◌, if◌then◌else◌, length,
}
use geek_network_programming.Sys.{
  either, Reply, number, bytes, failed, Outcome, done, exited, blocked, fault, after, Sys, pure,
  ◌>>=◌, call,
}

pub data Call : Type 0 where
  recv : ℕ → Call
  peek : ℕ → Call
  accept : ℕ → Call
  write : ℕ → List ℕ → Call
  close : ℕ → Call

-- the variable `c` after a `recv(fd, &c, 1, …)`: a call that gets no byte leaves it alone
abbrev pub char_of : Reply → ℕ → ℕ
char_of (bytes (d ∷ ds)) c = d
char_of _ c = c

-- `recv(…) > 0`
abbrev pub got_char : Reply → Bool
got_char (bytes (d ∷ ds)) = true
got_char _ = false

-- One round behind a carriage return, `p` the answer to the `MSG_PEEK`; `next` is the loop from then.
pub after_cr : ℕ → (next : ℕ → List ℕ → Sys Call (List ℕ)) → List ℕ → Reply → Sys Call (List ℕ)
after_cr fd next buf p =
    either (got_char p && (char_of p b'\r' == b'\n'))
      (call (recv fd) >>= λ q. let c = char_of q b'\n' in next c (buf ++ c ∷ []))
      (next b'\n' (buf ++ b'\n' ∷ []))

-- One round, `r` the answer to its first `recv`. If that fails, `c` is a newline and the loop ends.
pub after_recv :
    (fd c : ℕ) → (next : ℕ → List ℕ → Sys Call (List ℕ)) → List ℕ → Reply → Sys Call (List ℕ)
unfolding after_cr
after_recv fd c next buf (failed e) = pure buf
after_recv fd c next buf (number n) = λ rs. fault []
after_recv fd c next buf r =
    either (char_of r c == b'\r') (call (peek fd) >>= after_cr fd next buf)
      (next (char_of r c) (buf ++ char_of r c ∷ []))

-- The loop with room for `size - 1 - i` more bytes, where `buf` is `buf[0 .. i)`.
unfoldable pub read_line_loop : (fd room c : ℕ) → List ℕ → Sys Call (List ℕ)
unfolding after_recv
read_line_loop fd zero c buf = pure buf
read_line_loop fd (suc room) c buf =
    either (c == b'\n') (pure buf) (call (recv fd) >>= after_recv fd c (read_line_loop fd room) buf)

-- `read_line`; the result is the line, whose length the code returns
pub read_line : (fd size : ℕ) → Sys Call (List ℕ)
unfolding read_line_loop
read_line fd size = read_line_loop fd (size - 1) 0 []

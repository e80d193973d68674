-- ===== src/Echo.antt =====
-- The rot13 echo services: `connection_loop` of chap-26/blocking_io_threadpool_server.c, which a pool
-- thread runs for each descriptor that it takes from the queue.
pub mod Rot13
pub mod Session
use geek_network_programming.Base.{
  ℕ, zero, suc, ◌+◌, ◌-◌, Bool, true, false, ◌&&◌, ◌||◌, List, [], ◌∷◌, ◌++◌, leb, if◌then◌else◌,
  map,
}
use geek_network_programming.Sys.{
  Reply, number, bytes, failed, Outcome, done, exited, blocked, fault, after, Sys,
}

abbrev pub max_line : ℕ
max_line = 4096

-- `c >= lo && c <= hi`. A byte from 128 on is a negative char, and outside all of the ranges.
abbrev pub between : ℕ → ℕ → ℕ → Bool
between lo hi c = leb lo c && leb c hi

-- `rot13_char` on a byte
pub rot13_char : ℕ → ℕ
rot13_char c =
    if between b'a' b'm' c || between b'A' b'M' c
    then c + 13
    else if between b'n' b'z' c || between b'N' b'Z' c
    then c - 13
    else c

pub data Call : Type 0 where
  read : (fd count : ℕ) → Call
  write : ℕ → List ℕ → Call
  close : ℕ → Call

-- `connection_loop`, by recursion on the replies. The result is `tt` once the client has closed. The
-- number that write() returns is tested for a failure only.
unfoldable pub connection_loop : ℕ → Sys Call (Unit {0})
unfolding rot13_char
connection_loop fd [] = blocked (read fd max_line ∷ [])
connection_loop fd (number n ∷ rs) = fault (read fd max_line ∷ [])
connection_loop fd (failed e ∷ rs) = exited 1 (read fd max_line ∷ [])
connection_loop fd (bytes [] ∷ []) = blocked (read fd max_line ∷ close fd ∷ [])
connection_loop fd (bytes [] ∷ r ∷ rs) = done tt rs (read fd max_line ∷ close fd ∷ [])
connection_loop fd (bytes (b ∷ bs) ∷ []) =
    blocked (read fd max_line ∷ write fd (map rot13_char (b ∷ bs)) ∷ [])
connection_loop fd (bytes (b ∷ bs) ∷ failed e ∷ rs) =
    exited 1 (read fd max_line ∷ write fd (map rot13_char (b ∷ bs)) ∷ [])
connection_loop fd (bytes (b ∷ bs) ∷ number n ∷ rs) =
    after (read fd max_line ∷ write fd (map rot13_char (b ∷ bs)) ∷ []) (connection_loop fd rs)
connection_loop fd (bytes (b ∷ bs) ∷ bytes x ∷ rs) =
    fault (read fd max_line ∷ write fd (map rot13_char (b ∷ bs)) ∷ [])

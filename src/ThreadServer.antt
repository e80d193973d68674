-- ===== src/ThreadServer.antt =====
-- The threads of chap-26/blocking_io_thread_server.c: main() hands the address of its variable
-- `conn_fd` to each new thread, which reads the descriptor there when it first runs.
pub mod Sharing
use geek_network_programming.Base.{ℕ, ◌≡◌, Option, none, some, List, [], ◌∷◌, ◌++◌, get_elem?, set}
use geek_network_programming.Sys.{Sys}
use geek_network_programming.Echo as Echo

-- `created`: behind pthread_create, before `*fd` is read. `serves`: in connection_loop.
pub data Thread : Type 0 where
  created : Thread
  serves : ℕ → Thread
  ended : ℕ → Thread

-- where main() is: at accept(), or about to create the thread of a connection
pub data Main : Type 0 where
  accepting creating : Main

-- The variable `conn_fd` is one place on the stack of main(), also after its block has ended; a
-- failed accept() leaves -1 there, `none`. `accepted` are the descriptors that accept() has returned.
pub record System : Type 0 where
  pub main : Main
  pub conn_fd : Option ℕ
  pub threads : List Thread
  pub accepted : List ℕ

unfoldable pub start : System
start = record { main = accepting; conn_fd = none; threads = []; accepted = [] }

pub data Step : System → System → Type 0 where
  fail : (s : System) → s.main ≡ accepting → Step s (record s { conn_fd = none })
  accept :
      (s : System) (fd : ℕ)
      → s.main ≡ accepting
      → Step s (record s { main = creating; conn_fd = some fd; accepted = s.accepted ++ fd ∷ [] })
  create :
      (s : System)
      → s.main ≡ creating
      → Step s (record s { main = accepting; threads = s.threads ++ created ∷ [] })
  -- the thread reads its argument
  read_argument :
      (s : System) (i fd : ℕ)
      → get_elem? s.threads i ≡ some created
      → s.conn_fd ≡ some fd
      → Step s (record s { threads = set s.threads i (serves fd) })
  -- connection_loop() has returned
  finish :
      (s : System) (i fd : ℕ)
      → get_elem? s.threads i ≡ some (serves fd)
      → Step s (record s { threads = set s.threads i (ended fd) })

pub data Reach (s : System) : System → Type 0 where
  here : Reach s s
  next : {t u : System} → Reach s t → Step t u → Reach s u

-- `rot13_char` and `connection_loop` of this file, which have the text of those of the pool server
abbrev pub rot13_char : ℕ → ℕ
rot13_char c = Echo.rot13_char c

abbrev pub connection_loop : ℕ → Sys Echo.Call (Unit {0})
connection_loop fd = Echo.connection_loop fd

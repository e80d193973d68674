-- ===== src/Sockets.antt =====
-- How the programs open their sockets: the calls that their `create_tcp_server` and
-- `connect_tcp_server`, or the first lines of their main functions, make in a row.
pub mod Servers
pub mod Clients
pub mod Opening
pub mod Untested
pub mod FirstClient
pub mod Hello
use geek_network_programming.Base.{ℕ, zero, suc, Bool, true, false, List, [], ◌∷◌, map}
use geek_network_programming.Sys.{
  ignored, Reply, number, bytes, failed, Outcome, done, exited, blocked, fault, Sys, pure, ◌>>=◌,
  call, exit,
}

pub data Family : Type 0 where
  inet local : Family

pub data Kind : Type 0 where
  stream dgram : Kind

pub data Call : Type 0 where
  socket : Family → Kind → Call
  reuse_address nonblocking : ℕ → Call
  bind : (fd port : ℕ) → Call
  listen : (fd backlog : ℕ) → Call
  connect : (fd port : ℕ) → Call
  accept : ℕ → Call
  -- with a path as the address
  unlink : Call
  bind_local connect_local : ℕ → Call

-- the test of a call in front of `error(1, …)`: `call < 0`, or `call` itself
pub data Test : Type 0 where
  negative nonzero : Test

-- the call's number, or the exit
abbrev pub checked : Test → Reply → Sys Call ℕ
checked negative (number n) = pure n
checked nonzero (number zero) = pure 0
checked nonzero (number (suc n)) = exit 1
checked test (failed e) = exit 1
checked test (bytes x) = λ rs. fault []

-- options of a new socket, whose calls are not tested
pub set_options : ℕ → List (ℕ → Call) → Sys Call (Unit {0})
set_options fd [] = pure tt
set_options fd (option ∷ os) = ignored (option fd) >>= λ _. set_options fd os

-- A listening socket: socket(), the options, bind() and listen(). `last` is the test of listen().
pub listening : List (ℕ → Call) → (last : Test) → (port backlog : ℕ) → Sys Call ℕ
unfolding set_options
listening options last port backlog = do
  fd ← call (socket inet stream) >>= checked negative
  _ ← set_options fd options
  _ ← call (bind fd port) >>= checked negative
  _ ← call (listen fd backlog) >>= checked last
  pure fd

-- A connected socket: socket() and connect().
pub connecting : Kind → (port : ℕ) → Sys Call ℕ
connecting kind port = do
  fd ← call (socket inet kind) >>= checked negative
  _ ← call (connect fd port) >>= checked negative
  pure fd

-- ===== src/Pool.antt =====
-- The threads of chap-26/blocking_io_threadpool_server.c: the accept loop of main and `thread_run`.
pub mod Service
pub mod System
pub mod Roles
pub mod Holding
pub mod Ownership
use geek_network_programming.Base.{ℕ, Option, none, some, List, [], ◌∷◌, replicate}
use geek_network_programming.Sys.{
  Reply, number, bytes, failed, Outcome, done, exited, blocked, fault, after, Sys, pure, ◌>>◌,
}
use geek_network_programming.Echo
use geek_network_programming.Echo.{connection_loop}

abbrev pub default_threads : ℕ
default_threads = 10

-- what main() does: create a thread, accept a connection, push a descriptor into the queue
pub data Call : Type 0 where
  create accept : Call
  push : ℕ → Call

-- `argc > 1 ? atoi(argv[1]) : THREAD_NUM`
abbrev pub thread_num : Option ℕ → ℕ
thread_num none = default_threads
thread_num (some n) = n

-- The loop of main: a failed accept() is reported and tried again.
pub accept_loop : Sys Call (Unit {0})
accept_loop [] = blocked (accept ∷ [])
accept_loop (failed e ∷ rs) = after (accept ∷ []) (accept_loop rs)
accept_loop (number fd ∷ rs) = after (accept ∷ push fd ∷ []) (accept_loop rs)
accept_loop (bytes x ∷ rs) = fault (accept ∷ [])

-- `main`, its argument given and the creation of threads successful
pub main : Option ℕ → Sys Call (Unit {0})
unfolding accept_loop
main n rs = after (replicate (thread_num n) create) (accept_loop rs)

-- `thread_run` while it pops these descriptors; then it waits for the queue.
pub thread_run : List ℕ → Sys geek_network_programming.Echo.Call (Unit {0})
thread_run [] = pure tt
thread_run (fd ∷ fds) = connection_loop fd >> thread_run fds

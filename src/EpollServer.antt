-- ===== src/EpollServer.antt =====
-- The epoll server of chap-23/epoll_server.c.
pub mod Accepting
pub mod Echoing
use geek_network_programming.Base.{
  ℕ, zero, suc, ◌+◌, ◌-◌, Bool, true, false, not, ◌&&◌, ◌||◌, Option, none, some, List, [], ◌∷◌,
  ◌++◌, ◌==◌, if◌then◌else◌, ℤ, pos, minus_one, map,
}
use geek_network_programming.Sys.{
  either, ignored, Reply, number, bytes, failed, Outcome, done, exited, blocked, fault, after, Sys,
  pure, ◌>>=◌, ◌>>◌, call, exit, is_failed,
}
use geek_network_programming.Echo.{between}

abbrev pub max_line : ℕ
max_line = 4096

-- The `int` descriptors that accept() may give are integers: the code uses a -1 like any other.
pub data Call : Type 0 where
  epoll_create : Call
  -- `EPOLL_CTL_ADD` with EPOLLIN, edge-triggered or not, and `EPOLL_CTL_DEL`
  ctl_add : (edge : Bool) → ℤ → Call
  ctl_del : ℕ → Call
  accept : ℕ → Call
  set_nonblock : ℤ → Call
  read : (fd count : ℕ) → Call
  write : ℕ → List ℕ → Call
  close : ℕ → Call

-- `struct epoll_event` as epoll_wait() fills it: the descriptor, and EPOLLERR, EPOLLHUP and EPOLLIN
pub record Event : Type 0 where
  pub fd : ℕ
  pub err : Bool
  pub hup : Bool
  pub input : Bool

-- `rot13_char` on a byte
unfoldable pub rot13_char : ℕ → ℕ
rot13_char c =
    if between b'a' b'm' c || between b'A' b'M' c
    then c + 13
    else if between b'n' b'z' c || between b'N' b'Z' c
    then c - 13
    else c

-- the listener is ready: one accept(), and whatever it gives is made non-blocking and watched
unfoldable pub welcome : ℕ → Reply → Sys Call (Unit {0})
welcome listen (number n) = ignored (set_nonblock (pos n)) >> ignored (ctl_add false (pos n))
welcome listen (failed e) = ignored (set_nonblock minus_one) >> ignored (ctl_add false minus_one)
welcome listen (bytes x) = λ rs. fault []

-- behind the read() of a client, by its reply
unfoldable pub answer : ℕ → Reply → Sys Call (Unit {0})
unfolding rot13_char
answer fd (number n) = λ rs. fault []
answer fd (failed e) = pure tt
answer fd (bytes []) = ignored (close fd) >> ignored (ctl_del fd)
answer fd (bytes (b ∷ bs)) = ignored (write fd (map rot13_char (b ∷ bs)))

-- one round of the `for` over the events
unfoldable pub on_event : (listen : ℕ) → Event → Sys Call (Unit {0})
on_event listen ev = either (ev.err || ev.hup || not ev.input) (ignored (close ev.fd)) (
    either (listen == ev.fd) (call (accept listen) >>= welcome listen)
      (call (read ev.fd max_line) >>= answer ev.fd))

unfoldable pub on_events : (listen : ℕ) → List Event → Sys Call (Unit {0})
on_events listen [] = pure tt
on_events listen (ev ∷ evs) = on_event listen ev >> on_events listen evs

-- The `while (1)`, as long as epoll_wait() returns: with its events, or with -1, after which the `for`
-- has no round.
unfoldable pub serve : (listen : ℕ) → List (Option (List Event)) → Sys Call (Unit {0})
serve listen [] = pure tt
serve listen (none ∷ ws) = serve listen ws
serve listen (some evs ∷ ws) = on_events listen evs >> serve listen ws

-- `main` behind the creation of the listener; it returns when epoll_wait() does not any more
unfoldable pub main : (listen : ℕ) → List (Option (List Event)) → Sys Call (Unit {0})
main listen ws = do
  epoll ← call epoll_create
  either (is_failed epoll) (exit 1) (do
    added ← call (ctl_add true (pos listen))
    either (is_failed added) (exit 1) (serve listen ws))

-- ===== src/PollServer.antt =====
-- The main loop of chap-21/poll_server.c: an array of descriptors, the first of them the listener.
pub mod Clients
use geek_network_programming.Base.{
  ℕ, ◌-◌, Bool, true, false, ◌||◌, List, [], ◌∷◌, ◌++◌, ◌==◌, leb, not, if◌then◌else◌, ℤ, pos,
  negsuc, minus_one, is_neg, bit_and, bit_or,
}
use geek_network_programming.Sys.{
  either, Reply, number, bytes, failed, Outcome, done, exited, blocked, fault, after, Sys, pure,
  ◌>>=◌, call, exit,
}
use geek_network_programming.Poll.{Pollfd}

abbrev pub max_line : ℕ
max_line = 4096

-- Linux's value
abbrev pub econnreset : ℕ
econnreset = 104

pub data Call : Type 0 where
  accept : Call
  read : ℤ → (count : ℕ) → Call
  write : ℤ → List ℕ → Call
  close : ℤ → Call

-- the loop that marks the slots behind the listener's as unused
pub init_slots : List Pollfd → List Pollfd
init_slots [] = []
init_slots (s ∷ raw) = record s { fd = minus_one } ∷ init_slots raw

-- what accept() returned, as the code stores it
abbrev pub descriptor : Reply → ℤ
descriptor (number n) = pos n
descriptor _ = minus_one

module _ (pollrdnorm pollerr : ℕ) where
  -- the loop that stores a new connection, over the slots behind the listener's
  pub enter : ℤ → List Pollfd → List Pollfd
  enter conn_fd [] = []
  enter conn_fd (s ∷ fds) =
      if is_neg s.fd
      then record s { fd = conn_fd; events = pollrdnorm } ∷ fds
      else s ∷ enter conn_fd fds

  abbrev pub skips : Pollfd → Bool
  skips s = is_neg s.fd || (bit_and s.revents (bit_or pollrdnorm pollerr) == 0)

  -- close(), and the slot that becomes unused
  abbrev pub drop_client : Pollfd → Sys Call Pollfd
  drop_client s = call (close s.fd) >>= λ r. pure (record s { fd = minus_one })

  -- the answer of the `write`
  abbrev pub wrote : Pollfd → Reply → Sys Call Pollfd
  wrote s (failed e) = exit 1
  wrote s (number n) = pure s
  wrote s (bytes x) = λ rs. fault []

  -- the answer of the `read` for a ready client
  pub answered : Pollfd → Reply → Sys Call Pollfd
  answered s (bytes []) = drop_client s
  answered s (bytes (b ∷ bs)) = call (write s.fd (b ∷ bs)) >>= wrote s
  answered s (failed e) = either (e == econnreset) (drop_client s) (exit 1)
  answered s (number n) = λ rs. fault []

  -- the loop over the clients, with `ready` descriptors to come
  pub serve : ℕ → List Pollfd → Sys Call (List Pollfd)
  unfolding answered
  serve ready [] = pure []
  serve ready (s ∷ fds) = either (skips s) (serve ready fds >>= λ rest. pure (s ∷ rest)) (
      call (read s.fd max_line) >>= answered s >>= λ s'.
      either (leb ready 1) (pure (s' ∷ fds)) (serve (ready - 1) fds >>= λ rest. pure (s' ∷ rest)))

  -- One round, poll() having returned `ready`, which is at least 0, and set `revents`, those of the listener `heard`. The
  -- test of `fd_idx` is left out: the variable stays 0.
  pub round : (ready heard : ℕ) → List Pollfd → Sys Call (List Pollfd)
  unfolding serve enter
  round ready heard fds = either (bit_and heard pollrdnorm == 0) (serve ready fds) (
      call accept >>= λ r.
      let fds' = enter (descriptor r) fds in
      either (leb ready 1) (pure fds') (serve (ready - 1) fds'))

-- ===== src/Triggers.antt =====
-- The loops of chap-23/poll_trigger.c and chap-23/select_trigger.c, which wait for a socket and for the
-- keyboard, print what is ready, and read a line from the keyboard.
pub mod Watching
use geek_network_programming.Base.{
  ℕ, Bool, true, false, ◌&&◌, Option, none, some, List, [], ◌∷◌, ◌++◌, ◌==◌, if◌then◌else◌, not,
  bit_and, bit_or,
}
use geek_network_programming.Sys.{Outcome, exited, blocked, after}
use geek_network_programming.EventLoop.{has_bit}

-- `wait` is poll() or select(), `show` the report that the socket can be read.
pub data Call : Type 0 where
  wait : Call
  show : Call
  sleep : ℕ → Call
  fgets : Call

-- The values of POLLRDNORM, POLLERR and POLLIN are the system's.
module _ (pollrdnorm pollerr pollin : ℕ) where
  -- a round of poll_trigger.c, by the `revents` of the socket and of the keyboard
  abbrev pub poll_round : ℕ × ℕ → List Call
  poll_round (socket, keyboard) =
      (if has_bit socket (bit_or pollrdnorm pollerr) then show ∷ sleep 1 ∷ [] else [])
      ++ (if has_bit keyboard pollin then fgets ∷ [] else [])

  -- The loop of poll_trigger.c, by what poll() gives in each round (`none` if it fails). What fgets()
  -- returns is printed if it is a line.
  unfoldable pub poll_trigger : List (Option (ℕ × ℕ)) → Outcome Call (Unit {0})
  poll_trigger [] = blocked (wait ∷ [])
  poll_trigger (none ∷ rs) = exited 1 (wait ∷ [])
  poll_trigger (some r ∷ rs) = after (wait ∷ poll_round r) (poll_trigger rs)

-- the two descriptors in a set
pub record FdSet : Type 0 where
  pub socket : Bool
  pub keyboard : Bool

-- select() leaves in the set those that are ready.
abbrev pub selected : FdSet → FdSet → FdSet
selected watched ready = record {
  socket = watched.socket && ready.socket;
  keyboard = watched.keyboard && ready.keyboard;
}

-- The loop of select_trigger.c from `read_fds`, by what is ready in each round. The set is handed to
-- select() itself, and its copy from before is tested for the keyboard.
unfoldable pub select_trigger : FdSet → List (Option FdSet) → Outcome Call (Unit {0})
select_trigger read_fds [] = blocked (wait ∷ [])
select_trigger read_fds (none ∷ rs) = exited 1 (wait ∷ [])
select_trigger read_fds (some ready ∷ rs) =
    let left = selected read_fds ready in
    after
      (wait ∷ (if left.socket then show ∷ [] else [])
        ++ (if read_fds.keyboard then fgets ∷ [] else []))
      (select_trigger left rs)

-- the set before the loop
abbrev pub both : FdSet
both = record { socket = true; keyboard = true }

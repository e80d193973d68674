-- ===== src/Poll.antt =====
-- The poll dispatcher of lib/poll_dispatcher.c: an array of 1024 slots, unused at a negative fd.
pub mod Slots
pub mod Dispatch
use geek_network_programming.Base.{
  ℕ, zero, suc, ◌+◌, ◌-◌, Bool, true, false, not, ◌&&◌, ◌||◌, Option, none, some, List, [], ◌∷◌,
  ◌++◌, ◌==◌, ltb, leb, if◌then◌else◌, ℤ, pos, negsuc, is_neg, eq_ℤ, minus_one, bit_and, bit_or,
  map,
}
use geek_network_programming.Base.Result.{Result, ok, fault, ◌>>=◌}
use geek_network_programming.EventLoop.{
  Channel, EventLoop, Callback, event_read, event_write, has_bit, channel_event_activate,
}

abbrev pub poll_initial_size : ℕ
poll_initial_size = 1024

-- `struct pollfd`; `events` and `revents` are the bits of a short.
pub record Pollfd : Type 0 where
  pub fd : ℤ
  pub events : ℕ
  pub revents : ℕ

-- -1 as the bits of a short
abbrev pub short_minus_one : ℕ
short_minus_one = 0xffff

-- `poll_init` on what malloc returned: the loop marks every slot as unused.
unfoldable pub poll_init : List Pollfd → List Pollfd
poll_init [] = []
poll_init (s ∷ raw) = record s { fd = minus_one } ∷ poll_init raw

-- the loop of `poll_add`: the first unused slot takes the channel; false if there is none
pub add_loop : ℤ → ℕ → List Pollfd → List Pollfd × Bool
add_loop fd events [] = ([], false)
add_loop fd events (s ∷ fds) =
    let (rest, done) = add_loop fd events fds in
    if is_neg s.fd then (record s { fd = fd; events = events } ∷ fds, true) else (s ∷ rest, done)

-- the loop of `poll_del` and of `poll_update`: the first slot with the descriptor
pub mark_loop : ℤ → ℕ → List Pollfd → List Pollfd × Bool
mark_loop fd events [] = ([], false)
mark_loop fd events (s ∷ fds) =
    let (rest, done) = mark_loop fd events fds in
    if eq_ℤ s.fd fd then (record s { events = events } ∷ fds, true) else (s ∷ rest, done)

-- `c->events && BIT`, which is not the test of a bit
abbrev pub and_also : ℕ → ℕ → Bool
and_also x y = not (x == 0) && not (y == 0)

-- The values of POLLRDNORM and POLLWRNORM are the system's.
module _ (pollrdnorm pollwrnorm : ℕ) where
  -- the events that `poll_add` and `poll_update` ask for, from those that the variable has at first
  pub wanted : ℕ → Channel → ℕ
  wanted events c =
      let r = if and_also c.events event_read then bit_or events pollrdnorm else events in
      if and_also c.events event_write then bit_or r pollwrnorm else r

  -- `poll_add`: the array, and whether the channel got a slot; the call returns 0 either way.
  pub poll_add : List Pollfd → Channel → List Pollfd × Bool
  unfolding wanted add_loop
  poll_add fds c = add_loop c.fd (wanted 0 c) fds

  -- `poll_update`; `junk` is what the uninitialised `events` holds.
  pub poll_update : ℕ → List Pollfd → Channel → List Pollfd × Bool
  unfolding wanted mark_loop
  poll_update junk fds c = mark_loop c.fd (wanted junk c) fds

  -- the event bits for a slot's `revents`
  unfoldable pub event_bits : ℕ → ℕ
  event_bits revents =
      let r = if has_bit revents pollrdnorm then event_read else 0 in
      if has_bit revents pollwrnorm then bit_or r event_write else r

  -- `fds[i].fd < 0 || fds[i].revents <= 0`, on the bits of a signed short
  abbrev pub skips : Pollfd → Bool
  skips s = is_neg s.fd || (s.revents == 0 || leb 0x8000 s.revents)

  -- `if (events > 0) channel_event_activate(…)`
  unfoldable pub activate : EventLoop → Pollfd → Result (List Callback)
  unfolding event_bits
  activate loop s =
      if ltb 0 (event_bits s.revents)
      then (do (_, calls) ← channel_event_activate loop s.fd (event_bits s.revents); ok calls)
      else ok []

  -- the loop of `poll_dispatch`, with `ready` descriptors to come
  pub dispatch_loop : EventLoop → List Pollfd → ℕ → Result (List Callback)
  dispatch_loop loop [] ready = ok []
  dispatch_loop loop (s ∷ fds) ready = if skips s then dispatch_loop loop fds ready else do
    calls ← activate loop s
    if leb ready 1
        then ok calls
        else (do rest ← dispatch_loop loop fds (ready - 1); ok (calls ++ rest))

  -- `poll_dispatch` after poll() has returned `ready` and filled in `revents`; `none` is the exit by
  -- `error`.
  pub poll_dispatch : EventLoop → ℤ → List Pollfd → Result (Option (List Callback))
  unfolding dispatch_loop
  poll_dispatch loop (negsuc n) fds = ok none
  poll_dispatch loop (pos zero) fds = ok (some [])
  poll_dispatch loop (pos (suc n)) fds = do calls ← dispatch_loop loop fds (suc n); ok (some calls)

-- `poll_del`: only the events of the slot change.
pub poll_del : List Pollfd → Channel → List Pollfd × Bool
unfolding mark_loop
poll_del fds c = mark_loop c.fd short_minus_one fds

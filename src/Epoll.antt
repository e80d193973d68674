-- ===== src/Epoll.antt =====
-- The epoll dispatcher of lib/epoll_dispatcher.c.
pub mod Dispatch
use geek_network_programming.Base.{
  ℕ, Bool, true, false, not, Option, none, some, List, [], ◌∷◌, ◌++◌, ◌==◌, ltb, if◌then◌else◌, ℤ,
  pos, negsuc, is_neg, bit_and, bit_or,
}
use geek_network_programming.Base.Result.{Result, ok, fault, ◌>>=◌}
use geek_network_programming.EventLoop.{
  Channel, EventLoop, Callback, event_read, event_write, has_bit, channel_event_activate,
}

-- `struct epoll_event`, with `data.fd`
pub record EpollEvent : Type 0 where
  pub events : ℕ
  pub fd : ℤ

-- `op` of epoll_ctl()
pub data Op : Type 0 where
  ctl_add ctl_del ctl_mod : Op

-- a call of epoll_ctl(): the operation, the descriptor and the event
pub record Control : Type 0 where
  pub op : Op
  pub fd : ℤ
  pub event : EpollEvent

-- what the dispatch does for an event: close the descriptor, or call back
pub data Action : Type 0 where
  close : ℤ → Action
  call : Callback → Action

abbrev pub calls : List Callback → List Action
calls [] = []
calls (c ∷ cs) = call c ∷ calls cs

-- The values of EPOLLIN, EPOLLOUT, EPOLLERR and EPOLLHUP are the system's.
module _ (epollin epollout epollerr epollhup : ℕ) where
  -- `epoll_ctrl`: the call that it makes; `junk` is what the uninitialised `event.events` holds. The
  -- result is 0, or the process exits where epoll_ctl() fails.
  pub epoll_ctrl : ℕ → Channel → Op → Control
  epoll_ctrl junk c op =
      let r = if has_bit c.events event_read then bit_or junk epollin else junk in
      let w = if has_bit c.events event_write then bit_or r epollout else r in
      record { op = op; fd = c.fd; event = record { events = w; fd = c.fd } }

  -- `epoll_add`, `epoll_del` and `epoll_update`
  pub epoll_add : ℕ → Channel → Control
  epoll_add junk c = epoll_ctrl junk c ctl_add

  pub epoll_del : ℕ → Channel → Control
  epoll_del junk c = epoll_ctrl junk c ctl_del

  pub epoll_update : ℕ → Channel → Control
  epoll_update junk c = epoll_ctrl junk c ctl_mod

  -- `(events | EPOLLERR) | (events | EPOLLHUP)` as a condition
  abbrev pub broken : ℕ → Bool
  broken events = not (bit_or (bit_or events epollerr) (bit_or events epollhup) == 0)

  pub event_bits : ℕ → ℕ
  event_bits events =
      let r = if has_bit events epollin then event_read else 0 in
      if has_bit events epollout then bit_or r event_write else r

  -- one round of the loop of `epoll_dispatch`
  pub handle : EventLoop → EpollEvent → Result (List Action)
  unfolding event_bits
  handle loop e =
      if broken e.events
      then ok (close e.fd ∷ [])
      else if ltb 0 (event_bits e.events)
      then (do (_, done) ← channel_event_activate loop e.fd (event_bits e.events); ok (calls done))
      else ok []

  -- `epoll_dispatch` on the events that epoll_wait() returned; a failure of epoll_wait() is no event.
  unfoldable pub epoll_dispatch : EventLoop → List EpollEvent → Result (List Action)
  unfolding handle
  epoll_dispatch loop [] = ok []
  epoll_dispatch loop (e ∷ es) = do
    first ← handle loop e
    rest ← epoll_dispatch loop es
    ok (first ++ rest)

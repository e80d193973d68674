-- ===== src/Epoll/Dispatch.antt =====
-- What the epoll dispatcher does with the events that it gets.
use geek_network_programming.Base.{
  ℕ, ◌<◌, ◌≡◌, refl, List, [], ◌∷◌, arith, map, bit_or, bit_or-ge, bit_or-ge_left, true,
}
use geek_network_programming.Base.Result.{ok}
use geek_network_programming.EventLoop.{EventLoop}
use geek_network_programming.Epoll.{EpollEvent, close, broken, handle, epoll_dispatch}

module _ (epollin epollout epollerr epollhup : ℕ) (set_ : 0 < epollerr) where
  always_broken : (events : ℕ) → broken epollin epollout epollerr epollhup events ≡ true
  always_broken events = ground (
    arith,
    bit_or-ge events epollerr,
    bit_or-ge_left (bit_or events epollerr) (bit_or events epollhup),
  )

  -- The test for an error joins its bits to the events where it means to pick them, so it holds of
  -- every event. Whatever epoll_wait() returns, and if EPOLLERR is not 0, the dispatch closes the
  -- descriptor of each event, in order, and calls no callback.
  pub epoll_dispatch-closes :
      (loop : EventLoop) (es : List EpollEvent)
      → epoll_dispatch epollin epollout epollerr epollhup loop es ≡ ok (map (λ e. close e.fd) es)
  unfolding epoll_dispatch handle
  epoll_dispatch-closes loop [] = refl
  epoll_dispatch-closes loop (e ∷ es) = rw (always_broken e.events, epoll_dispatch-closes loop es)

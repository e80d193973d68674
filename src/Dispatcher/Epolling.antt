-- ===== src/Dispatcher/Epolling.antt =====
-- lib/epoll_dispatcher.c as a dispatcher.
use geek_network_programming.Base.{
  ℕ, Bool, ◌||◌, ◌<◌, ◌≡◌, refl, Bool-cases, inl, inr, Option, some, List, [], ◌∷◌, if◌then◌else◌,
  ℤ, pos, negsuc, arith, ◌++◌, ap,
}
use geek_network_programming.Base.Result.{Result, ok, ◌>>=◌}
use geek_network_programming.EventLoop.{has_bit, Channel, EventLoop, Callback}
use geek_network_programming.Epoll.{
  EpollEvent, Control, Action, close, calls, epoll_add, epoll_del, epoll_update, epoll_dispatch,
}
use geek_network_programming.Epoll.Dispatch.{epoll_dispatch-closes}
use geek_network_programming.Dispatcher.{
  EventDispatcher, Event, AllRegistered, all_callbacks, IsFaithful,
}

module _ (epollin epollout epollerr epollhup junk : ℕ) where
  -- `epoll_dispatcher`. The data are the calls of epoll_ctl() made so far, and a report is what
  -- epoll_wait() returned.
  abbrev pub epoll_dispatcher : EventDispatcher
  epoll_dispatcher = record {
    Data = List Control;
    Report = List EpollEvent;
    add = λ cs c. cs ++ epoll_add epollin epollout epollerr epollhup junk c ∷ [];
    del = λ cs c. cs ++ epoll_del epollin epollout epollerr epollhup junk c ∷ [];
    update = λ cs c. cs ++ epoll_update epollin epollout epollerr epollhup junk c ∷ [];
    dispatch = λ loop es cs.
        epoll_dispatch epollin epollout epollerr epollhup loop es >>= λ acts. ok (some acts);
  }

  event_of : ℤ → Bool → Bool → List Event → List Event
  event_of (negsuc n) r w es = es
  event_of (pos fd) r w es =
      if r || w then record { fd = fd; readable = r; writable = w } ∷ es else es

  -- what epoll_wait() found
  pub events_of : List EpollEvent → List Event
  unfolding event_of
  events_of [] = []
  events_of (e ∷ es) =
      event_of e.fd (has_bit e.events epollin) (has_bit e.events epollout) (events_of es)

  pub found : List Control → List EpollEvent → Option (List Event)
  found cs es = some (events_of es)

  acts : Result (Option (List Action)) → List Action
  acts (ok (some as_)) = as_
  acts r = []

  calls-not_close : (fd : ℤ) (cs : List Callback) → close fd ∷ [] ≡ calls cs → ⊥
  calls-not_close fd [] e = cc
  calls-not_close fd (c ∷ cs) e = cc

  some_channel : Channel
  some_channel = record { fd = pos 0; events = 0; user = 0; read = 0; write = 0 }

  some_loop : EventLoop
  unfolding some_channel
  some_loop = record {
    channel_map = record { entries = 1 ∷ []; available_num = 1 };
    channels = λ p. some some_channel;
  }

  all_registered :
      (r w : Bool) → AllRegistered some_loop (λ fd. some_channel) (event_of (pos 0) r w [])
  unfolding event_of some_loop some_channel
  all_registered r w = elim (Bool-cases (r || w)) [
    | inl e ↦ rw e (record { address = 1; entry = refl; channel = refl; own = refl }, tt)
    | inr e ↦ rw e tt
  ]

  -- The epoll dispatcher does not do what an event loop expects of a dispatcher, if EPOLLERR is
  -- not 0.
  pub epoll_dispatcher-unfaithful : 0 < epollerr → ¬ IsFaithful epoll_dispatcher found
  unfolding found events_of some_loop some_channel acts
  epoll_dispatcher-unfaithful set_ faithful =
      let e : EpollEvent = record { events = 0; fd = pos 0 } in
      let r = has_bit 0 epollin in
      let w = has_bit 0 epollout in
      let wanted =
        faithful some_loop (λ fd. some_channel) [] (e ∷ [])
          (record { counted = refl; fits = omega arith }) (all_registered r w) in
      let closed =
        epoll_dispatch-closes epollin epollout epollerr epollhup set_ some_loop (e ∷ []) in
      calls-not_close (pos 0) (all_callbacks (λ fd. some_channel) (event_of (pos 0) r w []))
        (ap acts (rw closed at wanted))

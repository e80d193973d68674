-- ===== src/Dispatcher/Polling.antt =====
-- lib/poll_dispatcher.c as a dispatcher.
use geek_network_programming.Base.{
  ℕ, Bool, ◌||◌, ◌≡◌, refl, Bool-cases, inl, inr, Option, none, some, List, [], ◌∷◌, ◌++◌, ltb,
  if◌then◌else◌, ℤ, pos, negsuc, take,
}
use geek_network_programming.Base.Result.{Result, ok, ◌>>=◌}
use geek_network_programming.ChannelMap.Growth.{IsValid}
use geek_network_programming.EventLoop.{
  Channel, EventLoop, Callback, callbacks, has_bit, channel_event_activate,
}
use geek_network_programming.EventLoop.Activation.{activate-callbacks}
use geek_network_programming.Poll.{
  Pollfd, poll_add, poll_del, poll_update, poll_dispatch, activate, event_bits,
}
use geek_network_programming.Poll.Dispatch.{reported, activate_all, poll_dispatch-reported}
use geek_network_programming.Epoll.{Action, calls}
use geek_network_programming.Dispatcher.{
  EventDispatcher, Event, AllRegistered, called, all_callbacks, IsFaithful,
}

-- poll() writes the `revents` of the slots.
abbrev pub filled : List ℕ → List Pollfd → List Pollfd
filled [] fds = fds
filled (r ∷ rs) [] = []
filled (r ∷ rs) (s ∷ fds) = record s { revents = r } ∷ filled rs fds

abbrev pub as_actions : Result (Option (List Callback)) → Result (Option (List Action))
as_actions r = r >>= λ o. ok (elim o [ none ↦ none | some cs ↦ some (calls cs) ])

module _ (pollrdnorm pollwrnorm junk : ℕ) where
  -- `poll_dispatcher`. A report is what poll() returned, and the `revents`.
  abbrev pub poll_dispatcher : EventDispatcher
  poll_dispatcher = record {
    Data = List Pollfd;
    Report = ℤ × List ℕ;
    add = λ fds c. (poll_add pollrdnorm pollwrnorm fds c).0;
    del = λ fds c. (poll_del fds c).0;
    update = λ fds c. (poll_update pollrdnorm pollwrnorm junk fds c).0;
    dispatch = λ loop report fds.
        as_actions (poll_dispatch pollrdnorm pollwrnorm loop report.0 (filled report.1 fds));
  }

  -- the slot's event in front of some others, if there is one
  unfoldable pub event_of : ℤ → Bool → Bool → List Event → List Event
  event_of (negsuc n) r w es = es
  event_of (pos fd) r w es =
      if r || w then record { fd = fd; readable = r; writable = w } ∷ es else es

  unfoldable pub events_of : List Pollfd → List Event
  unfolding event_of
  events_of [] = []
  events_of (s ∷ fds) =
      event_of s.fd (has_bit s.revents pollrdnorm) (has_bit s.revents pollwrnorm) (events_of fds)

  -- the code's bits for a slot's `revents` against the two tests that they stand for
  event_bits-some :
      (revents : ℕ)
      → ltb 0 (event_bits pollrdnorm pollwrnorm revents)
        ≡ (has_bit revents pollrdnorm || has_bit revents pollwrnorm)
  unfolding event_bits
  event_bits-some revents = elim (Bool-cases (has_bit revents pollrdnorm)) [
    | inl r ↦ elim (Bool-cases (has_bit revents pollwrnorm)) [
      | inl w ↦ rw (r, w) refl
      | inr w ↦ rw (r, w) refl
    ]
    | inr r ↦ elim (Bool-cases (has_bit revents pollwrnorm)) [
      | inl w ↦ rw (r, w) refl
      | inr w ↦ rw (r, w) refl
    ]
  ]

  callbacks-called :
      (c : Channel) (revents : ℕ)
      → callbacks c (event_bits pollrdnorm pollwrnorm revents)
        ≡ called c (has_bit revents pollrdnorm) (has_bit revents pollwrnorm)
  unfolding event_bits
  callbacks-called c revents = elim (Bool-cases (has_bit revents pollrdnorm)) [
    | inl r ↦ elim (Bool-cases (has_bit revents pollwrnorm)) [
      | inl w ↦ rw (r, w) refl
      | inr w ↦ rw (r, w) refl
    ]
    | inr r ↦ elim (Bool-cases (has_bit revents pollwrnorm)) [
      | inl w ↦ rw (r, w) refl
      | inr w ↦ rw (r, w) refl
    ]
  ]

  activate-event :
      (loop : EventLoop) (chan : ℕ → Channel) (fd : ℤ) (s : Pollfd) (es : List Event)
      → s.fd ≡ fd
      → IsValid loop.channel_map
      → AllRegistered loop chan
          (event_of fd (has_bit s.revents pollrdnorm) (has_bit s.revents pollwrnorm) es)
      → (cs : List Callback) × (activate pollrdnorm pollwrnorm loop s ≡ ok cs)
        × AllRegistered loop chan es
        × (cs ++ all_callbacks chan es
            ≡ all_callbacks chan
                (event_of fd (has_bit s.revents pollrdnorm) (has_bit s.revents pollwrnorm) es))
  unfolding activate event_of channel_event_activate
  activate-event loop chan (negsuc n) s es e v a =
      elim (Bool-cases (ltb 0 (event_bits pollrdnorm pollwrnorm s.revents))) [
        | inl some_ ↦ ([], rw (some_, e) refl, a, refl)
        | inr none_ ↦ ([], rw none_ refl, a, refl)
      ]
  activate-event loop chan (pos fd) s es e v a =
      let bits = event_bits pollrdnorm pollwrnorm s.revents in
      let r = has_bit s.revents pollrdnorm in
      let w = has_bit s.revents pollwrnorm in
      let same = event_bits-some s.revents in
      elim (Bool-cases (r || w)) [
        | inl some_ ↦
            let (reg, rest) : AllRegistered loop chan
                (record { fd = fd; readable = r; writable = w } ∷ es) =
              rw some_ at a in
            (
              callbacks (chan fd) bits,
              rw (same, some_, e, activate-callbacks loop fd (chan fd) bits v reg) refl,
              rest,
              rw (some_, callbacks-called (chan fd) s.revents) refl,
            )
        | inr none_ ↦ ([], rw (same, none_) refl, rw none_ at a, rw none_ refl)
      ]

  activate_all-callbacks :
      (loop : EventLoop) (chan : ℕ → Channel) (fds : List Pollfd)
      → IsValid loop.channel_map
      → AllRegistered loop chan (events_of fds)
      → activate_all pollrdnorm pollwrnorm loop fds ≡ ok (all_callbacks chan (events_of fds))
  unfolding activate_all events_of
  activate_all-callbacks loop chan [] v a = refl
  activate_all-callbacks loop chan (s ∷ fds) v a =
      let (cs, run, rest, same) = activate-event loop chan s.fd s (events_of fds) refl v a in
      rw (run, activate_all-callbacks loop chan fds v rest, same) refl

  -- what poll() found: the events of the slots that it counted, unless it failed
  unfoldable pub found : List Pollfd → ℤ × List ℕ → Option (List Event)
  found fds (negsuc n, rs) = none
  found fds (pos n, rs) = some (events_of (take n (reported pollrdnorm pollwrnorm (filled rs fds))))

  -- The poll dispatcher does what an event loop expects of a dispatcher: on a valid map in which
  -- each descriptor with an event has its channel, it calls, in the order of the slots and as
  -- often as poll() counted, the read callback of the channel if the socket is readable and the
  -- write callback if it is writable, each on the channel's data, and does nothing else; if poll()
  -- fails it exits.
  pub poll_dispatcher-IsFaithful : IsFaithful poll_dispatcher found
  unfolding found
  poll_dispatcher-IsFaithful loop chan fds (negsuc n, rs) v a =
      rw (poll_dispatch-reported pollrdnorm pollwrnorm loop (negsuc n) (filled rs fds)) refl
  poll_dispatcher-IsFaithful loop chan fds (pos n, rs) v a =
      let slots = take n (reported pollrdnorm pollwrnorm (filled rs fds)) in
      rw
        (
          poll_dispatch-reported pollrdnorm pollwrnorm loop (pos n) (filled rs fds),
          activate_all-callbacks loop chan slots v a,
        )
        refl

-- ===== src/Tests/Channels.antt =====
-- A map of two entries, of which the second is a channel, and dispatchers over it.
use geek_network_programming.Base.{
  ◌+◌, ◌≡◌, refl, ◌⊎◌, true, false, none, some, List, [], ◌∷◌, take, ◌==◌, if◌then◌else◌, pos,
  minus_one, arith, length,
}
use geek_network_programming.Base.Result.{ok, fault, ◌>>=◌}
use geek_network_programming.ChannelMap.{ChannelMap, init, clear}
use geek_network_programming.ChannelMap.Growth.{IsValid, channels_of, clear-init}
use geek_network_programming.EventLoop.{Channel, EventLoop, callbacks, channel_event_activate}
use geek_network_programming.EventLoop.Activation.{activate-callbacks, activate-behind}
use geek_network_programming.Poll.{Pollfd, poll_add, poll_dispatch}
use geek_network_programming.Poll.Slots.{
  unused, unused-poll_add, Request, add, del, run, run-unused,
}
use geek_network_programming.Poll.Dispatch.{reported, activate_all, poll_dispatch-reported}
use geek_network_programming.Epoll.{EpollEvent, close, epoll_dispatch}
use geek_network_programming.Epoll.Dispatch.{epoll_dispatch-closes}

abbrev two : ChannelMap
two = record { entries = 0 ∷ 50 ∷ []; available_num = 2 }

two-IsValid : IsValid two
two-IsValid = record { counted = refl; fits = omega arith }

clear_example : clear two ≡ ok (channels_of (0 ∷ 50 ∷ []), init)
clear_example = clear-init two two-IsValid

-- it waits to read and to write
abbrev channel : Channel
channel = record { fd = pos 1; events = 3; user = 60; read = 70; write = 80 }

abbrev loop : EventLoop
loop = record { channel_map = two; channels = λ p. if p == 50 then some channel else none }

activate_example : channel_event_activate loop (pos 1) 3 ≡ ok (pos 0, callbacks channel 3)
activate_example =
    activate-callbacks loop 1 channel 3 two-IsValid
      (record { address = 50; entry = refl; channel = refl; own = refl })

behind_example : channel_event_activate loop (pos 2) 1 ≡ fault
behind_example = activate-behind loop 1 two-IsValid

-- an unused slot, one without an event, and two with one; 64 and 256 are Linux's POLLRDNORM and
-- POLLWRNORM
abbrev slots : List Pollfd
slots =
    record { fd = minus_one; events = 0; revents = 0 }
    ∷ record { fd = pos 3; events = 64; revents = 0 }
    ∷ record { fd = pos 1; events = 64; revents = 64 }
    ∷ record { fd = pos 1; events = 256; revents = 256 }
    ∷ []

poll_dispatch_example :
    poll_dispatch 64 256 loop (pos 1) slots
    ≡ (activate_all 64 256 loop (take 1 (reported 64 256 slots)) >>= λ calls. ok (some calls))
poll_dispatch_example = poll_dispatch-reported 64 256 loop (pos 1) slots

poll_add_example :
    (length (poll_add 64 256 slots channel).0 ≡ length slots)
    × (((poll_add 64 256 slots channel).1 ≡ true)
          × (unused slots ≡ unused (poll_add 64 256 slots channel).0 + 1)
        ⊎ ((poll_add 64 256 slots channel).1 ≡ false)
          × (unused slots ≡ 0)
          × ((poll_add 64 256 slots channel).0 ≡ slots))
poll_add_example = unused-poll_add 64 256 slots channel 1 refl

abbrev requests : List Request
requests = add channel 1 refl ∷ del channel ∷ add channel 1 refl ∷ []

run_example : (run 64 256 slots requests).1 + unused (run 64 256 slots requests).0 ≡ unused slots
run_example = run-unused 64 256 slots requests

abbrev events : List EpollEvent
events = record { events = 1; fd = pos 1 } ∷ record { events = 4; fd = pos 3 } ∷ []

-- Linux's EPOLLIN, EPOLLOUT, EPOLLERR and EPOLLHUP
epoll_dispatch_example :
    epoll_dispatch 1 4 8 16 loop events ≡ ok (close (pos 1) ∷ close (pos 3) ∷ [])
epoll_dispatch_example = epoll_dispatch-closes 1 4 8 16 (omega arith) loop events

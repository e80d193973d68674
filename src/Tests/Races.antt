-- ===== src/Tests/Races.antt =====
-- Dispatchers, triggers and the shared counter at small inputs.
use geek_network_programming.Base.{
  ◌+◌, ◌≤◌, ◌≡◌, refl, true, false, Option, none, some, List, [], ◌∷◌, if◌then◌else◌, ◌==◌, pos,
  minus_one, arith,
}
use geek_network_programming.Base.Result.{ok}
use geek_network_programming.Sys.{number, failed, done, trace}
use geek_network_programming.EventLoop.{Channel, EventLoop}
use geek_network_programming.Poll.{Pollfd, event_bits}
use geek_network_programming.Poll.Dispatch.{reported}
use geek_network_programming.Dispatcher.{IsFaithful, wanted_actions}
use geek_network_programming.Dispatcher.Polling.{
  poll_dispatcher, found, poll_dispatcher-IsFaithful, events_of, event_of,
}
use geek_network_programming.Dispatcher.Epolling as Epolling
use geek_network_programming.Dispatcher.Epolling.{epoll_dispatcher, epoll_dispatcher-unfaithful}
use geek_network_programming.Counter.{System, int_zero, main, Reach}
use geek_network_programming.Counter.Values.{left, left_other, sum}
use geek_network_programming.Counter.Races.{main-race}
use geek_network_programming.Triggers.{FdSet, select_trigger, both}
use geek_network_programming.Triggers.Watching.{lines, reports, select_trigger-watched}
use geek_network_programming.Sockets.Untested.{accept, send, close, hello, hello_loop}
use geek_network_programming.Sockets.Hello.{Round, round_replies, hello_loop-rounds}

race_example :
    ((s : System)
      → Reach (main 5) s
      → (s.undefined ≡ false)
        × (s.calculator + sum left s.threads ≤ 5 + 2000)
        × (s.another_shared + sum left_other s.threads ≤ int_zero + 2000))
    × ((s : System) × Reach (main 5) s
        × (sum left s.threads ≡ 0)
        × (sum left_other s.threads ≡ 0)
        × (s.calculator ≡ 5 + 1000)
        × (s.another_shared ≡ int_zero + 1000))
race_example = main-race 5 (omega arith)

-- The keyboard is ready, then it is not, then it is again.
abbrev rounds : List (Option FdSet)
rounds =
    some (record { socket = true; keyboard = true })
    ∷ some (record { socket = true; keyboard = false })
    ∷ some (record { socket = true; keyboard = true })
    ∷ []

watched_example :
    (lines (trace (select_trigger both rounds)) ≡ 2)
    × (reports (trace (select_trigger both rounds)) ≡ 3)
watched_example = select_trigger-watched rounds

-- A client, and an accept() that fails: the text is sent to -1.
abbrev visits : List Round
visits =
    record { accepted = number 4; sent = number 16; closed = number 0 }
    ∷ record { accepted = failed 4; sent = failed 9; closed = failed 9 }
    ∷ []

hello_example :
    hello_loop 2 (pos 3) (round_replies visits [])
    ≡ done tt [] (
        accept (pos 3)
        ∷ send (pos 4) hello
        ∷ close (pos 4)
        ∷ accept (pos 3)
        ∷ send minus_one hello
        ∷ close minus_one
        ∷ [])
hello_example = hello_loop-rounds (pos 3) visits []

-- one channel, for descriptor 1
abbrev channel : Channel
channel = record { fd = pos 1; events = 1; user = 60; read = 70; write = 80 }

abbrev loop : EventLoop
loop = record {
  channel_map = record { entries = 0 ∷ 50 ∷ []; available_num = 2 };
  channels = λ p. if p == 50 then some channel else none;
}

abbrev slots : List Pollfd
slots =
    record { fd = minus_one; events = 0; revents = 0 }
    ∷ record { fd = pos 1; events = 64; revents = 0 }
    ∷ []

-- 64 and 256 are Linux's POLLRDNORM and POLLWRNORM
faithful_example :
    (poll_dispatcher 64 256 0).dispatch loop (pos 1, 0 ∷ 64 ∷ []) slots
    ≡ ok (wanted_actions (λ fd. channel) (found 64 256 0 slots (pos 1, 0 ∷ 64 ∷ [])))
unfolding found events_of event_of reported event_bits
faithful_example =
    poll_dispatcher-IsFaithful 64 256 0 loop (λ fd. channel) slots (pos 1, 0 ∷ 64 ∷ [])
      (record { counted = refl; fits = omega arith })
      (record { address = 50; entry = refl; channel = refl; own = refl }, tt)

unfaithful_example : ¬ IsFaithful (epoll_dispatcher 1 4 8 16 0) (Epolling.found 1 4 8 16 0)
unfaithful_example = epoll_dispatcher-unfaithful 1 4 8 16 0 (omega arith)

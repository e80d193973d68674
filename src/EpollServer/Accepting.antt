-- ===== src/EpollServer/Accepting.antt =====
-- How many connections the epoll server takes from its edge-triggered listener.
use geek_network_programming.Base.{
  ℕ, ◌+◌, ◌≡◌, refl, inl, inr, false, not, ◌||◌, Bool-cases, Option, none, some, List, [], ◌∷◌,
  ◌==◌, pos, minus_one, map, bit, arith,
}
use geek_network_programming.Sys.{ignored, Reply, number, bytes, failed, pure, ◌>>=◌, call}
use geek_network_programming.Sys.Bounds.{
  AtMost, AtMost-pure, AtMost-call, AtMost-bind, AtMost-weaken,
}
use geek_network_programming.EpollServer.{
  Call, ctl_add, ctl_del, accept, set_nonblock, read, write, close, Event, welcome, answer,
  rot13_char, on_event, on_events, serve, max_line,
}

abbrev pub is_accept : Call → ℕ
is_accept (accept fd) = 1
is_accept _ = 0

-- the events of the listener among those of the wake-ups
abbrev pub listener_events : ℕ → List Event → ℕ
listener_events listen [] = 0
listener_events listen (ev ∷ evs) = bit (listen == ev.fd) + listener_events listen evs

abbrev pub wakeups : ℕ → List (Option (List Event)) → ℕ
wakeups listen [] = 0
wakeups listen (none ∷ ws) = wakeups listen ws
wakeups listen (some evs ∷ ws) = listener_events listen evs + wakeups listen ws

ignored-AtMost : (c : Call) → AtMost is_accept (is_accept c) (ignored c)
ignored-AtMost c rs = omega (
  arith,
  AtMost-bind is_accept (is_accept c) 0 (call c) (λ _. pure tt) (AtMost-call is_accept c)
      (λ _. AtMost-pure is_accept tt) rs,
)

two-AtMost :
    (c d : Call)
    → is_accept c ≡ 0
    → is_accept d ≡ 0
    → AtMost is_accept 0 (ignored c >>= λ _. ignored d)
two-AtMost c d e f =
    AtMost-bind is_accept 0 0 (ignored c) (λ _. ignored d)
      (AtMost-weaken is_accept (is_accept c) 0 (ignored c) (omega arith) (ignored-AtMost c))
      (λ _. AtMost-weaken is_accept (is_accept d) 0 (ignored d) (omega arith) (ignored-AtMost d))

welcome-AtMost : (listen : ℕ) (r : Reply) → AtMost is_accept 0 (welcome listen r)
unfolding welcome
welcome-AtMost listen (number n) =
    two-AtMost (set_nonblock (pos n)) (ctl_add false (pos n)) refl refl
welcome-AtMost listen (failed e) =
    two-AtMost (set_nonblock minus_one) (ctl_add false minus_one) refl refl
welcome-AtMost listen (bytes x) = λ rs. omega arith

answer-AtMost : (fd : ℕ) (r : Reply) → AtMost is_accept 0 (answer fd r)
unfolding answer
answer-AtMost fd (number n) = λ rs. omega arith
answer-AtMost fd (failed e) = λ rs. omega arith
answer-AtMost fd (bytes []) = two-AtMost (close fd) (ctl_del fd) refl refl
answer-AtMost fd (bytes (b ∷ bs)) = ignored-AtMost (write fd (map rot13_char (b ∷ bs)))

on_event-AtMost :
    (listen : ℕ) (ev : Event) → AtMost is_accept (bit (listen == ev.fd)) (on_event listen ev)
unfolding on_event
on_event-AtMost listen ev = elim (Bool-cases (ev.err || ev.hup || not ev.input)) [
  | inl e ↦ rw e (
      AtMost-weaken is_accept 0 (bit (listen == ev.fd)) (ignored (close ev.fd)) (omega arith)
        (ignored-AtMost (close ev.fd)))
  | inr e ↦ rw e (elim (Bool-cases (listen == ev.fd)) [
    | inl l ↦ rw l (
        AtMost-bind is_accept 1 0 (call (accept listen)) (welcome listen)
          (AtMost-call is_accept (accept listen)) (welcome-AtMost listen))
    | inr l ↦ rw l (
        AtMost-bind is_accept 0 0 (call (read ev.fd max_line)) (answer ev.fd)
          (AtMost-call is_accept (read ev.fd max_line)) (answer-AtMost ev.fd))
  ])
]

on_events-AtMost :
    (listen : ℕ) (evs : List Event)
    → AtMost is_accept (listener_events listen evs) (on_events listen evs)
unfolding on_events
on_events-AtMost listen [] = AtMost-pure is_accept tt
on_events-AtMost listen (ev ∷ evs) =
    AtMost-bind is_accept (bit (listen == ev.fd)) (listener_events listen evs) (on_event listen ev)
      (λ _. on_events listen evs) (on_event-AtMost listen ev) (λ _. on_events-AtMost listen evs)

-- Whatever the kernel replies, the epoll server calls accept() at most as often as epoll_wait()
-- reported the listener, which it watches edge-triggered.
pub serve-accepts :
    (listen : ℕ) (ws : List (Option (List Event)))
    → AtMost is_accept (wakeups listen ws) (serve listen ws)
unfolding serve
serve-accepts listen [] = AtMost-pure is_accept tt
serve-accepts listen (none ∷ ws) = serve-accepts listen ws
serve-accepts listen (some evs ∷ ws) =
    AtMost-bind is_accept (listener_events listen evs) (wakeups listen ws) (on_events listen evs)
      (λ _. serve listen ws) (on_events-AtMost listen evs) (λ _. serve-accepts listen ws)

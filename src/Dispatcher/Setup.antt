-- ===== src/Dispatcher/Setup.antt =====
-- The set-up of an event loop: event_loop_init_with_name and event_loop_wakeup of lib/event_loop.c, with
-- the functions by which the two dispatchers make and clear their data.
use geek_network_programming.Base.{
  ℕ, Bool, true, false, Option, none, some, List, [], ◌∷◌, replicate, pos, ◌≡◌, refl, Option-cases,
  inl, inr,
}
use geek_network_programming.Sys.{
  Reply, number, bytes, failed, fault, Sys, pure, ◌>>=◌, call, exit, ignored, after,
}
use geek_network_programming.ChannelMap.{ChannelMap}
use geek_network_programming.Poll.{Pollfd, poll_init}
use geek_network_programming.Epoll.{EpollEvent}

abbrev pub epoll_initial_size : ℕ
epoll_initial_size = 128

pub data Call : Type 0 where
  epoll_create socketpair : Call
  close : ℕ → Call
  write : ℕ → List ℕ → Call

-- `struct epoll_dispatcher_data`
pub record EpollData : Type 0 where
  pub count : ℕ
  pub nfds : ℕ
  pub realloc_copy : ℕ
  pub epoll_fd : ℕ
  pub events : List EpollEvent

-- `struct poll_dispatcher_data`; `rfds` is not used.
pub record PollData : Type 0 where
  pub count : ℕ
  pub nfds : ℕ
  pub realloc_copy : ℕ
  pub fds : List Pollfd

abbrev pub cleared : EpollEvent
cleared = record { events = 0; fd = pos 0 }

-- `epoll_init`
unfoldable pub epoll_init : Sys Call EpollData
epoll_init = call epoll_create >>= λ r. elim r [
  | number fd ↦ pure (record {
    count = 0;
    nfds = 0;
    realloc_copy = 0;
    epoll_fd = fd;
    events = replicate epoll_initial_size cleared;
  })
  | failed e ↦ exit 1
  | bytes x ↦ λ rs. fault []
]

-- `epoll_clear`: what is left in `event_loop->data` is NULL.
unfoldable pub epoll_clear : EpollData → Sys Call (Option EpollData)
epoll_clear d = ignored (close d.epoll_fd) >>= λ _. pure none

-- `poll_init`, on what malloc returned for the slots
unfoldable pub poll_data : List Pollfd → PollData
unfolding poll_init
poll_data raw = record { count = 0; nfds = 0; realloc_copy = 0; fds = poll_init raw }

-- `poll_clear`, which only frees
unfoldable pub poll_clear : PollData → Option PollData
poll_clear d = none

-- `event_loop->data`, by the dispatcher
pub data Data : Type 0 where
  epoll : EpollData → Data
  poll : PollData → Data

-- `struct event_loop`, without its mutex, its condition variable and the owner's thread. The pair of
-- sockets is `none` where socketpair() has failed and left the array as it was.
pub record Loop : Type 0 where
  pub quit : ℕ
  pub channel_map : ChannelMap
  pub dispatcher_data : Data
  pub socket_pair : Option (ℕ × ℕ)
  pub is_handle_pending : ℕ
  pub thread_name : Option (List ℕ)

-- what socketpair() writes: its two descriptors
abbrev pub pair_of : Reply → Option (ℕ × ℕ)
pair_of (bytes (a ∷ b ∷ [])) = some (a, b)
pair_of _ = none

-- The initialisation by `have_epoll`, which is HAVE_EPOLL (HAVE_POLL is taken to be set).
abbrev pub init_data : (have_epoll : Bool) → List Pollfd → Sys Call Data
init_data true raw = epoll_init >>= λ d. pure (epoll d)
init_data false raw = pure (poll (poll_data raw))

-- `event_loop_init_with_name`. The map is the memory that malloc returned: `map_init` is not called.
unfoldable pub event_loop_init_with_name :
    (have_epoll : Bool) (raw : List Pollfd) (junk : ChannelMap) (thread_name : Option (List ℕ))
    → Sys Call Loop
unfolding epoll_init poll_data
event_loop_init_with_name have_epoll raw junk thread_name = do
  d ← init_data have_epoll raw
  pair ← call socketpair
  pure (record {
    quit = 0;
    channel_map = junk;
    dispatcher_data = d;
    socket_pair = pair_of pair;
    is_handle_pending = 0;
    thread_name = thread_name;
  })

-- `event_loop_init`
unfoldable pub event_loop_init :
    (have_epoll : Bool) (raw : List Pollfd) (junk : ChannelMap) → Sys Call Loop
unfolding event_loop_init_with_name
event_loop_init have_epoll raw junk = event_loop_init_with_name have_epoll raw junk none

-- `event_loop_wakeup`: a failed write() is only reported. Without a pair, the descriptor read is what
-- the uninitialised array holds, `fault` here.
unfoldable pub event_loop_wakeup : Loop → Sys Call (Unit {0})
event_loop_wakeup loop = elim loop.socket_pair [
  | none ↦ λ rs. fault []
  | some (a, b) ↦ ignored (write a (b'a' ∷ []))
]

-- A loop that is set up with epoll can be woken: one byte is written to the first socket of the
-- pair. If socketpair() has failed, the wakeup uses a descriptor that nothing has set.
pub event_loop_init-wakeup :
    (raw : List Pollfd) (junk : ChannelMap) (name : Option (List ℕ)) (fd : ℕ) (pair : Reply)
    (rest : List Reply)
    → (event_loop_init_with_name true raw junk name >>= event_loop_wakeup) (number fd ∷ pair ∷ rest)
      ≡ (elim (pair_of pair) [
        | none ↦ fault (epoll_create ∷ socketpair ∷ [])
        | some (a, b) ↦ after (epoll_create ∷ socketpair ∷ []) (ignored (write a (b'a' ∷ [])) rest)
      ])
unfolding event_loop_init_with_name event_loop_wakeup
event_loop_init-wakeup raw junk name fd pair rest = elim (Option-cases (pair_of pair)) [
  | inl e ↦ rw e refl
  | inr ((a, b), e) ↦ rw e refl
]

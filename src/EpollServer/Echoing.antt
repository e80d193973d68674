-- ===== src/EpollServer/Echoing.antt =====
-- What the clients of the epoll server are sent.
use geek_network_programming.Base.{
  ℕ, ◌≡◌, ◌≢◌, refl, Bool, true, false, not, ◌||◌, take, Option, none, some, List, [], ◌∷◌, ◌++◌,
  ◌==◌, ==_refl, ==_ne, if◌then◌else◌, pos, minus_one, map, append_assoc,
}
use geek_network_programming.Sys.{Reply, number, bytes, failed, Outcome, done}
use geek_network_programming.EpollServer.{
  Call, ctl_add, ctl_del, accept, set_nonblock, read, write, close, Event, welcome, answer,
  rot13_char, on_event, on_events, serve, max_line,
}

-- What an event of the listener or of a client leads to, with the kernel's replies.
pub data Happening : Type 0 where
  -- a client is accepted as `fd`; accept() fails
  joins : (fd : ℕ) → Reply → Reply → Happening
  refused : ℕ → Reply → Reply → Happening
  -- a client has sent bytes; its read() fails; it has closed; its connection is broken
  sends : (fd first : ℕ) → List ℕ → Reply → Happening
  stumbles : (fd : ℕ) → ℕ → Happening
  leaves : (fd : ℕ) → Reply → Reply → Happening
  breaks : (fd : ℕ) → (err hup input : Bool) → (err || hup || not input) ≡ true → Reply → Happening

abbrev pub readable : ℕ → Event
readable fd = record { fd = fd; err = false; hup = false; input = true }

abbrev pub event : ℕ → Happening → Event
event listen (joins fd r s) = readable listen
event listen (refused e r s) = readable listen
event listen (sends fd b bs r) = readable fd
event listen (stumbles fd e) = readable fd
event listen (leaves fd r s) = readable fd
event listen (breaks fd err hup input b r) = record { fd = fd; err = err; hup = hup; input = input }

abbrev pub replies : Happening → List Reply
replies (joins fd r s) = number fd ∷ r ∷ s ∷ []
replies (refused e r s) = failed e ∷ r ∷ s ∷ []
replies (sends fd b bs r) = bytes (b ∷ bs) ∷ r ∷ []
replies (stumbles fd e) = failed e ∷ []
replies (leaves fd r s) = bytes [] ∷ r ∷ s ∷ []
replies (breaks fd err hup input b r) = r ∷ []

-- No client has the listener's descriptor.
abbrev pub Client : ℕ → Happening → Type 0
Client listen (sends fd b bs r) = listen ≢ fd
Client listen (stumbles fd e) = listen ≢ fd
Client listen (leaves fd r s) = listen ≢ fd
Client listen _ = Unit {0}

-- the part of some bytes that write() takes, by its reply
abbrev pub taken : Reply → List ℕ → List ℕ
taken (number n) bs = take n bs
taken (failed e) bs = []
taken (bytes x) bs = []

-- what the client at `fd` is to get: of the rotation of its bytes what write() takes
abbrev pub due : ℕ → Happening → List ℕ
due fd (sends fd' b bs r) = if fd == fd' then taken r (map rot13_char (b ∷ bs)) else []
due fd _ = []

-- the descriptors to be closed
abbrev pub gone : Happening → List ℕ
gone (leaves fd r s) = fd ∷ []
gone (breaks fd err hup input b r) = fd ∷ []
gone _ = []

-- the wake-ups of epoll_wait(), each with what happened since the one before, or a failed one
abbrev pub Wakeups : Type 0
Wakeups = List (Option (List Happening))

abbrev pub events : ℕ → List Happening → List Event
events listen [] = []
events listen (h ∷ hs) = event listen h ∷ events listen hs

abbrev pub all_events : ℕ → Wakeups → List (Option (List Event))
all_events listen [] = []
all_events listen (none ∷ ws) = none ∷ all_events listen ws
all_events listen (some hs ∷ ws) = some (events listen hs) ∷ all_events listen ws

abbrev pub all_happened : Wakeups → List Happening
all_happened [] = []
all_happened (none ∷ ws) = all_happened ws
all_happened (some hs ∷ ws) = hs ++ all_happened ws

abbrev pub all_replies : List Happening → List Reply → List Reply
all_replies [] rest = rest
all_replies (h ∷ hs) rest = replies h ++ all_replies hs rest

abbrev pub all_due : ℕ → List Happening → List ℕ
all_due fd [] = []
all_due fd (h ∷ hs) = due fd h ++ all_due fd hs

abbrev pub all_gone : List Happening → List ℕ
all_gone [] = []
all_gone (h ∷ hs) = gone h ++ all_gone hs

abbrev pub Clients : ℕ → List Happening → Type 0
Clients listen [] = Unit {0}
Clients listen (h ∷ hs) = Client listen h × Clients listen hs

-- what arrives at `fd` in a trace whose calls have these replies, one each
abbrev pub told : ℕ → List Call → List Reply → List ℕ
told fd [] rs = []
told fd (c ∷ t) [] = []
told fd (write fd' bs ∷ t) (r ∷ rs) = (if fd == fd' then taken r bs else []) ++ told fd t rs
told fd (_ ∷ t) (r ∷ rs) = told fd t rs

-- the descriptors that a trace closes
abbrev pub closed : List Call → List ℕ
closed [] = []
closed (close fd ∷ t) = fd ∷ closed t
closed (_ ∷ t) = closed t

-- the calls of one round
abbrev calls : ℕ → Happening → List Call
calls listen (joins fd r s) = accept listen ∷ set_nonblock (pos fd) ∷ ctl_add false (pos fd) ∷ []
calls listen (refused e r s) = accept listen ∷ set_nonblock minus_one ∷ ctl_add false minus_one ∷ []
calls listen (sends fd b bs r) = read fd max_line ∷ write fd (map rot13_char (b ∷ bs)) ∷ []
calls listen (stumbles fd e) = read fd max_line ∷ []
calls listen (leaves fd r s) = read fd max_line ∷ close fd ∷ ctl_del fd ∷ []
calls listen (breaks fd err hup input b r) = close fd ∷ []

on_event-calls :
    (listen : ℕ) (h : Happening) (rs : List Reply)
    → Client listen h
    → on_event listen (event listen h) (replies h ++ rs) ≡ done tt rs (calls listen h)
unfolding on_event welcome answer
on_event-calls listen (joins fd r s) rs c = rw (==_refl listen)
on_event-calls listen (refused e r s) rs c = rw (==_refl listen)
on_event-calls listen (sends fd b bs r) rs c = rw (==_ne listen fd c)
on_event-calls listen (stumbles fd e) rs c = rw (==_ne listen fd c)
on_event-calls listen (leaves fd r s) rs c = rw (==_ne listen fd c)
on_event-calls listen (breaks fd err hup input b r) rs c = rw b refl

told-calls :
    (listen fd : ℕ) (h : Happening) (t : List Call) (rs : List Reply)
    → told fd (calls listen h ++ t) (replies h ++ rs) ≡ due fd h ++ told fd t rs
told-calls listen fd (joins fd' r s) t rs = refl
told-calls listen fd (refused e r s) t rs = refl
told-calls listen fd (stumbles fd' e) t rs = refl
told-calls listen fd (leaves fd' r s) t rs = refl
told-calls listen fd (breaks fd' err hup input b r) t rs = refl
told-calls listen fd (sends fd' b bs r) t rs = refl

closed-calls :
    (listen : ℕ) (h : Happening) (t : List Call) → closed (calls listen h ++ t) ≡ gone h ++ closed t
closed-calls listen (joins fd r s) t = refl
closed-calls listen (refused e r s) t = refl
closed-calls listen (stumbles fd e) t = refl
closed-calls listen (leaves fd r s) t = refl
closed-calls listen (breaks fd err hup input b r) t = refl
closed-calls listen (sends fd b bs r) t = refl

-- the calls of all rounds
abbrev all_calls : ℕ → List Happening → List Call
all_calls listen [] = []
all_calls listen (h ∷ hs) = calls listen h ++ all_calls listen hs

all_calls-append :
    (listen : ℕ) (hs ks : List Happening)
    → all_calls listen (hs ++ ks) ≡ all_calls listen hs ++ all_calls listen ks
all_calls-append listen [] ks = refl
all_calls-append listen (h ∷ hs) ks = rw (all_calls-append listen hs ks, append_assoc) refl

told-all_calls :
    (listen fd : ℕ) (hs : List Happening) (rest : List Reply)
    → told fd (all_calls listen hs) (all_replies hs rest) ≡ all_due fd hs
told-all_calls listen fd [] rest = refl
told-all_calls listen fd (h ∷ hs) rest =
    rw
      (
        told-calls listen fd h (all_calls listen hs) (all_replies hs rest),
        told-all_calls listen fd hs rest,
      )
      refl

closed-all_calls : (listen : ℕ) (hs : List Happening) → closed (all_calls listen hs) ≡ all_gone hs
closed-all_calls listen [] = refl
closed-all_calls listen (h ∷ hs) =
    rw (closed-calls listen h (all_calls listen hs), closed-all_calls listen hs) refl

-- A run that comes to its end and takes the replies before `rest`: every client gets what is due to
-- it, and the descriptors of the clients that are gone are closed.
pub record Echoes (o : List Reply → Outcome Call (Unit {0})) (rest : List Reply)
    (hs : List Happening) : Type 0 where
  pub made : List Call
  pub ends : o (all_replies hs rest) ≡ done tt rest made
  pub told_back : (fd : ℕ) → told fd made (all_replies hs rest) ≡ all_due fd hs
  pub closes : closed made ≡ all_gone hs

on_events-calls :
    (listen : ℕ) (hs : List Happening) (rest : List Reply)
    → Clients listen hs
    → on_events listen (events listen hs) (all_replies hs rest) ≡ done tt rest (all_calls listen hs)
unfolding on_events
on_events-calls listen [] rest c = refl
on_events-calls listen (h ∷ hs) rest (c, cs) =
    rw (on_event-calls listen h (all_replies hs rest) c, on_events-calls listen hs rest cs) refl

all_replies-append :
    (hs ks : List Happening) (rest : List Reply)
    → all_replies (hs ++ ks) rest ≡ all_replies hs (all_replies ks rest)
all_replies-append [] ks rest = refl
all_replies-append (h ∷ hs) ks rest = rw (all_replies-append hs ks rest) refl

Clients-append :
    (listen : ℕ) (hs ks : List Happening)
    → Clients listen (hs ++ ks)
    → Clients listen hs × Clients listen ks
Clients-append listen [] ks c = (tt, c)
Clients-append listen (h ∷ hs) ks (c, cs) =
    let (a, b) = Clients-append listen hs ks cs in ((c, a), b)

serve-calls :
    (listen : ℕ) (ws : Wakeups) (rest : List Reply)
    → Clients listen (all_happened ws)
    → serve listen (all_events listen ws) (all_replies (all_happened ws) rest)
      ≡ done tt rest (all_calls listen (all_happened ws))
unfolding serve
serve-calls listen [] rest c = refl
serve-calls listen (none ∷ ws) rest c = serve-calls listen ws rest c
serve-calls listen (some hs ∷ ws) rest c =
    let ks = all_happened ws in
    let (c1, c2) = Clients-append listen hs ks c in
    rw
      (
        all_replies-append hs ks rest,
        on_events-calls listen hs (all_replies ks rest) c1,
        serve-calls listen ws rest c2,
        all_calls-append listen hs ks,
      )
      refl

-- Whatever clients join, send, stumble and leave, and whatever sockets get an event with EPOLLERR
-- or EPOLLHUP or without EPOLLIN, in any order and spread over the wake-ups of epoll_wait() in any
-- way, and if no client has the listener's descriptor, the epoll server comes to the end of these
-- events and takes just their replies; each descriptor gets, in order, of the rotation of what
-- each read() got the first bytes, as many as the write() returns, and none if that fails; and the
-- server closes, in order, the descriptors of the clients that left and of the sockets with such
-- an event, and no other.
pub serve-Echoes :
    (listen : ℕ) (ws : Wakeups) (rest : List Reply)
    → Clients listen (all_happened ws)
    → Echoes (serve listen (all_events listen ws)) rest (all_happened ws)
serve-Echoes listen ws rest c = record {
  made = all_calls listen (all_happened ws);
  ends = serve-calls listen ws rest c;
  told_back = λ fd. told-all_calls listen fd (all_happened ws) rest;
  closes = closed-all_calls listen (all_happened ws);
}

-- ===== src/Tests/Setups.antt =====
-- Sockets, threads and processes of small systems.
use geek_network_programming.Base.{ℕ, ◌≡◌, refl, some, List, [], ◌∷◌}
use geek_network_programming.Sys.{Reply, number, bytes, trace}
use geek_network_programming.Sockets.{Call, reuse_address, negative, listening}
use geek_network_programming.Sockets.Opening.{Opened, listening-Opened}
use geek_network_programming.Echo.{connection_loop}
use geek_network_programming.Echo.Session.{written, closes}
use geek_network_programming.ThreadServer as Threads
use geek_network_programming.ThreadServer.{accepting, serves}
use geek_network_programming.ThreadServer.Sharing.{
  Calm, Owned, Calm-Owned, start-reach_shared, begin, accepts, other,
}
use geek_network_programming.ProcessServer as Processes
use geek_network_programming.ProcessServer.{child_run}
use geek_network_programming.ProcessServer.Session.{child_run-connection_loop}
use geek_network_programming.ProcessServer.References.{Counted, start-reach-Counted}

abbrev options : List (ℕ → Call)
options = reuse_address ∷ []

-- the socket is opened as 3, and the replies are 0
abbrev opening : List Reply
opening = number 3 ∷ number 0 ∷ number 0 ∷ number 0 ∷ []

sockets_example : Opened options 8016 128 opening (listening options negative 8016 128 opening)
sockets_example = listening-Opened options negative 8016 128 opening

sharing_example : Threads.Reach Threads.start (record {
  main = accepting;
  conn_fd = some 5;
  threads = serves 5 ∷ serves 5 ∷ [];
  accepted = 4 ∷ 5 ∷ [];
})
sharing_example = start-reach_shared 4 5

-- a client that sends `n` and closes
abbrev short_session : List Reply
short_session = bytes (110 ∷ []) ∷ number 1 ∷ bytes [] ∷ number 0 ∷ []

child_example :
    (written (trace (child_run 4 short_session))
      ≡ written (trace (connection_loop 4 short_session)))
    × (closes (trace (child_run 4 short_session)) ≡ 0)
child_example = child_run-connection_loop 4 short_session

-- a connection is accepted, and a child is made for it
abbrev forked_once : Processes.System
forked_once = record {
  parent = Processes.closing 0;
  children = Processes.forked 0 ∷ [];
  listen_refs = 2;
  refs = 2 ∷ [];
}

forked_once-reach : Processes.Reach Processes.start forked_once
unfolding geek_network_programming.ProcessServer.start
forked_once-reach =
    Processes.next (Processes.next Processes.here (Processes.accept _ refl))
      (Processes.fork _ 0 refl)

references_example : Counted forked_once
references_example = start-reach-Counted forked_once-reach

-- a connection is accepted, its thread created, and the argument read
abbrev served_once : Threads.System
served_once = record {
  main = accepting;
  conn_fd = some 4;
  threads = serves 4 ∷ [];
  accepted = 4 ∷ [];
}

served_once-Calm : Calm served_once
unfolding geek_network_programming.ThreadServer.start
served_once-Calm =
    other (other (accepts 4 begin refl tt) (Threads.create _ refl) (refl, refl))
      (Threads.read_argument _ 0 4 refl refl) (refl, refl)

calm_example : Owned served_once
calm_example = Calm-Owned served_once-Calm

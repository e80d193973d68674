-- ===== src/Telnet/Server/Listening.antt =====
-- `accept_client_connect` and main of mid-homework/telnet_server.c: one client after the other.
pub mod Clients
use geek_network_programming.Base.{ℕ, Option, none, some, List, [], ◌∷◌, ◌++◌, ◌==◌, if◌then◌else◌}
use geek_network_programming.Sys.{Reply, number, bytes, failed, eintr}
use geek_network_programming.Telnet.Server.{
  Action, Input, End, waiting, ended, faulted, handle_client_request,
}

-- What main does: accept(), a session with the calls made in it, and close().
pub data Call : Type 0 where
  accept : Call
  session : ℕ → List Action → Call
  close : ℕ → Call

-- What comes for one accept(): its reply, what the client then sends, and the `errno` after its
-- session.
pub record Visit : Type 0 where
  pub reply : Reply
  pub inputs : List Input
  pub errno : ℕ

-- How main stands: it waits at accept(), it waits for the input of a client, or it has gone wrong.
pub data Running : Type 0 where
  listening : List Call → Running
  serving : List Call → Running
  broken : List Call → Running

abbrev pub after : List Call → Running → Running
after t (listening u) = listening (t ++ u)
after t (serving u) = serving (t ++ u)
after t (broken u) = broken (t ++ u)

-- What LOG_INFO leaves of an `errno` is the system's.
module _ (log : ℕ → ℕ) where
  -- `accept_client_connect` with the `errno` before it: the descriptor (`none` for -1), and the `errno`
  -- after it. The test `errno == EINTR` is made of a call that succeeded too.
  unfoldable pub accept_client_connect : ℕ → Reply → Option ℕ × ℕ
  accept_client_connect errno (failed e) = (none, log e)
  accept_client_connect errno (number fd) =
      if errno == eintr then (none, log errno) else (some fd, errno)
  accept_client_connect errno (bytes x) = (none, log errno)

  -- the loop's body behind the accept, and the rounds that follow it
  unfoldable pub serve : Option ℕ → End → Running → Running → Running
  serve none e refused served = after (accept ∷ []) refused
  serve (some fd) (waiting t) refused served = serving (accept ∷ session fd t ∷ [])
  serve (some fd) (faulted t) refused served = broken (accept ∷ session fd t ∷ [])
  serve (some fd) (ended t) refused served = after (accept ∷ session fd t ∷ close fd ∷ []) served

  -- the loop of main, from an `errno`
  unfoldable pub main : ℕ → List Visit → Running
  unfolding accept_client_connect serve
  main errno [] = listening (accept ∷ [])
  main errno (v ∷ vs) =
      let (fd, e) = accept_client_connect errno v.reply in
      serve fd (handle_client_request v.inputs) (main e vs) (main v.errno vs)

-- ===== src/Tests/Sessions.antt =====
-- Sessions of the clients and servers in which little is sent.
use geek_network_programming.Base.{
  none, ◌≡◌, refl, true, not, ◌||◌, some, leb, List, [], ◌∷◌, ◌==◌, pos, arith,
}
use geek_network_programming.Sys.{
  either, pure, after, trace, Reply, number, bytes, failed, eintr, done,
}
use geek_network_programming.Framing.{readn, read_message}
use geek_network_programming.Framing.Delivery.{
  Delivers, full, interrupted, piece, Gives, readn-Delivers, htonl, Sent, read_message-Sent,
}
use geek_network_programming.Echo.{rot13_char, connection_loop}
use geek_network_programming.Echo.Rot13.{is_lower, is_upper, rot13_char-rot13_char}
use geek_network_programming.Echo.Session.{
  Piece, replies, sent, answer, writes, closed, reads, connection_loop-replies, Closed,
  connection_loop-Closed,
}
use geek_network_programming.Telnet.{Message, msg_ping, msg_text}
use geek_network_programming.Telnet.Client.{Round, timeout, ready, Action, End, start, loop}
use geek_network_programming.Telnet.Client.Heartbeat.{Waits, loop-start-Waits, pings, loop-timeouts}
use geek_network_programming.Telnet.Server.{System, Input, got, handle_client_request}
use geek_network_programming.Telnet.Server.Session.{Served, requests, handle_client_request-Served}
use geek_network_programming.Pool.{main, thread_run}
use geek_network_programming.Pool.Service.{
  Connection, descriptors, all_replies, answers, thread_run-all_replies, pushed, accepted,
  main-pushed,
}
use geek_network_programming.Poll.{Pollfd}
use geek_network_programming.PollServer.{accept, serve, round}
use geek_network_programming.PollServer.Clients.{Balanced, busy, serve-Balanced, round_full}

-- three bytes, in two pieces, with an interrupt between them
abbrev abc : List Reply
abc = bytes (97 ∷ 98 ∷ []) ∷ failed eintr ∷ bytes (99 ∷ []) ∷ []

abc-Delivers : Delivers 3 (97 ∷ 98 ∷ 99 ∷ []) abc []
abc-Delivers = piece 97 (98 ∷ []) refl (interrupted (piece 99 [] refl full))

readn_example : Gives (readn 5 3 abc) (some (97 ∷ 98 ∷ 99 ∷ [])) []
readn_example = readn-Delivers 5 (omega arith) abc-Delivers

-- the message of these bytes with the type 1
abbrev abc_message : List Reply
abc_message = bytes (0 ∷ 0 ∷ 0 ∷ 3 ∷ []) ∷ bytes (0 ∷ 0 ∷ 0 ∷ 1 ∷ []) ∷ abc

abc_message-Sent : Sent 128 (97 ∷ 98 ∷ 99 ∷ []) abc_message []
unfolding htonl
abc_message-Sent = record {
  kind = 0 ∷ 0 ∷ 0 ∷ 1 ∷ [];
  rs1 = bytes (0 ∷ 0 ∷ 0 ∷ 1 ∷ []) ∷ abc;
  rs2 = abc;
  head_in = piece 0 (0 ∷ 0 ∷ 3 ∷ []) refl full;
  kind_in = piece 0 (0 ∷ 0 ∷ 1 ∷ []) refl full;
  body_in = abc-Delivers;
  fits = omega arith;
  small = omega arith;
}

read_message_example : Gives (read_message 5 128 abc_message) (pos 3, 97 ∷ 98 ∷ 99 ∷ []) []
read_message_example = read_message-Sent 5 128 (97 ∷ 98 ∷ 99 ∷ []) abc_message [] abc_message-Sent

abbrev two_pieces : List Piece
two_pieces =
    record { first = 97; others = 66 ∷ []; written = 2 }
    ∷ record { first = 10; others = []; written = 1 }
    ∷ []

echo_example :
    (t : List geek_network_programming.Echo.Call) × (connection_loop 5 (replies two_pieces 0 [])
      ≡ done tt [] t)
    × (writes t ≡ answer 5 (sent two_pieces))
    × (closed t ≡ 5 ∷ [])
    × (reads t ≡ 5 ∷ 5 ∷ 5 ∷ [])
echo_example = connection_loop-replies 5 two_pieces 0 []

closed_example : Closed (connection_loop 5 (bytes (97 ∷ []) ∷ number 1 ∷ bytes [] ∷ number 0 ∷ []))
closed_example = connection_loop-Closed 5 (bytes (97 ∷ []) ∷ number 1 ∷ bytes [] ∷ number 0 ∷ [])

rot13_example :
    (rot13_char (rot13_char 122) ≡ 122)
    × (is_lower (rot13_char 122) ≡ is_lower 122)
    × (is_upper (rot13_char 122) ≡ is_upper 122)
    × ((rot13_char 122 == 122) ≡ not (is_lower 122 || is_upper 122))
rot13_example = rot13_char-rot13_char 122 (omega arith)

abbrev rounds : List Round
rounds = timeout (pos 3) ∷ timeout (pos 3) ∷ timeout (pos 3) ∷ timeout (pos 3) ∷ []

waits_example : Waits 0 0 rounds (loop start rounds)
waits_example = loop-start-Waits rounds

timeouts_example :
    (t : List Action) × (loop start rounds ≡ geek_network_programming.Telnet.Client.exited 1 t)
    × (pings t ≡ 3)
timeouts_example = loop-timeouts start (pos 3) (pos 3) (pos 3) (pos 3) [] refl refl refl refl

abbrev machine : System
machine = record {
  listing = [];
  directory = 47 ∷ [];
  can_enter = λ p. true;
  junk = [];
  sent = pos 9;
}

abbrev inputs : List Input
inputs =
    got (record { type = msg_ping; text = [] }) machine
    ∷ got (record { type = msg_text; text = b'p' ∷ b'w' ∷ b'd' ∷ [] }) machine
    ∷ []

session_example : Served (requests inputs) (handle_client_request inputs)
session_example = handle_client_request-Served inputs

abbrev connections : List Connection
connections =
    record { fd = 5; pieces = two_pieces; closed = 0 }
    ∷ record { fd = 6; pieces = []; closed = 0 }
    ∷ []

pool_example :
    (t : List geek_network_programming.Echo.Call) × (thread_run
        (descriptors connections)
        (all_replies connections [])
      ≡ done tt [] t)
    × (writes t ≡ answers connections)
    × (closed t ≡ 5 ∷ 6 ∷ [])
    × (reads t ≡ 5 ∷ 5 ∷ 5 ∷ 6 ∷ [])
pool_example = thread_run-all_replies connections []

accepting_example :
    pushed (trace (main none (number 5 ∷ failed eintr ∷ number 6 ∷ [])))
    ≡ accepted (number 5 ∷ failed eintr ∷ number 6 ∷ [])
accepting_example = main-pushed none (number 5 ∷ failed eintr ∷ number 6 ∷ [])

-- two clients with input; 64 and 8 are Linux's POLLRDNORM and POLLERR
abbrev clients : List Pollfd
clients =
    record { fd = pos 5; events = 64; revents = 64 }
    ∷ record { fd = pos 6; events = 64; revents = 64 }
    ∷ []

-- the first sends a byte, the second closes
abbrev clients_do : List Reply
clients_do = bytes (97 ∷ []) ∷ number 1 ∷ bytes [] ∷ number 0 ∷ []

clients_example : Balanced (busy clients) busy (serve 64 8 2 clients clients_do)
clients_example = serve-Balanced 64 8 2 clients clients_do

crowded_example :
    round 64 8 3 64 clients (number 7 ∷ clients_do)
    ≡ after (accept ∷ []) (either (leb 3 1) (pure clients) (serve 64 8 2 clients) clients_do)
crowded_example = round_full 64 8 3 64 7 clients clients_do refl (λ e. absurd (omega arith))

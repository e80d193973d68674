-- ===== src/Tests/Servers.antt =====
-- The epoll and the select server, and the greeting and the length-prefixed dialogue, on small inputs.
use geek_network_programming.Base.{
  ℕ, zero, suc, ◌+◌, ◌≤◌, ◌≡◌, refl, true, false, none, some, List, [], ◌∷◌, ◌++◌, replicate,
  length, arith, get_elem?, set, length-replicate,
}
use geek_network_programming.Sys.{Reply, number, bytes, failed, done, exited, fault}
use geek_network_programming.Sys.Bounds.{AtMost}
use geek_network_programming.Sys.Ends.{Ends}
use geek_network_programming.EpollServer as Epolls
use geek_network_programming.EpollServer.{Event}
use geek_network_programming.EpollServer.Accepting.{is_accept, wakeups, serve-accepts}
use geek_network_programming.EpollServer.Echoing.{
  joins, sends, leaves, breaks, Wakeups, Echoes, Clients, all_events, all_happened, serve-Echoes,
}
use geek_network_programming.Select.{Buffer, alloc_buffer, send, close, set_nonblock, pending}
use geek_network_programming.Select.Server as Selects
use geek_network_programming.Select.Server.{Ready, Table, fresh_table, visit, welcome}
use geek_network_programming.Select.Rounds.{Sound, serve-Sound}
use geek_network_programming.Select.Reuse.{given_up, visit-welcome}
use geek_network_programming.Greeting
use geek_network_programming.Greeting.{close_server_loop, max_line}
use geek_network_programming.Greeting.Dialogue.{
  Message, replies, greetings, body, close_server_loop-greetings,
}
use geek_network_programming.Framing.Delivery.{Delivers, full, piece, htonl, Gives}
use geek_network_programming.Framing.Exchange.{client_loop, server_loop}
use geek_network_programming.Framing.Messages as Messages
use geek_network_programming.Framing.Messages.{
  Line, Arrive, nothing, message, client_loop-server_loop,
}
use geek_network_programming.Strings.{NoZero}

-- A client joins as 5 and sends `ab` in two wake-ups, the second of which is not written, then leaves;
-- the other end of 6 has hung up.
abbrev visitors : Wakeups
visitors =
    some (joins 5 (number 0) (number 0) ∷ [])
    ∷ none
    ∷ some (sends 5 97 [] (number 1) ∷ [])
    ∷ some (
        sends 5 98 [] (failed 32)
        ∷ leaves 5 (number 0) (failed 9)
        ∷ breaks 6 false true true refl (number 0)
        ∷ [])
    ∷ []

visitors-Clients : Clients 3 (all_happened visitors)
visitors-Clients = (tt, (omega arith, (omega arith, (omega arith, (tt, tt)))))

epoll_example : Echoes (Epolls.serve 3 (all_events 3 visitors)) [] (all_happened visitors)
epoll_example = serve-Echoes 3 visitors [] visitors-Clients

accepts_example :
    AtMost is_accept (wakeups 3 (all_events 3 visitors)) (Epolls.serve 3 (all_events 3 visitors))
accepts_example = serve-accepts 3 (all_events 3 visitors)

-- the listener is ready, and then nothing
abbrev knock : List Ready
knock = record { readable = λ i. true; writable = λ i. false } ∷ []

table_example : Ends Sound (Selects.serve 3 knock fresh_table (number 1 ∷ number 5 ∷ number 0 ∷ []))
table_example = serve-Sound 3 knock (number 1 ∷ number 5 ∷ number 0 ∷ [])

-- the client at 5 is not sent its byte
abbrev waiting_client : Buffer
waiting_client = record { fd = 5; stored = 97 ∷ []; read_idx = 0; readable = true }

abbrev crowd : Table
crowd = set (replicate 6 alloc_buffer) 5 waiting_client

crowd_client : get_elem? crowd 5 ≡ some waiting_client
crowd_client = refl

reuse_example :
    (visit 3 false true 5 crowd (failed 104 ∷ number 0 ∷ [])
      ≡ done (given_up crowd 5 waiting_client) [] (send 5 (pending waiting_client) ∷ close 5 ∷ []))
    × (t : Table) × (welcome (given_up crowd 5 waiting_client) (number 5) (number 0 ∷ [])
        ≡ done t [] (set_nonblock 5 ∷ []))
    × (get_elem? t 5 ≡ some waiting_client)
reuse_example =
    visit-welcome 3 5 104 crowd waiting_client (number 0) (number 0) [] [] crowd_client refl
      (omega arith) (omega arith) (omega arith) refl

abbrev one_letter : Message
one_letter = record { first = 97; others = []; taken = 5; text = (omega arith, tt) }

replicate-NoZero : (n : ℕ) → NoZero (replicate n 97)
replicate-NoZero n = letters n
  where
    letters : (n : ℕ) → NoZero (replicate n 97)
    letters zero = tt
    letters (suc n) = (omega arith, letters n)

abbrev many_letters : ℕ → Message
many_letters n = record {
  first = 97;
  others = replicate n 97;
  taken = 0;
  text = (omega arith, replicate-NoZero n);
}

many_letters_long : max_line ≤ length (body (many_letters 4095)) + 4
many_letters_long = omega (arith, length-replicate {A = ℕ} 4095 97)

greeting_example :
    (close_server_loop 4 (replies (one_letter ∷ []) (bytes [] ∷ []))
      ≡ exited 1
          (greetings 4 (one_letter ∷ []) ++ geek_network_programming.Greeting.read 4 max_line ∷ []))
    × (close_server_loop 4 (replies (one_letter ∷ []) (bytes (body (many_letters 4095)) ∷ []))
        ≡ fault (
            greetings 4 (one_letter ∷ [])
            ++ geek_network_programming.Greeting.read 4 max_line ∷ []))
greeting_example =
    close_server_loop-greetings 4 (one_letter ∷ []) (many_letters 4095) [] [] (omega arith, tt)
      many_letters_long

-- the line of one letter
abbrev letter : Line
letter = record {
  text = 97 ∷ [];
  some_ = omega arith;
  short = omega arith;
  chars = (omega arith, tt);
  taken = 9;
}

abbrev letter_replies : List Reply
letter_replies = bytes (0 ∷ 0 ∷ 0 ∷ 1 ∷ []) ∷ bytes (1 ∷ 0 ∷ 0 ∷ 0 ∷ []) ∷ bytes (97 ∷ []) ∷ []

letter_length :
    Delivers 4 (htonl 1) letter_replies (bytes (1 ∷ 0 ∷ 0 ∷ 0 ∷ []) ∷ bytes (97 ∷ []) ∷ [])
unfolding htonl
letter_length = piece 0 (0 ∷ 0 ∷ 1 ∷ []) refl full

letter-Arrive : Arrive (letter ∷ []) letter_replies []
letter-Arrive =
    message letter_length (piece 1 (0 ∷ 0 ∷ 0 ∷ []) refl full) (piece 97 [] refl full) nothing

exchange_example :
    (client_loop 3 (Messages.texts (letter ∷ [])) (Messages.takes (letter ∷ []) [])
      ≡ done tt [] (Messages.sends 3 (letter ∷ [])))
    × Gives (server_loop 1 4 0 letter_replies) (0 + length (letter ∷ [])) []
exchange_example = client_loop-server_loop 3 4 0 (letter ∷ []) [] letter-Arrive

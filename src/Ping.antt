-- ===== src/Ping.antt =====
-- The heartbeats of chap-12: the loops of ping_client.c and ping_server.c behind their set-up.
pub mod Heartbeats
use geek_network_programming.Base.{
  ℕ, zero, suc, ◌+◌, Bool, true, false, List, [], ◌∷◌, ◌++◌, ◌==◌, ltb, if◌then◌else◌, length, take,
  drop,
}
use geek_network_programming.Sys.{
  Reply, number, bytes, failed, is_failed, Outcome, done, exited, blocked, fault, after, Sys,
}
use geek_network_programming.Framing.{ntohl}

abbrev pub msg_ping : ℕ
msg_ping = 1

abbrev pub msg_type1 : ℕ
msg_type1 = 11

abbrev pub msg_type2 : ℕ
msg_type2 = 21

abbrev pub max_line : ℕ
max_line = 4096

abbrev pub keep_alive_time : ℕ
keep_alive_time = 10

abbrev pub keep_alive_interval : ℕ
keep_alive_interval = 3

abbrev pub keep_alive_probe_times : ℕ
keep_alive_probe_times = 3

-- `sizeof(messageObject)`
abbrev pub message_size : ℕ
message_size = 1028

-- `select` with `tv_sec` and `tv_usec`, and the other calls
pub data Call : Type 0 where
  select : (seconds micros : ℕ) → Call
  read : (size : ℕ) → Call
  send : List ℕ → Call
  sleep : ℕ → Call

module _ (ping : List ℕ) (left : ℕ → ℕ) where
  -- The loop of the client, where `ping` is the message with the type MSG_PING. A positive number from
  -- `select` means that the one descriptor of the set is readable. As on Linux, `select` leaves in `tv`
  -- the time that it did not wait, none after a timeout: `left k` are the microseconds that the call
  -- `k` leaves when it finds something. The code sets `tv_sec` only.
  pub client : (k heartbeats seconds micros : ℕ) → Sys Call (Unit {0})
  client k h s u [] = blocked (select s u ∷ [])
  client k h s u (failed e ∷ rs) = exited 1 (select s u ∷ [])
  client k h s u (bytes x ∷ rs) = fault (select s u ∷ [])
  client k h s u (number zero ∷ []) =
      if ltb keep_alive_probe_times (suc h)
      then exited 1 (select s u ∷ [])
      else blocked (select s u ∷ send ping ∷ [])
  client k h s u (number zero ∷ r ∷ rs) =
      let next = client (suc k) (suc h) keep_alive_interval 0 rs in
      if ltb keep_alive_probe_times (suc h)
      then exited 1 (select s u ∷ [])
      else if is_failed r
      then exited 1 (select s u ∷ send ping ∷ [])
      else after (select s u ∷ send ping ∷ []) next
  client k h s u (number (suc n) ∷ []) = blocked (select s u ∷ read max_line ∷ [])
  client k h s u (number (suc n) ∷ failed e ∷ rs) = exited 1 (select s u ∷ read max_line ∷ [])
  client k h s u (number (suc n) ∷ number x ∷ rs) = fault (select s u ∷ read max_line ∷ [])
  client k h s u (number (suc n) ∷ bytes [] ∷ rs) = exited 1 (select s u ∷ read max_line ∷ [])
  client k h s u (number (suc n) ∷ bytes (b ∷ bs) ∷ rs) =
      after (select s u ∷ read max_line ∷ []) (client (suc k) 0 keep_alive_time (left k) rs)

-- what `read` leaves in `message`: the bytes it got, and behind them what was there
abbrev pub received : List ℕ → List ℕ → List ℕ
received got old = got ++ drop (length got) old

-- `message.type`, in the network's order
abbrev pub message_type : List ℕ → ℕ
message_type message = ntohl (take 4 message)

-- `pong_message` with its type MSG_PONG as the assignment stores it, low byte first, and data that
-- nothing sets
abbrev pub pong_message : List ℕ → List ℕ
pong_message junk = 2 ∷ 0 ∷ 0 ∷ 0 ∷ junk

-- The `switch` with the session from the next `read` and that from the `send` of a pong.
pub on_type :
    (kind sleeping_time : ℕ) → (next pong : Outcome Call (Unit {0})) → Outcome Call (Unit {0})
on_type kind sleeping_time next pong =
    if kind == msg_type1
    then after (read message_size ∷ []) next
    else if kind == msg_type2
    then after (read message_size ∷ []) next
    else if kind == msg_ping
    then after (read message_size ∷ sleep sleeping_time ∷ []) pong
    else exited 1 (read message_size ∷ [])

module _ (sleeping_time : ℕ) (junk : List ℕ) where
  -- the session when the server has its answer to the `send` of a pong
  abbrev pub ponged : Reply → Outcome Call (Unit {0}) → Outcome Call (Unit {0})
  ponged r next =
      if is_failed r
      then exited 1 (send (pong_message junk) ∷ [])
      else after (send (pong_message junk) ∷ []) next

  -- The loop of the server, `message` as the last round left it.
  pub server : (message : List ℕ) → Sys Call (Unit {0})
  unfolding on_type
  server m [] = blocked (read message_size ∷ [])
  server m (failed e ∷ rs) = exited 1 (read message_size ∷ [])
  server m (number k ∷ rs) = fault (read message_size ∷ [])
  server m (bytes [] ∷ rs) = exited 1 (read message_size ∷ [])
  server m (bytes (b ∷ bs) ∷ []) =
      let m' = received (b ∷ bs) m in
      on_type (message_type m') sleeping_time (blocked (read message_size ∷ []))
        (blocked (send (pong_message junk) ∷ []))
  server m (bytes (b ∷ bs) ∷ r ∷ rs) =
      let m' = received (b ∷ bs) m in
      let next = server m' (r ∷ rs) in
      let replied = server m' rs in on_type (message_type m') sleeping_time next (ponged r replied)

-- ===== src/Telnet/Client.antt =====
-- The main loop of mid-homework/telnet_client.c: keep-alive probes, messages and typed lines.

pub mod Heartbeat
use geek_network_programming.Base.{
  ℕ, zero, suc, ◌+◌, Bool, true, false, not, ◌&&◌, Option, none, some, List, [], ◌∷◌, ◌++◌, ◌==◌,
  ltb, if◌then◌else◌, ℤ, pos, is_neg, eq_ℤ,
}
use geek_network_programming.Telnet.{Message, msg_ping, msg_pong, msg_text}

abbrev pub keep_alive_time : ℕ
keep_alive_time = 10

abbrev pub keep_alive_interval : ℕ
keep_alive_interval = 3

abbrev pub keep_alive_probe_times : ℕ
keep_alive_probe_times = 3

-- the variables that outlive a round: `heartbeats` and `tv.tv_sec`, which a round that finds something
-- sets back to what they are at first, and `tv.tv_usec`, which only select() changes
pub record State : Type 0 where
  pub heartbeats : ℕ
  pub seconds : ℕ
  pub micros : ℕ

abbrev pub start : State
start = record { heartbeats = 0; seconds = keep_alive_time; micros = 0 }

-- What the socket gives in a round, if it is readable: what read() returned, and the message.
pub record Received : Type 0 where
  pub result : ℤ
  pub message : Message

-- What the terminal gives, if it is readable: a line (`none` at its end), whether shutdown() fails if
-- it is called, and what send() returns if it is called.
pub record Typed : Type 0 where
  pub line : Option (List ℕ)
  pub sent : ℤ

-- What select() finds in a round: a failure, nothing within the time (with what the probe's send()
-- would return), or readable descriptors, with the microseconds left in `tv`. As on Linux, select()
-- leaves in `tv` the time that it did not wait, which is none after a timeout.
pub data Round : Type 0 where
  failed : Round
  timeout : ℤ → Round
  ready : (left : ℕ) → Option Received → Option Typed → Round

-- what a round does that the other end or the user sees
pub data Action : Type 0 where
  send : Message → Action
  shutdown : Action
  show_pong : Action
  show_text : List ℕ → Action
  show_unknown : Action

-- How a round ends: with the next one, with `break`, or with an exit.
pub data Step : Type 0 where
  continue : State → List Action → Step
  stop : List Action → Step
  exit : ℕ → List Action → Step

-- `strncmp(line, "quit", 4) == 0`
abbrev pub starts_with : List ℕ → List ℕ → Bool
starts_with [] line = true
starts_with (c ∷ cs) [] = false
starts_with (c ∷ cs) (d ∷ line) = c == d && starts_with cs line

abbrev pub quit : List ℕ
quit = b'q' ∷ b'u' ∷ b'i' ∷ b't' ∷ []

-- the `switch` on the type of a message; a read() that failed leaves the zeroed message
pub show : Received → List Action
show r =
    if is_neg r.result
    then show_unknown ∷ []
    else if r.message.type == msg_pong
    then show_pong ∷ []
    else if r.message.type == msg_text
    then show_text r.message.text ∷ []
    else show_unknown ∷ []

-- the part of a round for the terminal, after the actions `t`
pub typed_line : State → List Action → Option (List ℕ) → ℤ → Step
typed_line s t none sent = continue s t
typed_line s t (some line) sent =
    let down = if starts_with quit line then shutdown ∷ [] else [] in
    let out = t ++ (down ++ send (record { type = msg_text; text = line }) ∷ []) in
    if eq_ℤ sent (pos 0) then stop out else continue s out

pub typed : State → List Action → Option Typed → Step
unfolding typed_line
typed s t none = continue s t
typed s t (some k) = typed_line s t k.line k.sent

-- a round of the loop of `main`
pub round : State → Round → Step
unfolding show typed
round s failed = exit 1 []
round s (timeout sent) =
    if ltb keep_alive_probe_times (s.heartbeats + 1)
    then exit 1 []
    else (let probe : List Action = send (record { type = msg_ping; text = [] }) ∷ [] in
        if eq_ℤ sent (pos 0)
        then stop probe
        else continue
            (record { heartbeats = s.heartbeats + 1; seconds = keep_alive_interval; micros = 0 })
            probe)
round s (ready left none keyboard) = typed (record start { micros = left }) [] keyboard
round s (ready left (some r) keyboard) =
    if eq_ℤ r.result (pos 0)
    then stop []
    else typed (record start { micros = left }) (show r) keyboard

-- The loop over the rounds that select() finds. `waiting`: it stands in select();
-- `stopped`: main returns EXIT_SUCCESS behind the loop.
pub data End : Type 0 where
  waiting : State → List Action → End
  stopped : List Action → End
  exited : ℕ → List Action → End

abbrev pub after : List Action → End → End
after t (waiting s u) = waiting s (t ++ u)
after t (stopped u) = stopped (t ++ u)
after t (exited n u) = exited n (t ++ u)

pub proceed : (State → End) → Step → End
proceed next (continue s t) = after t (next s)
proceed next (stop t) = stopped t
proceed next (exit n t) = exited n t

pub loop : State → List Round → End
unfolding round proceed
loop s [] = waiting s []
loop s (r ∷ rs) = proceed (λ s'. loop s' rs) (round s r)

-- ===== src/Telnet/Server.antt =====
-- The session of mid-homework/telnet_server.c with one client: pings, and the commands of its shell.
pub mod Session
pub mod Listening
pub mod Output
use geek_network_programming.Base.{
  ℕ, zero, suc, ◌+◌, ◌-◌, Bool, true, false, not, ◌&&◌, ◌||◌, Option, none, some, List, [], ◌∷◌,
  ◌++◌, ◌==◌, ltb, leb, if◌then◌else◌, ℤ, pos, minus_one, is_neg, eq_ℤ, length, take, drop,
}
use geek_network_programming.Telnet.{Message, msg_ping, msg_pong, msg_text}
use geek_network_programming.Telnet.Client.{starts_with, quit}

abbrev pub max_line : ℕ
max_line = 4096

abbrev pub path_size : ℕ
path_size = 256

-- What the system gives for one request: the output of `ls`, the working directory, whether chdir()
-- succeeds on a path, what the reply's buffer holds before it is written, and what send() returns.
pub record System : Type 0 where
  pub listing : List ℕ
  pub directory : List ℕ
  pub can_enter : List ℕ → Bool
  pub junk : List ℕ
  pub sent : ℤ

pub data Action : Type 0 where
  send : Message → Action
  chdir : List ℕ → Action

-- What a command comes to: the calls and the result of `execute_cmd`, or undefined behaviour.
pub data Ran : Type 0 where
  ran : ℤ → List Action → Ran
  fault : List Action → Ran

abbrev pub ls : List ℕ
ls = b'l' ∷ b's' ∷ []

abbrev pub pwd : List ℕ
pwd = b'p' ∷ b'w' ∷ b'd' ∷ []

abbrev pub cd : List ℕ
cd = b'c' ∷ b'd' ∷ []

abbrev pub good_bye : List ℕ
good_bye = b'g' ∷ b'o' ∷ b'o' ∷ b'd' ∷ b' ' ∷ b'b' ∷ b'y' ∷ b'e' ∷ b'!' ∷ []

-- "unknow command"
abbrev pub unknown_command : List ℕ
unknown_command =
    b'u' ∷ b'n' ∷ b'k' ∷ b'n' ∷ b'o' ∷ b'w' ∷ b' ' ∷ b'c' ∷ b'o' ∷ b'm' ∷ b'm' ∷ b'a' ∷ b'n' ∷ b'd'
    ∷ []

-- "change dir failed"
abbrev pub change_failed : List ℕ
change_failed =
    b'c' ∷ b'h' ∷ b'a' ∷ b'n' ∷ b'g' ∷ b'e' ∷ b' ' ∷ b'd' ∷ b'i' ∷ b'r' ∷ b' ' ∷ b'f' ∷ b'a' ∷ b'i'
    ∷ b'l' ∷ b'e' ∷ b'd' ∷ []

abbrev pub reply : List ℕ → Action
reply text = send (record { type = msg_text; text = text })

-- the last call of `execute_cmd`, and its result, after the calls `t`
pub answer : System → List Action → List ℕ → Ran
answer sys t text = ran (if eq_ℤ sys.sent (pos 0) then minus_one else pos 1) (t ++ reply text ∷ [])

-- `strcpy` of a text into the reply's buffer
pub answer_copy : System → List ℕ → Ran
answer_copy sys text = if leb max_line (length text) then fault [] else answer sys [] text

-- `cd`: all but the first three bytes and the last go into the path. With less than four bytes the
-- count of memcpy() wraps around, and with 260 or more the path has no room for them and for a zero
-- byte, which chdir() reads to. A command that succeeds leaves the reply's buffer as it was.
pub change_directory : System → List ℕ → Ran
change_directory sys cmd =
    if ltb (length cmd) 4 || leb path_size (length cmd - 4)
    then fault []
    else (let path = take (length cmd - 4) (drop 3 cmd) in
        answer sys (chdir path ∷ []) (if sys.can_enter path then sys.junk else change_failed))

-- `execute_cmd`
pub execute_cmd : System → List ℕ → Ran
execute_cmd sys cmd =
    if starts_with quit cmd
    then ran minus_one (reply good_bye ∷ [])
    else if starts_with ls cmd
    then answer_copy sys sys.listing
    else if starts_with pwd cmd
    then answer_copy sys sys.directory
    else if starts_with cd cmd
    then change_directory sys cmd
    else answer sys [] unknown_command

-- What read() gives: a failure, the end, or a message (with the system for the work on it).
pub data Input : Type 0 where
  failed : Input
  closed : Input
  got : Message → System → Input

-- how `handle_client_request` stands: it waits for input, has come to its end, or has gone wrong
pub data End : Type 0 where
  waiting : List Action → End
  ended : List Action → End
  faulted : List Action → End

abbrev pub after : List Action → End → End
after t (waiting u) = waiting (t ++ u)
after t (ended u) = ended (t ++ u)
after t (faulted u) = faulted (t ++ u)

-- `flag` after a request is set by the result of what was done for it.
pub go_on : Bool → List Action → End → End
go_on flag t next = if flag then after t next else ended t

pub after_command : Ran → End → End
unfolding go_on
after_command (ran result t) next = go_on (not (is_neg result)) t next
after_command (fault t) next = faulted t

-- the loop of `handle_client_request`
unfoldable pub handle_client_request : List Input → End
unfolding go_on after_command
handle_client_request [] = waiting []
handle_client_request (failed ∷ ins) = handle_client_request ins
handle_client_request (closed ∷ ins) = ended []
handle_client_request (got m sys ∷ ins) =
    let next = handle_client_request ins in
    if m.type == msg_ping
    then go_on (not (eq_ℤ sys.sent (pos 0))) (send (record m { type = msg_pong }) ∷ []) next
    else if m.type == msg_text
    then after_command (execute_cmd sys m.text) next
    else next

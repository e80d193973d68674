-- ===== src/Greeting/Dialogue.antt =====
-- What the server of chap-11/close_server.c answers, message by message.
use geek_network_programming.Base.{
  ℕ, ◌+◌, ◌≤◌, ◌<◌, ◌≡◌, refl, List, [], ◌∷◌, ◌++◌, ltb, if◌then◌else◌, arith, length,
}
use geek_network_programming.Base.Result.{Result, ok}
use geek_network_programming.Sys.{Reply, number, bytes, exited, fault}
use geek_network_programming.Strings.{NoZero, c_string-append}
use geek_network_programming.Greeting.{
  Call, read, send, max_line, hi, greet, greet_message, close_server_loop,
}

-- The greeting has four bytes more than the message, and a zero byte behind them.
greet_message_lem :
    (size : ℕ) (bs : List ℕ)
    → NoZero bs
    → greet_message size bs ≡ (if ltb (length bs + 4) size then ok (hi ++ bs) else Result.fault)
unfolding greet_message greet
greet_message_lem size bs n = ground (arith, c_string-append bs [] n)

pub greet_fits :
    (size : ℕ) (bs : List ℕ)
    → NoZero bs
    → length bs + 4 < size
    → greet_message size bs ≡ ok (hi ++ bs)
greet_fits size bs n lt = ground (arith, greet_message_lem size bs n)

greet_overflow :
    (size : ℕ) (bs : List ℕ)
    → NoZero bs
    → size ≤ length bs + 4
    → greet_message size bs ≡ Result.fault
greet_overflow size bs n le = ground (arith, greet_message_lem size bs n)

-- A message, its bytes not zero, with what the send() of the greeting returns.
pub record Message : Type 0 where
  pub first : ℕ
  pub others : List ℕ
  pub taken : ℕ
  pub text : NoZero (first ∷ others)

abbrev pub body : Message → List ℕ
body m = m.first ∷ m.others

-- the replies to a session that begins with the messages
abbrev pub replies : List Message → List Reply → List Reply
replies [] rs = rs
replies (m ∷ ms) rs = bytes (body m) ∷ number m.taken ∷ replies ms rs

abbrev pub greetings : ℕ → List Message → List Call
greetings fd [] = []
greetings fd (m ∷ ms) = read fd max_line ∷ send fd (hi ++ body m) ∷ greetings fd ms

-- Every message leaves room for the greeting.
abbrev pub Short : List Message → Type 0
Short [] = Unit {0}
Short (m ∷ ms) = (length (body m) + 4 < max_line) × Short ms

-- The server of chap-11 answers each message that leaves room, whose bytes are not zero, with the
-- greeting in front of it, in order; then a client that closes ends it with status 1, and a
-- message of 4092 bytes or more makes it write outside its arrays.
pub close_server_loop-greetings :
    (fd : ℕ) (ms : List Message) (m : Message) (rs rs' : List Reply)
    → Short ms
    → max_line ≤ length (body m) + 4
    → (close_server_loop fd (replies ms (bytes [] ∷ rs))
        ≡ exited 1 (greetings fd ms ++ read fd max_line ∷ []))
      × (close_server_loop fd (replies ms (bytes (body m) ∷ rs'))
          ≡ fault (greetings fd ms ++ read fd max_line ∷ []))
unfolding close_server_loop
close_server_loop-greetings fd [] m rs [] p le =
    (refl, rw (greet_overflow max_line (body m) m.text le) refl)
close_server_loop-greetings fd [] m rs (r ∷ rs') p le =
    (refl, rw (greet_overflow max_line (body m) m.text le) refl)
close_server_loop-greetings fd (k ∷ ms) m rs rs' (lt, p) le =
    let (end, over) = close_server_loop-greetings fd ms m rs rs' p le in
    let line = greet_fits max_line (body k) k.text lt in (rw (line, end), rw (line, over))

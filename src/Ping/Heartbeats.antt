-- ===== src/Ping/Heartbeats.antt =====
-- What the two loops of the heartbeats send.
use geek_network_programming.Base.{
  ℕ, suc, ◌*◌, ◌^◌, ◌≡◌, refl, Bool, true, false, if◌then◌else◌, List, [], ◌∷◌, ◌++◌, ◌==◌,
}
use geek_network_programming.Sys.{
  Reply, number, bytes, failed, is_failed, Outcome, done, exited, blocked, fault, after, trace,
}
use geek_network_programming.Framing.{ntohl}
use geek_network_programming.Ping.{
  Call, select, read, send, sleep, server, on_type, keep_alive_time, keep_alive_interval, max_line,
  pong_message, received, message_type, message_size,
}

-- The replies while the server answers every read: each time with a non-empty piece.
abbrev pub answered : List (ℕ × List ℕ) → List Reply → List Reply
answered [] rs = rs
answered (piece ∷ ps) rs = number 1 ∷ bytes (piece.0 ∷ piece.1) ∷ answered ps rs

-- three timeouts whose pings are sent, and a fourth
abbrev pub silence : (a b c : ℕ) → List Reply → List Reply
silence a b c rs = number 0 ∷ number a ∷ number 0 ∷ number b ∷ number 0 ∷ number c ∷ number 0 ∷ rs

-- the calls when the first select() begins with `u` microseconds in `tv`
abbrev pub probes : List ℕ → ℕ → List Call
probes ping u =
    select keep_alive_time u
    ∷ send ping
    ∷ select keep_alive_interval 0
    ∷ send ping
    ∷ select keep_alive_interval 0
    ∷ send ping
    ∷ select keep_alive_interval 0
    ∷ []

-- the calls while the server answers, and then those of the silence
abbrev pub waits : List ℕ → (ℕ → ℕ) → (k u : ℕ) → List (ℕ × List ℕ) → List Call
waits ping left k u [] = probes ping u
waits ping left k u (piece ∷ ps) =
    select keep_alive_time u ∷ read max_line ∷ waits ping left (suc k) (left k) ps

-- the value of MSG_PONG with its four bytes in the opposite order
abbrev pub swapped_pong : ℕ
swapped_pong = 2 * 256 ^ 3

-- every message that a run sends has that type for its receiver
abbrev pub Types : List Call → Type 0
Types [] = Unit
Types (send m ∷ t) = (message_type m ≡ swapped_pong) × Types t
Types (select s u ∷ t) = Types t
Types (read n ∷ t) = Types t
Types (sleep n ∷ t) = Types t

Types-append : (t u : List Call) → Types t → Types u → Types (t ++ u)
Types-append [] u x y = y
Types-append (send m ∷ t) u (a, x) y = (a, Types-append t u x y)
Types-append (select s n ∷ t) u x y = Types-append t u x y
Types-append (read n ∷ t) u x y = Types-append t u x y
Types-append (sleep n ∷ t) u x y = Types-append t u x y

abbrev pub Swapped : Outcome Call (Unit {0}) → Type 0
Swapped o = Types (trace o)

after-Swapped :
    (t : List Call) (o : Outcome Call (Unit {0})) → Types t → Swapped o → Swapped (after t o)
after-Swapped t (done a rs u) x y = Types-append t u x y
after-Swapped t (exited s u) x y = Types-append t u x y
after-Swapped t (blocked u) x y = Types-append t u x y
after-Swapped t (fault u) x y = Types-append t u x y

if-Swapped :
    (b : Bool) (x y : Outcome Call (Unit {0}))
    → Swapped x
    → Swapped y
    → Swapped (if b then x else y)
if-Swapped true x y p q = p
if-Swapped false x y p q = q

on_type-Swapped :
    (kind sleeping_time : ℕ) (next pong : Outcome Call (Unit {0}))
    → Swapped next
    → Swapped pong
    → Swapped (on_type kind sleeping_time next pong)
unfolding on_type
on_type-Swapped kind sleeping_time next pong p q =
    if-Swapped (kind == 11) _ _ (after-Swapped (read message_size ∷ []) next tt p) (
      if-Swapped (kind == 21) _ _ (after-Swapped (read message_size ∷ []) next tt p) (
        if-Swapped (kind == 1) _ _
          (after-Swapped (read message_size ∷ sleep sleeping_time ∷ []) pong tt q) tt))

-- In every run of the ping server, each message it sends has a type that its receiver reads as
-- 33554432: the bytes of MSG_PONG in the opposite order, not the 2 of MSG_PONG.
pub server-Swapped :
    (sleeping_time : ℕ) (junk m : List ℕ) (rs : List Reply)
    → Swapped (server sleeping_time junk m rs)
unfolding server ntohl
server-Swapped z junk m [] = tt
server-Swapped z junk m (failed e ∷ rs) = tt
server-Swapped z junk m (number k ∷ rs) = tt
server-Swapped z junk m (bytes [] ∷ rs) = tt
server-Swapped z junk m (bytes (b ∷ bs) ∷ []) =
    on_type-Swapped (message_type (received (b ∷ bs) m)) z (blocked (read message_size ∷ []))
      (blocked (send (pong_message junk) ∷ [])) tt (refl, tt)
server-Swapped z junk m (bytes (b ∷ bs) ∷ r ∷ rs) =
    let m' = received (b ∷ bs) m in
    on_type-Swapped (message_type m') z _ _ (server-Swapped z junk m' (r ∷ rs)) (
      if-Swapped (is_failed r) _ _ (refl, tt)
        (after-Swapped (send (pong_message junk) ∷ []) (server z junk m' rs) (refl, tt)
          (server-Swapped z junk m' rs)))

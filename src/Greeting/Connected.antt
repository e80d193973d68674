-- ===== src/Greeting/Connected.antt =====
-- The end of main in chap-14/udp_connect_server.c.
use geek_network_programming.Base.{ℕ, zero, suc, List, [], ◌∷◌, ◌++◌, ltb, length}
use geek_network_programming.Sys.{
  either, lift, Reply, number, bytes, failed, blocked, fault, Sys, pure, ◌>>=◌, call, exit,
  is_failed,
}
use geek_network_programming.Strings.{c_string, overwrite, starts_with}
use geek_network_programming.Greeting.{Call, recvfrom, send, connect, max_line, greet}

-- `goodbye`
abbrev pub goodbye : List ℕ
goodbye = b'g' ∷ b'o' ∷ b'o' ∷ b'd' ∷ b'b' ∷ b'y' ∷ b'e' ∷ []

-- `message` after a recv(): a failed one leaves it, since -1 as a `size_t` is not below 0
abbrev pub received : List ℕ → Reply → List ℕ
received arr (bytes bs) = overwrite bs arr
received arr _ = arr

-- The `while`, for `rounds` visits of its test. `arr` is `message`, of which a message covers only
-- its length from the second on. A send that fails is not found out either.
unfoldable pub connected_loop : (rounds fd : ℕ) → (arr : List ℕ) → Sys Call (Unit {0})
connected_loop zero fd arr = λ rs. blocked []
connected_loop (suc f) fd arr = lift (c_string arr) >>= λ s.
    either (starts_with goodbye s) (pure tt) (
      lift (greet max_line arr) >>= λ line. call (send fd line) >>= λ _.
      call (recvfrom fd max_line) >>= λ r. connected_loop f fd (received arr r))

-- the run from the first message on; `fill` is what `message` holds before
unfoldable pub connected_server : (rounds fd : ℕ) → (fill : List ℕ) → Reply → Sys Call (Unit {0})
connected_server f fd fill (failed e) = exit 1
connected_server f fd fill (number n) = λ rs. fault []
connected_server f fd fill (bytes bs) =
    either (ltb (length bs) max_line)
      (call (connect fd) >>= λ c.
        either (is_failed c) (exit 1) (connected_loop f fd (overwrite (bs ++ 0 ∷ []) fill)))
      (λ rs. fault [])

-- main behind the set-up of the socket
unfoldable pub main : (rounds fd : ℕ) → (fill : List ℕ) → Sys Call (Unit {0})
main f fd fill = call (recvfrom fd max_line) >>= connected_server f fd fill

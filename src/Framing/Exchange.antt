-- ===== src/Framing/Exchange.antt =====
-- The loops of main in chap-16/tcp_explicit_length_client.c and chap-16/tcp_explicit_length_server.c.
-- Printing is left out.
use geek_network_programming.Base.{
  ℕ, zero, suc, ◌+◌, List, [], ◌∷◌, ◌++◌, pos, is_neg, eq_ℤ, length,
}
use geek_network_programming.Sys.{either, lift, Sys, pure, ◌>>=◌, call, exit, is_failed}
use geek_network_programming.Strings.{c_string}
use geek_network_programming.Framing.{Call, send, read_message}
use geek_network_programming.Framing.Delivery.{htonl}

-- `message` up to the end of its text: the length by htonl(), the type 1 as a little-endian machine has
-- it, and the text
unfoldable pub message_of : List ℕ → List ℕ
message_of s = htonl (length s) ++ ((1 ∷ 0 ∷ 0 ∷ 0 ∷ []) ++ s)

-- the `while` of the client, by the lines that fgets() reads
unfoldable pub client_loop : ℕ → List (List ℕ) → Sys Call (Unit {0})
unfolding message_of
client_loop fd [] = pure tt
client_loop fd (line ∷ lines) = lift (c_string (line ++ 0 ∷ [])) >>= λ s.
    call (send fd (message_of s)) >>= λ r. either (is_failed r) (exit 1) (client_loop fd lines)

abbrev pub buf_size : ℕ
buf_size = 128

-- The `while (1)` of the server, for at most `rounds` messages; the result is the variable `count`.
unfoldable pub server_loop : (rounds fd count : ℕ) → Sys Call ℕ
server_loop zero fd count = pure count
server_loop (suc f) fd count = read_message fd buf_size >>= λ (n, buf).
    either (is_neg n) (exit 1) (either (eq_ℤ n (pos 0)) (exit 1) (server_loop f fd (count + 1)))

-- ===== src/Sockets/Hello.antt =====
-- What the clients of chap-4/make_socket.c get.
use geek_network_programming.Base.{◌≡◌, refl, List, [], ◌∷◌, ℤ, length}
use geek_network_programming.Sys.{Reply, done}
use geek_network_programming.Sockets.Untested.{Call, accept, send, close, result, hello, hello_loop}

-- a round: what accept(), send() and close() return
pub record Round : Type 0 where
  pub accepted : Reply
  pub sent : Reply
  pub closed : Reply

abbrev pub round_replies : List Round → List Reply → List Reply
round_replies [] rest = rest
round_replies (r ∷ rs) rest = r.accepted ∷ r.sent ∷ r.closed ∷ round_replies rs rest

abbrev pub round_calls : ℤ → List Round → List Call
round_calls sock [] = []
round_calls sock (r ∷ rs) =
    accept sock ∷ send (result r.accepted) hello ∷ close (result r.accepted) ∷ round_calls sock rs

-- Whatever accept(), send() and close() return, each round of make_socket.c sends its text to what
-- accept() returned and closes that, also where it is -1.
pub hello_loop-rounds :
    (sock : ℤ) (rs : List Round) (rest : List Reply)
    → hello_loop (length rs) sock (round_replies rs rest) ≡ done tt rest (round_calls sock rs)
unfolding hello_loop
hello_loop-rounds sock [] rest = refl
hello_loop-rounds sock (r ∷ rs) rest = rw (hello_loop-rounds sock rs rest) refl

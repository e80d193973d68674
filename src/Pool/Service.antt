-- ===== src/Pool/Service.antt =====
-- Which connections the pool takes and serves.
use geek_network_programming.Base.{
  ℕ, zero, suc, ◌≡◌, refl, Option, List, [], ◌∷◌, ◌++◌, length, replicate,
}
use geek_network_programming.Sys.{trace-after, Reply, number, bytes, failed, done, trace}
use geek_network_programming.Echo
use geek_network_programming.Echo.{connection_loop, rot13_char}
use geek_network_programming.Echo.Session.{
  Piece, replies, sent, answer, writes, closed, reads, connection_loop-replies, writes-append,
  closed-append, reads-append,
}
use geek_network_programming.Pool.{
  Call, create, accept, push, accept_loop, main, thread_num, thread_run,
}

abbrev pub pushed : List Call → List ℕ
pushed [] = []
pushed (create ∷ t) = pushed t
pushed (accept ∷ t) = pushed t
pushed (push fd ∷ t) = fd ∷ pushed t

-- the descriptors that accept() has returned
abbrev pub accepted : List Reply → List ℕ
accepted [] = []
accepted (failed e ∷ rs) = accepted rs
accepted (number fd ∷ rs) = fd ∷ accepted rs
accepted (bytes x ∷ rs) = []

accept_loop-pushed : (rs : List Reply) → pushed (trace (accept_loop rs)) ≡ accepted rs
unfolding accept_loop
accept_loop-pushed [] = refl
accept_loop-pushed (failed e ∷ rs) =
    rw (trace-after (accept ∷ []) (accept_loop rs)) (accept_loop-pushed rs)
accept_loop-pushed (number fd ∷ rs) =
    rw (trace-after (accept ∷ push fd ∷ []) (accept_loop rs), accept_loop-pushed rs) refl
accept_loop-pushed (bytes x ∷ rs) = refl

pushed-replicate : (n : ℕ) (t : List Call) → pushed (replicate n create ++ t) ≡ pushed t
pushed-replicate zero t = refl
pushed-replicate (suc n) t = pushed-replicate n t

-- Whatever accept() replies, main of the pool server pushes into the queue the descriptors that
-- accept() returned, each once and in order.
pub main-pushed : (n : Option ℕ) (rs : List Reply) → pushed (trace (main n rs)) ≡ accepted rs
unfolding main
main-pushed n rs =
    rw
      (
        trace-after (replicate (thread_num n) create) (accept_loop rs),
        pushed-replicate (thread_num n) (trace (accept_loop rs)),
      )
      (accept_loop-pushed rs)

-- A connection: its descriptor, the pieces that the client sends, and what close() returns.
pub record Connection : Type 0 where
  pub fd : ℕ
  pub pieces : List Piece
  pub closed : ℕ

abbrev pub all_replies : List Connection → List Reply → List Reply
all_replies [] rest = rest
all_replies (c ∷ cs) rest = replies c.pieces c.closed (all_replies cs rest)

-- the answers to the clients, and the descriptors read from
abbrev pub answers : List Connection → List (ℕ × ℕ)
answers [] = []
answers (c ∷ cs) = answer c.fd (sent c.pieces) ++ answers cs

abbrev pub all_reads : List Connection → List ℕ
all_reads [] = []
all_reads (c ∷ cs) = replicate (suc (length c.pieces)) c.fd ++ all_reads cs

abbrev pub descriptors : List Connection → List ℕ
descriptors [] = []
descriptors (c ∷ cs) = c.fd ∷ descriptors cs

-- A thread of the pool that pops the descriptors of some connections serves them one after the
-- other: it writes the rotation of all that each client sends to the descriptor of that client, in
-- order, and nothing else, reads from each descriptor as often as there are pieces and once more,
-- closes the descriptors once each, in order, and takes no reply that follows.
pub thread_run-all_replies :
    (cs : List Connection) (rest : List Reply)
    → (t : List geek_network_programming.Echo.Call) × (thread_run
          (descriptors cs)
          (all_replies cs rest)
        ≡ done tt rest t)
      × (writes t ≡ answers cs)
      × (closed t ≡ descriptors cs)
      × (reads t ≡ all_reads cs)
unfolding thread_run
thread_run-all_replies [] rest = ([], refl, refl, refl, refl)
thread_run-all_replies (c ∷ cs) rest =
    let (t, run, out, one, in_) =
      connection_loop-replies c.fd c.pieces c.closed (all_replies cs rest) in
    let (u, runs, outs, ones, ins) = thread_run-all_replies cs rest in
    (
      t ++ u,
      rw (run, runs) refl,
      rw (writes-append t u, out, outs) refl,
      rw (closed-append t u, one, ones) refl,
      rw (reads-append t u, in_, ins) refl,
    )

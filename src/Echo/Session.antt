-- ===== src/Echo/Session.antt =====
-- A session with one client, from its first bytes to the close.
use geek_network_programming.Base.{
  append_assoc, ℕ, suc, length, replicate, ◌+◌, ◌≤◌, ◌≡◌, refl, List, [], ◌∷◌, ◌++◌, map, arith,
}
use geek_network_programming.Sys.{
  Reply, number, bytes, failed, Outcome, done, exited, blocked, fault, after,
}
use geek_network_programming.Echo.{Call, read, write, close, max_line, rot13_char, connection_loop}

-- A piece that one read() gets, with what the write() of the answer returns.
pub record Piece : Type 0 where
  pub first : ℕ
  pub others : List ℕ
  pub written : ℕ

abbrev pub piece_bytes : Piece → List ℕ
piece_bytes p = p.first ∷ p.others

-- the replies of a session that sends the pieces and then closes
abbrev pub replies : List Piece → ℕ → List Reply → List Reply
replies [] n rest = bytes [] ∷ number n ∷ rest
replies (p ∷ ps) n rest = bytes (piece_bytes p) ∷ number p.written ∷ replies ps n rest

abbrev pub sent : List Piece → List ℕ
sent [] = []
sent (p ∷ ps) = piece_bytes p ++ sent ps

-- all that a trace writes, and how often it closes
abbrev pub written : List Call → List ℕ
written [] = []
written (write fd bs ∷ t) = bs ++ written t
written (read fd n ∷ t) = written t
written (close fd ∷ t) = written t

abbrev pub closes : List Call → ℕ
closes [] = 0
closes (close fd ∷ t) = 1 + closes t
closes (read fd n ∷ t) = closes t
closes (write fd bs ∷ t) = closes t

-- the bytes that a trace writes, each with the descriptor that it is written to
abbrev pub writes : List Call → List (ℕ × ℕ)
writes [] = []
writes (write fd bs ∷ t) = map (λ b. (fd, b)) bs ++ writes t
writes (read fd n ∷ t) = writes t
writes (close fd ∷ t) = writes t

-- the descriptors that it closes, and those that it reads from
abbrev pub closed : List Call → List ℕ
closed [] = []
closed (close fd ∷ t) = fd ∷ closed t
closed (read fd n ∷ t) = closed t
closed (write fd bs ∷ t) = closed t

abbrev pub reads : List Call → List ℕ
reads [] = []
reads (read fd n ∷ t) = fd ∷ reads t
reads (write fd bs ∷ t) = reads t
reads (close fd ∷ t) = reads t

-- the answer of the service at `fd` to some bytes
abbrev pub answer : ℕ → List ℕ → List (ℕ × ℕ)
answer fd bs = map (λ b. (fd, b)) (map rot13_char bs)

answer-append : (fd : ℕ) (xs ys : List ℕ) → answer fd (xs ++ ys) ≡ answer fd xs ++ answer fd ys
answer-append fd [] ys = refl
answer-append fd (x ∷ xs) ys = rw (answer-append fd xs ys) refl

-- The echo service at a descriptor, for a client that sends any pieces and then closes, writes to
-- that descriptor the rotation of all that was sent, in order, and nothing to another, closes it
-- once and no other, reads from it once for each piece and once for the end and from no other, and
-- takes no reply that follows.
pub connection_loop-replies :
    (fd : ℕ) (ps : List Piece) (n : ℕ) (rest : List Reply)
    → (t : List Call) × (connection_loop fd (replies ps n rest) ≡ done tt rest t)
      × (writes t ≡ answer fd (sent ps))
      × (closed t ≡ fd ∷ [])
      × (reads t ≡ replicate (suc (length ps)) fd)
unfolding connection_loop
connection_loop-replies fd [] n rest = (read fd max_line ∷ close fd ∷ [], refl, refl, refl, refl)
connection_loop-replies fd (p ∷ ps) n rest =
    let (t, run, out, one, in_) = connection_loop-replies fd ps n rest in
    (
      read fd max_line ∷ write fd (map rot13_char (piece_bytes p)) ∷ t,
      rw run,
      rw (out, answer-append fd (piece_bytes p) (sent ps)) refl,
      one,
      rw in_ refl,
    )

pub writes-append : (t u : List Call) → writes (t ++ u) ≡ writes t ++ writes u
writes-append [] u = refl
writes-append (read fd n ∷ t) u = writes-append t u
writes-append (write fd bs ∷ t) u = rw (writes-append t u, append_assoc) refl
writes-append (close fd ∷ t) u = writes-append t u

pub closed-append : (t u : List Call) → closed (t ++ u) ≡ closed t ++ closed u
closed-append [] u = refl
closed-append (read fd n ∷ t) u = closed-append t u
closed-append (write fd n ∷ t) u = closed-append t u
closed-append (close fd ∷ t) u = rw (closed-append t u) refl

pub reads-append : (t u : List Call) → reads (t ++ u) ≡ reads t ++ reads u
reads-append [] u = refl
reads-append (read fd n ∷ t) u = rw (reads-append t u) refl
reads-append (write fd n ∷ t) u = reads-append t u
reads-append (close fd ∷ t) u = reads-append t u

pub written-append : (t u : List Call) → written (t ++ u) ≡ written t ++ written u
written-append [] u = refl
written-append (read fd n ∷ t) u = written-append t u
written-append (write fd bs ∷ t) u = rw (written-append t u, append_assoc) refl
written-append (close fd ∷ t) u = written-append t u

pub closes-append : (t u : List Call) → closes (t ++ u) ≡ closes t + closes u
closes-append [] u = omega arith
closes-append (read fd n ∷ t) u = closes-append t u
closes-append (write fd n ∷ t) u = closes-append t u
closes-append (close fd ∷ t) u = omega (arith, closes-append t u)

-- How often a run has closed: once if it has come to its end, never if it exits, which it does with
-- status 1, or meets a reply that no such call has; at most once if it waits for a reply.
abbrev pub Closed : Outcome Call (Unit {0}) → Type 0
Closed (done a rs t) = closes t ≡ 1
Closed (exited s t) = (s ≡ 1) × (closes t ≡ 0)
Closed (blocked t) = closes t ≤ 1
Closed (fault t) = closes t ≡ 0

after-Closed :
    (t : List Call) (o : Outcome Call (Unit {0})) → closes t ≡ 0 → Closed o → Closed (after t o)
after-Closed t (done a rs u) e c = omega (arith, closes-append t u)
after-Closed t (exited s u) e c = omega (arith, closes-append t u)
after-Closed t (blocked u) e c = omega (arith, closes-append t u)
after-Closed t (fault u) e c = omega (arith, closes-append t u)

-- Whatever the kernel replies, a session of the echo service that comes to its end has closed its
-- descriptor exactly once, one that exits has not closed it and exits with status 1, and one that
-- waits has closed it at most once.
pub connection_loop-Closed : (fd : ℕ) (rs : List Reply) → Closed (connection_loop fd rs)
unfolding connection_loop
connection_loop-Closed fd [] = omega arith
connection_loop-Closed fd (number n ∷ rs) = refl
connection_loop-Closed fd (failed e ∷ rs) = (refl, refl)
connection_loop-Closed fd (bytes [] ∷ []) = omega arith
connection_loop-Closed fd (bytes [] ∷ r ∷ rs) = refl
connection_loop-Closed fd (bytes (b ∷ bs) ∷ []) = omega arith
connection_loop-Closed fd (bytes (b ∷ bs) ∷ failed e ∷ rs) = (refl, refl)
connection_loop-Closed fd (bytes (b ∷ bs) ∷ number n ∷ rs) =
    after-Closed (read fd max_line ∷ write fd (map rot13_char (b ∷ bs)) ∷ [])
      (connection_loop fd rs) refl (connection_loop-Closed fd rs)
connection_loop-Closed fd (bytes (b ∷ bs) ∷ bytes x ∷ rs) = refl

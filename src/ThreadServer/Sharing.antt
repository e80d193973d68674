-- ===== src/ThreadServer/Sharing.antt =====
-- Which descriptors the threads come to serve.
use geek_network_programming.Base.{
  ℕ, zero, suc, ◌≡◌, refl, ap, sym, Option, none, some, List, [], ◌∷◌, ◌++◌, get_elem?, set, length,
  length-append, append-nil, arith,
}
use geek_network_programming.ThreadServer.{
  Thread, created, serves, ended, Main, accepting, creating, System, start, Step, fail, accept,
  create, read_argument, finish, Reach, here, next,
}

-- The descriptor of each thread: its argument, if it has read that, and else what it would read now.
abbrev pub owner : Option ℕ → Thread → Option ℕ
owner c created = c
owner c (serves fd) = some fd
owner c (ended fd) = some fd

abbrev pub owners : Option ℕ → List Thread → List (Option ℕ)
owners c [] = []
owners c (t ∷ ts) = owner c t ∷ owners c ts

-- the connection for which main() has no thread yet
abbrev pub waiting : Main → Option ℕ → List (Option ℕ)
waiting accepting c = []
waiting creating c = c ∷ []

abbrev pub all_some : List ℕ → List (Option ℕ)
all_some [] = []
all_some (fd ∷ fds) = some fd ∷ all_some fds

-- no thread has its argument still to read
abbrev pub Settled : List Thread → Type 0
Settled [] = Unit {0}
Settled (created ∷ ts) = ⊥
Settled (serves fd ∷ ts) = Settled ts
Settled (ended fd ∷ ts) = Settled ts

-- A run in which accept() returns only when each thread has read its argument.
pub data Calm : System → Type 0 where
  begin : Calm start
  failing :
      {s : System}
      → Calm s
      → (m : s.main ≡ accepting) → Settled s.threads
      → Calm (record s { conn_fd = none })
  accepts :
      {s : System} (fd : ℕ)
      → Calm s
      → s.main ≡ accepting
      → Settled s.threads
      → Calm (record s { main = creating; conn_fd = some fd; accepted = s.accepted ++ fd ∷ [] })
  other :
      {s u : System}
      → Calm s
      → Step s u
      → (u.conn_fd ≡ s.conn_fd) × (u.accepted ≡ s.accepted)
      → Calm u

all_some-append : (xs ys : List ℕ) → all_some (xs ++ ys) ≡ all_some xs ++ all_some ys
all_some-append [] ys = refl
all_some-append (x ∷ xs) ys = rw (all_some-append xs ys)

owners-append :
    (c : Option ℕ) (ts us : List Thread) → owners c (ts ++ us) ≡ owners c ts ++ owners c us
owners-append c [] us = refl
owners-append c (t ∷ ts) us = rw (owners-append c ts us)

owners-Settled : (c d : Option ℕ) (ts : List Thread) → Settled ts → owners c ts ≡ owners d ts
owners-Settled c d [] s = refl
owners-Settled c d (created ∷ ts) s = absurd s
owners-Settled c d (serves fd ∷ ts) s = rw (owners-Settled c d ts s)
owners-Settled c d (ended fd ∷ ts) s = rw (owners-Settled c d ts s)

owners-set :
    (c : Option ℕ) (ts : List Thread) (i : ℕ) (t u : Thread)
    → get_elem? ts i ≡ some t
    → owner c u ≡ owner c t
    → owners c (set ts i u) ≡ owners c ts
owners-set c [] i t u h e = refl
owners-set c (x ∷ ts) zero t u h e = ground arith
owners-set c (x ∷ ts) (suc i) t u h e = rw (owners-set c ts i t u h e)

-- each connection has its thread, in order, but for the one whose thread is to be created
abbrev pub Owned : System → Type 0
Owned s = all_some s.accepted ≡ owners s.conn_fd s.threads ++ waiting s.main s.conn_fd

no_longer : (xs : List ℕ) (x : ℕ) → xs ++ x ∷ [] ≡ xs → ⊥
no_longer xs x e = absurd (omega (arith, ap length e, length-append xs (x ∷ [])))

Step-Owned :
    {s u : System}
    → Step s u
    → (u.conn_fd ≡ s.conn_fd) × (u.accepted ≡ s.accepted)
    → Owned s
    → Owned u
Step-Owned (fail s m) (c, a) o = rw c o
Step-Owned (accept s fd m) (c, a) o = absurd (no_longer s.accepted fd a)
Step-Owned (create s m) (c, a) o =
    rw (owners-append s.conn_fd s.threads (created ∷ []), append-nil) (rw m at o)
Step-Owned (read_argument s i fd h e) (c, a) o =
    rw (owners-set s.conn_fd s.threads i created (serves fd) h (sym e)) o
Step-Owned (finish s i fd h) (c, a) o =
    rw (owners-set s.conn_fd s.threads i (serves fd) (ended fd) h refl) o

-- If accept() only returns, with a connection or a failure, when every thread that was created has
-- read its argument, then in every state the connections that the threads serve or have served, or
-- that a thread is about to read, followed by the one whose thread is still to be created, are
-- just the accepted ones in their order.
pub Calm-Owned : {s : System} → Calm s → Owned s
unfolding start
Calm-Owned begin = refl
Calm-Owned (failing {s} c m quiet) =
    rw (m, owners-Settled none s.conn_fd s.threads quiet) (rw m at (Calm-Owned c))
Calm-Owned (accepts {s} fd c m quiet) =
    rw (all_some-append s.accepted (fd ∷ []), owners-Settled (some fd) s.conn_fd s.threads quiet)
      (ap (λ xs. xs ++ some fd ∷ []) (rw (m, append-nil) at (Calm-Owned c)))
Calm-Owned (other c step kept) = Step-Owned step kept (Calm-Owned c)

-- For any two connections there is a run of the thread server in which both threads serve the
-- second one and no thread the first.
pub start-reach_shared :
    (a b : ℕ)
    → Reach start (record {
      main = accepting;
      conn_fd = some b;
      threads = serves b ∷ serves b ∷ [];
      accepted = a ∷ b ∷ [];
    })
unfolding start
start-reach_shared a b =
    next
      (next
        (next (next (next (next here (accept start a refl)) (create _ refl)) (accept _ b refl))
          (create _ refl))
        (read_argument _ 0 b refl refl))
      (read_argument _ 1 b refl refl)

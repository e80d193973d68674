-- ===== src/Select/Rounds.antt =====
-- The rounds of the select server, and what a slot keeps from one client to the next.
use geek_network_programming.Base.{
  ℕ, zero, suc, ◌+◌, ◌<◌, ◌≡◌, ◌≢◌, refl, inl, inr, Bool, true, Bool-cases, not, ◌&&◌, some, List,
  [], ◌∷◌, ◌==◌, pos, eq_ℤ, arith, length-replicate, get_elem?, get_elem?-lt, get_elem?-replicate,
}
use geek_network_programming.Sys.{either, Reply, pure, ◌>>=◌, call, is_failed, exit}
use geek_network_programming.Sys.Ends.{Ends, Ends-bind, Ends-call}
use geek_network_programming.Select.{
  fd_max_size, Buffer, alloc_buffer, select, accept, on_socket_readable, on_socket_writable,
}
use geek_network_programming.Select.Server.{
  Table, fresh_table, watched, Ready, can_read, can_write, welcome, step, closed, visit, visits,
  round, serve, highest,
}
use geek_network_programming.Select.Table.{
  Homed, HomedStep, step-Homed, closed-Homed, welcome-Homed, readable-Keeps, writable-Keeps,
}

visit-Homed :
    (listen : ℕ) (r w : Bool) (i : ℕ) (bufs : Table) (rs : List Reply)
    → Homed bufs
    → Ends Homed (visit listen r w i bufs rs)
unfolding visit
visit-Homed listen r w i bufs rs h = elim (Bool-cases (i == listen)) [
  | inl e ↦ rw e h
  | inr e ↦ rw e (
      Ends-bind HomedStep Homed (step r on_socket_readable i (pos 0, bufs) rs)
        (λ (err, bufs').
          step (eq_ℤ err (pos 0) && w) on_socket_writable i (err, bufs') >>= closed i)
        (step-Homed r on_socket_readable i (pos 0) bufs rs readable-Keeps h)
        (λ (err, bufs') rs' h'.
          Ends-bind HomedStep Homed
            (step (eq_ℤ err (pos 0) && w) on_socket_writable i (err, bufs') rs') (closed i)
            (step-Homed (eq_ℤ err (pos 0) && w) on_socket_writable i err bufs' rs' writable-Keeps
              h')
            (λ (err', bufs'') rs'' h''. closed-Homed i err' bufs'' rs'' h'')))
]

visits-Homed :
    (listen : ℕ) (r w : ℕ → Bool) (k i : ℕ) (bufs : Table) (rs : List Reply)
    → Homed bufs
    → Ends Homed (visits listen r w k i bufs rs)
unfolding visits
visits-Homed listen r w zero i bufs rs h = h
visits-Homed listen r w (suc k) i bufs rs h =
    Ends-bind Homed Homed (visit listen (r i) (w i) i bufs rs) (visits listen r w k (suc i))
      (visit-Homed listen (r i) (w i) i bufs rs h)
      (λ bufs' rs' h'. visits-Homed listen r w k (suc i) bufs' rs' h')

round-Homed :
    (listen : ℕ) (ready : Ready) (bufs : Table) (rs : List Reply)
    → Homed bufs
    → Ends Homed (round listen ready bufs rs)
unfolding round
round-Homed listen ready bufs rs h =
    let top = highest listen bufs in
    let r = can_read listen bufs ready in
    let w = can_write bufs ready in
    let greet = either (r listen) (call (accept listen) >>= welcome bufs) (pure bufs) in
    Ends-call Homed (select (top + 1)) rs
      (λ found. either (is_failed found) (exit 1) (greet >>= visits listen r w (top + 1) 0))
      (λ found rs1. elim (Bool-cases (is_failed found)) [
        | inl bad ↦ rw bad tt
        | inr good ↦ rw good (
            Ends-bind Homed Homed (greet rs1) (visits listen r w (top + 1) 0)
              (elim (Bool-cases (r listen)) [
                | inl e ↦ rw e (
                    Ends-call Homed (accept listen) rs1 (welcome bufs)
                      (λ a rs2. welcome-Homed bufs a rs2 h))
                | inr e ↦ rw e h
              ])
              (λ bufs' rs2 h'. visits-Homed listen r w (top + 1) 0 bufs' rs2 h'))
      ])

-- A watched descriptor is that of a slot in use.
watched-home :
    (bufs : Table) (i : ℕ)
    → watched bufs i ≡ true
    → (j : ℕ) × (b : Buffer) × (get_elem? bufs j ≡ some b) × (b.fd ≢ 0) × (i ≡ b.fd)
unfolding watched
watched-home [] i e = cc
watched-home (b ∷ bufs) i e = elim (Bool-cases (not (b.fd == 0) && i == b.fd)) [
  | inl here ↦ (0, b, refl, ground arith, ground arith)
  | inr other ↦
      let (j, c, at, ne, same) = watched-home bufs i (rw other at e) in (suc j, c, at, ne, same)
]

-- A table in which select() can only report indices of the table, or the listener.
pub record Sound (bufs : Table) : Type 0 where
  pub homed : Homed bufs
  pub within : (i : ℕ) → watched bufs i ≡ true → i < fd_max_size

Homed-Sound : (bufs : Table) → Homed bufs → Sound bufs
Homed-Sound bufs h = record {
  homed = h;
  within = λ i e.
      let (j, b, at, ne, same) = watched-home bufs i e in
      let lt = get_elem?-lt bufs j at in
      elim (h.home j at) [ inl z ↦ absurd (ne z) | inr own ↦ omega (arith, h.width) ];
}

fresh_table-Homed : Homed fresh_table
unfolding fresh_table alloc_buffer
fresh_table-Homed = record {
  width = length-replicate fd_max_size alloc_buffer;
  home = λ i e.
      let lt = get_elem?-lt fresh_table i e in
      let same =
        get_elem?-replicate fd_max_size i alloc_buffer
          (omega (arith, length-replicate fd_max_size alloc_buffer)) in
      inl (cc same);
}

serve-Homed :
    (listen : ℕ) (readies : List Ready) (bufs : Table) (rs : List Reply)
    → Homed bufs
    → Ends Sound (serve listen readies bufs rs)
unfolding serve
serve-Homed listen [] bufs rs h = Homed-Sound bufs h
serve-Homed listen (ready ∷ later) bufs rs h =
    Ends-bind Homed Sound (round listen ready bufs rs) (serve listen later)
      (round-Homed listen ready bufs rs h) (λ bufs' rs' h'. serve-Homed listen later bufs' rs' h')

-- From the table that main starts with, whatever select(), accept() and the clients do, the rounds
-- of the select server that come to their end leave a table of 128 slots in which a slot is unused
-- or has the descriptor that is its index, so that every descriptor watched besides the listener
-- is an index of the table.
pub serve-Sound :
    (listen : ℕ) (readies : List Ready) (rs : List Reply)
    → Ends Sound (serve listen readies fresh_table rs)
serve-Sound listen readies rs = serve-Homed listen readies fresh_table rs fresh_table-Homed

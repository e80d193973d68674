-- ===== src/Select/Server.antt =====
-- `main` of chap-22/nonblocking_io_select_server.c: the table of buffers, by descriptor, and its rounds.
use geek_network_programming.Base.{
  ℕ, zero, suc, ◌+◌, Bool, false, not, ◌&&◌, ◌||◌, Option, none, some, List, [], ◌∷◌, ◌==◌, ltb,
  if◌then◌else◌, ℤ, pos, eq_ℤ, replicate, get_elem?, set,
}
use geek_network_programming.Sys.{
  either, Reply, number, bytes, failed, fault, Sys, pure, ◌>>=◌, call, exit, is_failed,
}
use geek_network_programming.Select.{
  fd_max_size, Buffer, alloc_buffer, Call, accept, set_nonblock, close, select, on_socket_readable,
  on_socket_writable,
}

abbrev pub Table : Type 0
Table = List Buffer

-- the table that `main` starts with
unfoldable pub fresh_table : Table
unfolding alloc_buffer
fresh_table = replicate fd_max_size alloc_buffer

-- `max_fd` after the first `for`
unfoldable pub highest : ℕ → Table → ℕ
highest m [] = m
highest m (b ∷ bs) = highest (if b.fd == 0 then m else if ltb m b.fd then b.fd else m) bs

-- the descriptors that the first `for` puts into the two sets
unfoldable pub watched : Table → ℕ → Bool
watched [] i = false
watched (b ∷ bs) i = (not (b.fd == 0) && i == b.fd) || watched bs i

unfoldable pub write_watched : Table → ℕ → Bool
write_watched [] i = false
write_watched (b ∷ bs) i = (not (b.fd == 0) && b.readable && i == b.fd) || write_watched bs i

-- what select() finds ready
pub record Ready : Type 0 where
  pub readable : ℕ → Bool
  pub writable : ℕ → Bool

-- `FD_ISSET(i, &read_fds)` and `FD_ISSET(i, &write_fds)` after select(), which only takes descriptors away
abbrev pub can_read : ℕ → Table → Ready → ℕ → Bool
can_read listen bufs r i = (i == listen || watched bufs i) && r.readable i

abbrev pub can_write : Table → Ready → ℕ → Bool
can_write bufs r i = write_watched bufs i && r.writable i

-- `buf[i]`, for code that goes on with it
abbrev pub with_buffer : {A : Type 0} → Option Buffer → (Buffer → Sys Call A) → Sys Call A
with_buffer none f = λ rs. fault []
with_buffer (some b) f = f b

-- behind accept(): `buf[conn_fd]` becomes the client's if it is free
unfoldable pub welcome : Table → Reply → Sys Call Table
welcome bufs (failed e) = exit 1
welcome bufs (bytes x) = λ rs. fault []
welcome bufs (number n) = either (ltb fd_max_size n) (call (close n) >>= λ _. pure bufs) (
    call (set_nonblock n) >>= λ _.
    with_buffer (get_elem? bufs n)
      (λ b. pure (if b.fd == 0 then set bufs n (record b { fd = n }) else bufs)))

-- `err = on_socket_readable(i, buf[i])` or `on_socket_writable` if `test` holds
abbrev pub step : Bool → (ℕ → Buffer → Sys Call (ℤ × Buffer)) → ℕ → ℤ × Table → Sys Call (ℤ × Table)
step test f i (err, bufs) =
    either test (with_buffer (get_elem? bufs i) (λ b. f i b >>= λ (e, b'). pure (e, set bufs i b')))
      (pure (err, bufs))

-- `if (err)`: the slot is marked unused, and the descriptor is closed
abbrev pub closed : ℕ → ℤ × Table → Sys Call Table
closed i (err, bufs) = either (eq_ℤ err (pos 0)) (pure bufs) (
    with_buffer (get_elem? bufs i)
      (λ b. call (close i) >>= λ _. pure (set bufs i (record b { fd = 0 }))))

-- One round of the last `for`, `r` and `w` being the two tests FD_ISSET.
unfoldable pub visit : (listen : ℕ) → (r w : Bool) → ℕ → Table → Sys Call Table
visit listen r w i bufs = either (i == listen) (pure bufs) (
    step r on_socket_readable i (pos 0, bufs) >>= λ (err, bufs').
    step (eq_ℤ err (pos 0) && w) on_socket_writable i (err, bufs') >>= closed i)

-- the last `for`, from `i` on and with `k` rounds left
unfoldable pub visits : (listen : ℕ) → (r w : ℕ → Bool) → (k i : ℕ) → Table → Sys Call Table
visits listen r w zero i bufs = pure bufs
visits listen r w (suc k) i bufs = visit listen (r i) (w i) i bufs >>= visits listen r w k (suc i)

-- one round of the `while (1)`
unfoldable pub round : (listen : ℕ) → Ready → Table → Sys Call Table
round listen ready bufs =
    let top = highest listen bufs in
    let r = can_read listen bufs ready in
    let w = can_write bufs ready in
    call (select (top + 1)) >>= λ found. either (is_failed found) (exit 1) (
      either (r listen) (call (accept listen) >>= welcome bufs) (pure bufs)
      >>= visits listen r w (top + 1) 0)

-- the rounds, as long as select() returns
unfoldable pub serve : (listen : ℕ) → List Ready → Table → Sys Call Table
serve listen [] bufs = pure bufs
serve listen (ready ∷ later) bufs = round listen ready bufs >>= serve listen later

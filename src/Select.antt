-- ===== src/Select.antt =====
-- The select server of chap-22/nonblocking_io_select_server.c: a buffer for each descriptor.
pub mod Readable
pub mod Writable
pub mod Server
pub mod Table
pub mod Rounds
pub mod Reuse
use geek_network_programming.Base.{
  ℕ, zero, suc, ◌+◌, ◌-◌, Bool, true, false, ◌&&◌, ◌||◌, List, [], ◌∷◌, ◌++◌, ◌==◌, ltb, leb,
  if◌then◌else◌, ℤ, pos, minus_one, length, take, drop,
}
use geek_network_programming.Sys.{
  Reply, number, bytes, failed, eagain, Outcome, done, exited, blocked, fault, after, Sys,
}
use geek_network_programming.Echo.{rot13_char}

abbrev pub fd_max_size : ℕ
fd_max_size = 128

abbrev pub max_line : ℕ
max_line = 4096

-- `struct buffer`. `stored` is `buf[0 .. write_idx)`, so `write_idx` is its length; `readable` is the
-- flag `readable`.
pub record Buffer : Type 0 where
  pub fd : ℕ
  pub stored : List ℕ
  pub read_idx : ℕ
  pub readable : Bool

abbrev pub write_idx : Buffer → ℕ
write_idx b = length b.stored

-- `alloc_buffer`, with memory for it
unfoldable pub alloc_buffer : Buffer
alloc_buffer = record { fd = 0; stored = []; read_idx = 0; readable = false }

pub data Call : Type 0 where
  recv : (fd size : ℕ) → Call
  send : ℕ → List ℕ → Call
  select : ℕ → Call
  accept : ℕ → Call
  set_nonblock : ℕ → Call
  close : ℕ → Call

-- one round of the `for` in `on_socket_readable`: a byte that does not fit is dropped
pub store_byte : Buffer → ℕ → Buffer
store_byte b c =
    let b' =
      if ltb (write_idx b) max_line
      then record b { stored = b.stored ++ rot13_char c ∷ [] }
      else b in
    if c == b'\n' then record b' { readable = true } else b'

pub store_bytes : Buffer → List ℕ → Buffer
unfolding store_byte
store_bytes b [] = b
store_bytes b (c ∷ cs) = store_bytes (store_byte b c) cs

-- `errno == EAGAIN ? 0 : -1`
abbrev pub again_or_error : ℕ → ℤ
again_or_error e = if e == eagain then pos 0 else minus_one

-- `on_socket_readable`: 1 at the end of the stream, 0 if there is nothing more now, -1 for an error
pub on_socket_readable : ℕ → Buffer → Sys Call (ℤ × Buffer)
unfolding store_bytes
on_socket_readable fd b [] = blocked (recv fd max_line ∷ [])
on_socket_readable fd b (number n ∷ rs) = fault (recv fd max_line ∷ [])
on_socket_readable fd b (failed e ∷ rs) = done (again_or_error e, b) rs (recv fd max_line ∷ [])
on_socket_readable fd b (bytes [] ∷ rs) = done (pos 1, b) rs (recv fd max_line ∷ [])
on_socket_readable fd b (bytes (c ∷ cs) ∷ rs) =
    after (recv fd max_line ∷ []) (on_socket_readable fd (store_bytes b (c ∷ cs)) rs)

-- the bytes between the two indices
abbrev pub pending : Buffer → List ℕ
pending b = drop b.read_idx b.stored

-- the end of `on_socket_writable`, behind its loop
unfoldable pub sent_all : Buffer → Buffer
sent_all b =
    if b.read_idx == write_idx b
    then record b { stored = []; read_idx = 0; readable = false }
    else record b { readable = false }

-- `on_socket_writable`: 0, also if the socket takes nothing now; -1 for an error
pub on_socket_writable : ℕ → Buffer → Sys Call (ℤ × Buffer)
unfolding sent_all
on_socket_writable fd b [] =
    if ltb b.read_idx (write_idx b)
    then blocked (send fd (pending b) ∷ [])
    else done (pos 0, sent_all b) [] []
on_socket_writable fd b (number n ∷ rs) =
    let rest = on_socket_writable fd (record b { read_idx = b.read_idx + n }) rs in
    if ltb b.read_idx (write_idx b)
    then after (send fd (pending b) ∷ []) rest
    else done (pos 0, sent_all b) (number n ∷ rs) []
on_socket_writable fd b (failed e ∷ rs) =
    if ltb b.read_idx (write_idx b)
    then done (again_or_error e, b) rs (send fd (pending b) ∷ [])
    else done (pos 0, sent_all b) (failed e ∷ rs) []
on_socket_writable fd b (bytes x ∷ rs) =
    if ltb b.read_idx (write_idx b)
    then fault (send fd (pending b) ∷ [])
    else done (pos 0, sent_all b) (bytes x ∷ rs) []

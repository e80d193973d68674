-- ===== src/Http/Lines.antt =====
-- What `read_line` gives for a line that ends in CR LF, and at the end of the stream.
use geek_network_programming.Base.{
  ℕ, zero, suc, ◌+◌, ◌-◌, ◌<◌, ◌≡◌, refl, false, List, [], ◌∷◌, ◌++◌, ◌==◌, append_assoc,
  append-nil, arith, length, replicate,
}
use geek_network_programming.Sys.{Reply, bytes, done, after}
use geek_network_programming.Http.{
  Call, recv, peek, read_line_loop, after_recv, after_cr, read_line,
}

-- bytes that arrive one by one, and then `rs`
abbrev pub one_by_one : List ℕ → List Reply → List Reply
one_by_one [] rs = rs
one_by_one (c ∷ cs) rs = bytes (c ∷ []) ∷ one_by_one cs rs

-- no line end among the bytes
unfoldable pub Plain : List ℕ → Type 0
Plain [] = Unit
Plain (c ∷ cs) = ((c == b'\r') ≡ false) × ((c == b'\n') ≡ false) × Plain cs

abbrev pub recvs : ℕ → List ℕ → List Call → List Call
recvs fd [] t = t
recvs fd (c ∷ cs) t = recv fd ∷ recvs fd cs t

loop_plain :
    (fd c d room : ℕ) (buf : List ℕ) (rs : List Reply)
    → (c == b'\n') ≡ false
    → (d == b'\r') ≡ false
    → read_line_loop fd (suc room) c buf (bytes (d ∷ []) ∷ rs)
      ≡ after (recv fd ∷ []) (read_line_loop fd room d (buf ++ d ∷ []) rs)
unfolding read_line_loop after_recv
loop_plain fd c d room buf rs n r = rw (n, r) refl

loop_end :
    (fd room : ℕ) (buf : List ℕ) (rs : List Reply)
    → read_line_loop fd room b'\n' buf rs ≡ done buf rs []
unfolding read_line_loop
loop_end fd zero buf rs = refl
loop_end fd (suc room) buf rs = refl

loop_crlf :
    (fd c room : ℕ) (buf : List ℕ) (rs : List Reply)
    → (c == b'\n') ≡ false
    → read_line_loop fd
        (suc room)
        c
        buf
        (bytes (b'\r' ∷ []) ∷ bytes (b'\n' ∷ []) ∷ bytes (b'\n' ∷ []) ∷ rs)
      ≡ done (buf ++ b'\n' ∷ []) rs (recv fd ∷ peek fd ∷ recv fd ∷ [])
unfolding read_line_loop after_recv after_cr
loop_crlf fd c room buf rs n = rw n (rw (loop_end fd room (buf ++ b'\n' ∷ []) rs) refl)

loop_line :
    (fd : ℕ) (cs : List ℕ) (c room : ℕ) (buf : List ℕ) (rs : List Reply)
    → Plain cs
    → (c == b'\n') ≡ false
    → length cs < room
    → read_line_loop fd room c buf
        (one_by_one cs (bytes (b'\r' ∷ []) ∷ bytes (b'\n' ∷ []) ∷ bytes (b'\n' ∷ []) ∷ rs))
      ≡ done (buf ++ (cs ++ b'\n' ∷ [])) rs (recvs fd cs (recv fd ∷ peek fd ∷ recv fd ∷ []))
unfolding Plain
loop_line fd cs c zero buf rs p n h = absurd (omega arith)
loop_line fd [] c (suc room) buf rs p n h = loop_crlf fd c room buf rs n
loop_line fd (d ∷ cs) c (suc room) buf rs (r, m, p) n h =
    let rest = bytes (b'\r' ∷ []) ∷ bytes (b'\n' ∷ []) ∷ bytes (b'\n' ∷ []) ∷ rs in
    rw
      (
        loop_plain fd c d room buf (one_by_one cs rest) n r,
        loop_line fd cs d room (buf ++ d ∷ []) rs p m (omega arith),
        append_assoc,
      )
      refl

-- A line without CR and LF that fits in the buffer and arrives with its CR LF, of which the LF is
-- seen by the MSG_PEEK and then received, is stored by read_line() with a single LF behind it.
pub read_line-one_by_one :
    (fd size : ℕ) (cs : List ℕ) (rs : List Reply)
    → Plain cs
    → length cs + 1 < size
    → read_line fd size
        (one_by_one cs (bytes (b'\r' ∷ []) ∷ bytes (b'\n' ∷ []) ∷ bytes (b'\n' ∷ []) ∷ rs))
      ≡ done (cs ++ b'\n' ∷ []) rs (recvs fd cs (recv fd ∷ peek fd ∷ recv fd ∷ []))
unfolding read_line
read_line-one_by_one fd size cs rs p h = loop_line fd cs 0 (size - 1) [] rs p refl (omega arith)

loop_closed :
    (fd room c : ℕ) (buf : List ℕ) (rs : List Reply)
    → (c == b'\n') ≡ false
    → (c == b'\r') ≡ false
    → read_line_loop fd room c buf (replicate room (bytes []) ++ rs)
      ≡ done (buf ++ replicate room c) rs (replicate room (recv fd))
unfolding read_line_loop after_recv
loop_closed fd zero c buf rs n r = rw append-nil refl
loop_closed fd (suc room) c buf rs n r =
    rw (n, r) (rw (loop_closed fd room c (buf ++ c ∷ []) rs n r, append_assoc) refl)

-- When the peer has closed the connection, so that every recv() returns 0, read_line() does not
-- return 0 but fills the whole buffer with zero bytes, `size - 1` of them.
pub read_line_closed :
    (fd size : ℕ) (rs : List Reply)
    → read_line fd size (replicate (size - 1) (bytes []) ++ rs)
      ≡ done (replicate (size - 1) 0) rs (replicate (size - 1) (recv fd))
unfolding read_line
read_line_closed fd size rs = loop_closed fd (size - 1) 0 [] rs refl refl

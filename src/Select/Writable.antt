-- ===== src/Select/Writable.antt =====
-- What `on_socket_writable` sends, and what it leaves in the buffer.
use geek_network_programming.Base.{
  drop-drop, take_more, ℕ, ◌+◌, ◌<◌, ◌≡◌, refl, sym, false, List, [], ◌∷◌, ◌++◌, pos, arith, length,
  length-drop, take-length, take-append-drop, take,
}
use geek_network_programming.Sys.{Reply, number, bytes, failed, done, after}
use geek_network_programming.Select.{
  Buffer, Call, send, write_idx, pending, again_or_error, on_socket_writable, sent_all,
}

-- the buffer when the socket has taken `n` more bytes
abbrev pub advance : Buffer → ℕ → Buffer
advance b n = record b { read_idx = b.read_idx + n }

abbrev pub total : List ℕ → ℕ
total [] = 0
total (n ∷ ns) = n + total ns

-- the replies of a socket that takes so many bytes each time, and then `rs`
abbrev pub taking : List ℕ → List Reply → List Reply
taking [] rs = rs
taking (n ∷ ns) rs = number n ∷ taking ns rs

-- one `send` for each of these replies, with all that is pending then
abbrev pub sends : ℕ → Buffer → List ℕ → List Call
sends fd b [] = []
sends fd b (n ∷ ns) = send fd (pending b) ∷ sends fd (advance b n) ns

-- the buffer when all is sent
abbrev pub emptied : Buffer → Buffer
emptied b = record b { stored = []; read_idx = 0; readable = false }

nothing_left :
    (fd : ℕ) (b : Buffer) (rs : List Reply)
    → b.read_idx ≡ write_idx b
    → on_socket_writable fd b rs ≡ done (pos 0, emptied b) rs []
unfolding on_socket_writable sent_all
nothing_left fd b [] h = ground arith
nothing_left fd b (number n ∷ rs) h = ground arith
nothing_left fd b (failed e ∷ rs) h = ground arith
nothing_left fd b (bytes x ∷ rs) h = ground arith

one_more :
    (fd n : ℕ) (b : Buffer) (rs : List Reply)
    → b.read_idx < write_idx b
    → on_socket_writable fd b (number n ∷ rs)
      ≡ after (send fd (pending b) ∷ []) (on_socket_writable fd (advance b n) rs)
unfolding on_socket_writable
one_more fd n b rs h = ground arith

unfoldable pub AllPositive : List ℕ → Type 0
AllPositive [] = Unit
AllPositive (n ∷ ns) = (0 < n) × AllPositive ns

sends_all :
    (fd : ℕ) (ns : List ℕ) (b : Buffer) (rs : List Reply)
    → AllPositive ns
    → b.read_idx + total ns ≡ write_idx b
    → on_socket_writable fd b (taking ns rs) ≡ done (pos 0, emptied b) rs (sends fd b ns)
unfolding AllPositive
sends_all fd [] b rs p h = nothing_left fd b rs (omega arith)
sends_all fd (n ∷ ns) b rs p h =
    rw
      (
        one_more fd n b (taking ns rs) (omega (arith, p.0)),
        sends_all fd ns (advance b n) rs p.1 (omega arith),
      )
      refl

stops :
    (fd e : ℕ) (ns : List ℕ) (b : Buffer) (rs : List Reply)
    → b.read_idx + total ns < write_idx b
    → on_socket_writable fd b (taking ns (failed e ∷ rs))
      ≡ done
          (again_or_error e, advance b (total ns))
          rs
          (sends fd b ns ++ send fd (pending (advance b (total ns))) ∷ [])
unfolding on_socket_writable
stops fd e [] b rs h =
    let at : b.read_idx + 0 ≡ b.read_idx = omega arith in
    let room : b.read_idx < write_idx b = omega arith in rw at (ground arith)
stops fd e (n ∷ ns) b rs h =
    let at : b.read_idx + (n + total ns) ≡ (b.read_idx + n) + total ns = omega arith in
    rw
      (
        one_more fd n b (taking ns (failed e ∷ rs)) (omega arith),
        stops fd e ns (advance b n) rs (omega arith),
        at,
      )
      refl

-- the bytes the socket has taken: of each `send` the first so many
abbrev pub transmitted : List Call → List ℕ → List ℕ
transmitted (send fd piece ∷ cs) (n ∷ ns) = take n piece ++ transmitted cs ns
transmitted _ _ = []

transmitted-sends :
    (fd : ℕ) (ns : List ℕ) (b : Buffer)
    → transmitted (sends fd b ns) ns ≡ take (total ns) (pending b)
transmitted-sends fd [] b = refl
transmitted-sends fd (n ∷ ns) b =
    rw
      (
        transmitted-sends fd ns (advance b n),
        take_more n (total ns) (pending b),
        drop-drop b.read_idx n b.stored,
      )
      refl

-- If the counts that the socket takes, none of them 0, are together all that is pending, then
-- on_socket_writable() gives 0 and leaves the buffer empty and its flag cleared, and the bytes
-- taken are the pending ones, in order and each once.
pub on_socket_writable-emptied :
    (fd : ℕ) (ns : List ℕ) (b : Buffer) (rs : List Reply)
    → AllPositive ns
    → b.read_idx + total ns ≡ write_idx b
    → (on_socket_writable fd b (taking ns rs) ≡ done (pos 0, emptied b) rs (sends fd b ns))
      × (transmitted (sends fd b ns) ns ≡ pending b)
on_socket_writable-emptied fd ns b rs p h =
    let all : total ns ≡ length (pending b) = omega (arith, length-drop b.read_idx b.stored) in
    (sends_all fd ns b rs p h, rw (transmitted-sends fd ns b, all) (take-length (pending b)))

-- If the counts are together less than what is pending and the next send() fails, then
-- on_socket_writable() gives 0 for EAGAIN and -1 for another error and moves `read_idx` only, so
-- that the bytes taken and those still pending are the ones that were pending.
pub on_socket_writable-advance :
    (fd e : ℕ) (ns : List ℕ) (b : Buffer) (rs : List Reply)
    → b.read_idx + total ns < write_idx b
    → (on_socket_writable fd b (taking ns (failed e ∷ rs))
        ≡ done
            (again_or_error e, advance b (total ns))
            rs
            (sends fd b ns ++ send fd (pending (advance b (total ns))) ∷ []))
      × (transmitted (sends fd b ns) ns ++ pending (advance b (total ns)) ≡ pending b)
on_socket_writable-advance fd e ns b rs h = (
  stops fd e ns b rs h,
  rw (transmitted-sends fd ns b, sym (drop-drop b.read_idx (total ns) b.stored))
      (take-append-drop (total ns) (pending b)),
)

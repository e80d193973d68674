-- ===== src/Select/Readable.antt =====
-- What `on_socket_readable` leaves in the buffer.
use geek_network_programming.Base.{
  ℕ, zero, suc, ◌≤◌, ◌≡◌, refl, sym, Bool, true, false, Bool-cases, inl, inr, ◌||◌, List, [], ◌∷◌,
  ◌++◌, append-nil, append_assoc, map, ◌==◌, ltb, if◌then◌else◌, pos, arith, length, length-append,
  take,
}
use geek_network_programming.Sys.{Reply, bytes, failed, done}
use geek_network_programming.Echo.{rot13_char}
use geek_network_programming.Select.{
  Buffer, Call, recv, max_line, write_idx, store_byte, store_bytes, again_or_error,
  on_socket_readable,
}

take_all : (n : ℕ) (xs : List ℕ) → length xs ≤ n → take n xs ≡ xs
take_all zero [] h = refl
take_all zero (x ∷ xs) h = absurd (omega arith)
take_all (suc n) [] h = refl
take_all (suc n) (x ∷ xs) h = rw (take_all n xs (omega arith))

take_full : (n : ℕ) (xs ys : List ℕ) → length xs ≡ n → take n (xs ++ ys) ≡ xs
take_full zero [] ys h = refl
take_full zero (x ∷ xs) ys h = absurd (omega arith)
take_full (suc n) [] ys h = absurd (omega arith)
take_full (suc n) (x ∷ xs) ys h = rw (take_full n xs ys (omega arith))

length-take-le : (n : ℕ) (xs : List ℕ) → length (take n xs) ≤ n
length-take-le zero xs = omega arith
length-take-le (suc n) [] = omega arith
length-take-le (suc n) (x ∷ xs) = omega (arith, length-take-le n xs)

-- what a buffer of `limit` bytes that holds `old` holds after the bytes `new`: as much as fits
pub filled : ℕ → List ℕ → List ℕ → List ℕ
filled limit old new = take limit (old ++ map rot13_char new)

-- a newline among the bytes
abbrev pub has_newline : List ℕ → Bool
has_newline [] = false
has_newline (c ∷ cs) = (c == b'\n') || has_newline cs

module _ (limit : ℕ) (old : List ℕ) where
  filled-nil : length old ≤ limit → filled limit old [] ≡ old
  unfolding filled
  filled-nil h = rw append-nil (take_all limit old h)

  filled_full : (new : List ℕ) → length old ≡ limit → filled limit old new ≡ old
  unfolding filled
  filled_full new h = take_full limit old (map rot13_char new) h

  length-filled : (new : List ℕ) → length (filled limit old new) ≤ limit
  unfolding filled
  length-filled new = length-take-le limit (old ++ map rot13_char new)

filled-push :
    (limit : ℕ) (old : List ℕ) (c : ℕ) (cs : List ℕ)
    → filled limit (old ++ rot13_char c ∷ []) cs ≡ filled limit old (c ∷ cs)
unfolding filled
filled-push limit old c cs = simp append_assoc

-- what one byte leaves in the array
next_stored : List ℕ → ℕ → List ℕ
next_stored old c = if ltb (length old) max_line then old ++ rot13_char c ∷ [] else old

-- the two branches of a round, the byte fitting or not and being a newline or not
round_lem :
    (room newline flag : Bool) (f r : ℕ) (old new : List ℕ)
    → (let b : Buffer = record { fd = f; stored = old; read_idx = r; readable = flag } in
        let b' = if room then record b { stored = new } else b in
        if newline then record b' { readable = true } else b')
      ≡ record {
        fd = f;
        stored = if room then new else old;
        read_idx = r;
        readable = flag || newline;
      }
round_lem true true true f r old new = refl
round_lem true true false f r old new = refl
round_lem true false true f r old new = refl
round_lem true false false f r old new = refl
round_lem false true true f r old new = refl
round_lem false true false f r old new = refl
round_lem false false true f r old new = refl
round_lem false false false f r old new = refl

store_byte_lem :
    (b : Buffer) (c : ℕ)
    → store_byte b c
      ≡ record b { stored = next_stored b.stored c; readable = b.readable || (c == b'\n') }
unfolding store_byte next_stored
store_byte_lem b c =
    round_lem (ltb (write_idx b) max_line) (c == b'\n') b.readable b.fd b.read_idx b.stored
      (b.stored ++ rot13_char c ∷ [])

filled_full_step :
    (old : List ℕ) (c : ℕ) (cs : List ℕ)
    → length old ≡ max_line
    → filled max_line old cs ≡ filled max_line old (c ∷ cs)
filled_full_step old c cs h =
    rw (filled_full max_line old cs h, filled_full max_line old (c ∷ cs) h) refl

next_stored-filled :
    (old : List ℕ) (c : ℕ) (cs : List ℕ)
    → length old ≤ max_line
    → filled max_line (next_stored old c) cs ≡ filled max_line old (c ∷ cs)
unfolding next_stored
next_stored-filled old c cs h = elim (Bool-cases (ltb (length old) max_line)) [
  | inl e ↦ rw e (filled-push max_line old c cs)
  | inr e ↦ rw e (filled_full_step old c cs (ground arith))
]

length-next_stored :
    (old : List ℕ) (c : ℕ) → length old ≤ max_line → length (next_stored old c) ≤ max_line
unfolding next_stored
length-next_stored old c h = elim (Bool-cases (ltb (length old) max_line)) [
  | inl e ↦ rw e (grind (arith, length-append old (rot13_char c ∷ [])))
  | inr e ↦ rw e h
]

or_assoc : (x y z : Bool) → ((x || y) || z) ≡ (x || (y || z))
or_assoc true y z = refl
or_assoc false y z = refl

or_false : (x : Bool) → (x || false) ≡ x
or_false true = refl
or_false false = refl

-- the buffer that holds `new` besides what it held
abbrev pub with_bytes : Buffer → List ℕ → Buffer
with_bytes b new = record b {
  stored = filled max_line b.stored new;
  readable = b.readable || has_newline new;
}

store_bytes_lem :
    (new : List ℕ) (b : Buffer) → write_idx b ≤ max_line → store_bytes b new ≡ with_bytes b new
unfolding store_bytes
store_bytes_lem [] b h = rw (filled-nil max_line b.stored h, or_false b.readable) refl
store_bytes_lem (c ∷ cs) b h = rw (store_byte_lem b c) (
    rw
      (
        store_bytes_lem cs
            (record b { stored = next_stored b.stored c; readable = b.readable || (c == b'\n') })
            (length-next_stored b.stored c h),
        next_stored-filled b.stored c cs h,
        or_assoc b.readable (c == b'\n') (has_newline cs),
      )
      refl)

-- the replies of a socket that hands over non-empty pieces, and then `rs`
abbrev pub arriving : List (ℕ × List ℕ) → List Reply → List Reply
arriving [] rs = rs
arriving (piece ∷ ps) rs = bytes (piece.0 ∷ piece.1) ∷ arriving ps rs

abbrev pub all_bytes : List (ℕ × List ℕ) → List ℕ
all_bytes [] = []
all_bytes (piece ∷ ps) = (piece.0 ∷ piece.1) ++ all_bytes ps

abbrev pub recvs : ℕ → List (ℕ × List ℕ) → List Call
recvs fd [] = recv fd max_line ∷ []
recvs fd (piece ∷ ps) = recv fd max_line ∷ recvs fd ps

store_bytes-append :
    (xs ys : List ℕ) (b : Buffer) → store_bytes b (xs ++ ys) ≡ store_bytes (store_bytes b xs) ys
unfolding store_bytes
store_bytes-append [] ys b = refl
store_bytes-append (x ∷ xs) ys b = store_bytes-append xs ys (store_byte b x)

readable_end :
    (fd : ℕ) (ps : List (ℕ × List ℕ)) (b : Buffer) (rs : List Reply)
    → on_socket_readable fd b (arriving ps (bytes [] ∷ rs))
      ≡ done (pos 1, store_bytes b (all_bytes ps)) rs (recvs fd ps)
unfolding on_socket_readable
readable_end fd [] b rs = refl
readable_end fd (piece ∷ ps) b rs =
    let xs = piece.0 ∷ piece.1 in
    rw (readable_end fd ps (store_bytes b xs) rs, store_bytes-append xs (all_bytes ps) b) refl

readable_error :
    (fd e : ℕ) (ps : List (ℕ × List ℕ)) (b : Buffer) (rs : List Reply)
    → on_socket_readable fd b (arriving ps (failed e ∷ rs))
      ≡ done (again_or_error e, store_bytes b (all_bytes ps)) rs (recvs fd ps)
unfolding on_socket_readable
readable_error fd e [] b rs = refl
readable_error fd e (piece ∷ ps) b rs =
    let xs = piece.0 ∷ piece.1 in
    rw (readable_error fd e ps (store_bytes b xs) rs, store_bytes-append xs (all_bytes ps) b) refl

-- From a buffer within its array, whatever pieces arrive, on_socket_readable() stores the rotated
-- bytes up to the end of the array and sets the flag if a newline was among them; it gives 1 at
-- the end of the stream, and if recv() fails 0 for EAGAIN and -1 for another error.
pub on_socket_readable-with_bytes :
    (fd e : ℕ) (ps : List (ℕ × List ℕ)) (b : Buffer) (rs : List Reply)
    → write_idx b ≤ max_line
    → (on_socket_readable fd b (arriving ps (bytes [] ∷ rs))
        ≡ done (pos 1, with_bytes b (all_bytes ps)) rs (recvs fd ps))
      × (on_socket_readable fd b (arriving ps (failed e ∷ rs))
          ≡ done (again_or_error e, with_bytes b (all_bytes ps)) rs (recvs fd ps))
on_socket_readable-with_bytes fd e ps b rs h =
    rw (sym (store_bytes_lem (all_bytes ps) b h))
      (readable_end fd ps b rs, readable_error fd e ps b rs)

-- ===== src/Http/Request.antt =====
-- `parse_header`, `add_request_line_to_dict` and a round of `main` of chap-16/tcp_http_server.c.
use geek_network_programming.Base.{
  ℕ, zero, suc, ◌-◌, Bool, true, Option, none, some, List, [], ◌∷◌, ◌++◌, ◌==◌, ltb, if◌then◌else◌,
  length, drop,
}
use geek_network_programming.Base.Result.{Result, ok, fault, ◌>>=◌}
use geek_network_programming.Sys as Sys
use geek_network_programming.Sys.{
  either, lift, Reply, number, bytes, failed, Sys, pure, call, eintr, Outcome, blocked,
}
use geek_network_programming.Http.{Call, accept, write, close, read_line}
use geek_network_programming.Strings.{c_string}
use geek_network_programming.Dict.Defs.{Ptr, Dict}
use geek_network_programming.Dict.Operations.{add}

abbrev pub max_line : ℕ
max_line = 4096

-- `strsep(&p, " ")`: the word, and the new `p`
unfoldable pub strsep : List ℕ → List ℕ × Option (List ℕ)
strsep [] = ([], none)
strsep (c ∷ cs) = let (w, p) = strsep cs in if c == b' ' then ([], some cs) else (c ∷ w, p)

-- `strcpy` of the next word to an array of `size` bytes. There is no word in a NULL.
unfoldable pub copy_word : (size : ℕ) → Option (List ℕ) → Result (List ℕ × Option (List ℕ))
unfolding strsep
copy_word size none = fault
copy_word size (some p) =
    let (w, p') = strsep p in if ltb (length w) size then ok (w, p') else fault

-- the last byte replaced by the end of the string
unfoldable pub cut_last : List ℕ → List ℕ
cut_last [] = []
cut_last (c ∷ []) = []
cut_last (c ∷ d ∷ cs) = c ∷ cut_last (d ∷ cs)

-- What `add_request_line_to_dict` takes from the string in `buf`: method, URI and version. The array
-- for the URI has `size - 16` bytes: none is not allowed, and below that the `size_t` wraps to more
-- than there can be.
unfoldable pub request_line : List ℕ → Result (List ℕ × List ℕ × List ℕ)
unfolding cut_last copy_word
request_line buf = if ltb (length buf) 17 then fault else do
  (method, p) ← copy_word 6 (some (cut_last buf))
  (uri, p') ← copy_word (length buf - 16) p
  (version, p'') ← copy_word 10 p'
  ok (method, uri, version)

-- The addresses that `add_request_line_to_dict` uses: of the literals for the keys, of its arrays,
-- and what malloc returns for the entries.
pub record Addresses : Type 0 where
  pub method_key : Ptr
  pub uri_key : Ptr
  pub version_key : Ptr
  pub method : Ptr
  pub uri : Ptr
  pub version : Ptr
  pub entry0 : Ptr
  pub entry1 : Ptr
  pub entry2 : Ptr

module _ (text : Ptr → List ℕ) (room : Bool) (fuel : ℕ) (at : Addresses) where
  -- `add_request_line_to_dict`
  unfoldable pub add_request_line_to_dict : Dict → List ℕ → Result Dict
  unfolding request_line
  add_request_line_to_dict d buf = do
    words ← request_line buf
    (s0, d0) ← add text room fuel d at.entry0 at.method_key at.method
    (s1, d1) ← add text room fuel d0 at.entry1 at.uri_key at.uri
    (s2, d2) ← add text room fuel d1 at.entry2 at.version_key at.version
    ok d2

-- behind a line of `parse_header`'s loop: the result is the number of bytes of the last line
abbrev pub after_line : (next : Sys Call ℕ) → List ℕ → Sys Call ℕ
after_line next [] = pure 0
after_line next (c ∷ []) = either (c == b'\n') (pure 1) next
after_line next (c ∷ d ∷ cs) = next

-- the `while` of `parse_header`: `fuel` bounds the number of lines
unfoldable pub header_lines : (fuel fd : ℕ) → Sys Call ℕ
header_lines zero fd = λ rs. blocked []
header_lines (suc f) fd = Sys.◌>>=◌ (read_line fd max_line) (after_line (header_lines f fd))

-- `message`, as many bytes as strlen() counts
abbrev pub response : List ℕ
response =
    b'H' ∷ b'T' ∷ b'T' ∷ b'P' ∷ b'/' ∷ b'1' ∷ b'.' ∷ b'0' ∷ b' ' ∷ b'2' ∷ b'0' ∷ b'0' ∷ b' ' ∷ b'O'
    ∷ b'K' ∷ b'\r' ∷ b'\n' ∷ b'C' ∷ b'o' ∷ b'n' ∷ b't' ∷ b'e' ∷ b'n' ∷ b't' ∷ b'-' ∷ b'L' ∷ b'e'
    ∷ b'n' ∷ b'g' ∷ b't' ∷ b'h' ∷ b':' ∷ b' ' ∷ b'2' ∷ b'\r' ∷ b'\n' ∷ b'\r' ∷ b'\n' ∷ b'H' ∷ b'i'
    ∷ []

module _ {S : Type 0} (add_line : S → List ℕ → Result S) (fill : List ℕ) where
  -- `parse_header`; `fill` is what the array `buf` holds before anything is read into it, and
  -- `add_line` is `add_request_line_to_dict`. The result is the `int` returned.
  unfoldable pub parse_header : (fuel fd : ℕ) → S → Sys Call (ℕ × S)
  parse_header f fd s = Sys.◌>>=◌ (read_line fd max_line) (λ line.
      either (length line == 0) (pure (0, s)) (
        Sys.◌>>=◌ (lift (c_string (line ++ drop (length line) fill))) (λ buf.
          Sys.◌>>=◌ (lift (add_line s buf))
            (λ s'. Sys.◌>>=◌ (header_lines f fd) (λ n. pure (n, s'))))))

  -- `conn_fd < 0 || errno == EINTR`: a call that succeeds leaves `errno` as it was.
  abbrev pub rejected : (errno : ℕ) → Reply → Bool
  rejected errno (failed e) = true
  rejected errno r = errno == eintr

  abbrev pub accepted : Reply → ℕ
  accepted (number n) = n
  accepted _ = 0

  -- A round of `main` with the `errno` that is left from before; `created` is what dictCreate()
  -- returns.
  unfoldable pub round : (fuel listen errno : ℕ) → (created : Option S) → Sys Call (Unit {0})
  round f listen errno created =
      Sys.◌>>=◌ (call (accept listen))
        (λ r. either (rejected errno r) (pure tt) (serve (accepted r) created))
    where
      serve : ℕ → Option S → Sys Call (Unit {0})
      serve fd none = pure tt
      serve fd (some s) = Sys.◌>>=◌ (parse_header f fd s) (λ _.
          Sys.◌>>=◌ (call (write fd response)) (λ _. Sys.◌>>=◌ (call (close fd)) (λ _. pure tt)))

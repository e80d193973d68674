-- ===== src/Http/Parsing.antt =====
-- `parse_header` of chap-16/tcp_http_server.c on whole requests.
use geek_network_programming.Base.{
  ℕ, zero, suc, ◌+◌, ◌≤◌, ◌<◌, ◌≡◌, refl, false, List, [], ◌∷◌, ◌++◌, append-nil, ◌==◌, ==_ne,
  arith, length, length-append, drop,
}
use geek_network_programming.Base.Result.{Result, ok}
use geek_network_programming.Sys.{Reply, bytes, done, fault}
use geek_network_programming.Strings.{NoZero, c_string-append}
use geek_network_programming.Http.{Call, recv, peek}
use geek_network_programming.Http.Lines.{one_by_one, Plain, recvs, read_line-one_by_one}
use geek_network_programming.Http.Request.{max_line, header_lines, parse_header}

-- a line with its CR LF, the LF being seen before it is received
abbrev pub arrives : List ℕ → List Reply → List Reply
arrives cs rs = one_by_one cs (bytes (b'\r' ∷ []) ∷ bytes (b'\n' ∷ []) ∷ bytes (b'\n' ∷ []) ∷ rs)

abbrev pub line_calls : ℕ → List ℕ → List Call
line_calls fd cs = recvs fd cs (recv fd ∷ peek fd ∷ recv fd ∷ [])

-- A header line is not empty, and fits in the buffer.
abbrev pub Header : List ℕ → Type 0
Header cs = Plain cs × (0 < length cs) × (length cs + 1 < max_line)

abbrev pub Headers : List (List ℕ) → Type 0
Headers [] = Unit {0}
Headers (h ∷ hs) = Header h × Headers hs

-- the header lines and the empty one
abbrev pub head_replies : List (List ℕ) → List Reply → List Reply
head_replies [] rs = arrives [] rs
head_replies (h ∷ hs) rs = arrives h (head_replies hs rs)

abbrev pub head_calls : ℕ → List (List ℕ) → List Call
head_calls fd [] = line_calls fd []
head_calls fd (h ∷ hs) = line_calls fd h ++ head_calls fd hs

no_bytes-Plain : Plain []
unfolding Plain
no_bytes-Plain = tt

header_lines-head_replies :
    (fd fuel : ℕ) (hs : List (List ℕ)) (rs : List Reply)
    → Headers hs
    → length hs ≤ fuel
    → header_lines (suc fuel) fd (head_replies hs rs) ≡ done 1 rs (head_calls fd hs)
unfolding header_lines
header_lines-head_replies fd fuel [] rs p le =
    rw (read_line-one_by_one fd max_line [] rs no_bytes-Plain (omega arith)) refl
header_lines-head_replies fd zero (h ∷ hs) rs p le = absurd (omega arith)
header_lines-head_replies fd (suc fuel) ([] ∷ hs) rs ((q, pos_, lt), p) le = absurd (omega arith)
header_lines-head_replies fd (suc fuel) ((c ∷ []) ∷ hs) rs ((q, pos_, lt), p) le =
    rw
      (
        read_line-one_by_one fd max_line (c ∷ []) (head_replies hs rs) q lt,
        header_lines-head_replies fd fuel hs rs p (omega arith),
      )
      refl
header_lines-head_replies fd (suc fuel) ((c ∷ d ∷ cs) ∷ hs) rs ((q, pos_, lt), p) le =
    rw
      (
        read_line-one_by_one fd max_line (c ∷ d ∷ cs) (head_replies hs rs) q lt,
        header_lines-head_replies fd fuel hs rs p (omega arith),
      )
      refl

module _ {S : Type 0} (add_line : S → List ℕ → Result S) (fill more : List ℕ) (fd fuel : ℕ) (s : S)
    (cs : List ℕ) (plain : Plain cs) (text : NoZero (cs ++ b'\n' ∷ []))
    (fits : length cs + 1 < max_line)
    (ends : drop (length (cs ++ b'\n' ∷ [])) fill ≡ 0 ∷ more) where
  nonempty : (length (cs ++ b'\n' ∷ []) == 0) ≡ false
  nonempty = ==_ne (length (cs ++ b'\n' ∷ [])) 0 (omega (arith, length-append cs (b'\n' ∷ [])))

  -- The string in the buffer is the line, so what follows goes by what the line leads to.
  pub parse_header_fault :
      (rs : List Reply)
      → add_line s (cs ++ b'\n' ∷ []) ≡ Result.fault
      → parse_header add_line fill fuel fd s (arrives cs rs) ≡ fault (line_calls fd cs)
  unfolding parse_header
  parse_header_fault rs e =
      rw
        (
          read_line-one_by_one fd max_line cs rs plain fits,
          nonempty,
          ends,
          c_string-append (cs ++ b'\n' ∷ []) more text,
          e,
          append-nil,
        )
        refl

  -- A request whose request line the code can store, with no zero byte in it and a zero byte
  -- behind it in the buffer, and whose header lines are not empty and fit in the buffer, is read
  -- by parse_header up to its empty line: the result is 1 with what storing the request line
  -- gives, and no reply that follows is taken.
  pub parse_header-head_replies :
      (s' : S) (hs : List (List ℕ)) (rs : List Reply)
      → add_line s (cs ++ b'\n' ∷ []) ≡ ok s'
      → Headers hs
      → length hs ≤ fuel
      → parse_header add_line fill (suc fuel) fd s (arrives cs (head_replies hs rs))
        ≡ done (1, s') rs (line_calls fd cs ++ head_calls fd hs)
  unfolding parse_header
  parse_header-head_replies s' hs rs e p le =
      rw
        (
          read_line-one_by_one fd max_line cs (head_replies hs rs) plain fits,
          nonempty,
          ends,
          c_string-append (cs ++ b'\n' ∷ []) more text,
          e,
          header_lines-head_replies fd fuel hs rs p le,
          append-nil,
        )
        refl

-- ===== src/Http/Overflow.antt =====
-- The arrays of `add_request_line_to_dict` of chap-16/tcp_http_server.c, in a request as it arrives.
use geek_network_programming.Base.{
  ℕ, ◌+◌, ◌<◌, ◌≡◌, refl, Bool, false, List, [], ◌∷◌, ◌++◌, ◌&&◌, ◌==◌, arith, length, drop,
}
use geek_network_programming.Base.Result.{Result}
use geek_network_programming.Sys.{Reply, fault}
use geek_network_programming.Strings.{NoZero}
use geek_network_programming.Dict.Defs.{Ptr, Dict}
use geek_network_programming.Http.Lines.{Plain}
use geek_network_programming.Http.Request.{
  max_line, parse_header, Addresses, add_request_line_to_dict,
}
use geek_network_programming.Http.RequestLine.{Word, line_of, line_of-append, request_line-line_of}
use geek_network_programming.Http.Parsing.{arrives, line_calls, parse_header_fault}

-- the request line without its newline
abbrev pub words : (method uri version : List ℕ) → List ℕ
words m u v = m ++ b' ' ∷ (u ++ b' ' ∷ v)

Word-NoZero : (w cs : List ℕ) → Word w → NoZero cs → NoZero (w ++ cs)
Word-NoZero [] cs p n = n
Word-NoZero (c ∷ w) cs (s, z, p) n = (z, Word-NoZero w cs p n)

line_of-NoZero : (m u v : List ℕ) → Word m → Word u → Word v → NoZero (line_of m u v)
line_of-NoZero m u v pm pu pv = Word-NoZero m (b' ' ∷ (u ++ b' ' ∷ (v ++ b'\n' ∷ []))) pm (
  omega arith,
  Word-NoZero u (b' ' ∷ (v ++ b'\n' ∷ [])) pu
      (omega arith, Word-NoZero v (b'\n' ∷ []) pv (omega arith, tt)),
)

too_long :
    (text : Ptr → List ℕ) (room : Bool) (fuel : ℕ) (at : Addresses) (d : Dict) (m u v : List ℕ)
    → Word m
    → Word u
    → Word v
    → (length m == 5 && length v == 9) ≡ false
    → add_request_line_to_dict text room fuel at d (line_of m u v) ≡ Result.fault
unfolding add_request_line_to_dict
too_long text room fuel at d m u v pm pu pv e = rw (request_line-line_of m u v pm pu pv, e) refl

-- A request line of three words that fits in the buffer, arrives whole and has a zero byte behind
-- it in the buffer makes parse_header go outside the arrays of add_request_line_to_dict, whatever
-- is in the dictionary, unless the method has 5 bytes and the version 9.
pub parse_header_overflow :
    (text : Ptr → List ℕ) (room : Bool) (rounds : ℕ) (at : Addresses) (d : Dict)
    → (fill more : List ℕ) (fd fuel : ℕ) (m u v : List ℕ) (rs : List Reply) → Word m
    → Word u
    → Word v
    → Plain (words m u v)
    → length (words m u v) + 1 < max_line
    → drop (length (words m u v ++ b'\n' ∷ [])) fill ≡ 0 ∷ more
    → (length m == 5 && length v == 9) ≡ false
    → parse_header
        (add_request_line_to_dict text room rounds at)
        fill
        fuel
        fd
        d
        (arrives (words m u v) rs)
      ≡ fault (line_calls fd (words m u v))
parse_header_overflow text room rounds at d fill more fd fuel m u v rs pm pu pv plain fits ends e =
    let line = line_of-append m u v in
    parse_header_fault (add_request_line_to_dict text room rounds at) fill more fd fuel d
      (words m u v) plain (rw (← line) (line_of-NoZero m u v pm pu pv)) fits ends rs
      (rw (← line) (too_long text room rounds at d m u v pm pu pv e))

-- ===== src/Tests/Requests.antt =====
-- Requests of the HTTP server of chap-16, and the dictionary that one leaves.
use geek_network_programming.Base.{
  ℕ, ◌+◌, ◌≡◌, refl, true, ◌&&◌, ◌==◌, if◌then◌else◌, none, List, [], ◌∷◌, ◌++◌, length, arith,
  replicate,
}
use geek_network_programming.Base.Result as Result
use geek_network_programming.Base.Result.{ok}
use geek_network_programming.Sys.{done, fault}
use geek_network_programming.Dict.Defs.{Ptr, Dict}
use geek_network_programming.Dict.Tables.{init}
use geek_network_programming.Dict.Model.{View, Models, unused}
use geek_network_programming.Http.Storing.{
  Fresh, Absent, with_words, add_request_line_to_dict-Models,
}
use geek_network_programming.Http.Lines.{Plain}
use geek_network_programming.Http.Request.{
  request_line, parse_header, Addresses, add_request_line_to_dict,
}
use geek_network_programming.Http.RequestLine.{Word, line_of, request_line-line_of}
use geek_network_programming.Http.Parsing.{
  arrives, line_calls, head_replies, head_calls, parse_header-head_replies,
}
use geek_network_programming.Http.Overflow.{words, parse_header_overflow}

-- `GET`, `/`, `HTTP/1.1`
abbrev get : List ℕ
get = b'G' ∷ b'E' ∷ b'T' ∷ []

abbrev root : List ℕ
root = b'/' ∷ []

abbrev http : List ℕ
http = b'H' ∷ b'T' ∷ b'T' ∷ b'P' ∷ b'/' ∷ b'1' ∷ b'.' ∷ b'1' ∷ []

get-Word : Word get
get-Word = (refl, omega arith, (refl, omega arith, (refl, omega arith, tt)))

root-Word : Word root
root-Word = (refl, omega arith, tt)

http-Word : Word http
http-Word = (
  refl,
  omega arith,
  (
    refl,
    omega arith,
    (
      refl,
      omega arith,
      (
        refl,
        omega arith,
        (refl, omega arith, (refl, omega arith, (refl, omega arith, (refl, omega arith, tt)))),
      ),
    ),
  ),
)

request_example :
    request_line (line_of get root http)
    ≡ (if length get == 5 && length http == 9 then ok (get, root, http) else Result.fault)
request_example = request_line-line_of get root http get-Word root-Word http-Word

abbrev zeros : List ℕ
zeros = replicate 20 0

-- a header of one byte
abbrev headers : List (List ℕ)
headers = (97 ∷ []) ∷ []

one-Plain : Plain (97 ∷ [])
unfolding Plain
one-Plain = (refl, refl, tt)

abbrev count_lines : ℕ → List ℕ → Result.Result ℕ
count_lines n buf = ok (n + 1)

parse_example :
    parse_header count_lines zeros 2 4 0 (arrives (97 ∷ []) (head_replies headers []))
    ≡ done (1, 1) [] (line_calls 4 (97 ∷ []) ++ head_calls 4 headers)
parse_example =
    parse_header-head_replies count_lines zeros (replicate 17 0) 4 1 0 (97 ∷ []) one-Plain
      (omega arith, (omega arith, tt)) (omega arith) refl 1 headers [] refl
      ((one-Plain, omega arith, omega arith), tt) (omega arith)

abbrev places : Addresses
places = record {
  method_key = 1;
  uri_key = 2;
  version_key = 3;
  method = 4;
  uri = 5;
  version = 6;
  entry0 = 7;
  entry1 = 8;
  entry2 = 9;
}

abbrev empty_dict : Dict
empty_dict = init (λ p. none)

abbrev keys : Ptr → List ℕ
keys p = p ∷ []

root-Plain : Plain (words get root http)
unfolding Plain
root-Plain = (
  refl,
  refl,
  (
    refl,
    refl,
    (
      refl,
      refl,
      (
        refl,
        refl,
        (
          refl,
          refl,
          (
            refl,
            refl,
            (
              refl,
              refl,
              (
                refl,
                refl,
                (
                  refl,
                  refl,
                  (refl, refl, (refl, refl, (refl, refl, (refl, refl, (refl, refl, tt))))),
                ),
              ),
            ),
          ),
        ),
      ),
    ),
  ),
)

overflow_example :
    parse_header
      (add_request_line_to_dict keys true 9 places)
      zeros
      1
      4
      empty_dict
      (arrives (words get root http) [])
    ≡ fault (line_calls 4 (words get root http))
overflow_example =
    parse_header_overflow keys true 9 places empty_dict zeros (replicate 4 0) 4 1 get root http []
      get-Word root-Word http-Word root-Plain (omega arith) refl refl

-- `PATCH` and `HTTP/1.10`
abbrev patch : List ℕ
patch = b'P' ∷ b'A' ∷ b'T' ∷ b'C' ∷ b'H' ∷ []

abbrev http_ten : List ℕ
http_ten = b'H' ∷ b'T' ∷ b'T' ∷ b'P' ∷ b'/' ∷ b'1' ∷ b'.' ∷ b'1' ∷ b'0' ∷ []

patch-Word : Word patch
patch-Word = (
  refl,
  omega arith,
  (refl, omega arith, (refl, omega arith, (refl, omega arith, (refl, omega arith, tt)))),
)

http_ten-Word : Word http_ten
http_ten-Word = (
  refl,
  omega arith,
  (
    refl,
    omega arith,
    (
      refl,
      omega arith,
      (
        refl,
        omega arith,
        (
          refl,
          omega arith,
          (refl, omega arith, (refl, omega arith, (refl, omega arith, (refl, omega arith, tt)))),
        ),
      ),
    ),
  ),
)

abbrev no_headers : View
no_headers q = none

empty_dict-Models : Models keys empty_dict no_headers
empty_dict-Models = unused (record { table0 = refl; used1 = refl; still = refl; reads = λ q. refl })

places-Fresh : Fresh places empty_dict
places-Fresh = record {
  given0 = omega arith;
  given1 = omega arith;
  given2 = omega arith;
  free0 = refl;
  free1 = refl;
  free2 = refl;
  ne10 = omega arith;
  ne20 = omega arith;
  ne21 = omega arith;
}

keys-Absent : Absent keys places no_headers
keys-Absent = record {
  none0 = refl;
  none1 = refl;
  none2 = refl;
  other10 = refl;
  other20 = refl;
  other21 = refl;
}

storing_example :
    (d' : Dict) × (add_request_line_to_dict keys true 3 places empty_dict
        (line_of patch root http_ten)
      ≡ ok d')
    × Models keys d' (with_words keys places no_headers)
    × (d'.ht0.used + d'.ht1.used ≡ 3)
storing_example =
    add_request_line_to_dict-Models keys places empty_dict 2 patch root http_ten patch-Word
      root-Word http_ten-Word refl refl empty_dict-Models places-Fresh keys-Absent (omega arith)
      (omega arith)

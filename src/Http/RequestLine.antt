-- ===== src/Http/RequestLine.antt =====
-- Which request lines `add_request_line_to_dict` of chap-16/tcp_http_server.c can take.
use geek_network_programming.Base.{
  ℕ, ◌+◌, ◌-◌, ◌≡◌, ◌≢◌, refl, false, ◌&&◌, none, some, List, [], ◌∷◌, ◌++◌, append_assoc, ◌==◌,
  ltb, if◌then◌else◌, arith, length, length-append,
}
use geek_network_programming.Base.Result.{ok, fault}
use geek_network_programming.Http.Request.{strsep, copy_word, cut_last, request_line}

-- no space and no zero byte
abbrev pub Word : List ℕ → Type 0
Word [] = Unit {0}
Word (c ∷ cs) = ((c == b' ') ≡ false) × (c ≢ 0) × Word cs

-- `METHOD URI VERSION` and the newline
abbrev pub line_of : (method uri version : List ℕ) → List ℕ
line_of m u v = m ++ b' ' ∷ (u ++ b' ' ∷ (v ++ b'\n' ∷ []))

strsep-Word : (w r : List ℕ) → Word w → strsep (w ++ b' ' ∷ r) ≡ (w, some r)
unfolding strsep
strsep-Word [] r p = refl
strsep-Word (c ∷ w) r (s, z, p) = rw (s, strsep-Word w r p) refl

strsep_last : (w : List ℕ) → Word w → strsep w ≡ (w, none)
unfolding strsep
strsep_last [] p = refl
strsep_last (c ∷ w) (s, z, p) = rw (s, strsep_last w p) refl

cut_last-append : (xs : List ℕ) (c : ℕ) → cut_last (xs ++ c ∷ []) ≡ xs
unfolding cut_last
cut_last-append [] c = refl
cut_last-append (x ∷ []) c = refl
cut_last-append (x ∷ y ∷ xs) c = rw (cut_last-append (y ∷ xs) c) refl

pub line_of-append : (m u v : List ℕ) → line_of m u v ≡ (m ++ b' ' ∷ (u ++ b' ' ∷ v)) ++ b'\n' ∷ []
line_of-append m u v = rw (append_assoc, append_assoc) refl

pub length-line_of : (m u v : List ℕ) → length (line_of m u v) ≡ length m + length u + length v + 3
length-line_of m u v = omega (
  arith,
  length-append m (b' ' ∷ (u ++ b' ' ∷ (v ++ b'\n' ∷ []))),
  length-append u (b' ' ∷ (v ++ b'\n' ∷ [])),
  length-append v (b'\n' ∷ []),
)

copy_word-Word :
    (size : ℕ) (w r : List ℕ)
    → Word w
    → copy_word size (some (w ++ b' ' ∷ r))
      ≡ (if ltb (length w) size then ok (w, some r) else fault)
unfolding copy_word
copy_word-Word size w r p = rw (strsep-Word w r p) refl

copy_word_last :
    (size : ℕ) (w : List ℕ)
    → Word w
    → copy_word size (some w) ≡ (if ltb (length w) size then ok (w, none) else fault)
unfolding copy_word
copy_word_last size w p = rw (strsep_last w p) refl

-- For a request line of three words without spaces or zero bytes, add_request_line_to_dict stays
-- inside its three arrays exactly if the method has 5 bytes and the version 9; then it takes just
-- the three words.
pub request_line-line_of :
    (m u v : List ℕ)
    → Word m
    → Word u
    → Word v
    → request_line (line_of m u v)
      ≡ (if length m == 5 && length v == 9 then ok (m, u, v) else fault)
unfolding request_line
request_line-line_of m u v pm pu pv =
    rw
      (
        length-line_of m u v,
        line_of-append m u v,
        cut_last-append (m ++ b' ' ∷ (u ++ b' ' ∷ v)) b'\n',
        copy_word-Word 6 m (u ++ b' ' ∷ v) pm,
      )
      (ground (
        arith,
        copy_word-Word (length m + length u + length v + 3 - 16) u v pu,
        copy_word_last 10 v pv,
      ))

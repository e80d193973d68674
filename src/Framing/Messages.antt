-- ===== src/Framing/Messages.antt =====
-- The messages of the client of chap-16 as its server takes them.
use geek_network_programming.Base.{
  ℕ, suc, ◌+◌, ◌<◌, ◌≡◌, refl, ==_ne, List, [], ◌∷◌, ◌++◌, arith, length,
}
use geek_network_programming.Sys.{Reply, number, done}
use geek_network_programming.Strings.{NoZero, c_string-append}
use geek_network_programming.Framing.{Call, send}
use geek_network_programming.Framing.Delivery.{htonl, Delivers, Sent, Gives, read_message-Sent}
use geek_network_programming.Framing.Exchange.{message_of, client_loop, server_loop, buf_size}

-- a line as fgets() reads it into `buf`: not empty, with no zero byte
pub record Line : Type 0 where
  pub text : List ℕ
  pub some_ : 0 < length text
  pub short : length text < buf_size
  pub chars : NoZero text
  -- what send() returns for it
  pub taken : ℕ

abbrev pub texts : List Line → List (List ℕ)
texts [] = []
texts (l ∷ ls) = l.text ∷ texts ls

abbrev pub takes : List Line → List Reply → List Reply
takes [] rs = rs
takes (l ∷ ls) rs = number l.taken ∷ takes ls rs

-- the type as the client sends it
abbrev pub kind : List ℕ
kind = 1 ∷ 0 ∷ 0 ∷ 0 ∷ []

abbrev pub sends : ℕ → List Line → List Call
sends fd [] = []
sends fd (l ∷ ls) = send fd (htonl (length l.text) ++ (kind ++ l.text)) ∷ sends fd ls

-- The messages of the lines arrive, each part cut into pieces.
pub data Arrive : List Line → List Reply → List Reply → Type 0 where
  nothing : {rs : List Reply} → Arrive [] rs rs
  message :
      {l : Line} {ls : List Line} {rs rs1 rs2 rs3 rest : List Reply}
      → Delivers 4 (htonl (length l.text)) rs rs1
      → Delivers 4 kind rs1 rs2
      → Delivers (length l.text) l.text rs2 rs3
      → Arrive ls rs3 rest
      → Arrive (l ∷ ls) rs rest

client_loop-sends :
    (fd : ℕ) (ls : List Line) (rs : List Reply)
    → client_loop fd (texts ls) (takes ls rs) ≡ done tt rs (sends fd ls)
unfolding client_loop message_of
client_loop-sends fd [] rs = refl
client_loop-sends fd (l ∷ ls) rs =
    rw (c_string-append l.text [] l.chars, client_loop-sends fd ls rs) refl

taken :
    (l : Line) {rs rs1 rs2 rest : List Reply}
    → Delivers 4 (htonl (length l.text)) rs rs1
    → Delivers 4 kind rs1 rs2
    → Delivers (length l.text) l.text rs2 rest
    → Sent buf_size l.text rs rest
taken l {rs1} {rs2} a b c = record {
  kind = kind;
  rs1 = rs1;
  rs2 = rs2;
  head_in = a;
  kind_in = b;
  body_in = c;
  fits = omega (arith, l.short);
  small = omega (arith, l.short);
}

server_loop-count :
    (fd count : ℕ) (ls : List Line) {rs rest : List Reply}
    → Arrive ls rs rest
    → Gives (server_loop (length ls) fd count rs) (count + length ls) rest
unfolding server_loop
server_loop-count fd count [] nothing = let same : count + 0 ≡ count = omega arith in ([], rw same)
server_loop-count fd count (l ∷ ls) (message a b c more) =
    let (t, run) = read_message-Sent fd buf_size l.text _ _ (taken l a b c) in
    let (u, later) = server_loop-count fd (count + 1) ls more in
    let full = ==_ne (length l.text) 0 (omega (arith, l.some_)) in
    let same : count + 1 + length ls ≡ count + suc (length ls) = omega arith in
    (t ++ u, rw (run, full, later, same))

-- If every send() succeeds, the client of the length-prefixed messages sends one message for each
-- line, of its length, the type and the text; and however these parts are cut into pieces and its
-- reads interrupted, the server takes as many messages as there are lines, counts them, and takes
-- no reply that follows. Lines are not empty, have no zero byte and are shorter than the buffer of
-- 128 bytes.
pub client_loop-server_loop :
    (fd fd' count : ℕ) (ls : List Line) (rs : List Reply) {qs rest : List Reply}
    → Arrive ls qs rest
    → (client_loop fd (texts ls) (takes ls rs) ≡ done tt rs (sends fd ls))
      × Gives (server_loop (length ls) fd' count qs) (count + length ls) rest
client_loop-server_loop fd fd' count ls rs a =
    (client_loop-sends fd ls rs, server_loop-count fd' count ls a)

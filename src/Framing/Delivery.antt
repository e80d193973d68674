-- ===== src/Framing/Delivery.antt =====
-- `readn` and `read_message` on what the kernel delivers in pieces.
use geek_network_programming.Base.{
  ℕ, zero, suc, ◌+◌, ◌-◌, ◌/◌, ◌%◌, ◌^◌, ◌≤◌, ◌<◌, ◌≡◌, refl, true, false, some, List, [], ◌∷◌,
  ◌++◌, append-nil, append_assoc, ==_refl, ltb, leb, pos, arith, length, length-append,
}
use geek_network_programming.Sys.{Reply, bytes, failed, eintr, Outcome, done}
use geek_network_programming.Framing.{Call, read, readn_loop, readn, ntohl, read_message}

-- The replies `rs`, up to `rest`, hand over the `n` bytes `s` in pieces of any size, and interrupt
-- the reads as often as they like.
pub data Delivers : ℕ → List ℕ → List Reply → List Reply → Type 0 where
  full : {rs : List Reply} → Delivers zero [] rs rs
  interrupted :
      {n : ℕ} {s : List ℕ} {rs rest : List Reply}
      → Delivers (suc n) s rs rest
      → Delivers (suc n) s (failed eintr ∷ rs) rest
  piece :
      {n m : ℕ} {s : List ℕ} {rs rest : List Reply} (b : ℕ) (bs : List ℕ)
      → n ≡ length bs + m
      → Delivers m s rs rest
      → Delivers (suc n) (b ∷ bs ++ s) (bytes (b ∷ bs) ∷ rs) rest

pub length-Delivers :
    {n : ℕ} {s : List ℕ} {rs rest : List Reply} → Delivers n s rs rest → length s ≡ n
length-Delivers full = refl
length-Delivers (interrupted d) = length-Delivers d
length-Delivers (piece {s} b bs e d) = omega (arith, length-append bs s, length-Delivers d)

-- a run that gives `a` and leaves `rest`
abbrev pub Gives : {A : Type 0} → Outcome Call A → A → List Reply → Type 0
Gives o a rest = (t : List Call) × (o ≡ done a rest t)

readn_loop-Delivers :
    {n : ℕ} {s : List ℕ} {rs rest : List Reply}
    → Delivers n s rs rest
    → (fd : ℕ) (got : List ℕ) → Gives (readn_loop fd n got rs) (some (got ++ s)) rest
unfolding readn_loop
readn_loop-Delivers full fd got = ([], rw append-nil)
readn_loop-Delivers (interrupted {n} d) fd got =
    let (t, e) = readn_loop-Delivers d fd got in (read fd (suc n) ∷ t, rw e)
readn_loop-Delivers (piece {n} {m} {s} {rs} {rest} b bs eq d) fd got =
    let left : n - length bs ≡ m = omega arith in
    let (t, e) = readn_loop-Delivers d fd (got ++ b ∷ bs) in
    (read fd (suc n) ∷ t, rw (left, e) (simp append_assoc))

-- However the kernel cuts the bytes into pieces and interrupts the calls, `readn` of fewer than 2
-- ^ 31 bytes ends with these bytes in order, and takes no reply beyond them.
pub readn-Delivers :
    {n : ℕ} {s : List ℕ} {rs rest : List Reply} (fd : ℕ)
    → n < 2 ^ 31
    → Delivers n s rs rest
    → Gives (readn fd n rs) (some s) rest
unfolding readn
readn-Delivers {n} fd small d =
    let same : n % 2 ^ 32 ≡ n = omega arith in
    let fits : leb (2 ^ 31) n ≡ false = ground arith in
    rw (same, fits) (readn_loop-Delivers d fd [])

-- A size whose low 32 bits are a negative `int`: readn makes no call and gives nothing.
readn_negative :
    (fd size : ℕ) (rs : List Reply)
    → 2 ^ 31 ≤ size % 2 ^ 32
    → readn fd size rs ≡ done (some []) rs []
unfolding readn
readn_negative fd size rs large =
    let e : leb (2 ^ 31) (size % 2 ^ 32) ≡ true = ground arith in rw e refl

-- the length in the network's byte order, as a client sends it
unfoldable pub htonl : ℕ → List ℕ
htonl n = n / 2 ^ 24 % 256 ∷ n / 2 ^ 16 % 256 ∷ n / 2 ^ 8 % 256 ∷ n % 256 ∷ []

pub ntohl-htonl : (n : ℕ) → n < 2 ^ 32 → ntohl (htonl n) ≡ n
unfolding ntohl htonl
ntohl-htonl n h = omega arith

-- A message of the protocol: its length, its type of four bytes and its body, of at most `limit`
-- bytes, each handed over in pieces.
pub record Sent (limit : ℕ) (body : List ℕ) (rs rest : List Reply) : Type 0 where
  pub kind : List ℕ
  pub rs1 : List Reply
  pub rs2 : List Reply
  pub head_in : Delivers 4 (htonl (length body)) rs rs1
  pub kind_in : Delivers 4 kind rs1 rs2
  pub body_in : Delivers (length body) body rs2 rest
  pub fits : length body ≤ limit
  pub small : length body < 2 ^ 31

-- read_message gives back the body that was sent behind its length and type, however the three
-- parts are cut into pieces and the reads interrupted, if the body is of at most `limit` and fewer
-- than 2 ^ 31 bytes; it returns the length and takes no reply that follows.
pub read_message-Sent :
    (fd limit : ℕ) (body : List ℕ) (rs rest : List Reply)
    → Sent limit body rs rest
    → Gives (read_message fd limit rs) (pos (length body), body) rest
unfolding read_message
read_message-Sent fd limit body rs rest m =
    let n = length body in
    let (t1, e1) = readn-Delivers fd (omega arith) m.head_in in
    let (t2, e2) = readn-Delivers fd (omega arith) m.kind_in in
    let (t3, e3) = readn-Delivers fd m.small m.body_in in
    let l1 : ◌≡◌ {A = ℕ} (length (htonl n)) 4 = length-Delivers m.head_in in
    let l2 = length-Delivers m.kind_in in
    let num = ntohl-htonl n (omega (arith, m.small)) in
    let le : ltb limit n ≡ false = ground (arith, m.fits) in
    (t1 ++ (t2 ++ (t3 ++ [])), rw (e1, l1, e2, l2, num, le, e3, ==_refl n))

-- ===== src/Framing.antt =====
-- `readn` of lib/common.h, and the length-prefixed messages of chap-16/tcp_explicit_length_server.c.
pub mod Delivery
pub mod Exchange
pub mod Messages
use geek_network_programming.Base.{
  ℕ, zero, suc, ◌+◌, ◌-◌, ◌*◌, ◌/◌, ◌%◌, ◌^◌, Bool, true, false, not, Option, none, some, List, [],
  ◌∷◌, ◌++◌, ◌==◌, ltb, leb, if◌then◌else◌, ℤ, pos, minus_one, is_neg, length,
}
use geek_network_programming.Sys.{
  Reply, number, bytes, failed, eintr, Outcome, done, exited, blocked, fault, after, Sys, pure,
  ◌>>=◌, ◌>>◌, call, exit,
}

pub data Call : Type 0 where
  read : (fd count : ℕ) → Call
  send : ℕ → List ℕ → Call

-- The loop of `readn` with `n` bytes to go, `got` those in the buffer. `none` is the result -1. The
-- number that the code returns, `size - length`, is the number of bytes in the buffer in the `int`
-- that the callers keep it in.
unfoldable pub readn_loop : (fd n : ℕ) → List ℕ → Sys Call (Option (List ℕ))
readn_loop fd zero got rs = done (some got) rs []
readn_loop fd (suc n) got [] = blocked (read fd (suc n) ∷ [])
readn_loop fd (suc n) got (number k ∷ rs) = fault (read fd (suc n) ∷ [])
readn_loop fd (suc n) got (failed e ∷ rs) =
    let again = readn_loop fd (suc n) got rs in
    after (read fd (suc n) ∷ []) (if e == eintr then again else done none rs [])
readn_loop fd (suc n) got (bytes [] ∷ rs) = done (some got) rs (read fd (suc n) ∷ [])
readn_loop fd (suc n) got (bytes (b ∷ bs) ∷ rs) =
    after (read fd (suc n) ∷ []) (readn_loop fd (n - length bs) (got ++ b ∷ bs) rs)

-- `int length = size` keeps the low 32 bits of the size; when these are a negative number the loop has
-- no round.
unfoldable pub readn : (fd size : ℕ) → Sys Call (Option (List ℕ))
unfolding readn_loop
readn fd size =
    let length = size % 2 ^ 32 in
    if leb (2 ^ 31) length then pure (some []) else readn_loop fd length []

-- `ntohl` of the four bytes that were read
unfoldable pub ntohl : List ℕ → ℕ
ntohl [] = 0
ntohl (b ∷ bs) = b * 256 ^ length bs + ntohl bs

-- `rc < 0 ? -1 : 0`
abbrev pub short : Option (List ℕ) → ℤ
short none = minus_one
short (some got) = pos 0

-- `rc != size`
abbrev pub wrong_size : Option (List ℕ) → ℕ → Bool
wrong_size none size = true
wrong_size (some got) size = not (length got == size)

abbrev pub got_bytes : Option (List ℕ) → List ℕ
got_bytes none = []
got_bytes (some got) = got

-- `read_message`: the result, and the bytes put into the buffer of `length` bytes
pub read_message : (fd limit : ℕ) → Sys Call (ℤ × List ℕ)
read_message fd limit = do
  head ← readn fd 4
  if wrong_size head 4 then pure (short head, []) else do
    let msg_length = ntohl (got_bytes head)
    kind ← readn fd 4
    if wrong_size kind 4
        then pure (short kind, [])
        else if ltb limit msg_length
        then pure (minus_one, [])
        else do
          body ← readn fd msg_length
          if wrong_size body msg_length
              then pure (short body, got_bytes body)
              else pure (pos (length (got_bytes body)), got_bytes body)

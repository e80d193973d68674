-- ===== src/Telnet.antt =====
-- The messages of the remote shell in mid-homework (msg_obj.h).

pub mod Client
pub mod Server
use geek_network_programming.Base.{ℕ, List}

abbrev pub msg_ping : ℕ
msg_ping = 1

abbrev pub msg_pong : ℕ
msg_pong = 2

abbrev pub msg_text : ℕ
msg_text = 11

-- `struct msg_obj`: the type in the host's byte order (`ntohl` and `htonl` undo one another at the two
-- ends), and the bytes of `data` up to the first NUL.
pub record Message : Type 0 where
  pub type : ℕ
  pub text : List ℕ

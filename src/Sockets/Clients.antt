-- ===== src/Sockets/Clients.antt =====
-- The connected sockets of the clients: what they do between reading their argument, the server's
-- address, and the first data.
use geek_network_programming.Base.{ℕ}
use geek_network_programming.Sys.{Sys}
use geek_network_programming.Sockets.{Call, stream, connecting}

-- mid-homework/telnet_client.c
pub telnet_client : (port : ℕ) → Sys Call ℕ
telnet_client port = connecting stream port

-- chap-23/poll_trigger.c
pub poll_trigger : (port : ℕ) → Sys Call ℕ
poll_trigger port = connecting stream port

-- chap-23/select_trigger.c
pub select_trigger : (port : ℕ) → Sys Call ℕ
select_trigger port = connecting stream port

-- the main functions of chap-11/close_client.c, chap-12/ping_client.c, chap-13/writev_client.c,
-- chap-16/tcp_explicit_length_client.c and chap-14/udp_connect_client.c
pub close_client : Sys Call ℕ
close_client = connecting stream 8011

pub ping_client : Sys Call ℕ
ping_client = connecting stream 8012

pub writev_client : Sys Call ℕ
writev_client = connecting stream 8013

pub explicit_length_client : Sys Call ℕ
explicit_length_client = connecting stream 8016

-- A stream socket, as the source has it, though the server of the same chapter has a datagram socket.
pub udp_connect_client : Sys Call ℕ
udp_connect_client = connecting stream 8014

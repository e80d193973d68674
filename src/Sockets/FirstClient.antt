-- ===== src/Sockets/FirstClient.antt =====
-- The servers that wait for one client: the accept() behind the listening socket.
use geek_network_programming.Base.{ℕ, ◌==◌, not}
use geek_network_programming.Sys.{Sys, pure, ◌>>=◌, call, exit, ignored, either}
use geek_network_programming.Sockets.{
  Call, negative, checked, socket, local, stream, listen, accept, unlink, bind_local, connect_local,
}
use geek_network_programming.Sockets.Servers.{close_server, reuse_server, explicit_length_server}

-- `accept` and its test
abbrev pub first_client : ℕ → Sys Call ℕ
first_client fd = call (accept fd) >>= checked negative

-- chap-11/close_server.c, chap-15/tcp_reuse_server.c and chap-16/tcp_explicit_length_server.c
pub close_server_client : Sys Call ℕ
close_server_client = close_server >>= λ fd. first_client fd

pub reuse_server_client : Sys Call ℕ
reuse_server_client = reuse_server >>= λ fd. first_client fd

pub explicit_length_server_client : Sys Call ℕ
explicit_length_server_client = explicit_length_server >>= λ fd. first_client fd

-- chap-7/unix_server.c: the listening socket and the connected one
pub unix_server_client : (argc : ℕ) → Sys Call (ℕ × ℕ)
unix_server_client argc = either (not (argc == 2)) (exit 1) do
  fd ← call (socket local stream) >>= checked negative
  _ ← ignored unlink
  _ ← call (bind_local fd) >>= checked negative
  _ ← call (listen fd 128) >>= checked negative
  conn ← first_client fd
  pure (fd, conn)

-- chap-7/unix_client.c
pub unix_client : (argc : ℕ) → Sys Call ℕ
unix_client argc = either (not (argc == 2)) (exit 1) do
  fd ← call (socket local stream) >>= checked negative
  _ ← call (connect_local fd) >>= checked negative
  pure fd

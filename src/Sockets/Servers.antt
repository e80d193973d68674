-- ===== src/Sockets/Servers.antt =====
-- The listening sockets of the servers. The port and the backlog are the program's; `port` stays an
-- argument where it is one in the source.
use geek_network_programming.Base.{ℕ, [], ◌∷◌}
use geek_network_programming.Sys.{Sys, pure, ◌>>=◌, call}
use geek_network_programming.Sockets.{
  Call, reuse_address, nonblocking, negative, nonzero, checked, listening, bind, listen, inet,
  stream, dgram, socket,
}

-- chap-21/poll_server.c
pub poll_server : (port : ℕ) → Sys Call ℕ
poll_server port = listening (reuse_address ∷ []) nonzero port 128

-- chap-22/nonblocking_io_select_server.c
pub select_server : (port : ℕ) → Sys Call ℕ
select_server port = listening (reuse_address ∷ nonblocking ∷ []) negative port 128

-- chap-23/epoll_server.c
pub epoll_server : (port : ℕ) → Sys Call ℕ
epoll_server port = listening (reuse_address ∷ []) nonzero port 128

-- chap-25/blocking_io_process_server.c
pub process_server : (port : ℕ) → Sys Call ℕ
process_server port = listening (reuse_address ∷ []) nonzero port 128

-- chap-26/blocking_io_thread_server.c
pub thread_server : (port : ℕ) → Sys Call ℕ
thread_server port = listening (reuse_address ∷ []) nonzero port 128

-- chap-26/blocking_io_threadpool_server.c
pub pool_server : (port : ℕ) → Sys Call ℕ
pool_server port = listening (reuse_address ∷ []) nonzero port 128

-- lib/acceptor.c: the descriptor in the acceptor that `acceptor_init` makes
pub acceptor : (port : ℕ) → Sys Call ℕ
acceptor port = listening (nonblocking ∷ reuse_address ∷ []) nonzero port 128

-- chap-16/tcp_http_server.c
pub web_server : (port : ℕ) → Sys Call ℕ
web_server port = listening (reuse_address ∷ []) negative port 128

-- mid-homework/telnet_server.c
pub telnet_server : (port : ℕ) → Sys Call ℕ
telnet_server port = listening (reuse_address ∷ []) negative port 128

-- the set-up in the main functions of chap-16/tcp_explicit_length_server.c, chap-15/tcp_reuse_server.c
-- and chap-11/close_server.c
pub explicit_length_server : Sys Call ℕ
explicit_length_server = listening (reuse_address ∷ []) negative 8016 128

pub reuse_server : Sys Call ℕ
reuse_server = listening (reuse_address ∷ []) negative 8015 128

pub close_server : Sys Call ℕ
close_server = listening [] negative 8011 128

-- chap-4/make_socket.c: the socket is bound, and main() then listens.
pub make_socket : (port : ℕ) → Sys Call ℕ
make_socket port = do
  fd ← call (socket inet stream) >>= checked negative
  _ ← call (bind fd port) >>= checked negative
  pure fd

-- the first lines of its main function
pub hello_server : Sys Call ℕ
unfolding make_socket
hello_server = do fd ← make_socket 8081; _ ← call (listen fd 3) >>= checked negative; pure fd

-- chap-14/udp_connect_server.c, up to its bind()
pub udp_server : Sys Call ℕ
udp_server = do
  fd ← call (socket inet dgram) >>= checked negative
  _ ← call (bind fd 8014) >>= checked negative
  pure fd

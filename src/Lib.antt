-- ===== src/Lib.antt =====
-- Verification of the network programming examples: the library of lib/ and the programs of the chapters.
--
-- The parts. lib/ holds a hash dictionary (dict.c), a table from descriptors to channels
-- (channel_map.c), channels and their activation (channel.c, event_loop.c), two dispatchers that find
-- the active channels (poll_dispatcher.c, epoll_dispatcher.c) and `readn` (common.h). A dispatcher
-- activates a channel, which is looked up in the table and whose callbacks are called. The programs of
-- the chapters stand alone: the pool server of chap-26 hands connections to its threads through a
-- blocking queue, and a thread serves each with the rot13 echo; the select server of chap-22 echoes
-- with a buffer for each descriptor, the poll server of chap-21 without; chap-16 has length-prefixed
-- messages, which use `readn`, and an HTTP server, which uses the dictionary; chap-12 has a client and
-- a server of heartbeats; mid-homework is a remote shell with heartbeats; the servers of chap-23, chap-25
-- and of chap-26/blocking_io_thread_server.c echo by epoll, by a process and by a thread for each
-- client; chap-6, chap-7, chap-11 and chap-13 to chap-15 have greeting servers and clients that send
-- what is typed.
--
-- The files.
--   Base           the libraries' names, Boolean tests, C arrays as lists, C's signed results; Result
--                  has `fault` for undefined behaviour and `out_of_fuel` for a loop cut short
--   Sys            programs that call the kernel: a run takes the kernel's replies in order and gives
--                  a result, an exit, a wait for a reply or a fault, with the calls made. Bounds is on
--                  the calls of any run, Ends on the results
--   BlockingQueue  chap-26/blocking_io_threadpool_server.c: blocking_queue_push is `push`, its part
--                  behind the wait `store`; blocking_queue_pop is `pop` and `take_front`. Order has
--                  the queue's contents, Threads the interleavings of the threads as a step relation,
--                  Threads/Invariant what holds of reachable states
--   Dict           lib/dict.c, lib/dict.h. Defs: dict, dictht, dictEntry, the heap of entries.
--                  Tables: _dictReset, _dictInit, dictCreate, _dictGenHash, _dictNextPower, dictExpand,
--                  _dictExpandIfNeeded, _dictKeyIndex. Rehash: dictRehash, _dictRehashStep.
--                  Operations: dictAdd, dictGet, dictDel. Power is on _dictNextPower; Chains and Model
--                  say what a dictionary stands for; Growth, Index, Get and Add are on the operations, Cells,
--                  Removal, Remains, Tidy, Unlink, Smaller, Del and Dangling on dictDel, AddDel on
--                  dictAdd and then dictDel, Session on sequences of operations
--   ChannelMap     lib/channel_map.c: map_init is `init`, map_make_space `make_space`, map_clear `clear`
--   EventLoop      lib/channel.c, and channel_event_activate of lib/event_loop.c
--   Poll, Epoll    lib/poll_dispatcher.c, lib/epoll_dispatcher.c, function by function
--   Dispatcher     lib/event_dispatcher.h: `EventDispatcher` is the interface, `IsFaithful` what an event
--                  loop expects of it; Polling and Epolling are the two dispatchers as instances; Setup
--                  has event_loop_init, event_loop_wakeup and the init and clear of the two
--   Framing        readn of lib/common.h, read_message of chap-16/tcp_explicit_length_server.c; Exchange
--                  has the loops of main in that file and in chap-16/tcp_explicit_length_client.c
--   Echo           rot13_char and connection_loop of chap-26/blocking_io_threadpool_server.c
--   Pool           the accept loop of main and thread_run of the same file; System has main, the threads,
--                  their queue and the open descriptors as a step relation, Roles, Holding and
--                  Ownership what holds of its reachable states
--   PollServer     chap-21/poll_server.c: a round of the main loop, over the clients' slots
--   Select         chap-22/nonblocking_io_select_server.c: the buffer and its two handlers; Server has the
--                  table of buffers and the rounds of main
--   Ping           chap-12/ping_client.c and ping_server.c: the loops of their main functions
--   Http           read_line of chap-16/tcp_http_server.c; Request has parse_header,
--                  add_request_line_to_dict and a round of main
--   Telnet         mid-homework: Client is the main loop of telnet_client.c, Server
--                  handle_client_request, execute_cmd and what they call of telnet_server.c, with Output
--                  for execute_system_cmd and Listening for accept_client_connect and main
--   Sockets        acceptor_init of lib/acceptor.c and the set-up of the programs' sockets: Servers,
--                  Clients; FirstClient has the accept() of the servers with one client, Untested the
--                  programs that test nothing and the loop of chap-4/make_socket.c, Hello what
--                  that loop sends
--   Transfer       send_data of chap-5/tcp_client.c and read_data of chap-5/tcp_server.c
--   Strings        C strings in arrays: strlen, strncmp, the newline of fgets
--   Greeting       chap-11/close_server.c, chap-6/udp_server.c, chap-7/unix_server.c and
--                  chap-15/tcp_reuse_server.c, the loops of main; Connected is
--                  chap-14/udp_connect_server.c, Clients the clients of chap-6, chap-7, chap-11, chap-13
--                  and chap-14
--   EpollServer    chap-23/epoll_server.c: main, by the events that epoll_wait() reports
--   ThreadServer   chap-26/blocking_io_thread_server.c: main and thread_run as a step relation
--   Counter        chap-26/test_pthread.c: the loads and stores of its threads as a step relation
--   Triggers       chap-23/poll_trigger.c and select_trigger.c, the loops of main
--   ProcessServer  chap-25/blocking_io_process_server.c: child_run, and main with its children and the
--                  signal handler as a step relation over the counts of open sockets
--   Tests          runs at small inputs, and instances of the theorems
--
-- How the code is read. A pointer is a number with 0 for NULL, an access out of bounds or at a bad
-- address is `fault`. A product of `int`s that overflows is `fault` too, and an `int`
-- that keeps a size_t keeps its low 32 bits. A string has fewer than 2 ^ 31 bytes. malloc is taken to succeed where the code does not test it; where it does, an
-- argument says whether it succeeds. A failure that ends in `error(1, …)` is an exit.
-- Printing is left out.
--
-- Fuel. _dictNextPower has 64 rounds, as many as an unsigned long has bits; map_make_space 32, as many
-- as an int has. The walks along chains take their rounds as an argument, which the theorems on
-- dictAdd, dictGet and dictDel ask to exceed the number of entries. The loops that call the kernel recurse on
-- its replies, on what is typed or ready, or on the room left in a buffer, and need none, but for these:
-- parse_header's loop and the loops of the length-prefixed server, of chap-5 and of chap-14 take the number of
-- rounds, which may be any; the theorem on parse_header asks for one more than there are header lines.
--
-- What comes from outside, and is an argument: the kernel's replies, the values of the constants of
-- poll() and epoll (for epoll, with EPOLLERR not 0), what select() and epoll_wait() find ready, the microseconds
-- that select() leaves in its timeval, the lines
-- that are typed or that a command prints, the contents of uninitialised memory, the errno left from
-- before or by the log, and the strings that the keys point to.
--
-- Not modelled: the accept loop of chap-5/tcp_server.c; signal handlers that only print; the time in the
-- shell's log; the test main of lib/dict.c, which does not compile; addresses beyond the number of the
-- port.
pub mod Base
pub mod Sys
pub mod Dispatcher
pub mod Counter
pub mod Triggers
pub mod BlockingQueue
pub mod Dict
pub mod ChannelMap
pub mod EventLoop
pub mod Poll
pub mod Epoll
pub mod Framing
pub mod Echo
pub mod Pool
pub mod PollServer
pub mod Select
pub mod Ping
pub mod Http
pub mod Telnet
pub mod Sockets
pub mod Strings
pub mod Transfer
pub mod Greeting
pub mod EpollServer
pub mod ThreadServer
pub mod ProcessServer
pub mod Tests

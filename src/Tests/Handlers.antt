-- ===== src/Tests/Handlers.antt =====
-- Buffers, lines and heartbeats in which little is sent.
use geek_network_programming.Base.{ℕ, ◌≤◌, ◌≡◌, refl, true, List, [], ◌∷◌, ◌++◌, pos, arith}
use geek_network_programming.Sys.{number, bytes, failed, eagain, done}
use geek_network_programming.Select.{
  Buffer, alloc_buffer, write_idx, pending, on_socket_readable, on_socket_writable, again_or_error,
}
use geek_network_programming.Select.Readable.{
  with_bytes, arriving, all_bytes, recvs, on_socket_readable-with_bytes,
}
use geek_network_programming.Select.Writable.{
  advance, total, taking, sends, emptied, AllPositive, transmitted, on_socket_writable-emptied,
  on_socket_writable-advance,
}
use geek_network_programming.Http
use geek_network_programming.Http.{read_line}
use geek_network_programming.Http.Lines.{one_by_one, Plain, read_line-one_by_one, read_line_closed}
use geek_network_programming.Ping.{server}
use geek_network_programming.Ping.Heartbeats.{Swapped, server-Swapped}

-- `AB`, a newline and then nothing for now
abbrev line : List (ℕ × List ℕ)
line = (65, 66 ∷ []) ∷ (10, []) ∷ []

alloc_buffer_fits : write_idx alloc_buffer ≤ 4096
unfolding alloc_buffer
alloc_buffer_fits = omega arith

readable_example :
    (on_socket_readable 5 alloc_buffer (arriving line (bytes [] ∷ []))
      ≡ done (pos 1, with_bytes alloc_buffer (all_bytes line)) [] (recvs 5 line))
    × (on_socket_readable 5 alloc_buffer (arriving line (failed eagain ∷ []))
        ≡ done (again_or_error eagain, with_bytes alloc_buffer (all_bytes line)) [] (recvs 5 line))
readable_example = on_socket_readable-with_bytes 5 eagain line alloc_buffer [] alloc_buffer_fits

-- three bytes, of which one has been sent
abbrev loaded : Buffer
loaded = record { fd = 5; stored = 65 ∷ 66 ∷ 10 ∷ []; read_idx = 1; readable = true }

ones-AllPositive : AllPositive (1 ∷ 1 ∷ [])
unfolding AllPositive
ones-AllPositive = (omega arith, (omega arith, tt))

emptied_example :
    (on_socket_writable 5 loaded (taking (1 ∷ 1 ∷ []) [])
      ≡ done (pos 0, emptied loaded) [] (sends 5 loaded (1 ∷ 1 ∷ [])))
    × (transmitted (sends 5 loaded (1 ∷ 1 ∷ [])) (1 ∷ 1 ∷ []) ≡ pending loaded)
emptied_example = on_socket_writable-emptied 5 (1 ∷ 1 ∷ []) loaded [] ones-AllPositive refl

advance_example :
    (on_socket_writable 5 loaded (taking (1 ∷ []) (failed eagain ∷ []))
      ≡ done
          (again_or_error eagain, advance loaded (total (1 ∷ [])))
          []
          (sends 5 loaded (1 ∷ [])
            ++ geek_network_programming.Select.send 5 (pending (advance loaded (total (1 ∷ []))))
              ∷ []))
    × (transmitted (sends 5 loaded (1 ∷ [])) (1 ∷ []) ++ pending (advance loaded (total (1 ∷ [])))
        ≡ pending loaded)
advance_example = on_socket_writable-advance 5 eagain (1 ∷ []) loaded [] (omega arith)

hi-Plain : Plain (104 ∷ 105 ∷ [])
unfolding Plain
hi-Plain = (refl, refl, (refl, refl, tt))

read_line_example :
    read_line 5 10
      (one_by_one (104 ∷ 105 ∷ []) (bytes (13 ∷ []) ∷ bytes (10 ∷ []) ∷ bytes (10 ∷ []) ∷ []))
    ≡ done (104 ∷ 105 ∷ 10 ∷ []) [] (
        geek_network_programming.Http.Lines.recvs 5 (104 ∷ 105 ∷ []) (
          geek_network_programming.Http.recv 5
          ∷ geek_network_programming.Http.peek 5
          ∷ geek_network_programming.Http.recv 5
          ∷ []))
read_line_example = read_line-one_by_one 5 10 (104 ∷ 105 ∷ []) [] hi-Plain (omega arith)

gone_example :
    read_line 5 3 (bytes [] ∷ bytes [] ∷ [])
    ≡ done
        (0 ∷ 0 ∷ [])
        []
        (geek_network_programming.Http.recv 5 ∷ geek_network_programming.Http.recv 5 ∷ [])
gone_example = read_line_closed 5 3 []

abbrev ping : List ℕ
ping = 0 ∷ 0 ∷ 0 ∷ 1 ∷ []

pong_example : Swapped (server 1 [] [] (bytes ping ∷ number 4 ∷ []))
pong_example = server-Swapped 1 [] [] (bytes ping ∷ number 4 ∷ [])

-- ===== src/Select/Reuse.antt =====
-- What a slot of the select server keeps from one client to the next.
use geek_network_programming.Base.{
  ℕ, ◌<◌, ◌≡◌, ◌≢◌, refl, sym, ap, ◌∙◌, true, false, List, [], ◌∷◌, ◌==◌, ==_ne, ltb, lt→ltb, some,
  negsuc, arith, get_elem?, get_elem?-lt, get_elem?-set_self, length-set, set, set-set,
}
use geek_network_programming.Sys.{Reply, number, failed, done, eagain}
use geek_network_programming.Select.{
  fd_max_size, Buffer, send, close, set_nonblock, on_socket_writable, pending, write_idx,
}
use geek_network_programming.Select.Server.{Table, visit, welcome}

-- the slot after a failed send
abbrev pub given_up : Table → ℕ → Buffer → Table
given_up bufs i b = set bufs i (record b { fd = 0 })

send_fails :
    (i e : ℕ) (b : Buffer) (rs : List Reply)
    → b.read_idx < write_idx b
    → (e == eagain) ≡ false
    → on_socket_writable i b (failed e ∷ rs) ≡ done (negsuc 0, b) rs (send i (pending b) ∷ [])
unfolding on_socket_writable
send_fails i e b rs lt other = rw (lt→ltb b.read_idx (write_idx b) lt, other) refl

-- When the send() to a client of the select server fails with an error other than EAGAIN, its slot
-- is marked unused and its descriptor closed; the next client that gets this descriptor gets the
-- buffer as it was, with the bytes that were not sent.
pub visit-welcome :
    (listen i e : ℕ) (bufs : Table) (b : Buffer) (c r : Reply) (rs rs' : List Reply)
    → get_elem? bufs i ≡ some b
    → b.fd ≡ i
    → i ≢ listen
    → i < fd_max_size
    → b.read_idx < write_idx b
    → (e == eagain) ≡ false
    → (visit listen false true i bufs (failed e ∷ c ∷ rs)
        ≡ done (given_up bufs i b) rs (send i (pending b) ∷ close i ∷ []))
      × (t : Table) × (welcome (given_up bufs i b) (number i) (r ∷ rs')
          ≡ done t rs' (set_nonblock i ∷ []))
      × (get_elem? t i ≡ some b)
unfolding visit welcome
visit-welcome listen i e bufs b c r rs rs' at own ne small lt other =
    let unused = record b { fd = 0 } in
    let taken = record b { fd = i } in
    let in_ = get_elem?-lt bufs i at in
    let in_' = length-set bufs i unused in
    (
      rw
          (
            ==_ne i listen ne,
            at,
            send_fails i e b (c ∷ rs) lt other,
            get_elem?-set_self bufs i b in_,
            set-set bufs i b unused,
          )
          refl,
      set (given_up bufs i b) i taken,
      rw (few, get_elem?-set_self bufs i unused in_) refl,
      get_elem?-set_self (given_up bufs i b) i taken (omega arith)
          ∙ ap (λ n. some (record b { fd = n })) (sym own),
    )
  where
    few : ltb fd_max_size i ≡ false
    few = ground arith

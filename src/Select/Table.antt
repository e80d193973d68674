-- ===== src/Select/Table.antt =====
-- The table of buffers that the select server keeps, over its rounds.
use geek_network_programming.Base.{
  ℕ, ◌+◌, ◌≡◌, refl, sym, ◌∙◌, ◌⊎◌, inl, inr, Bool, true, false, Bool-cases, Option-cases, some,
  List, [], ◌∷◌, ◌==◌, ==_refl, ltb, if◌then◌else◌, ℤ, pos, eq_ℤ, arith, length, get_elem?,
  get_elem?-lt, get_elem?-set_self, get_elem?-set_ne, length-set, set,
}
use geek_network_programming.Sys.{Reply, number, bytes, failed, Sys, pure}
use geek_network_programming.Sys.Ends.{Ends, after-Ends, Ends-bind, Ends-call}
use geek_network_programming.Select.{
  fd_max_size, Buffer, Call, recv, send, set_nonblock, close, store_byte, store_bytes,
  on_socket_readable, sent_all, on_socket_writable, pending, write_idx, max_line,
}
use geek_network_programming.Select.Server.{Table, with_buffer, welcome, step, closed}

-- Each slot is unused or belongs to the descriptor that is its index.
pub record Homed (bufs : Table) : Type 0 where
  pub width : length bufs ≡ fd_max_size
  pub home : (i : ℕ) {b : Buffer} → get_elem? bufs i ≡ some b → (b.fd ≡ 0) ⊎ (b.fd ≡ i)

pub set-Homed :
    (bufs : Table) (i : ℕ) (b b' : Buffer)
    → Homed bufs
    → get_elem? bufs i ≡ some b
    → (b'.fd ≡ 0) ⊎ (b'.fd ≡ i)
    → Homed (set bufs i b')
set-Homed bufs i b b' h at own = record {
  width = length-set bufs i b' ∙ h.width;
  home = λ j e. elim (Bool-cases (i == j)) [
    | inl same ↦ ground (arith, get_elem?-set_self bufs i b' (get_elem?-lt bufs i at))
    | inr other ↦
        h.home j (sym (get_elem?-set_ne bufs i j b' (λ (s : i ≡ j). cc (==_refl i, other, s))) ∙ e)
  ];
}

-- The handlers keep the descriptor of a buffer.
store_bytes-fd : (b : Buffer) (cs : List ℕ) → (store_bytes b cs).fd ≡ b.fd
unfolding store_bytes store_byte
store_bytes-fd b [] = refl
store_bytes-fd b (c ∷ cs) = ground (arith, store_bytes-fd (store_byte b c) cs)

abbrev pub Keeps : ℕ → ℤ × Buffer → Type 0
Keeps n r = r.1.fd ≡ n

pub readable-Keeps :
    (fd n : ℕ) (b : Buffer) (rs : List Reply)
    → b.fd ≡ n
    → Ends (Keeps n) (on_socket_readable fd b rs)
unfolding on_socket_readable
readable-Keeps fd n b [] own = tt
readable-Keeps fd n b (number k ∷ rs) own = tt
readable-Keeps fd n b (failed e ∷ rs) own = own
readable-Keeps fd n b (bytes [] ∷ rs) own = own
readable-Keeps fd n b (bytes (c ∷ cs) ∷ rs) own =
    after-Ends (Keeps n) (recv fd max_line ∷ []) (on_socket_readable fd (store_bytes b (c ∷ cs)) rs)
      (readable-Keeps fd n (store_bytes b (c ∷ cs)) rs (store_bytes-fd b (c ∷ cs) ∙ own))

sent_all-fd : (b : Buffer) → (sent_all b).fd ≡ b.fd
unfolding sent_all
sent_all-fd b = ground arith

pub writable-Keeps :
    (fd n : ℕ) (b : Buffer) (rs : List Reply)
    → b.fd ≡ n
    → Ends (Keeps n) (on_socket_writable fd b rs)
unfolding on_socket_writable
writable-Keeps fd n b [] own = elim (Bool-cases (ltb b.read_idx (write_idx b))) [
  | inl e ↦ rw e tt
  | inr e ↦ rw e (sent_all-fd b ∙ own)
]
writable-Keeps fd n b (number k ∷ rs) own =
    let b' = record b { read_idx = b.read_idx + k } in
    let later = writable-Keeps fd n b' rs own in
    elim (Bool-cases (ltb b.read_idx (write_idx b))) [
      | inl e ↦
          rw e (after-Ends (Keeps n) (send fd (pending b) ∷ []) (on_socket_writable fd b' rs) later)
      | inr e ↦ rw e (sent_all-fd b ∙ own)
    ]
writable-Keeps fd n b (failed k ∷ rs) own = elim (Bool-cases (ltb b.read_idx (write_idx b))) [
  | inl e ↦ rw e own
  | inr e ↦ rw e (sent_all-fd b ∙ own)
]
writable-Keeps fd n b (bytes x ∷ rs) own = elim (Bool-cases (ltb b.read_idx (write_idx b))) [
  | inl e ↦ rw e tt
  | inr e ↦ rw e (sent_all-fd b ∙ own)
]

-- the same of the value that a step of a round hands on
abbrev pub HomedStep : ℤ × Table → Type 0
HomedStep r = Homed r.1

pub step-Homed :
    (test : Bool) (f : ℕ → Buffer → Sys Call (ℤ × Buffer)) (i : ℕ) (err : ℤ) (bufs : Table)
    (rs : List Reply)
    → ((fd n : ℕ) (b : Buffer) (rs : List Reply) → b.fd ≡ n → Ends (Keeps n) (f fd b rs))
    → Homed bufs
    → Ends HomedStep (step test f i (err, bufs) rs)
step-Homed false f i err bufs rs keeps h = h
step-Homed true f i err bufs rs keeps h = elim (Option-cases (get_elem? bufs i)) [
  | inl e ↦ rw e tt
  | inr (b, e) ↦ rw e (
      Ends-bind (Keeps b.fd) HomedStep (f i b rs) (λ (e, b'). pure (e, set bufs i b'))
        (keeps i b.fd b rs refl)
        (λ (e', b') rs' own. set-Homed bufs i b b' h e (rw own (h.home i e))))
]

pub closed-Homed :
    (i : ℕ) (err : ℤ) (bufs : Table) (rs : List Reply)
    → Homed bufs
    → Ends Homed (closed i (err, bufs) rs)
closed-Homed i err bufs rs h = elim (Bool-cases (eq_ℤ err (pos 0))) [
  | inl none_ ↦ rw none_ h
  | inr bad ↦ rw bad (elim (Option-cases (get_elem? bufs i)) [
    | inl e ↦ rw e tt
    | inr (b, e) ↦ rw e (
        Ends-call Homed (close i) rs (λ _. pure (set bufs i (record b { fd = 0 })))
          (λ r rs'. set-Homed bufs i b (record b { fd = 0 }) h e (inl refl)))
  ])
]

pub welcome-Homed :
    (bufs : Table) (r : Reply) (rs : List Reply) → Homed bufs → Ends Homed (welcome bufs r rs)
unfolding welcome
welcome-Homed bufs (failed e) rs h = tt
welcome-Homed bufs (bytes x) rs h = tt
welcome-Homed bufs (number n) rs h = elim (Bool-cases (ltb fd_max_size n)) [
  | inl many ↦ rw many (Ends-call Homed (close n) rs (λ _. pure bufs) (λ r rs'. h))
  | inr few ↦ rw few (
      Ends-call Homed (set_nonblock n) rs
        (λ _.
          with_buffer (get_elem? bufs n)
            (λ b. pure (if b.fd == 0 then set bufs n (record b { fd = n }) else bufs)))
        (λ r rs'. elim (Option-cases (get_elem? bufs n)) [
          | inl e ↦ rw e tt
          | inr (b, e) ↦ rw e (elim (Bool-cases (b.fd == 0)) [
            | inl t ↦ rw t (set-Homed bufs n b (record b { fd = n }) h e (inr refl))
            | inr t ↦ rw t h
          ])
        ]))
]

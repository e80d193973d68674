-- ===== src/Poll/Slots.antt =====
-- Which slots of the poll dispatcher are in use.
use geek_network_programming.Base.{
  ℕ, ◌+◌, ◌≡◌, refl, ◌∙◌, ◌⊎◌, inr, true, false, List, [], ◌∷◌, if◌then◌else◌, ℤ, pos, is_neg,
  arith, length, map,
}
use geek_network_programming.EventLoop.{Channel}
use geek_network_programming.Poll.{
  Pollfd, poll_init, add_loop, mark_loop, wanted, poll_add, poll_update, poll_del, short_minus_one,
}

-- the number of unused slots
abbrev pub unused : List Pollfd → ℕ
unused [] = 0
unused (s ∷ fds) = (if is_neg s.fd then 1 else 0) + unused fds

abbrev pub descriptors : List Pollfd → List ℤ
descriptors fds = map (λ s. s.fd) fds

-- After `poll_init` every slot is unused.
pub unused-poll_init : (raw : List Pollfd) → unused (poll_init raw) ≡ length raw
unfolding poll_init
unused-poll_init [] = refl
unused-poll_init (s ∷ raw) = omega (arith, unused-poll_init raw)

add_loop_lem :
    (fd events : ℕ) (fds : List Pollfd)
    → (length (add_loop (pos fd) events fds).0 ≡ length fds)
      × (((add_loop (pos fd) events fds).1 ≡ true)
            × (unused fds ≡ unused (add_loop (pos fd) events fds).0 + 1)
          ⊎ ((add_loop (pos fd) events fds).1 ≡ false)
            × (unused fds ≡ 0)
            × ((add_loop (pos fd) events fds).0 ≡ fds))
unfolding add_loop
add_loop_lem fd events [] = (refl, inr (refl, refl, refl))
add_loop_lem fd events (s ∷ fds) = let ih = add_loop_lem fd events fds in ground arith

-- marking keeps the descriptor of every slot
mark_loop-descriptors :
    (fd : ℤ) (events : ℕ) (fds : List Pollfd)
    → descriptors (mark_loop fd events fds).0 ≡ descriptors fds
unfolding mark_loop
mark_loop-descriptors fd events [] = refl
mark_loop-descriptors fd events (s ∷ fds) = ground (arith, mark_loop-descriptors fd events fds)

unused-descriptors : (xs ys : List Pollfd) → descriptors xs ≡ descriptors ys → unused xs ≡ unused ys
unused-descriptors [] [] e = refl
unused-descriptors [] (y ∷ ys) e = cc
unused-descriptors (x ∷ xs) [] e = cc
unused-descriptors (x ∷ xs) (y ∷ ys) e =
    let (same, rest) = cons_inj e in ground (arith, unused-descriptors xs ys rest)
  where
    cons_inj : {a b : ℤ} {as_ bs : List ℤ} → a ∷ as_ ≡ b ∷ bs → (a ≡ b) × (as_ ≡ bs)
    cons_inj e = (cc, cc)

module _ (pollrdnorm pollwrnorm : ℕ) where
  -- poll_add of a channel with a descriptor either takes one unused slot for it, or finds every
  -- slot in use and changes nothing; the array keeps its length.
  pub unused-poll_add :
      (fds : List Pollfd) (c : Channel) (fd : ℕ)
      → c.fd ≡ pos fd
      → (length (poll_add pollrdnorm pollwrnorm fds c).0 ≡ length fds)
        × (((poll_add pollrdnorm pollwrnorm fds c).1 ≡ true)
              × (unused fds ≡ unused (poll_add pollrdnorm pollwrnorm fds c).0 + 1)
            ⊎ ((poll_add pollrdnorm pollwrnorm fds c).1 ≡ false)
              × (unused fds ≡ 0)
              × ((poll_add pollrdnorm pollwrnorm fds c).0 ≡ fds))
  unfolding poll_add
  unused-poll_add fds c fd e = rw e (add_loop_lem fd (wanted pollrdnorm pollwrnorm 0 c) fds)

  pub poll_del-descriptors :
      (fds : List Pollfd) (c : Channel) → descriptors (poll_del fds c).0 ≡ descriptors fds
  unfolding poll_del
  poll_del-descriptors fds c = mark_loop-descriptors c.fd short_minus_one fds

  pub poll_update-descriptors :
      (junk : ℕ) (fds : List Pollfd) (c : Channel)
      → descriptors (poll_update pollrdnorm pollwrnorm junk fds c).0 ≡ descriptors fds
  unfolding poll_update
  poll_update-descriptors junk fds c =
      mark_loop-descriptors c.fd (wanted pollrdnorm pollwrnorm junk c) fds

-- a call of the dispatcher for a channel with a descriptor
pub data Request : Type 0 where
  add : (c : Channel) (fd : ℕ) → c.fd ≡ pos fd → Request
  del : Channel → Request
  update : ℕ → Channel → Request

module _ (pollrdnorm pollwrnorm : ℕ) where
  -- the array after some requests, and how many of the additions found a slot
  pub run : List Pollfd → List Request → List Pollfd × ℕ
  run fds [] = (fds, 0)
  run fds (add c fd e ∷ rs) =
      let (fds', done) = poll_add pollrdnorm pollwrnorm fds c in
      let (end, n) = run fds' rs in (end, (if done then 1 else 0) + n)
  run fds (del c ∷ rs) = run (poll_del fds c).0 rs
  run fds (update junk c ∷ rs) = run (poll_update pollrdnorm pollwrnorm junk fds c).0 rs

  -- Over any sequence of additions, deletions and updates of channels with a descriptor, the
  -- additions that succeed and the slots left unused make up the slots that were unused: a
  -- deletion gives no slot back.
  pub run-unused :
      (fds : List Pollfd) (rs : List Request) → (run fds rs).1 + unused (run fds rs).0 ≡ unused fds
  unfolding run
  run-unused fds [] = omega arith
  run-unused fds (add c fd e ∷ rs) =
      let step = unused-poll_add pollrdnorm pollwrnorm fds c fd e in
      let ih = run-unused (poll_add pollrdnorm pollwrnorm fds c).0 rs in ground arith
  run-unused fds (del c ∷ rs) =
      let e =
        unused-descriptors (poll_del fds c).0 fds
          (poll_del-descriptors pollrdnorm pollwrnorm fds c) in
      run-unused (poll_del fds c).0 rs ∙ e
  run-unused fds (update junk c ∷ rs) =
      let fds' = (poll_update pollrdnorm pollwrnorm junk fds c).0 in
      let e =
        unused-descriptors fds' fds (poll_update-descriptors pollrdnorm pollwrnorm junk fds c) in
      run-unused fds' rs ∙ e

-- ===== src/PollServer/Clients.antt =====
-- Which descriptors the poll server closes, and which it keeps.
use geek_network_programming.Base.{
  ℕ, ◌+◌, ◌-◌, ◌≡◌, ◌≢◌, refl, Bool, true, false, Bool-cases, inl, inr, List, [], ◌∷◌, ◌++◌, ◌==◌,
  leb, if◌then◌else◌, ℤ, pos, is_neg, bit_and, arith,
}
use geek_network_programming.Sys.{
  either, Reply, number, bytes, failed, Outcome, done, exited, blocked, fault, after, Sys, and_then,
  pure, ◌>>=◌, call, exit,
}
use geek_network_programming.Poll.{Pollfd}
use geek_network_programming.Poll.Slots.{unused}
use geek_network_programming.PollServer.{
  Call, accept, read, write, close, enter, skips, drop_client, wrote, answered, serve, round,
  max_line, econnreset,
}

abbrev pub closes : List Call → ℕ
closes [] = 0
closes (close fd ∷ t) = 1 + closes t
closes (accept ∷ t) = closes t
closes (read fd n ∷ t) = closes t
closes (write fd bs ∷ t) = closes t

closes-append : (t u : List Call) → closes (t ++ u) ≡ closes t + closes u
closes-append [] u = omega arith
closes-append (close fd ∷ t) u = omega (arith, closes-append t u)
closes-append (accept ∷ t) u = closes-append t u
closes-append (read fd n ∷ t) u = closes-append t u
closes-append (write fd bs ∷ t) u = closes-append t u

-- whether a slot is in use
abbrev pub busy_slot : Pollfd → ℕ
busy_slot s = if is_neg s.fd then 0 else 1

abbrev pub busy : List Pollfd → ℕ
busy [] = 0
busy (s ∷ fds) = busy_slot s + busy fds

-- Of `n` clients, those that are left and those closed: a run that comes to its end leaves none out,
-- and one that exits does so with status 1.
abbrev pub Balanced : {A : Type 0} → ℕ → (A → ℕ) → Outcome Call A → Type 0
Balanced n left (done a rs t) = closes t + left a ≡ n
Balanced n left (exited s t) = s ≡ 1
Balanced n left (blocked t) = Unit {0}
Balanced n left (fault t) = Unit {0}

after-Balanced :
    {A : Type 0} (k n : ℕ) (left : A → ℕ) (t : List Call) (o : Outcome Call A)
    → Balanced k left o
    → closes t + k ≡ n
    → Balanced n left (after t o)
after-Balanced k n left t (done a rs u) b e = omega (arith, closes-append t u)
after-Balanced k n left t (exited s u) b e = b
after-Balanced k n left t (blocked u) b e = tt
after-Balanced k n left t (fault u) b e = tt

and_then-Balanced :
    {A B : Type 0} (n : ℕ) (left : A → ℕ) (right : B → ℕ) (o : Outcome Call A) (f : A → Sys Call B)
    → Balanced n left o
    → ((a : A) (rs : List Reply) → Balanced (left a) right (f a rs))
    → Balanced n right (and_then o f)
and_then-Balanced n left right (done a rs t) f b h =
    after-Balanced (left a) n right t (f a rs) (h a rs) b
and_then-Balanced n left right (exited s t) f b h = b
and_then-Balanced n left right (blocked t) f b h = tt
and_then-Balanced n left right (fault t) f b h = tt

either-Balanced :
    {A : Type 0} (n : ℕ) (left : A → ℕ) (b : Bool) (f g : Sys Call A) (rs : List Reply)
    → Balanced n left (f rs)
    → Balanced n left (g rs)
    → Balanced n left (either b f g rs)
either-Balanced n left true f g rs x y = x
either-Balanced n left false f g rs x y = y

module _ (pollrdnorm pollerr : ℕ) where
  drop_client-Balanced :
      (s : Pollfd) (rs : List Reply)
      → busy_slot s ≡ 1
      → Balanced 1 busy_slot (drop_client pollrdnorm pollerr s rs)
  drop_client-Balanced s [] e = tt
  drop_client-Balanced s (r ∷ rs) e = refl

  wrote-Balanced :
      (s : Pollfd) (r : Reply) (rs : List Reply)
      → busy_slot s ≡ 1
      → Balanced 1 busy_slot (wrote pollrdnorm pollerr s r rs)
  wrote-Balanced s (failed e) rs h = refl
  wrote-Balanced s (number n) rs h = omega arith
  wrote-Balanced s (bytes x) rs h = tt

  answered-Balanced :
      (s : Pollfd) (r : Reply) (rs : List Reply)
      → busy_slot s ≡ 1
      → Balanced 1 busy_slot (answered pollrdnorm pollerr s r rs)
  unfolding answered
  answered-Balanced s (bytes []) rs h = drop_client-Balanced s rs h
  answered-Balanced s (bytes (b ∷ bs)) [] h = tt
  answered-Balanced s (bytes (b ∷ bs)) (r ∷ rs) h =
      after-Balanced 1 1 busy_slot (write s.fd (b ∷ bs) ∷ []) (wrote pollrdnorm pollerr s r rs)
        (wrote-Balanced s r rs h) refl
  answered-Balanced s (failed e) rs h =
      either-Balanced 1 busy_slot (e == econnreset) (drop_client pollrdnorm pollerr s) (exit 1) rs
        (drop_client-Balanced s rs h) refl
  answered-Balanced s (number n) rs h = tt

  read-Balanced :
      (s : Pollfd) (rs : List Reply)
      → busy_slot s ≡ 1
      → Balanced 1 busy_slot ((call (read s.fd max_line) >>= answered pollrdnorm pollerr s) rs)
  read-Balanced s [] h = tt
  read-Balanced s (r ∷ rs) h =
      after-Balanced 1 1 busy_slot (read s.fd max_line ∷ []) (answered pollrdnorm pollerr s r rs)
        (answered-Balanced s r rs h) refl

  add-Balanced :
      {A : Type 0} (k n : ℕ) (left : A → ℕ) (o : Outcome Call A)
      → Balanced n left o
      → Balanced (k + n) (λ a. k + left a) o
  add-Balanced k n left (done a rs t) b = omega arith
  add-Balanced k n left (exited s t) b = b
  add-Balanced k n left (blocked t) b = tt
  add-Balanced k n left (fault t) b = tt

  more-Balanced :
      {A : Type 0} (k n : ℕ) (left : A → ℕ) (o : Outcome Call A)
      → Balanced n left o
      → Balanced (n + k) (λ a. left a + k) o
  more-Balanced k n left (done a rs t) b = omega arith
  more-Balanced k n left (exited s t) b = b
  more-Balanced k n left (blocked t) b = tt
  more-Balanced k n left (fault t) b = tt

  serve_rest-Balanced :
      (s : Pollfd) (fds : List Pollfd) (o : Outcome Call (List Pollfd))
      → Balanced (busy fds) busy o
      → Balanced (busy_slot s + busy fds) busy (and_then o (λ rest. pure (s ∷ rest)))
  serve_rest-Balanced s fds o b =
      and_then-Balanced (busy_slot s + busy fds) (λ rest. busy_slot s + busy rest) busy o
        (λ rest. pure (s ∷ rest)) (add-Balanced (busy_slot s) (busy fds) busy o b)
        (λ a rs. omega arith)

  -- Whatever the kernel replies, a pass of the poll server over its clients that comes to its end
  -- has closed exactly as many descriptors as slots have become unused, and one that exits does so
  -- with status 1.
  pub serve-Balanced :
      (ready : ℕ) (fds : List Pollfd) (rs : List Reply)
      → Balanced (busy fds) busy (serve pollrdnorm pollerr ready fds rs)
  unfolding serve
  serve-Balanced ready [] rs = refl
  serve-Balanced ready (s ∷ fds) rs = elim (Bool-cases (skips pollrdnorm pollerr s)) [
    | inl e ↦ rw e (
        serve_rest-Balanced s fds (serve pollrdnorm pollerr ready fds rs)
          (serve-Balanced ready fds rs))
    | inr e ↦
        let one : busy_slot s ≡ 1 = ground arith in
        let o = (call (read s.fd max_line) >>= answered pollrdnorm pollerr s) rs in
        rw (e, one)
          (and_then-Balanced (1 + busy fds) (λ s'. busy_slot s' + busy fds) busy o _
            (more-Balanced (busy fds) 1 busy_slot o (read-Balanced s rs one))
            (λ s' rs'.
              either-Balanced (busy_slot s' + busy fds) busy (leb ready 1) (pure (s' ∷ fds)) _ rs'
                (omega arith)
                (serve_rest-Balanced s' fds (serve pollrdnorm pollerr (ready - 1) fds rs')
                  (serve-Balanced (ready - 1) fds rs'))))
  ]

  enter_full : (c : ℤ) (fds : List Pollfd) → unused fds ≡ 0 → enter pollrdnorm pollerr c fds ≡ fds
  unfolding enter
  enter_full c [] h = refl
  enter_full c (s ∷ fds) h = ground (arith, enter_full c fds)

  -- When the listener is ready and no slot is unused, the poll server accepts the connection and
  -- goes on with the slots as they were, without closing it.
  pub round_full :
      (ready heard c : ℕ) (fds : List Pollfd) (rs : List Reply)
      → unused fds ≡ 0
      → bit_and heard pollrdnorm ≢ 0
      → round pollrdnorm pollerr ready heard fds (number c ∷ rs)
        ≡ after
            (accept ∷ [])
            (either (leb ready 1) (pure fds) (serve pollrdnorm pollerr (ready - 1) fds) rs)
  unfolding round
  round_full ready heard c fds rs h g =
      let e : (bit_and heard pollrdnorm == 0) ≡ false = ground arith in
      rw (e, enter_full (pos c) fds h) refl

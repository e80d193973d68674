-- ===== src/Pool/Ownership.antt =====
-- Who has each connection of the pool server, and in which order the connections are served.
use geek_network_programming.Base.{
  ℕ, suc, ◌+◌, ◌≡◌, refl, ap, ◌∙◌, Bool, true, false, none, some, List, [], ◌∷◌, ◌++◌, append_assoc,
  append-nil, ℤ, eq_ℤ, get_elem?, set, replicate, count, count_pos, count-append, count-replicate,
  arith, eq_ℤ_iff, get_elem?-set_ne, ◌≢◌,
}
use geek_network_programming.BlockingQueue.{BlockingQueue, contents, init, push}
use geek_network_programming.BlockingQueue.Order.{Pushed, push-Pushed}
use geek_network_programming.BlockingQueue.Threads as Threads
use geek_network_programming.BlockingQueue.Threads.{
  Job, put, get, Thread, idle, wants, holds, sleeps, awake, must_wait, wakes,
}
use geek_network_programming.BlockingQueue.Threads.Invariant.{Inv, Step-Inv, start-Inv}
use geek_network_programming.Pool.Roles.{
  Kept, wakes_apart, wants-holds, holds-sleeps, sleeps-wants, done-signalled, signalled-idle,
  awake-Kept, Kept-Fits, hand, hand-set, hand-main, hand-set_main, AllFit, set-AllFit,
  replicate-AllFit,
}
use geek_network_programming.Pool.Holding.{
  serves, Holds, accept-Holds, ask-Holds, fetch-Holds, serve-Holds,
}
use geek_network_programming.Pool.System.{
  blocking_queue_size, Server, Quiet, Step, accept, ask, fetch, move, serve, start, Reach, here,
  next,
}

-- The queue is as it was, and so is what main has in hand.
moved-Holds :
    (s : Server) (b : Bool) (us : List Thread)
    → Inv (record s.inner { locked = b; threads = us })
    → AllFit s.tasks us
    → hand us ≡ hand s.inner.threads
    → Holds s
    → Holds (record s { inner = record s.inner { locked = b; threads = us } })
moved-Holds s b us inv fits same v = record {
  queue = inv;
  roles = fits;
  order = rw same v.order;
  owned = λ p. rw same (v.owned p);
  finished = v.finished;
  single = v.single;
}

Kept-Holds :
    (s : Server) (b : Bool) (i : ℕ) (t u : Thread)
    → get_elem? s.inner.threads i ≡ some t
    → Kept t u
    → Inv (record s.inner { locked = b; threads = set s.inner.threads i u })
    → Holds s
    → Holds (record s { inner = record s.inner { locked = b; threads = set s.inner.threads i u } })
Kept-Holds s b i t u h k inv v =
    moved-Holds s b (set s.inner.threads i u) inv
      (set-AllFit s.tasks s.inner.threads i t u h (Kept-Fits s.tasks i t u k (v.roles i t h))
        v.roles)
      (hand-set s.inner.threads i t u h k.0) v

signal-Holds :
    (s : Server) (i k : ℕ) (j : Job) (t : Thread)
    → get_elem? s.inner.threads i ≡ some (Threads.done j)
    → get_elem? s.inner.threads k ≡ some t
    → wakes j t ≡ true
    → Inv
        (record s.inner { threads = set (set s.inner.threads k (awake t)) i (Threads.signalled j) })
    → Holds s
    → Holds (record s {
      inner = record s.inner {
        threads = set (set s.inner.threads k (awake t)) i (Threads.signalled j);
      };
    })
signal-Holds s i k j t h hk w inv v =
    let apart : k ≢ i = λ e. let same : t ≡ Threads.done j = cc in wakes_apart j j t w same in
    let us = set s.inner.threads k (awake t) in
    let up = awake-Kept j t w in
    let h' : get_elem? us i ≡ some (Threads.done j) =
      get_elem?-set_ne s.inner.threads k i (awake t) apart ∙ h in
    let fits =
      set-AllFit s.tasks s.inner.threads k t (awake t) hk
        (Kept-Fits s.tasks k t (awake t) up (v.roles k t hk)) v.roles in
    let on = done-signalled j in
    moved-Holds s s.inner.locked (set us i (Threads.signalled j)) inv
      (set-AllFit s.tasks us i (Threads.done j) (Threads.signalled j) h'
        (Kept-Fits s.tasks i (Threads.done j) (Threads.signalled j) on
          (v.roles i (Threads.done j) h))
        fits)
      (hand-set us i (Threads.done j) (Threads.signalled j) h' on.0
        ∙ hand-set s.inner.threads k t (awake t) hk up.0)
      v

-- Main's descriptor goes to the end of the queue.
store-Holds :
    (s : Server) (i : ℕ) (x : ℤ) (q : BlockingQueue)
    → get_elem? s.inner.threads i ≡ some (holds (put x))
    → push s.inner.queue x ≡ some q
    → Inv (record s.inner {
      queue = q;
      threads = set s.inner.threads i (Threads.done (put x));
      pushed = s.inner.pushed ++ x ∷ [];
    })
    → Holds s
    → Holds (record s {
      inner = record s.inner {
        queue = q;
        threads = set s.inner.threads i (Threads.done (put x));
        pushed = s.inner.pushed ++ x ∷ [];
      };
    })
store-Holds s i x q h e inv v =
    let is_main : i ≡ 0 = (v.roles i (holds (put x)) h).0 refl in
    let h0 : get_elem? s.inner.threads 0 ≡ some (holds (put x)) = rw is_main at h in
    let full : hand s.inner.threads ≡ x ∷ [] = hand-main s.inner.threads (holds (put x)) h0 in
    let given : hand (set s.inner.threads i (Threads.done (put x))) ≡ [] =
      rw is_main (hand-set_main s.inner.threads (holds (put x)) (Threads.done (put x)) h0) in
    let r : Pushed s.inner.queue x (some q) = rw e at (push-Pushed x v.queue.valid) in
    record {
      queue = inv;
      roles =
          set-AllFit s.tasks s.inner.threads i (holds (put x)) (Threads.done (put x)) h
            (λ e. is_main, λ e. absurd (ground arith)) v.roles;
      order = rw (v.order, full, given, append-nil);
      owned = λ p. rw given (
          omega (
            arith,
            v.owned p,
            ap (count p) full,
            ap (count p) r.3,
            count-append p (contents s.inner.queue) (x ∷ []),
          ));
      finished = v.finished;
      single = v.single;
    }

move-Holds :
    (s : Server) {t : Threads.System} (st : Threads.Step s.inner t)
    → Quiet st
    → Holds s
    → Holds (record s { inner = t })
move-Holds s (Threads.call _ i j h) quiet v = absurd quiet
move-Holds s (Threads.fetch _ i x q h e) quiet v = absurd quiet
move-Holds s (Threads.lock _ i j h e) quiet v =
    Kept-Holds s true i (wants j) (holds j) h (wants-holds j)
      (Step-Inv (Threads.lock s.inner i j h e) v.queue) v
move-Holds s (Threads.wait _ i j h e) quiet v =
    Kept-Holds s false i (holds j) (sleeps j) h (holds-sleeps j)
      (Step-Inv (Threads.wait s.inner i j h e) v.queue) v
move-Holds s (Threads.store _ i x q h e) quiet v =
    store-Holds s i x q h e (Step-Inv (Threads.store s.inner i x q h e) v.queue) v
move-Holds s (Threads.signal _ i k j t h hk w) quiet v =
    signal-Holds s i k j t h hk w (Step-Inv (Threads.signal s.inner i k j t h hk w) v.queue) v
move-Holds s (Threads.signal_nobody _ i j h e) quiet v =
    Kept-Holds s s.inner.locked i (Threads.done j) (Threads.signalled j) h (done-signalled j)
      (Step-Inv (Threads.signal_nobody s.inner i j h e) v.queue) v
move-Holds s (Threads.unlock _ i j h) quiet v =
    Kept-Holds s false i (Threads.signalled j) idle h (signalled-idle j)
      (Step-Inv (Threads.unlock s.inner i j h) v.queue) v
move-Holds s (Threads.spurious _ i j h) quiet v =
    Kept-Holds s s.inner.locked i (sleeps j) (wants j) h (sleeps-wants j)
      (Step-Inv (Threads.spurious s.inner i j h) v.queue) v

Step-Holds : {s u : Server} → Step s u → Holds s → Holds u
Step-Holds (accept s fd h e) v = accept-Holds s fd h e v
Step-Holds (ask s i h e) v = ask-Holds s i h e v
Step-Holds (fetch s i x q h e) v = fetch-Holds s i x q h e v
Step-Holds (move s st quiet) v = move-Holds s st quiet v
Step-Holds (serve s i fd rs rest t h e run) v = serve-Holds s i fd h e v

start-Holds : (n : ℕ) → Holds (start n)
unfolding Threads.start init
start-Holds n = record {
  queue = start-Inv blocking_queue_size (suc n) (omega arith);
  roles = replicate-AllFit (suc n) (replicate (suc n) none);
  order = refl;
  owned = λ p. omega (arith, count-replicate (serves p) n none refl);
  finished = λ p. omega (arith, count-replicate (serves p) n none refl);
  single = λ n. omega arith;
}

start-reach-Holds : (n : ℕ) (s : Server) → Reach (start n) s → Holds s
start-reach-Holds n s here = start-Holds n
start-reach-Holds n s (next r st) = Step-Holds st (start-reach-Holds n _ r)

-- In every reachable state of the pool server with any number of threads, main's accepts, the
-- steps inside the queue, spurious wakeups and sessions interleaved in any way: the accepted
-- descriptors are, in order, those that the threads have popped, those in the queue, and the one
-- that main brings to it, if it does; and of every kind of descriptor as many have been popped as
-- have been closed and as the threads have.
pub start-reach-in_order :
    (n : ℕ) (s : Server)
    → Reach (start n) s
    → (s.accepted ≡ s.inner.popped ++ (contents s.inner.queue ++ hand s.inner.threads))
      × ((p : ℤ → Bool) → count p s.inner.popped ≡ count p s.closed + count (serves p) s.tasks)
start-reach-in_order n s r =
    let v = start-reach-Holds n s r in (rw (v.order, v.queue.fifo, append_assoc), v.finished)

-- In every reachable state of the pool server, where accept() returns a descriptor that is not
-- open, the connection that a thread has is open once, no other thread has it, and it is neither
-- in the queue nor in main's hand.
pub start-reach-alone :
    (n : ℕ) (s : Server)
    → Reach (start n) s
    → (i : ℕ) (v : ℤ) → get_elem? s.tasks i ≡ some (some v)
    → (count (serves (eq_ℤ v)) s.tasks ≡ 1)
      × (count (eq_ℤ v) (contents s.inner.queue) ≡ 0)
      × (count (eq_ℤ v) (hand s.inner.threads) ≡ 0)
      × (count (eq_ℤ v) s.files ≡ 1)
start-reach-alone n s r i v h =
    let w = start-reach-Holds n s r in
    let one = count_pos (serves (eq_ℤ v)) s.tasks i (some v) h ((eq_ℤ_iff v v).1 refl) in
    (
      omega (arith, w.owned (eq_ℤ v), w.single v),
      omega (arith, w.owned (eq_ℤ v), w.single v),
      omega (arith, w.owned (eq_ℤ v), w.single v),
      omega (arith, w.owned (eq_ℤ v), w.single v),
    )

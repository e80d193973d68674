-- ===== src/BlockingQueue/Threads/Invariant.antt =====
-- What holds in every reachable state of the threads that share a blocking queue.
use geek_network_programming.Base.{
  bit, count, count_pos, count-replicate, ℕ, ◌+◌, ◌≤◌, ◌<◌, ◌≡◌, refl, sym, ap, ◌∙◌, ◌≢◌, Bool,
  true, false, some, List, [], ◌∷◌, ◌++◌, append_assoc, ℤ, arith, get_elem?, set, get_elem?-set_ne,
}
use mathlib.Core.Path.{fun_ext}
use geek_network_programming.BlockingQueue.{BlockingQueue, push, pop, contents}
use geek_network_programming.BlockingQueue.Order.{
  IsValid, init-IsValid, Pushed, push-Pushed, Popped, pop-Popped, push-used, pop-used,
}
use geek_network_programming.BlockingQueue.Threads.Counts.{
  in_section, sleeping_get, sleeping_put, serves_get, serves_put, set-Moves, wakes-put, wakes-get,
  get_sleeper, put_sleeper,
}
use geek_network_programming.BlockingQueue.Threads.{
  Job, put, get, Thread, idle, wants, holds, sleeps, done, signalled, System, must_wait, wakes,
  awake, Step, call, lock, wait, store, fetch, signal, signal_nobody, unlock, spurious, start,
  Reach, here, next,
}

pub record Inv (s : System) : Type 0 where
  pub valid : IsValid s.queue
  -- first in, first out: what was popped, then what the queue holds, is what was pushed
  pub fifo : s.pushed ≡ s.popped ++ contents s.queue
  pub mutex : count in_section s.threads ≡ bit s.locked
  -- no lost wakeup
  pub getters : 0 < count sleeping_get s.threads → s.queue.used ≤ count serves_get s.threads
  pub putters :
      0 < count sleeping_put s.threads → s.queue.size ≤ s.queue.used + count serves_put s.threads

pub Popped-some :
    (q : BlockingQueue) (x : ℤ) (r : BlockingQueue)
    → Popped q (some (some x, r))
    → IsValid r × (contents q ≡ x ∷ contents r)
Popped-some q x r (w, e, (v, eq, c)) = (w, cc)

module _ {s : System} (v : Inv s) where
  -- a step that leaves the queue and the histories alone
  moved-Inv :
      (b : Bool) (us : List Thread)
      → count in_section us ≡ bit b
      → (0 < count sleeping_get us → s.queue.used ≤ count serves_get us)
      → (0 < count sleeping_put us → s.queue.size ≤ s.queue.used + count serves_put us)
      → Inv (record s { locked = b; threads = us })
  moved-Inv b us m g p = record {
    valid = v.valid;
    fifo = v.fifo;
    mutex = m;
    getters = g;
    putters = p;
  }

  call-Inv :
      (i : ℕ) (j : Job)
      → get_elem? s.threads i ≡ some idle
      → Inv (record s { threads = set s.threads i (wants j) })
  call-Inv i (put x) h =
      let m = set-Moves s.threads i idle (wants (put x)) h in
      moved-Inv s.locked _ (grind arith) (grind arith) (grind arith)
  call-Inv i get h =
      let m = set-Moves s.threads i idle (wants get) h in
      moved-Inv s.locked _ (grind arith) (grind arith) (grind arith)

  lock-Inv :
      (i : ℕ) (j : Job)
      → get_elem? s.threads i ≡ some (wants j)
      → s.locked ≡ false
      → Inv (record s { locked = true; threads = set s.threads i (holds j) })
  lock-Inv i (put x) h e =
      let m = set-Moves s.threads i (wants (put x)) (holds (put x)) h in
      let unlocked : bit s.locked ≡ 0 = ap bit e in
      let mutex = v.mutex in moved-Inv true _ (omega arith) (grind arith) (grind arith)
  lock-Inv i get h e =
      let m = set-Moves s.threads i (wants get) (holds get) h in
      let unlocked : bit s.locked ≡ 0 = ap bit e in
      let mutex = v.mutex in moved-Inv true _ (omega arith) (grind arith) (grind arith)

  bit-le : (b : Bool) → bit b ≤ 1
  bit-le true = omega arith
  bit-le false = omega arith

  wait-Inv :
      (i : ℕ) (j : Job)
      → get_elem? s.threads i ≡ some (holds j)
      → must_wait j s.queue ≡ true
      → Inv (record s { locked = false; threads = set s.threads i (sleeps j) })
  wait-Inv i (put x) h e =
      let m = set-Moves s.threads i (holds (put x)) (sleeps (put x)) h in
      let held = bit-le s.locked in
      let mutex = v.mutex in
      let full : s.queue.used ≡ s.queue.size = ground arith in
      moved-Inv false _ (omega arith) (grind arith) (λ _. omega arith)
  wait-Inv i get h e =
      let m = set-Moves s.threads i (holds get) (sleeps get) h in
      let held = bit-le s.locked in
      let mutex = v.mutex in
      let none_ : s.queue.used ≡ 0 = ground arith in
      moved-Inv false _ (omega arith) (λ _. omega arith) (grind arith)

  unlock-Inv :
      (i : ℕ) (j : Job)
      → get_elem? s.threads i ≡ some (signalled j)
      → Inv (record s { locked = false; threads = set s.threads i idle })
  unlock-Inv i j h =
      let m = set-Moves s.threads i (signalled j) idle h in
      let held = bit-le s.locked in
      let mutex = v.mutex in moved-Inv false _ (omega arith) (grind arith) (grind arith)

  spurious-Inv :
      (i : ℕ) (j : Job)
      → get_elem? s.threads i ≡ some (sleeps j)
      → Inv (record s { threads = set s.threads i (wants j) })
  spurious-Inv i (put x) h =
      let m = set-Moves s.threads i (sleeps (put x)) (wants (put x)) h in
      moved-Inv s.locked _ (grind arith) (grind arith) (grind arith)
  spurious-Inv i get h =
      let m = set-Moves s.threads i (sleeps get) (wants get) h in
      moved-Inv s.locked _ (grind arith) (grind arith) (grind arith)

  store-Inv :
      (i : ℕ) (x : ℤ) (q : BlockingQueue)
      → get_elem? s.threads i ≡ some (holds (put x))
      → push s.queue x ≡ some q
      → Inv (record s {
        queue = q;
        threads = set s.threads i (done (put x));
        pushed = s.pushed ++ x ∷ [];
      })
  store-Inv i x q h e =
      let m = set-Moves s.threads i (holds (put x)) (done (put x)) h in
      let r : Pushed s.queue x (some q) = rw e at (push-Pushed x v.valid) in
      let u = push-used s.queue x e in
      record {
        valid = r.0;
        fifo = rw (r.3, v.fifo, append_assoc);
        mutex = grind arith;
        getters = grind arith;
        putters = grind arith;
      }

  fetch-Inv :
      (i : ℕ) (x : ℤ) (q : BlockingQueue)
      → get_elem? s.threads i ≡ some (holds get)
      → pop s.queue ≡ some (some x, q)
      → Inv (record s {
        queue = q;
        threads = set s.threads i (done get);
        popped = s.popped ++ x ∷ [];
      })
  fetch-Inv i x q h e =
      let m = set-Moves s.threads i (holds get) (done get) h in
      let r : Popped s.queue (some (some x, q)) = rw e at (pop-Popped v.valid) in
      let u = pop-used s.queue e in
      let (valid, oldest) = Popped-some s.queue x q r in
      record {
        valid = valid;
        fifo = rw (append_assoc, v.fifo, oldest);
        mutex = grind arith;
        getters = grind arith;
        putters = grind arith;
      }

  signal_put-Inv :
      (i k : ℕ) (x : ℤ)
      → get_elem? s.threads i ≡ some (done (put x))
      → get_elem? s.threads k ≡ some (sleeps get)
      → Inv (record s { threads = set (set s.threads k (wants get)) i (signalled (put x)) })
  signal_put-Inv i k x h hk =
      let apart : k ≢ i = λ e. cc in
      let us = set s.threads k (wants get) in
      let m = set-Moves s.threads k (sleeps get) (wants get) hk in
      let h' : get_elem? us i ≡ some (done (put x)) =
        get_elem?-set_ne s.threads k i (wants get) apart ∙ h in
      let n = set-Moves us i (done (put x)) (signalled (put x)) h' in
      let some_ = count_pos sleeping_get s.threads k (sleeps get) hk refl in
      moved-Inv s.locked _ (grind arith) (grind arith) (grind arith)

  signal_get-Inv :
      (i k : ℕ) (y : ℤ)
      → get_elem? s.threads i ≡ some (done get)
      → get_elem? s.threads k ≡ some (sleeps (put y))
      → Inv (record s { threads = set (set s.threads k (wants (put y))) i (signalled get) })
  signal_get-Inv i k y h hk =
      let apart : k ≢ i = λ e. cc in
      let us = set s.threads k (wants (put y)) in
      let m = set-Moves s.threads k (sleeps (put y)) (wants (put y)) hk in
      let h' : get_elem? us i ≡ some (done get) =
        get_elem?-set_ne s.threads k i (wants (put y)) apart ∙ h in
      let n = set-Moves us i (done get) (signalled get) h' in
      let some_ = count_pos sleeping_put s.threads k (sleeps (put y)) hk refl in
      moved-Inv s.locked _ (grind arith) (grind arith) (grind arith)

  signal-Inv :
      (i k : ℕ) (j : Job) (t : Thread)
      → get_elem? s.threads i ≡ some (done j)
      → get_elem? s.threads k ≡ some t
      → wakes j t ≡ true
      → Inv (record s { threads = set (set s.threads k (awake t)) i (signalled j) })
  signal-Inv i k (put x) t h hk w =
      let e = get_sleeper t (sym (wakes-put x t) ∙ w) in rw e (signal_put-Inv i k x h (rw e at hk))
  signal-Inv i k get t h hk w =
      let (y, e) = put_sleeper t (sym (wakes-get t) ∙ w) in
      rw e (signal_get-Inv i k y h (rw e at hk))

  signal_nobody-Inv :
      (i : ℕ) (j : Job)
      → get_elem? s.threads i ≡ some (done j)
      → count (wakes j) s.threads ≡ 0
      → Inv (record s { threads = set s.threads i (signalled j) })
  signal_nobody-Inv i (put x) h e =
      let m = set-Moves s.threads i (done (put x)) (signalled (put x)) h in
      let e' : count sleeping_get s.threads ≡ 0 = rw (← fun_ext (wakes-put x)) e in
      moved-Inv s.locked _ (grind arith) (grind arith) (grind arith)
  signal_nobody-Inv i get h e =
      let m = set-Moves s.threads i (done get) (signalled get) h in
      let e' : count sleeping_put s.threads ≡ 0 = rw (← fun_ext wakes-get) e in
      moved-Inv s.locked _ (grind arith) (grind arith) (grind arith)

-- Every step of every thread keeps the invariant.
pub Step-Inv : {s u : System} → Step s u → Inv s → Inv u
Step-Inv (call s i j h) v = call-Inv v i j h
Step-Inv (lock s i j h e) v = lock-Inv v i j h e
Step-Inv (wait s i j h e) v = wait-Inv v i j h e
Step-Inv (store s i x q h e) v = store-Inv v i x q h e
Step-Inv (fetch s i x q h e) v = fetch-Inv v i x q h e
Step-Inv (signal s i k j t h hk w) v = signal-Inv v i k j t h hk w
Step-Inv (signal_nobody s i j h e) v = signal_nobody-Inv v i j h e
Step-Inv (unlock s i j h) v = unlock-Inv v i j h
Step-Inv (spurious s i j h) v = spurious-Inv v i j h

pub start-Inv : (size n : ℕ) → 0 < size → Inv (start size n)
unfolding start
start-Inv size n h =
    let (v, nothing) = init-IsValid size h in
    let zero_ = λ (p : Thread → Bool) (e : p idle ≡ false). count-replicate p n idle e in
    record {
      valid = v;
      fifo = sym nothing;
      mutex = zero_ in_section refl;
      getters = λ lt. absurd (omega (arith, zero_ sleeping_get refl));
      putters = λ lt. absurd (omega (arith, zero_ sleeping_put refl));
    }

Reach-Inv : {s u : System} → Inv s → Reach s u → Inv u
Reach-Inv v here = v
Reach-Inv v (next r st) = Step-Inv st (Reach-Inv v r)

-- Whatever the interleaving of any number of threads that push and pop from the initialised queue
-- of `size` places, `size` not 0, with spurious wakeups allowed: the ring is valid; the
-- descriptors popped, then those in the queue, are those pushed, in order; at most one thread is
-- between lock and unlock, as the mutex says; and while a consumer (a producer) sleeps, at least
-- as many threads as there are stored descriptors (free places) are about to take one (to fill
-- one) or to signal.
pub start-reach-Inv : (size n : ℕ) → 0 < size → (s : System) → Reach (start size n) s → Inv s
start-reach-Inv size n h s r = Reach-Inv (start-Inv size n h) r

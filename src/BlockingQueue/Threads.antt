-- ===== src/BlockingQueue/Threads.antt =====
-- Threads that call blocking_queue_push and blocking_queue_pop, as interleavings of steps. A step is
-- what a thread does between two points at which another thread can run.
pub mod Counts
pub mod Invariant
use geek_network_programming.Base.{
  count, ℕ, zero, suc, ◌+◌, ◌≡◌, ◌≢◌, Bool, true, false, Option, none, some, List, [], ◌∷◌, ◌++◌,
  if◌then◌else◌, ℤ, length, get_elem?, set, replicate,
}
use geek_network_programming.BlockingQueue.{BlockingQueue, init, is_full, is_empty, push, pop}

-- the call that a thread is in: `put` is blocking_queue_push, `get` is blocking_queue_pop
pub data Job : Type 0 where
  put : ℤ → Job
  get : Job

-- `wants`: about to take the mutex, at first or after a wait. `holds`: at the test of the `while`.
-- `sleeps`: inside pthread_cond_wait. `done`: the queue is updated. `signalled`: before the unlock.
pub data Thread : Type 0 where
  idle : Thread
  wants holds sleeps done signalled : Job → Thread

pub record System : Type 0 where
  pub queue : BlockingQueue
  pub locked : Bool
  pub threads : List Thread
  -- the descriptors pushed and popped so far, oldest first
  pub pushed : List ℤ
  pub popped : List ℤ

-- the condition of the call's `while`
abbrev pub must_wait : Job → BlockingQueue → Bool
must_wait (put v) q = is_full q
must_wait get q = is_empty q

-- the thread that the call's pthread_cond_signal can wake
abbrev pub wakes : Job → Thread → Bool
wakes (put v) (sleeps get) = true
wakes get (sleeps (put v)) = true
wakes _ _ = false

abbrev pub awake : Thread → Thread
awake (sleeps j) = wants j
awake t = t

pub data Step : System → System → Type 0 where
  call :
      (s : System) (i : ℕ) (j : Job)
      → get_elem? s.threads i ≡ some idle
      → Step s (record s { threads = set s.threads i (wants j) })
  lock :
      (s : System) (i : ℕ) (j : Job)
      → get_elem? s.threads i ≡ some (wants j)
      → s.locked ≡ false
      → Step s (record s { locked = true; threads = set s.threads i (holds j) })
  -- pthread_cond_wait gives the mutex back and sleeps in one step.
  wait :
      (s : System) (i : ℕ) (j : Job)
      → get_elem? s.threads i ≡ some (holds j)
      → must_wait j s.queue ≡ true
      → Step s (record s { locked = false; threads = set s.threads i (sleeps j) })
  store :
      (s : System) (i : ℕ) (v : ℤ) (q : BlockingQueue)
      → get_elem? s.threads i ≡ some (holds (put v))
      → push s.queue v ≡ some q
      → Step s (record s {
        queue = q;
        threads = set s.threads i (done (put v));
        pushed = s.pushed ++ v ∷ [];
      })
  fetch :
      (s : System) (i : ℕ) (v : ℤ) (q : BlockingQueue)
      → get_elem? s.threads i ≡ some (holds get)
      → pop s.queue ≡ some (some v, q)
      → Step s (record s {
        queue = q;
        threads = set s.threads i (done get);
        popped = s.popped ++ v ∷ [];
      })
  -- pthread_cond_signal with a thread that sleeps on the condition, and with none
  signal :
      (s : System) (i k : ℕ) (j : Job) (t : Thread)
      → get_elem? s.threads i ≡ some (done j)
      → get_elem? s.threads k ≡ some t
      → wakes j t ≡ true
      → Step s (record s { threads = set (set s.threads k (awake t)) i (signalled j) })
  signal_nobody :
      (s : System) (i : ℕ) (j : Job)
      → get_elem? s.threads i ≡ some (done j)
      → count (wakes j) s.threads ≡ 0
      → Step s (record s { threads = set s.threads i (signalled j) })
  unlock :
      (s : System) (i : ℕ) (j : Job)
      → get_elem? s.threads i ≡ some (signalled j)
      → Step s (record s { locked = false; threads = set s.threads i idle })
  -- POSIX lets pthread_cond_wait return without a signal.
  spurious :
      (s : System) (i : ℕ) (j : Job)
      → get_elem? s.threads i ≡ some (sleeps j)
      → Step s (record s { threads = set s.threads i (wants j) })

-- a queue of `size` places, after blocking_queue_init, and `n` threads
unfoldable pub start : ℕ → ℕ → System
unfolding init
start size n = record {
  queue = init size;
  locked = false;
  threads = replicate n idle;
  pushed = [];
  popped = [];
}

pub data Reach (s : System) : System → Type 0 where
  here : Reach s s
  next : {t u : System} → Reach s t → Step t u → Reach s u

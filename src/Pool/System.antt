-- ===== src/Pool/System.antt =====
-- The whole of chap-26/blocking_io_threadpool_server.c at work: main, the pool's threads and their
-- queue, as interleavings of steps. Thread 0 is main, the threads from 1 on run `thread_run`.
use geek_network_programming.Base.{
  ℕ, suc, ◌≡◌, Option, none, some, List, [], ◌∷◌, ◌++◌, if◌then◌else◌, ℤ, pos, eq_ℤ, get_elem?, set,
  replicate, count,
}
use geek_network_programming.Sys.{Reply, done}
use geek_network_programming.Echo
use geek_network_programming.Echo.{connection_loop}
use geek_network_programming.BlockingQueue.{BlockingQueue, pop}
use geek_network_programming.BlockingQueue.Threads as Threads
use geek_network_programming.BlockingQueue.Threads.{put, get, idle, wants, holds}

abbrev pub blocking_queue_size : ℕ
blocking_queue_size = 128

pub record Server : Type 0 where
  -- the queue, and where each thread stands in its calls of the queue
  pub inner : Threads.System
  -- the variable `fd` of each thread, from the pop on until its connection is closed
  pub tasks : List (Option ℤ)
  -- the descriptors of connections that are open in the process
  pub files : List ℤ
  -- what accept() returned and what was closed so far, oldest first
  pub accepted : List ℤ
  pub closed : List ℤ

-- `close`, in the table of open descriptors
abbrev pub close_fd : ℤ → List ℤ → List ℤ
close_fd v [] = []
close_fd v (x ∷ xs) = if eq_ℤ v x then xs else x ∷ close_fd v xs

-- The steps inside the calls of the queue that leave `fd` alone: all but the call itself and the
-- read of the front.
abbrev pub Quiet : {s u : Threads.System} → Threads.Step s u → Type 0
Quiet (Threads.call s i j h) = ⊥
Quiet (Threads.fetch s i v q h e) = ⊥
Quiet st = Unit {0}

pub data Step : Server → Server → Type 0 where
  -- main: accept() returns a descriptor that is not open, and main enters blocking_queue_push. After
  -- a failed accept() main is where it was.
  accept :
      (s : Server) (fd : ℕ)
      → get_elem? s.inner.threads 0 ≡ some idle
      → count (eq_ℤ (pos fd)) s.files ≡ 0
      → Step s (record s {
        inner = record s.inner { threads = set s.inner.threads 0 (wants (put (pos fd))) };
        files = s.files ++ pos fd ∷ [];
        accepted = s.accepted ++ pos fd ∷ [];
      })
  -- thread_run: a thread with no connection enters blocking_queue_pop.
  ask :
      (s : Server) (i : ℕ)
      → get_elem? s.inner.threads (suc i) ≡ some idle
      → get_elem? s.tasks (suc i) ≡ some none
      → Step s (record s {
        inner = record s.inner { threads = set s.inner.threads (suc i) (wants get) };
      })
  -- blocking_queue_pop reads the front of the queue into `fd`.
  fetch :
      (s : Server) (i : ℕ) (v : ℤ) (q : BlockingQueue)
      → get_elem? s.inner.threads i ≡ some (holds get)
      → pop s.inner.queue ≡ some (some v, q)
      → Step s (record s {
        inner = record s.inner {
          queue = q;
          threads = set s.inner.threads i (Threads.done get);
          popped = s.inner.popped ++ v ∷ [];
        };
        tasks = set s.tasks i (some v);
      })
  move :
      (s : Server) {t : Threads.System} (st : Threads.Step s.inner t)
      → Quiet st
      → Step s (record s { inner = t })
  -- thread_run: connection_loop returns. A connection_loop that exits ends the process, and with it
  -- the steps.
  serve :
      (s : Server) (i fd : ℕ) (rs rest : List Reply) (t : List geek_network_programming.Echo.Call)
      → get_elem? s.inner.threads (suc i) ≡ some idle
      → get_elem? s.tasks (suc i) ≡ some (some (pos fd))
      → connection_loop fd rs ≡ done tt rest t
      → Step s (record s {
        tasks = set s.tasks (suc i) none;
        files = close_fd (pos fd) s.files;
        closed = s.closed ++ pos fd ∷ [];
      })

-- the server after blocking_queue_init and the creation of `n` threads
abbrev pub start : ℕ → Server
start n = record {
  inner = Threads.start blocking_queue_size (suc n);
  tasks = replicate (suc n) none;
  files = [];
  accepted = [];
  closed = [];
}

pub data Reach (s : Server) : Server → Type 0 where
  here : Reach s s
  next : {t u : Server} → Reach s t → Step t u → Reach s u

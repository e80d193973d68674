-- ===== src/BlockingQueue.antt =====
-- The blocking queue of chap-26/blocking_io_threadpool_server.c: a ring of connection descriptors.
-- What one thread does between taking the mutex and giving it back is a function here; waiting on
-- a condition variable is the result `none`. The interleavings of threads are in `Threads`.
pub mod Order
pub mod Threads
use geek_network_programming.Base.{
  ℕ, zero, suc, ◌+◌, ◌-◌, Bool, Option, none, some, List, [], ◌∷◌, ◌==◌, if◌then◌else◌, ℤ, pos,
  get_elem?, get_or, set, replicate,
}

-- `blocking_queue`, without its mutex and its two condition variables
pub record BlockingQueue : Type 0 where
  pub size : ℕ
  pub used : ℕ
  pub fd : List ℤ
  pub front : ℕ
  pub rear : ℕ

-- calloc clears the array of descriptors.
unfoldable pub init : ℕ → BlockingQueue
init size = record { size = size; used = 0; fd = replicate size (pos 0); front = 0; rear = 0 }

-- `++i == size` and the reset that follows
abbrev pub next : ℕ → ℕ → ℕ
next size i = if i + 1 == size then 0 else i + 1

-- the condition of the `while` in `blocking_queue_push`
abbrev pub is_full : BlockingQueue → Bool
is_full q = q.used == q.size

-- the condition of the `while` in `blocking_queue_pop`
abbrev pub is_empty : BlockingQueue → Bool
is_empty q = q.used == 0

-- the part of `blocking_queue_push` behind the wait
unfoldable pub store : BlockingQueue → ℤ → BlockingQueue
store q fd = record q { fd = set q.fd q.rear fd; rear = next q.size q.rear; used = q.used + 1 }

-- the part of `blocking_queue_pop` behind the wait; the descriptor is `none` for a read out of the
-- array
unfoldable pub take_front : BlockingQueue → Option ℤ × BlockingQueue
take_front q = (get_elem? q.fd q.front, record q { front = next q.size q.front; used = q.used - 1 })

-- `none`: the caller waits on `free`
unfoldable pub push : BlockingQueue → ℤ → Option BlockingQueue
unfolding store
push q fd = if is_full q then none else some (store q fd)

-- `none`: the caller waits on `nonempty`
unfoldable pub pop : BlockingQueue → Option (Option ℤ × BlockingQueue)
unfolding take_front
pop q = if is_empty q then none else some (take_front q)

-- the `n` descriptors from index `i` on, going round at `size`
abbrev pub ring : List ℤ → ℕ → ℕ → ℕ → List ℤ
ring fd size i zero = []
ring fd size i (suc n) = get_or fd i (pos 0) ∷ ring fd size (next size i) n

-- what the queue holds, oldest first
abbrev pub contents : BlockingQueue → List ℤ
contents q = ring q.fd q.size q.front q.used

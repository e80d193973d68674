-- ===== src/Tests/Pools.antt =====
-- The pool server at work: a connection that a thread serves.
use geek_network_programming.Base.{
  ◌+◌, Bool, ◌≡◌, refl, some, none, [], ◌∷◌, ◌++◌, false, true, ℤ, pos, eq_ℤ, count,
}
use geek_network_programming.BlockingQueue.{init, store, take_front, push, pop, contents}
use geek_network_programming.BlockingQueue.Threads as Threads
use geek_network_programming.BlockingQueue.Threads.{put, get, done}
use geek_network_programming.Pool.Roles.{hand}
use geek_network_programming.Pool.System.{
  Server, start, Reach, here, next, accept, ask, fetch, move,
}
use geek_network_programming.Pool.Holding.{serves}
use geek_network_programming.Pool.Ownership.{start-reach-in_order, start-reach-alone}

-- main has put descriptor 5 into the queue, and the only thread has just taken it out
abbrev taken : Server
taken = record {
  inner = record {
    queue = (take_front (store (init 128) (pos 5))).1;
    locked = true;
    threads = Threads.idle ∷ done get ∷ [];
    pushed = pos 5 ∷ [];
    popped = pos 5 ∷ [];
  };
  tasks = none ∷ some (pos 5) ∷ [];
  files = pos 5 ∷ [];
  accepted = pos 5 ∷ [];
  closed = [];
}

stored : Reach (start 1) (record taken {
  inner = record {
    queue = store (init 128) (pos 5);
    locked = false;
    threads = Threads.idle ∷ Threads.idle ∷ [];
    pushed = pos 5 ∷ [];
    popped = [];
  };
  tasks = none ∷ none ∷ [];
})
unfolding Threads.start init store push
stored =
    next
      (next
        (next
          (next (next here (accept _ 5 refl refl))
            (move _ (Threads.lock _ 0 (put (pos 5)) refl refl) tt))
          (move _ (Threads.store _ 0 (pos 5) _ refl refl) tt))
        (move _ (Threads.signal_nobody _ 0 (put (pos 5)) refl refl) tt))
      (move _ (Threads.unlock _ 0 (put (pos 5)) refl) tt)

taken_reached : Reach (start 1) taken
unfolding init store take_front pop
taken_reached =
    next (next (next stored (ask _ 0 refl refl)) (move _ (Threads.lock _ 1 get refl refl) tt))
      (fetch _ 1 (pos 5) _ refl refl)

in_order_example :
    (pos 5 ∷ [] ≡ pos 5 ∷ (contents taken.inner.queue ++ []))
    × ((p : ℤ → Bool) → count p (pos 5 ∷ []) ≡ count p taken.closed + count (serves p) taken.tasks)
in_order_example = start-reach-in_order 1 taken taken_reached

alone_example :
    (count (serves (eq_ℤ (pos 5))) taken.tasks ≡ 1)
    × (count (eq_ℤ (pos 5)) (contents taken.inner.queue) ≡ 0)
    × (count (eq_ℤ (pos 5)) (hand taken.inner.threads) ≡ 0)
    × (count (eq_ℤ (pos 5)) taken.files ≡ 1)
alone_example = start-reach-alone 1 taken taken_reached 1 (pos 5) refl

-- ===== src/Tests/Queue.antt =====
-- A queue of two places, and a thread that pushes 7.
use geek_network_programming.Base.{◌≡◌, refl, true, some, [], ◌∷◌, pos, arith}
use geek_network_programming.BlockingQueue.{BlockingQueue, init, store, push, pop}
use geek_network_programming.BlockingQueue.Order.{
  IsValid, init-IsValid, store-IsValid, Pushed, push-Pushed, Popped, pop-Popped,
}
use geek_network_programming.BlockingQueue.Threads.{
  put, get, holds, sleeps, System, call, lock, wait, start, Reach, here, next,
}
use geek_network_programming.BlockingQueue.Threads.Invariant.{Inv, start-reach-Inv}

two_places : BlockingQueue
two_places = init 2

two_places-IsValid : IsValid two_places
unfolding two_places
two_places-IsValid = (init-IsValid 2 (omega arith)).0

seven : BlockingQueue
unfolding init store
seven = store (init 2) (pos 7)

seven-IsValid : IsValid seven
unfolding seven
seven-IsValid = store-IsValid (pos 7) (init-IsValid 2 (omega arith)).0 refl

pushed_again : push seven (pos 8) ≡ some (store seven (pos 8))
unfolding seven push
pushed_again = refl

push_example : Pushed seven (pos 8) (push seven (pos 8))
push_example = push-Pushed (pos 8) seven-IsValid

pop_example : Popped seven (pop seven)
pop_example = pop-Popped seven-IsValid

-- the consumer, thread 0, waits for the queue; then the producer, thread 1, takes the mutex
abbrev waiting : System
waiting = record {
  queue = init 2;
  locked = true;
  threads = sleeps get ∷ holds (put (pos 7)) ∷ [];
  pushed = [];
  popped = [];
}

waiting_reached : Reach (start 2 2) waiting
unfolding start init
waiting_reached =
    next
      (next
        (next (next (next here (call _ 0 get refl)) (lock _ 0 get refl refl))
          (wait _ 0 get refl refl))
        (call _ 1 (put (pos 7)) refl))
      (lock _ 1 (put (pos 7)) refl refl)

waiting_example : Inv waiting
waiting_example = start-reach-Inv 2 2 (omega arith) waiting waiting_reached

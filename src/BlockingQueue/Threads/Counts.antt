-- ===== src/BlockingQueue/Threads/Counts.antt =====
-- How many threads stand where, and how a step of one thread changes that.
use geek_network_programming.Base.{
  bit, count, count-set, ℕ, ◌+◌, ◌≡◌, refl, Bool, true, false, some, List, ℤ, get_elem?, set,
}
use geek_network_programming.BlockingQueue.Threads.{
  put, get, Thread, wants, holds, sleeps, done, signalled, wakes,
}

-- between the lock and the unlock
abbrev pub in_section : Thread → Bool
in_section (holds j) = true
in_section (done j) = true
in_section (signalled j) = true
in_section _ = false

-- a consumer, a producer that sleeps
abbrev pub sleeping_get : Thread → Bool
sleeping_get (sleeps get) = true
sleeping_get _ = false

abbrev pub sleeping_put : Thread → Bool
sleeping_put (sleeps (put v)) = true
sleeping_put _ = false

-- those for which nobody has to be woken: about to take a descriptor, or about to signal
abbrev pub serves_get : Thread → Bool
serves_get (wants get) = true
serves_get (holds get) = true
serves_get (done (put v)) = true
serves_get _ = false

abbrev pub serves_put : Thread → Bool
serves_put (wants (put v)) = true
serves_put (holds (put v)) = true
serves_put (done get) = true
serves_put _ = false

-- One thread goes from `t` to `u`.
abbrev pub Counted : (Thread → Bool) → List Thread → List Thread → Thread → Thread → Type 0
Counted p ts us t u = count p us + bit (p t) ≡ count p ts + bit (p u)

pub record Moves (ts us : List Thread) (t u : Thread) : Type 0 where
  pub section : Counted in_section ts us t u
  pub sleep_get : Counted sleeping_get ts us t u
  pub sleep_put : Counted sleeping_put ts us t u
  pub serve_get : Counted serves_get ts us t u
  pub serve_put : Counted serves_put ts us t u

pub set-Moves :
    (ts : List Thread) (i : ℕ) (t u : Thread) → get_elem? ts i ≡ some t → Moves ts (set ts i u) t u
set-Moves ts i t u h = record {
  section = count-set in_section ts i t u h;
  sleep_get = count-set sleeping_get ts i t u h;
  sleep_put = count-set sleeping_put ts i t u h;
  serve_get = count-set serves_get ts i t u h;
  serve_put = count-set serves_put ts i t u h;
}

pub wakes-put : (x : ℤ) (t : Thread) → wakes (put x) t ≡ sleeping_get t
wakes-put x (sleeps get) = refl
wakes-put x (sleeps (put y)) = refl
wakes-put x t = refl

pub wakes-get : (t : Thread) → wakes get t ≡ sleeping_put t
wakes-get (sleeps (put y)) = refl
wakes-get (sleeps get) = refl
wakes-get t = refl

pub get_sleeper : (t : Thread) → sleeping_get t ≡ true → t ≡ sleeps get
get_sleeper (sleeps get) e = refl
get_sleeper (sleeps (put y)) e = cc
get_sleeper t e = cc

pub put_sleeper : (t : Thread) → sleeping_put t ≡ true → (y : ℤ) × (t ≡ sleeps (put y))
put_sleeper (sleeps (put y)) e = (y, refl)
put_sleeper (sleeps get) e = cc
put_sleeper t e = cc

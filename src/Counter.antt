-- ===== src/Counter.antt =====
-- The two threads of chap-26/test_pthread.c that add to shared variables without a lock. An addition
-- `x += 1` is a load and a store, between which the other thread can run. An `int` is kept as its
-- distance from INT_MIN, 2 ^ 31 for the number 0; to add 1 to INT_MAX is undefined.
pub mod Values
pub mod Races
use geek_network_programming.Base.{
  ℕ, suc, ◌+◌, ◌^◌, ◌≤◌, ◌<◌, ◌≡◌, Bool, true, false, ltb, if◌then◌else◌, Option, none, some, List,
  [], ◌∷◌, get_elem?, set,
}

abbrev pub rounds : ℕ
rounds = 1000

-- Where a thread is in `thread_run`, with the rounds that follow the current one: at the head of the
-- loop, behind the load of `*calculator`, behind its store, behind the load of `another_shared`.
pub data Thread : Type 0 where
  head : ℕ → Thread
  loaded : (left value : ℕ) → Thread
  stored : ℕ → Thread
  loaded_other : (left value : ℕ) → Thread

pub record System : Type 0 where
  pub calculator : ℕ
  pub another_shared : ℕ
  pub threads : List Thread
  -- Something undefined has happened.
  pub undefined : Bool

-- the number of values of an `int`
abbrev pub int_values : ℕ
int_values = 2 ^ 32

abbrev pub int_zero : ℕ
int_zero = 2 ^ 31

pub data Step : System → System → Type 0 where
  load :
      (s : System) (i n : ℕ)
      → get_elem? s.threads i ≡ some (head (suc n))
      → Step s (record s { threads = set s.threads i (loaded n s.calculator) })
  store :
      (s : System) (i n v : ℕ)
      → get_elem? s.threads i ≡ some (loaded n v)
      → v + 1 < int_values
      → Step s (record s { calculator = v + 1; threads = set s.threads i (stored n) })
  load_other :
      (s : System) (i n : ℕ)
      → get_elem? s.threads i ≡ some (stored n)
      → Step s (record s { threads = set s.threads i (loaded_other n s.another_shared) })
  store_other :
      (s : System) (i n v : ℕ)
      → get_elem? s.threads i ≡ some (loaded_other n v)
      → v + 1 < int_values
      → Step s (record s { another_shared = v + 1; threads = set s.threads i (head n) })
  -- the sum is not an `int`
  overflow :
      (s : System) (i n v : ℕ)
      → get_elem? s.threads i ≡ some (loaded n v)
      → int_values ≤ v + 1
      → Step s (record s { undefined = true })
  overflow_other :
      (s : System) (i n v : ℕ)
      → get_elem? s.threads i ≡ some (loaded_other n v)
      → int_values ≤ v + 1
      → Step s (record s { undefined = true })

-- The threads of main, which differ in nothing; `calculator` is not initialised. The joins wait until
-- both are at the head of the loop with no round left.
abbrev pub start : (junk n : ℕ) → System
start junk n = record {
  calculator = junk;
  another_shared = int_zero;
  threads = head n ∷ head n ∷ [];
  undefined = false;
}

abbrev pub main : ℕ → System
main junk = start junk rounds

pub data Reach (s : System) : System → Type 0 where
  here : Reach s s
  next : {t u : System} → Reach s t → Step t u → Reach s u

-- `thread_run1` on the value of its argument: what it prints, `none` if the addition is undefined. It
-- changes its own variable only.
unfoldable pub thread_run1 : ℕ → Option ℕ
thread_run1 val = if ltb (val + 1) int_values then some (val + 1) else none

-- ===== src/Counter/Values.antt =====
-- What the threads of chap-26/test_pthread.c hold and have still to add.
use geek_network_programming.Base.{
  ℕ, zero, suc, ◌+◌, ◌≤◌, ◌≡◌, some, List, [], ◌∷◌, get_elem?, set, arith, ap,
}
use geek_network_programming.Counter.{Thread, head, loaded, stored, loaded_other}

-- the additions that a thread has still to store
abbrev pub left : Thread → ℕ
left (head n) = n
left (loaded n v) = suc n
left (stored n) = n
left (loaded_other n v) = n

abbrev pub left_other : Thread → ℕ
left_other (head n) = n
left_other (loaded n v) = suc n
left_other (stored n) = suc n
left_other (loaded_other n v) = suc n

abbrev pub sum : (Thread → ℕ) → List Thread → ℕ
sum f [] = 0
sum f (t ∷ ts) = f t + sum f ts

pub sum-set :
    (f : Thread → ℕ) (ts : List Thread) (i : ℕ) (t u : Thread)
    → get_elem? ts i ≡ some t
    → sum f (set ts i u) + f t ≡ sum f ts + f u
sum-set f [] i t u h = absurd (ground arith)
sum-set f (x ∷ ts) zero t u h = let e : x ≡ t = cc in omega (arith, ap f e)
sum-set f (x ∷ ts) (suc i) t u h = omega (arith, sum-set f ts i t u h)

-- What a thread has loaded is at most `a`, of `another_shared` at most `b`.
abbrev pub Under : (a b : ℕ) → Thread → Type 0
Under a b (loaded n v) = v ≤ a
Under a b (loaded_other n v) = v ≤ b
Under a b t = Unit {0}

abbrev pub AllUnder : (a b : ℕ) → List Thread → Type 0
AllUnder a b [] = Unit {0}
AllUnder a b (t ∷ ts) = Under a b t × AllUnder a b ts

pub Under-le : (a b c d : ℕ) (t : Thread) → a ≤ c → b ≤ d → Under a b t → Under c d t
Under-le a b c d (loaded n v) h k u = omega arith
Under-le a b c d (loaded_other n v) h k u = omega arith
Under-le a b c d (head n) h k u = tt
Under-le a b c d (stored n) h k u = tt

pub AllUnder-le :
    (a b c d : ℕ) (ts : List Thread) → a ≤ c → b ≤ d → AllUnder a b ts → AllUnder c d ts
AllUnder-le a b c d [] h k u = tt
AllUnder-le a b c d (t ∷ ts) h k (u, us) = (Under-le a b c d t h k u, AllUnder-le a b c d ts h k us)

pub AllUnder-set :
    (a b : ℕ) (ts : List Thread) (i : ℕ) (u : Thread)
    → Under a b u
    → AllUnder a b ts
    → AllUnder a b (set ts i u)
AllUnder-set a b [] i u h k = tt
AllUnder-set a b (t ∷ ts) zero u h (x, k) = (h, k)
AllUnder-set a b (t ∷ ts) (suc i) u h (x, k) = (x, AllUnder-set a b ts i u h k)

pub AllUnder-get :
    (a b : ℕ) (ts : List Thread) (i : ℕ) (t : Thread)
    → get_elem? ts i ≡ some t
    → AllUnder a b ts
    → Under a b t
AllUnder-get a b [] i t h k = absurd (ground arith)
AllUnder-get a b (x ∷ ts) zero t h (y, k) = let e : x ≡ t = cc in rw (← e) y
AllUnder-get a b (x ∷ ts) (suc i) t h (y, k) = AllUnder-get a b ts i t h k

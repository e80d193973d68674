-- ===== src/Counter/Races.antt =====
-- What the shared variables can come to.
use geek_network_programming.Base.{ℕ, zero, suc, ◌+◌, ◌≤◌, ◌<◌, ◌≡◌, refl, false, [], ◌∷◌, arith}
use geek_network_programming.Counter.{
  head, loaded, stored, loaded_other, System, Step, load, store, load_other, store_other, overflow,
  overflow_other, int_values, int_zero, start, main, Reach, here, next,
}
use geek_network_programming.Counter.Values.{
  left, left_other, sum, sum-set, AllUnder, AllUnder-le, AllUnder-set, AllUnder-get,
}

-- Of `n` additions to a variable that had `junk`, those still to be stored leave room for what is
-- in the variable and in the threads.
pub record Bounded (c d : ℕ) (s : System) : Type 0 where
  -- the bounds at this moment
  pub most : ℕ
  pub most_other : ℕ
  pub room : most + sum left s.threads ≡ c
  pub room_other : most_other + sum left_other s.threads ≡ d
  pub value : s.calculator ≤ most
  pub value_other : s.another_shared ≤ most_other
  pub held : AllUnder most most_other s.threads
  -- No addition overflows.
  pub fine : s.undefined ≡ false

Step-Bounded :
    (c d : ℕ)
    → c < int_values
    → d < int_values
    → {s u : System} → Step s u
    → Bounded c d s
    → Bounded c d u
Step-Bounded c d cs ds (load s i n h) w =
    let a = sum-set left s.threads i (head (suc n)) (loaded n s.calculator) h in
    let b = sum-set left_other s.threads i (head (suc n)) (loaded n s.calculator) h in
    record {
      most = w.most;
      most_other = w.most_other;
      room = omega arith;
      room_other = omega arith;
      value = w.value;
      value_other = w.value_other;
      held = AllUnder-set w.most w.most_other s.threads i (loaded n s.calculator) w.value w.held;
      fine = w.fine;
    }
Step-Bounded c d cs ds (store s i n v h k) w =
    let a = sum-set left s.threads i (loaded n v) (stored n) h in
    let b = sum-set left_other s.threads i (loaded n v) (stored n) h in
    let under : v ≤ w.most = AllUnder-get w.most w.most_other s.threads i (loaded n v) h w.held in
    record {
      most = w.most + 1;
      most_other = w.most_other;
      room = omega arith;
      room_other = omega arith;
      value = omega arith;
      value_other = w.value_other;
      held = AllUnder-set (w.most + 1) w.most_other s.threads i (stored n) tt (
          AllUnder-le w.most w.most_other (w.most + 1) w.most_other s.threads (omega arith)
            (omega arith) w.held);
      fine = w.fine;
    }
Step-Bounded c d cs ds (load_other s i n h) w =
    let a = sum-set left s.threads i (stored n) (loaded_other n s.another_shared) h in
    let b = sum-set left_other s.threads i (stored n) (loaded_other n s.another_shared) h in
    record {
      most = w.most;
      most_other = w.most_other;
      room = omega arith;
      room_other = omega arith;
      value = w.value;
      value_other = w.value_other;
      held =
          AllUnder-set w.most w.most_other s.threads i (loaded_other n s.another_shared)
            w.value_other w.held;
      fine = w.fine;
    }
Step-Bounded c d cs ds (store_other s i n v h k) w =
    let a = sum-set left s.threads i (loaded_other n v) (head n) h in
    let b = sum-set left_other s.threads i (loaded_other n v) (head n) h in
    let under : v ≤ w.most_other =
      AllUnder-get w.most w.most_other s.threads i (loaded_other n v) h w.held in
    record {
      most = w.most;
      most_other = w.most_other + 1;
      room = omega arith;
      room_other = omega arith;
      value = w.value;
      value_other = omega arith;
      held = AllUnder-set w.most (w.most_other + 1) s.threads i (head n) tt (
          AllUnder-le w.most w.most_other w.most (w.most_other + 1) s.threads (omega arith)
            (omega arith) w.held);
      fine = w.fine;
    }
Step-Bounded c d cs ds (overflow s i n v h k) w =
    let under : v ≤ w.most = AllUnder-get w.most w.most_other s.threads i (loaded n v) h w.held in
    let a = sum-set left s.threads i (loaded n v) (stored n) h in
    let room = w.room in absurd (omega arith)
Step-Bounded c d cs ds (overflow_other s i n v h k) w =
    let under : v ≤ w.most_other =
      AllUnder-get w.most w.most_other s.threads i (loaded_other n v) h w.held in
    let a = sum-set left_other s.threads i (loaded_other n v) (head n) h in
    let room = w.room_other in absurd (omega arith)

Reach-Bounded :
    (c d : ℕ)
    → c < int_values
    → d < int_values
    → {s u : System} → Bounded c d s
    → Reach s u
    → Bounded c d u
Reach-Bounded c d cs ds w here = w
Reach-Bounded c d cs ds w (next r st) = Step-Bounded c d cs ds st (Reach-Bounded c d cs ds w r)

start-Bounded : (junk n : ℕ) → Bounded (junk + (n + n)) (int_zero + (n + n)) (start junk n)
start-Bounded junk n = record {
  most = junk;
  most_other = int_zero;
  room = omega arith;
  room_other = omega arith;
  value = omega arith;
  value_other = omega arith;
  held = (tt, (tt, tt));
  fine = refl;
}

reach-bound :
    (junk : ℕ)
    → junk + 2000 < int_values
    → (s : System) → Reach (main junk) s
    → (s.undefined ≡ false)
      × (s.calculator + sum left s.threads ≤ junk + 2000)
      × (s.another_shared + sum left_other s.threads ≤ int_zero + 2000)
reach-bound junk small s r =
    let w =
      Reach-Bounded (junk + (1000 + 1000)) (int_zero + (1000 + 1000)) (omega arith) (omega arith)
        (start-Bounded junk 1000) r in
    let v = w.value in
    let v' = w.value_other in
    let e = w.room in let e' = w.room_other in (w.fine, omega arith, omega arith)

-- both threads at the head of the loop, with the same rounds left
abbrev together : (c d m : ℕ) → System
together c d m = record {
  calculator = c;
  another_shared = d;
  threads = head m ∷ head m ∷ [];
  undefined = false;
}

-- A round in which each thread loads before the other stores.
lost_round :
    {s : System} (c d m : ℕ)
    → c + 1 < int_values
    → d + 1 < int_values
    → Reach s (together c d (suc m))
    → Reach s (together (c + 1) (d + 1) m)
lost_round c d m cs ds r =
    let loads = next (next r (load _ 0 m refl)) (load _ 1 m refl) in
    let stores = next (next loads (store _ 0 m c refl cs)) (store _ 1 m c refl cs) in
    let loads' = next (next stores (load_other _ 0 m refl)) (load_other _ 1 m refl) in
    next (next loads' (store_other _ 0 m d refl ds)) (store_other _ 1 m d refl ds)

lost_rounds :
    {s : System} (c d m : ℕ)
    → c + m < int_values
    → d + m < int_values
    → Reach s (together c d m)
    → Reach s (together (c + m) (d + m) 0)
lost_rounds c d zero cs ds r =
    let e : c + 0 ≡ c = omega arith in let e' : d + 0 ≡ d = omega arith in rw (e, e') r
lost_rounds c d (suc m) cs ds r =
    let e : c + suc m ≡ c + 1 + m = omega arith in
    let e' : d + suc m ≡ d + 1 + m = omega arith in
    rw (e, e')
      (lost_rounds (c + 1) (d + 1) m (omega arith) (omega arith)
        (lost_round c d m (omega arith) (omega arith) r))

reach_lost :
    (junk : ℕ)
    → junk + 2000 < int_values
    → (s : System) × Reach (main junk) s
      × (sum left s.threads ≡ 0)
      × (sum left_other s.threads ≡ 0)
      × (s.calculator ≡ junk + 1000)
      × (s.another_shared ≡ int_zero + 1000)
reach_lost junk small = (
  together (junk + 1000) (int_zero + 1000) 0,
  lost_rounds junk int_zero 1000 (omega arith) (omega arith) here,
  refl,
  refl,
  refl,
  refl,
)

-- If the first value of `calculator` is at most INT_MAX - 2000, then whatever the order of the
-- loads and stores of the two threads, no addition overflows, and each shared variable and the
-- additions still to be stored are together at most what it had at first and 2000; and there is a
-- run after which both threads have ended and each variable has only 1000 more than at first.
pub main-race :
    (junk : ℕ)
    → junk + 2000 < int_values
    → ((s : System)
        → Reach (main junk) s
        → (s.undefined ≡ false)
          × (s.calculator + sum left s.threads ≤ junk + 2000)
          × (s.another_shared + sum left_other s.threads ≤ int_zero + 2000))
      × ((s : System) × Reach (main junk) s
          × (sum left s.threads ≡ 0)
          × (sum left_other s.threads ≡ 0)
          × (s.calculator ≡ junk + 1000)
          × (s.another_shared ≡ int_zero + 1000))
main-race junk small = (reach-bound junk small, reach_lost junk small)

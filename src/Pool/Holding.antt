-- ===== src/Pool/Holding.antt =====
-- Who has each connection of the pool server, and the steps that move a connection.
use geek_network_programming.Base.{
  ℕ, suc, ◌+◌, ◌≤◌, ◌<◌, ◌≡◌, refl, ap, Bool, false, Option, none, some, List, [], ◌∷◌, ◌++◌,
  append-nil, ℤ, pos, eq_ℤ, get_elem?, set, bit, count, count-set, count_pos, count-append, arith,
  Bool-cases, inl, inr, ==_refl, eq_ℤ_iff,
}
use geek_network_programming.BlockingQueue.{BlockingQueue, contents, pop}
use geek_network_programming.BlockingQueue.Order.{pop-Popped}
use geek_network_programming.BlockingQueue.Threads as Threads
use geek_network_programming.BlockingQueue.Threads.{
  Job, put, get, Thread, idle, wants, holds, sleeps, awake, must_wait, wakes,
}
use geek_network_programming.BlockingQueue.Threads.Invariant.{Inv, Step-Inv, Popped-some}
use geek_network_programming.Pool.Roles.{
  get_elem?-set_here, hand, hand-set, hand-main, hand-set_main, AllFit, set-AllFit, set_task-AllFit,
}
use geek_network_programming.Pool.System.{Server, close_fd}

abbrev pub serves : (ℤ → Bool) → Option ℤ → Bool
serves p none = false
serves p (some v) = p v

pub record Holds (s : Server) : Type 0 where
  pub queue : Inv s.inner
  pub roles : AllFit s.tasks s.inner.threads
  -- first come, first served
  pub order : s.accepted ≡ s.inner.pushed ++ hand s.inner.threads
  -- no connection is lost and none is taken twice
  pub owned :
      (p : ℤ → Bool)
      → count p (hand s.inner.threads)
          + (count p (contents s.inner.queue) + count (serves p) s.tasks)
        ≡ count p s.files
  pub finished :
      (p : ℤ → Bool) → count p s.inner.popped ≡ count p s.closed + count (serves p) s.tasks
  -- an open descriptor is one connection's
  pub single : (v : ℤ) → count (eq_ℤ v) s.files ≤ 1

pub accept-Holds :
    (s : Server) (fd : ℕ)
    → get_elem? s.inner.threads 0 ≡ some idle
    → count (eq_ℤ (pos fd)) s.files ≡ 0
    → Holds s
    → Holds (record s {
      inner = record s.inner { threads = set s.inner.threads 0 (wants (put (pos fd))) };
      files = s.files ++ pos fd ∷ [];
      accepted = s.accepted ++ pos fd ∷ [];
    })
accept-Holds s fd h new v =
    let empty_hand : hand s.inner.threads ≡ [] = hand-main s.inner.threads idle h in
    let full_hand = hand-set_main s.inner.threads idle (wants (put (pos fd))) h in
    record {
      queue = Step-Inv (Threads.call s.inner 0 (put (pos fd)) h) v.queue;
      roles =
          set-AllFit s.tasks s.inner.threads 0 idle (wants (put (pos fd))) h (ground arith) v.roles;
      order = rw (full_hand, v.order, empty_hand, append-nil);
      owned = λ p.
          rw full_hand (
            omega
              (arith, v.owned p, ap (count p) empty_hand, count-append p s.files (pos fd ∷ [])));
      finished = v.finished;
      single = λ n. elim (Bool-cases (eq_ℤ n (pos fd))) [
        | inl same ↦
            let e = (eq_ℤ_iff n (pos fd)).0 same in
            rw e
              (ground (arith, new, ==_refl fd, count-append (eq_ℤ (pos fd)) s.files (pos fd ∷ [])))
        | inr other ↦
            rw (count-append (eq_ℤ n) s.files (pos fd ∷ []), other) (ground (arith, v.single n))
      ];
    }

pub ask-Holds :
    (s : Server) (i : ℕ)
    → get_elem? s.inner.threads (suc i) ≡ some idle
    → get_elem? s.tasks (suc i) ≡ some none
    → Holds s
    → Holds
        (record s { inner = record s.inner { threads = set s.inner.threads (suc i) (wants get) } })
ask-Holds s i h free v =
    let same = hand-set s.inner.threads (suc i) idle (wants get) h refl in
    record {
      queue = Step-Inv (Threads.call s.inner (suc i) get h) v.queue;
      roles =
          set-AllFit s.tasks s.inner.threads (suc i) idle (wants get) h
            (λ e. absurd (ground arith), λ e. free) v.roles;
      order = rw same v.order;
      owned = λ p. rw same (v.owned p);
      finished = v.finished;
      single = v.single;
    }

pub fetch-Holds :
    (s : Server) (i : ℕ) (v : ℤ) (q : BlockingQueue)
    → get_elem? s.inner.threads i ≡ some (holds get)
    → pop s.inner.queue ≡ some (some v, q)
    → Holds s
    → Holds (record s {
      inner = record s.inner {
        queue = q;
        threads = set s.inner.threads i (Threads.done get);
        popped = s.inner.popped ++ v ∷ [];
      };
      tasks = set s.tasks i (some v);
    })
fetch-Holds s i x q h e v =
    let same = hand-set s.inner.threads i (holds get) (Threads.done get) h refl in
    let (valid, oldest) = Popped-some s.inner.queue x q (rw e at (pop-Popped v.queue.valid)) in
    let free : get_elem? s.tasks i ≡ some none = (v.roles i (holds get) h).1 refl in
    let roles =
      set_task-AllFit s.tasks (set s.inner.threads i (Threads.done get)) i (Threads.done get)
        (some x) (get_elem?-set_here s.inner.threads i (holds get) (Threads.done get) h) refl
        (set-AllFit s.tasks s.inner.threads i (holds get) (Threads.done get) h
          (λ e. absurd (ground arith), λ e. absurd (ground arith)) v.roles) in
    record {
      queue = Step-Inv (Threads.fetch s.inner i x q h e) v.queue;
      roles = roles;
      order = rw same v.order;
      owned = λ p. rw same (
          grind (
            arith,
            v.owned p,
            ap (count p) oldest,
            count-set (serves p) s.tasks i none (some x) free,
          ));
      finished = λ p. grind (
        arith,
        v.finished p,
        count-append p s.inner.popped (x ∷ []),
        count-set (serves p) s.tasks i none (some x) free,
      );
      single = v.single;
    }

count-close :
    (p : ℤ → Bool) (x : ℤ) (xs : List ℤ)
    → 0 < count (eq_ℤ x) xs
    → count p (close_fd x xs) + bit (p x) ≡ count p xs
count-close p x [] h = absurd (omega arith)
count-close p x (y ∷ ys) h = elim (Bool-cases (eq_ℤ x y)) [
  | inl same ↦ let e = (eq_ℤ_iff x y).0 same in rw same (rw e (grind arith))
  | inr other ↦ rw other (omega (arith, count-close p x ys (grind arith)))
]

pub serve-Holds :
    (s : Server) (i fd : ℕ)
    → get_elem? s.inner.threads (suc i) ≡ some idle
    → get_elem? s.tasks (suc i) ≡ some (some (pos fd))
    → Holds s
    → Holds (record s {
      tasks = set s.tasks (suc i) none;
      files = close_fd (pos fd) s.files;
      closed = s.closed ++ pos fd ∷ [];
    })
serve-Holds s i fd h task v =
    let open_ : 0 < count (eq_ℤ (pos fd)) s.files = omega (
      arith,
      v.owned (eq_ℤ (pos fd)),
      count_pos (serves (eq_ℤ (pos fd))) s.tasks (suc i) (some (pos fd)) task (==_refl fd),
    ) in
    record {
      queue = v.queue;
      roles = set_task-AllFit s.tasks s.inner.threads (suc i) idle none h refl v.roles;
      order = v.order;
      owned = λ p. grind (
        arith,
        v.owned p,
        count-close p (pos fd) s.files open_,
        count-set (serves p) s.tasks (suc i) (some (pos fd)) none task,
      );
      finished = λ p. grind (
        arith,
        v.finished p,
        count-append p s.closed (pos fd ∷ []),
        count-set (serves p) s.tasks (suc i) (some (pos fd)) none task,
      );
      single = λ n. omega (arith, v.single n, count-close (eq_ℤ n) (pos fd) s.files open_);
    }

-- ===== src/ProcessServer/References.antt =====
-- The reference counts of the sockets in reachable states.
use geek_network_programming.Base.{
  ℕ, zero, suc, ◌+◌, ◌-◌, ◌<◌, ◌≡◌, refl, ◌∙◌, inl, inr, Bool, true, false, Option, none, some,
  Option-cases, List, [], ◌∷◌, ◌++◌, ◌==◌, ==_refl, length, length-append, get_elem?, get_or, set,
  length-set, bit, count, count-set, count_pos, count-append, arith, if◌then◌else◌,
}
use geek_network_programming.Base.Result.{ok}
use geek_network_programming.ProcessServer.{
  Child, forked, serving, zombie, reaped, Parent, accepting, forking, closing, System, start,
  waited, handler, Step, accept, fork, fork_fails, close_connection, close_listener, leave, signal,
  Reach, here, next, open_once_more, close_once,
}

abbrev pub is_forked : Child → Bool
is_forked (forked k) = true
is_forked _ = false

-- the child has the connection open
abbrev pub has : ℕ → Child → Bool
has k (forked j) = j == k
has k (serving j) = j == k
has k _ = false

-- main() has the connection open
abbrev pub parent_has : ℕ → Parent → Bool
parent_has k accepting = false
parent_has k (forking j) = j == k
parent_has k (closing j) = j == k

-- The counts are those of the processes that have the socket open, and main() is at a connection that
-- there is.
pub record Counted (s : System) : Type 0 where
  pub listener : s.listen_refs ≡ 1 + count is_forked s.children
  pub each : (k : ℕ) → get_or s.refs k 0 ≡ bit (parent_has k s.parent) + count (has k) s.children
  pub known : (k : ℕ) → parent_has k s.parent ≡ true → k < length s.refs
  pub served : (k : ℕ) → 0 < count (has k) s.children → k < length s.refs

get_or-set :
    (xs : List ℕ) (k v j : ℕ)
    → k < length xs
    → get_or (set xs k v) j 0 ≡ (if k == j then v else get_or xs j 0)
get_or-set [] k v j h = absurd (omega arith)
get_or-set (x ∷ xs) zero v zero h = refl
get_or-set (x ∷ xs) zero v (suc j) h = ground arith
get_or-set (x ∷ xs) (suc k) v zero h = ground arith
get_or-set (x ∷ xs) (suc k) v (suc j) h = ground (arith, get_or-set xs k v j)

get_or-append :
    (xs : List ℕ) (x j : ℕ)
    → get_or (xs ++ x ∷ []) j 0 ≡ (if length xs == j then x else get_or xs j 0)
get_or-append [] x zero = refl
get_or-append [] x (suc j) = ground arith
get_or-append (y ∷ xs) x zero = ground arith
get_or-append (y ∷ xs) x (suc j) = ground (arith, get_or-append xs x j)

-- what a round of waitpid() does behind the first child
behind : Child → Option (List Child) → Option (List Child)
behind c o = elim o [ none ↦ none | some ds ↦ some (c ∷ ds) ]

behind-some :
    (c : Child) (o : Option (List Child)) (ds : List Child)
    → behind c o ≡ some ds
    → (es : List Child) × (o ≡ some es) × (ds ≡ c ∷ es)
unfolding behind
behind-some c none ds e = absurd (cc)
behind-some c (some es) ds e = (es, refl, cc)

module _ (p : Child → Bool) (z : p zombie ≡ false) (r : p reaped ≡ false) where
  count-behind :
      (c : Child) (cs ds : List Child)
      → ((es : List Child) → waited cs ≡ some es → count p es ≡ count p cs)
      → behind c (waited cs) ≡ some ds
      → count p ds ≡ count p (c ∷ cs)
  count-behind c cs ds ih e =
      let (es, w, same) = behind-some c (waited cs) ds e in rw same (omega (arith, ih es w))

  waited-count : (cs ds : List Child) → waited cs ≡ some ds → count p ds ≡ count p cs
  unfolding waited behind
  waited-count [] ds e = absurd (cc)
  waited-count (zombie ∷ cs) ds e = let same : ds ≡ reaped ∷ cs = cc in rw (same, z, r) refl
  waited-count (reaped ∷ cs) ds e = count-behind reaped cs ds (λ es w. waited-count cs es w) e
  waited-count (forked k ∷ cs) ds e = count-behind (forked k) cs ds (λ es w. waited-count cs es w) e
  waited-count (serving k ∷ cs) ds e =
      count-behind (serving k) cs ds (λ es w. waited-count cs es w) e

  handler-count : (f : ℕ) (cs ds : List Child) → handler f cs ≡ ok ds → count p ds ≡ count p cs
  unfolding handler
  handler-count zero cs ds e = absurd (cc)
  handler-count (suc f) cs ds e = elim (Option-cases (waited cs)) [
    | inl w ↦ let same : ds ≡ cs = cc (rw (w, handler) at e) in rw same refl
    | inr (es, w) ↦ handler-count f es ds (rw (w, handler) at e) ∙ waited-count cs es w
  ]

module _ {s : System} (v : Counted s) where
  accept-Counted :
      s.parent ≡ accepting
      → Counted (record s { parent = forking (length s.refs); refs = s.refs ++ 1 ∷ [] })
  accept-Counted m =
      let longer = length-append s.refs (1 ∷ []) in
      record {
        listener = v.listener;
        each = λ k. ground (arith, v.each k, v.served k, get_or-append s.refs 1 k);
        known = λ k h. ground arith;
        served = λ k h. omega (arith, v.served k h);
      }

  fork-Counted :
      (k : ℕ)
      → s.parent ≡ forking k
      → Counted (record s {
        parent = closing k;
        children = s.children ++ forked k ∷ [];
        listen_refs = s.listen_refs + 1;
        refs = open_once_more s.refs k;
      })
  fork-Counted k m =
      let in_ : k < length s.refs = v.known k (rw (m, ==_refl k)) in
      let same = length-set s.refs k (get_or s.refs k 0 + 1) in
      record {
        listener = omega (arith, v.listener, count-append is_forked s.children (forked k ∷ []));
        each = λ j. ground (
          arith,
          v.each j,
          v.each k,
          count-append (has j) s.children (forked k ∷ []),
          get_or-set s.refs k (get_or s.refs k 0 + 1) j in_,
        );
        known = λ j h. ground arith;
        served = λ j h. ground (arith, v.served j, count-append (has j) s.children (forked k ∷ []));
      }

  fork_fails-Counted : (k : ℕ) → s.parent ≡ forking k → Counted (record s { parent = closing k })
  fork_fails-Counted k m = record {
    listener = v.listener;
    each = λ j. rw m at (v.each j);
    known = λ j h. v.known j (rw m h);
    served = v.served;
  }

  close_connection-Counted :
      (k : ℕ)
      → s.parent ≡ closing k
      → Counted (record s { parent = accepting; refs = close_once s.refs k })
  close_connection-Counted k m =
      let in_ : k < length s.refs = v.known k (rw (m, ==_refl k)) in
      let same = length-set s.refs k (get_or s.refs k 0 - 1) in
      record {
        listener = v.listener;
        each = λ j.
            ground (arith, v.each j, v.each k, get_or-set s.refs k (get_or s.refs k 0 - 1) j in_);
        known = λ j h. absurd (cc);
        served = λ j h. omega (arith, v.served j h);
      }

  close_listener-Counted :
      (i k : ℕ)
      → get_elem? s.children i ≡ some (forked k)
      → Counted
          (record s { children = set s.children i (serving k); listen_refs = s.listen_refs - 1 })
  close_listener-Counted i k h =
      let kept = λ (j : ℕ). count-set (has j) s.children i (forked k) (serving k) h in
      record {
        listener =
            omega (arith, v.listener, count-set is_forked s.children i (forked k) (serving k) h);
        each = λ j. omega (arith, v.each j, kept j);
        known = v.known;
        served = λ j lt. v.served j (omega (arith, kept j));
      }

  leave-Counted :
      (i k : ℕ)
      → get_elem? s.children i ≡ some (serving k)
      → Counted (record s { children = set s.children i zombie; refs = close_once s.refs k })
  leave-Counted i k h =
      let less = λ (j : ℕ). count-set (has j) s.children i (serving k) zombie h in
      let some_ = count_pos (has k) s.children i (serving k) h (==_refl k) in
      let in_ = v.served k some_ in
      let same = length-set s.refs k (get_or s.refs k 0 - 1) in
      record {
        listener = omega (arith, v.listener, count-set is_forked s.children i (serving k) zombie h);
        each = λ j.
            ground (arith, v.each j, less j, get_or-set s.refs k (get_or s.refs k 0 - 1) j in_);
        known = λ j g. omega (arith, v.known j g);
        served = λ j g. omega (arith, v.served j (ground (arith, less j)));
      }

  signal-Counted :
      (f : ℕ) (cs : List Child)
      → handler f s.children ≡ ok cs
      → Counted (record s { children = cs })
  signal-Counted f cs e =
      let kept = λ (j : ℕ). handler-count (has j) refl refl f s.children cs e in
      record {
        listener = omega (arith, v.listener, handler-count is_forked refl refl f s.children cs e);
        each = λ j. omega (arith, v.each j, kept j);
        known = v.known;
        served = λ j lt. v.served j (omega (arith, kept j));
      }

pub Step-Counted : {s u : System} → Step s u → Counted s → Counted u
Step-Counted (accept s m) v = accept-Counted v m
Step-Counted (fork s k m) v = fork-Counted v k m
Step-Counted (fork_fails s k m) v = fork_fails-Counted v k m
Step-Counted (close_connection s k m) v = close_connection-Counted v k m
Step-Counted (close_listener s i k h) v = close_listener-Counted v i k h
Step-Counted (leave s i k h) v = leave-Counted v i k h
Step-Counted (signal s f cs e) v = signal-Counted v f cs e

start-Counted : Counted start
unfolding start
start-Counted = record {
  listener = refl;
  each = λ k. refl;
  known = λ k h. absurd (cc);
  served = λ k h. absurd (omega arith);
}

-- In every reachable state of the process server, whatever the order of accept(), fork(), failed
-- forks, closes, exits and SIGCHLD, the listening socket is open in the parent and in each child
-- that has not yet closed it, and each accepted connection is open in the parent until its close()
-- and in the child that has it until that exits: the kernel's count of references to each socket
-- is the number of these processes.
pub start-reach-Counted : {s : System} → Reach start s → Counted s
start-reach-Counted here = start-Counted
start-reach-Counted (next r st) = Step-Counted st (start-reach-Counted r)

-- ===== src/BlockingQueue/Order.antt =====
-- The ring of chap-26/blocking_io_threadpool_server.c as a queue: its bounds and its contents.
use geek_network_programming.Base.{
  ℕ, zero, suc, ◌+◌, ◌-◌, ◌≤◌, ◌<◌, ◌≡◌, refl, ap, ◌≢◌, ◌⊎◌, inl, inr, Bool-cases, false, Option,
  none, some, List, [], ◌∷◌, ◌++◌, ==_iff, ℤ, pos, arith, length, get_or, set, length-set,
  length-replicate, get_elem?-eq-get_or, get_or-set_self, get_or-set_ne,
}
use geek_network_programming.BlockingQueue.{
  BlockingQueue, init, next, is_full, is_empty, store, take_front, push, pop, ring, contents,
}

-- The indices lie in the array, and the rear is `used` places after the front.
pub record IsValid (q : BlockingQueue) : Type 0 where
  pub room : length q.fd ≡ q.size
  pub front_in : q.front < q.size
  pub rear_in : q.rear < q.size
  pub used_in : q.used ≤ q.size
  pub distance : (q.front + q.used ≡ q.rear) ⊎ (q.front + q.used ≡ q.rear + q.size)

-- `ring` matches on `suc`, the code tests `used == 0`.
ring-cons :
    (fd : List ℤ) (size i n : ℕ)
    → n ≢ 0
    → ring fd size i n ≡ get_or fd i (pos 0) ∷ ring fd size (next size i) (n - 1)
ring-cons fd size i zero h = absurd (h refl)
ring-cons fd size i (suc n) h =
    ap (λ k. get_or fd i (pos 0) ∷ ring fd size (next size i) k) (omega arith)

pub length-ring : (fd : List ℤ) (size i n : ℕ) → length (ring fd size i n) ≡ n
length-ring fd size i zero = refl
length-ring fd size i (suc n) = ap suc (length-ring fd size (next size i) n)

-- A write just behind a part of the ring extends it.
ring-set :
    (fd : List ℤ) (size r : ℕ) (v : ℤ) (i n : ℕ)
    → length fd ≡ size
    → r < size
    → i < size
    → n < size
    → (i + n ≡ r) ⊎ (i + n ≡ r + size)
    → ring (set fd r v) size i (suc n) ≡ ring fd size i n ++ v ∷ []
ring-set fd size r v i zero e hr hi hn at =
    let same : i ≡ r = omega arith in rw (same, get_or-set_self fd r v (pos 0) (omega arith))
ring-set fd size r v i (suc n) e hr hi hn at =
    let apart : r ≢ i = omega arith in
    let rest =
      ring-set fd size r v (next size i) n e hr (ground arith) (omega arith) (ground arith) in
    rw (get_or-set_ne fd r i v (pos 0) apart, rest)

pub init-IsValid : (size : ℕ) → 0 < size → IsValid (init size) × (contents (init size) ≡ [])
unfolding init
init-IsValid size h = (ground (arith, length-replicate size (pos 0)), refl)

pub store-IsValid :
    {q : BlockingQueue} (v : ℤ) → IsValid q → is_full q ≡ false → IsValid (store q v)
unfolding store
store-IsValid {q} v w open_ = ground (arith, length-set q.fd q.rear v)

pub take_front-IsValid :
    {q : BlockingQueue} → IsValid q → is_empty q ≡ false → IsValid (take_front q).1
unfolding take_front
take_front-IsValid w some_ = ground arith

pub contents-store :
    {q : BlockingQueue} (v : ℤ)
    → IsValid q
    → is_full q ≡ false
    → contents (store q v) ≡ contents q ++ v ∷ []
unfolding store
contents-store {q} v w open_ =
    let e : q.used + 1 ≡ suc q.used = omega arith in
    rw e (
      ring-set q.fd q.size q.rear v q.front q.used w.room w.rear_in w.front_in (ground arith)
        w.distance)

pub contents-take_front :
    {q : BlockingQueue}
    → IsValid q
    → is_empty q ≡ false
    → (v : ℤ) × ((take_front q).0 ≡ some v) × (contents q ≡ v ∷ contents (take_front q).1)
unfolding take_front
contents-take_front {q} w some_ = (
  get_or q.fd q.front (pos 0),
  get_elem?-eq-get_or q.fd q.front (pos 0) (omega (arith, w.room, w.front_in)),
  ring-cons q.fd q.size q.front q.used (ground arith),
)

-- In a valid queue, both accesses of the array are in range.
pub in_bounds : {q : BlockingQueue} → IsValid q → (q.rear < length q.fd) × (q.front < length q.fd)
in_bounds w = omega arith

-- The outcome of `push`, in terms of what the queue holds.
abbrev pub Pushed : BlockingQueue → ℤ → Option BlockingQueue → Type 0
Pushed q v none = length (contents q) ≡ q.size
Pushed q v (some r) =
    IsValid r
    × (r.size ≡ q.size)
    × (length (contents q) < q.size)
    × (contents r ≡ contents q ++ v ∷ [])

-- On a valid queue a push waits exactly if `size` descriptors are stored; else the queue stays
-- valid, keeps its size, and holds what it held with the descriptor behind it.
pub push-Pushed : {q : BlockingQueue} (v : ℤ) → IsValid q → Pushed q v (push q v)
unfolding push
push-Pushed {q} v w = elim (Bool-cases (is_full q)) [
  | inl h ↦ rw h (rw (length-ring q.fd q.size q.front q.used) (ground arith))
  | inr h ↦ rw h (
    store-IsValid v w h,
    keeps,
    rw (length-ring q.fd q.size q.front q.used) (ground arith),
    contents-store v w h,
  )
]
  where
    keeps : (store q v).size ≡ q.size
    keeps = unfold store in refl

-- The outcome of `pop`, in terms of what the queue holds.
abbrev pub Popped : BlockingQueue → Option (Option ℤ × BlockingQueue) → Type 0
Popped q none = contents q ≡ []
Popped q (some (out, r)) =
    IsValid r × (r.size ≡ q.size) × ((v : ℤ) × (out ≡ some v) × (contents q ≡ v ∷ contents r))

-- On a valid queue a pop waits exactly if the queue holds nothing; else it reads inside the array,
-- returns the oldest descriptor and leaves a valid queue of the same size that holds the others.
pub pop-Popped : {q : BlockingQueue} → IsValid q → Popped q (pop q)
unfolding pop
pop-Popped {q} w = elim (Bool-cases (is_empty q)) [
  | inl h ↦ rw h (nothing ((==_iff q.used 0).0 h))
  | inr h ↦ rw h (take_front-IsValid w h, keeps, contents-take_front w h)
]
  where
    nothing : q.used ≡ 0 → contents q ≡ []
    nothing e = ap (λ n. ring q.fd q.size q.front n) e

    keeps : (take_front q).1.size ≡ q.size
    keeps = unfold take_front in refl

pub push-used :
    (q : BlockingQueue) (v : ℤ) {r : BlockingQueue}
    → push q v ≡ some r
    → (r.used ≡ q.used + 1) × (r.size ≡ q.size)
unfolding push store
push-used q v e = ground arith

pub pop-used :
    (q : BlockingQueue) {out : Option ℤ} {r : BlockingQueue}
    → pop q ≡ some (out, r)
    → (r.used + 1 ≡ q.used) × (r.size ≡ q.size)
unfolding pop take_front
pop-used q e = ground arith

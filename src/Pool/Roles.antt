-- ===== src/Pool/Roles.antt =====
-- What each thread of the pool server may be doing, and which descriptors it has.
use geek_network_programming.Base.{
  ℕ, zero, suc, ◌≡◌, refl, sym, ◌∙◌, ◌≢◌, Bool, true, false, Option, none, some, List, [], ◌∷◌, ℤ,
  get_elem?, set, replicate, get_elem?-set_ne, arith, Bool-cases, inl, inr, ◌==◌,
}
use geek_network_programming.BlockingQueue.Threads.{
  Job, put, get, Thread, idle, wants, holds, sleeps, done, signalled, awake, wakes,
}

-- the descriptor that a thread brings to the queue
abbrev pub carried : Thread → List ℤ
carried (wants (put v)) = v ∷ []
carried (holds (put v)) = v ∷ []
carried (sleeps (put v)) = v ∷ []
carried _ = []

-- in blocking_queue_push
abbrev pub is_putting : Thread → Bool
is_putting (wants (put v)) = true
is_putting (holds (put v)) = true
is_putting (sleeps (put v)) = true
is_putting (done (put v)) = true
is_putting (signalled (put v)) = true
is_putting _ = false

-- in blocking_queue_pop, before the read of the front
abbrev pub is_asking : Thread → Bool
is_asking (wants get) = true
is_asking (holds get) = true
is_asking (sleeps get) = true
is_asking _ = false

-- what main has in hand
abbrev pub hand : List Thread → List ℤ
hand [] = []
hand (t ∷ ts) = carried t

pub hand-set :
    (ts : List Thread) (i : ℕ) (t u : Thread)
    → get_elem? ts i ≡ some t
    → carried u ≡ carried t
    → hand (set ts i u) ≡ hand ts
hand-set [] i t u h e = refl
hand-set (x ∷ ts) zero t u h e = ground arith
hand-set (x ∷ ts) (suc i) t u h e = refl

pub hand-main : (ts : List Thread) (t : Thread) → get_elem? ts 0 ≡ some t → hand ts ≡ carried t
hand-main [] t h = absurd (ground arith)
hand-main (x ∷ ts) t h = ground arith

pub hand-set_main :
    (ts : List Thread) (t u : Thread) → get_elem? ts 0 ≡ some t → hand (set ts 0 u) ≡ carried u
hand-set_main [] t u h = absurd (ground arith)
hand-set_main (x ∷ ts) t u h = refl

-- Only main pushes, and a thread that asks for a descriptor has none.
abbrev pub Fits : List (Option ℤ) → ℕ → Thread → Type 0
Fits tasks i t =
    (is_putting t ≡ true → i ≡ 0) × (is_asking t ≡ true → get_elem? tasks i ≡ some none)

abbrev pub AllFit : List (Option ℤ) → List Thread → Type 0
AllFit tasks ts = (i : ℕ) (t : Thread) → get_elem? ts i ≡ some t → Fits tasks i t

pub get_elem?-set_here :
    (ts : List Thread) (i : ℕ) (t u : Thread)
    → get_elem? ts i ≡ some t
    → get_elem? (set ts i u) i ≡ some u
get_elem?-set_here [] i t u h = absurd (ground arith)
get_elem?-set_here (x ∷ ts) zero t u h = refl
get_elem?-set_here (x ∷ ts) (suc i) t u h = get_elem?-set_here ts i t u h

pub set-AllFit :
    (tasks : List (Option ℤ)) (ts : List Thread) (i : ℕ) (t u : Thread)
    → get_elem? ts i ≡ some t
    → Fits tasks i u
    → AllFit tasks ts
    → AllFit tasks (set ts i u)
set-AllFit tasks ts i t u h f all k x e = elim (Bool-cases (i == k)) [
  | inl same ↦
      let p : i ≡ k = ground arith in
      let here : get_elem? (set ts i u) i ≡ some u = get_elem?-set_here ts i t u h in
      let q : u ≡ x = cc in rw (← p, ← q) f
  | inr apart ↦ let p : i ≢ k = ground arith in all k x (sym (get_elem?-set_ne ts i k u p) ∙ e)
]

pub set_task-AllFit :
    (tasks : List (Option ℤ)) (ts : List Thread) (i : ℕ) (t : Thread) (w : Option ℤ)
    → get_elem? ts i ≡ some t
    → is_asking t ≡ false
    → AllFit tasks ts
    → AllFit (set tasks i w) ts
set_task-AllFit tasks ts i t w h quiet all k x e = (
  (all k x e).0,
  λ a. elim (Bool-cases (i == k)) [
    | inl same ↦
        let p : i ≡ k = ground arith in
        let q : get_elem? ts i ≡ some x = rw p e in absurd (ground (arith, q, h, quiet, a))
    | inr apart ↦ let p : i ≢ k = ground arith in get_elem?-set_ne tasks i k w p ∙ (all k x e).1 a
  ],
)

replicate-idle : (n i : ℕ) (t : Thread) → get_elem? (replicate n idle) i ≡ some t → t ≡ idle
replicate-idle zero i t h = absurd (ground arith)
replicate-idle (suc n) zero t h = ground arith
replicate-idle (suc n) (suc i) t h = replicate-idle n i t h

pub replicate-AllFit : (n : ℕ) (tasks : List (Option ℤ)) → AllFit tasks (replicate n idle)
replicate-AllFit n tasks i t h = let e = replicate-idle n i t h in rw e (ground arith)

-- what a quiet step of one thread keeps
abbrev pub Kept : Thread → Thread → Type 0
Kept t u =
    (carried u ≡ carried t)
    × (is_putting u ≡ true → is_putting t ≡ true)
    × (is_asking u ≡ true → is_asking t ≡ true)

pub wants-holds : (j : Job) → Kept (wants j) (holds j)
wants-holds (put v) = (refl, λ e. e, λ e. e)
wants-holds get = (refl, λ e. e, λ e. e)

pub holds-sleeps : (j : Job) → Kept (holds j) (sleeps j)
holds-sleeps (put v) = (refl, λ e. e, λ e. e)
holds-sleeps get = (refl, λ e. e, λ e. e)

pub sleeps-wants : (j : Job) → Kept (sleeps j) (wants j)
sleeps-wants (put v) = (refl, λ e. e, λ e. e)
sleeps-wants get = (refl, λ e. e, λ e. e)

pub done-signalled : (j : Job) → Kept (done j) (signalled j)
done-signalled (put v) = (refl, λ e. e, λ e. e)
done-signalled get = (refl, λ e. e, λ e. e)

pub signalled-idle : (j : Job) → Kept (signalled j) idle
signalled-idle (put v) = (refl, λ e. absurd (ground arith), λ e. absurd (ground arith))
signalled-idle get = (refl, λ e. absurd (ground arith), λ e. absurd (ground arith))

pub awake-Kept : (j : Job) (t : Thread) → wakes j t ≡ true → Kept t (awake t)
awake-Kept (put v) (sleeps get) w = sleeps-wants get
awake-Kept get (sleeps (put v)) w = sleeps-wants (put v)
awake-Kept j t w = absurd (ground arith)

pub wakes_apart : (j k : Job) (t : Thread) → wakes j t ≡ true → t ≢ done k
wakes_apart (put v) k t w e =
    let w' : wakes (put v) (done k) ≡ true = rw e at w in absurd (ground arith)
wakes_apart get k t w e = let w' : wakes get (done k) ≡ true = rw e at w in absurd (ground arith)

pub Kept-Fits :
    (tasks : List (Option ℤ)) (i : ℕ) (t u : Thread) → Kept t u → Fits tasks i t → Fits tasks i u
Kept-Fits tasks i t u k f = (λ e. f.0 (k.1 e), λ e. f.1 (k.2 e))

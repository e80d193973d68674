-- ===== src/Sys.antt =====
-- Programs that call the kernel: a run takes the kernel's replies in order, and gives the calls made.
pub mod Bounds
pub mod Ends
use geek_network_programming.Base.Result as Result
use geek_network_programming.Base.Result.{Result, ok, out_of_fuel}
use geek_network_programming.Base.{
  sym, refl, ℕ, ◌≡◌, Bool, true, false, List, [], ◌∷◌, ◌++◌, append_assoc,
}

-- What a call returns: a number, the bytes that a read got (none at the end of the file), or -1
-- with `errno`.
pub data Reply : Type 0 where
  number : ℕ → Reply
  bytes : List ℕ → Reply
  failed : ℕ → Reply

-- Linux's values of the errors that the programs test for
abbrev pub eintr : ℕ
eintr = 4

abbrev pub eagain : ℕ
eagain = 11

-- How a run over calls `C` ends, with the calls made: a result and the replies not taken yet; an
-- exit with its status; a call that gets no reply any more; undefined behaviour.
pub data Outcome (C : Type 0) (A : Type 0) : Type 0 where
  done : A → List Reply → List C → Outcome C A
  exited : ℕ → List C → Outcome C A
  blocked : List C → Outcome C A
  fault : List C → Outcome C A

-- the same run after the calls `t`
abbrev pub after : {C A : Type 0} → List C → Outcome C A → Outcome C A
after t (done a rs u) = done a rs (t ++ u)
after t (exited s u) = exited s (t ++ u)
after t (blocked u) = blocked (t ++ u)
after t (fault u) = fault (t ++ u)

abbrev pub Sys : Type 0 → Type 0 → Type 0
Sys C A = List Reply → Outcome C A

abbrev pub pure : {C A : Type 0} → A → Sys C A
pure a rs = done a rs []

infixl 5 ◌>>=◌ ◌>>◌
abbrev pub and_then : {C A B : Type 0} → Outcome C A → (A → Sys C B) → Outcome C B
and_then (done a rs t) f = after t (f a rs)
and_then (exited s t) f = exited s t
and_then (blocked t) f = blocked t
and_then (fault t) f = fault t

abbrev pub ◌>>=◌ : {C A B : Type 0} → Sys C A → (A → Sys C B) → Sys C B
◌>>=◌ m f rs = and_then (m rs) f

abbrev pub ◌>>◌ : {C B : Type 0} → Sys C (Unit {0}) → Sys C B → Sys C B
m >> k = m >>= λ _. k

-- A call waits for its reply.
abbrev pub call : {C : Type 0} → C → Sys C Reply
call c [] = blocked (c ∷ [])
call c (r ∷ rs) = done r rs (c ∷ [])

-- `exit`, also inside `error(1, …)`
abbrev pub exit : {C A : Type 0} → ℕ → Sys C A
exit s rs = exited s []

-- the calls of a run
abbrev pub trace : {C A : Type 0} → Outcome C A → List C
trace (done a rs t) = t
trace (exited s t) = t
trace (blocked t) = t
trace (fault t) = t

-- a call whose result is not used
abbrev pub ignored : {C : Type 0} → C → Sys C (Unit {0})
ignored c = call c >>= λ _. pure tt

-- a test under which two runs are possible
abbrev pub either : {C A : Type 0} → Bool → Sys C A → Sys C A → Sys C A
either true f g = f
either false f g = g

-- code without calls of the kernel, for which there is fuel enough
abbrev pub lift : {C A : Type 0} → Result A → Sys C A
lift (ok a) = pure a
lift Result.fault = λ rs. fault []
lift out_of_fuel = λ rs. fault []

-- `result < 0`, and the `int` that a call returns
abbrev pub is_failed : Reply → Bool
is_failed (failed e) = true
is_failed _ = false

pub after-after :
    {C A : Type 0} (t u : List C) (o : Outcome C A) → after t (after u o) ≡ after (t ++ u) o
after-after t u (done a rs v) = rw append_assoc
after-after t u (exited s v) = rw append_assoc
after-after t u (blocked v) = rw append_assoc
after-after t u (fault v) = rw append_assoc

pub after-done :
    {C A : Type 0} (t u : List C) (o : Outcome C A) (a : A) (rs : List Reply)
    → o ≡ done a rs u
    → after t o ≡ done a rs (t ++ u)
after-done t u o a rs e = rw e

pub and_then-after :
    {C A B : Type 0} (t : List C) (o : Outcome C A) (f : A → Sys C B)
    → and_then (after t o) f ≡ after t (and_then o f)
and_then-after t (done a rs u) f = sym (after-after t u (f a rs))
and_then-after t (exited s u) f = refl
and_then-after t (blocked u) f = refl
and_then-after t (fault u) f = refl

pub trace-after : {C A : Type 0} (t : List C) (o : Outcome C A) → trace (after t o) ≡ t ++ trace o
trace-after t (done a rs u) = refl
trace-after t (exited s u) = refl
trace-after t (blocked u) = refl
trace-after t (fault u) = refl

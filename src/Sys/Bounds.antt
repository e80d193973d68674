-- ===== src/Sys/Bounds.antt =====
-- Bounds on what a program calls, whatever the kernel replies.
use geek_network_programming.Base.{ℕ, ◌+◌, ◌≤◌, ◌≡◌, List, [], ◌∷◌, ◌++◌, arith}
use geek_network_programming.Sys.{
  Reply, Outcome, done, exited, blocked, fault, Sys, pure, and_then, ◌>>=◌, call, trace,
  trace-after,
}

module _ {C : Type 0} (w : C → ℕ) where
  -- the calls of a trace, each by its weight
  abbrev pub weigh : List C → ℕ
  weigh [] = 0
  weigh (c ∷ t) = w c + weigh t

  pub weigh-append : (t u : List C) → weigh (t ++ u) ≡ weigh t + weigh u
  weigh-append [] u = omega arith
  weigh-append (c ∷ t) u = omega (arith, weigh-append t u)

  -- No run of the program weighs more.
  abbrev pub AtMost : {A : Type 0} → ℕ → Sys C A → Type 0
  AtMost n m = (rs : List Reply) → weigh (trace (m rs)) ≤ n

  pub AtMost-pure : {A : Type 0} (a : A) → AtMost 0 (pure a)
  AtMost-pure a rs = omega arith

  pub AtMost-call : (c : C) → AtMost (w c) (call c)
  AtMost-call c [] = omega arith
  AtMost-call c (r ∷ rs) = omega arith

  pub AtMost-bind :
      {A B : Type 0} (a b : ℕ) (m : Sys C A) (f : A → Sys C B)
      → AtMost a m
      → ((x : A) → AtMost b (f x))
      → AtMost (a + b) (m >>= f)
  AtMost-bind a b m f first later rs = behind (m rs) (first rs)
    where
      behind : (o : Outcome C _) → weigh (trace o) ≤ a → weigh (trace (and_then o f)) ≤ a + b
      behind (done x rs' t) le =
          rw (trace-after t (f x rs'))
            (omega (arith, weigh-append t (trace (f x rs')), later x rs'))
      behind (exited s t) le = omega arith
      behind (blocked t) le = omega arith
      behind (fault t) le = omega arith

  pub AtMost-weaken : {A : Type 0} (a b : ℕ) (m : Sys C A) → a ≤ b → AtMost a m → AtMost b m
  AtMost-weaken a b m le at rs = omega (arith, at rs)

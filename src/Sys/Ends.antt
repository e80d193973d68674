-- ===== src/Sys/Ends.antt =====
-- What holds of the result of a run that comes to its end.
use geek_network_programming.Base.{List, [], ◌∷◌}
use geek_network_programming.Sys.{
  Reply, Outcome, done, exited, blocked, fault, after, Sys, and_then, ◌>>=◌, call,
}

abbrev pub Ends : {C A : Type 0} → (A → Type 0) → Outcome C A → Type 0
Ends P (done a rs t) = P a
Ends P (exited s t) = Unit {0}
Ends P (blocked t) = Unit {0}
Ends P (fault t) = Unit {0}

pub after-Ends :
    {C A : Type 0} (P : A → Type 0) (t : List C) (o : Outcome C A) → Ends P o → Ends P (after t o)
after-Ends P t (done a rs u) p = p
after-Ends P t (exited s u) p = tt
after-Ends P t (blocked u) p = tt
after-Ends P t (fault u) p = tt

pub Ends-bind :
    {C A B : Type 0} (P : A → Type 0) (Q : B → Type 0) (o : Outcome C A) (f : A → Sys C B)
    → Ends P o
    → ((a : A) (rs : List Reply) → P a → Ends Q (f a rs))
    → Ends Q (and_then o f)
Ends-bind P Q (done a rs t) f p later = after-Ends Q t (f a rs) (later a rs p)
Ends-bind P Q (exited s t) f p later = tt
Ends-bind P Q (blocked t) f p later = tt
Ends-bind P Q (fault t) f p later = tt

-- Nothing need be known of a reply.
pub Ends-call :
    {C B : Type 0} (Q : B → Type 0) (c : C) (rs : List Reply) (f : Reply → Sys C B)
    → ((r : Reply) (rs' : List Reply) → Ends Q (f r rs'))
    → Ends Q ((call c >>= f) rs)
Ends-call Q c [] f later = tt
Ends-call Q c (r ∷ rs) f later = after-Ends Q (c ∷ []) (f r rs) (later r rs)

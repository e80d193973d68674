-- ===== src/Sockets/Opening.antt =====
-- What has happened when a socket is open.
use geek_network_programming.Base.{ℕ, zero, suc, ◌≡◌, refl, List, [], ◌∷◌, ◌++◌, length, arith}
use geek_network_programming.Sys.{
  and_then-after, Reply, number, bytes, failed, Outcome, done, exited, blocked, fault, after, Sys,
  pure, ◌>>=◌, call,
}
use geek_network_programming.Sockets.{
  Call, inet, stream, socket, bind, listen, Test, negative, nonzero, checked, set_options,
  listening,
}

abbrev pub at : ℕ → List (ℕ → Call) → List Call
at fd [] = []
at fd (option ∷ os) = option fd ∷ at fd os

-- A run that gives a descriptor has had socket(), bind() and listen() answered by numbers, in this
-- order and with the answers to the options between, and has made just these calls; one that exits
-- does so with status 1.
abbrev pub Opened : List (ℕ → Call) → (port backlog : ℕ) → List Reply → Outcome Call ℕ → Type 0
Opened options port backlog rs (done fd rest t) =
    (os : List Reply) × ((b : ℕ) × ((l : ℕ) × (rs
          ≡ number fd ∷ os ++ (number b ∷ number l ∷ rest))))
    × (length os ≡ length options)
    × (t ≡ socket inet stream ∷ at fd options ++ (bind fd port ∷ listen fd backlog ∷ []))
Opened options port backlog rs (exited s t) = s ≡ 1
Opened options port backlog rs (blocked t) = Unit {0}
Opened options port backlog rs (fault t) = Unit {0}

-- the same from the options on
abbrev Ready : ℕ → List (ℕ → Call) → (port backlog : ℕ) → List Reply → Outcome Call ℕ → Type 0
Ready fd options port backlog rs (done fd' rest t) =
    (fd' ≡ fd)
    × ((os : List Reply) × ((b : ℕ) × ((l : ℕ) × (rs ≡ os ++ (number b ∷ number l ∷ rest))))
        × (length os ≡ length options)
        × (t ≡ at fd options ++ (bind fd port ∷ listen fd backlog ∷ [])))
Ready fd options port backlog rs (exited s t) = s ≡ 1
Ready fd options port backlog rs (blocked t) = Unit {0}
Ready fd options port backlog rs (fault t) = Unit {0}

abbrev rest_of : Test → (fd port backlog : ℕ) → List (ℕ → Call) → Sys Call ℕ
rest_of last fd port backlog options = do
  _ ← set_options fd options
  _ ← call (bind fd port) >>= checked negative
  _ ← call (listen fd backlog) >>= checked last
  pure fd

more-Ready :
    (fd : ℕ) (option : ℕ → Call) (os : List (ℕ → Call)) (port backlog : ℕ) (r : Reply)
    (rs : List Reply) (o : Outcome Call ℕ)
    → Ready fd os port backlog rs o
    → Ready fd (option ∷ os) port backlog (r ∷ rs) (after (option fd ∷ []) o)
more-Ready fd option os port backlog r rs (done a rest t)
      (same, (answers, (b, (l, eq)), len, calls)) =
    (same, (r ∷ answers, (b, (l, rw eq)), omega arith, rw calls))
more-Ready fd option os port backlog r rs (exited s t) e = e
more-Ready fd option os port backlog r rs (blocked t) e = tt
more-Ready fd option os port backlog r rs (fault t) e = tt

rest_of-Ready :
    (last : Test) (fd port backlog : ℕ) (options : List (ℕ → Call)) (rs : List Reply)
    → Ready fd options port backlog rs (rest_of last fd port backlog options rs)
unfolding set_options
rest_of-Ready last fd port backlog [] [] = tt
rest_of-Ready last fd port backlog [] (failed e ∷ rs) = refl
rest_of-Ready last fd port backlog [] (bytes x ∷ rs) = tt
rest_of-Ready last fd port backlog [] (number b ∷ []) = tt
rest_of-Ready negative fd port backlog [] (number b ∷ failed e ∷ rs) = refl
rest_of-Ready nonzero fd port backlog [] (number b ∷ failed e ∷ rs) = refl
rest_of-Ready negative fd port backlog [] (number b ∷ bytes x ∷ rs) = tt
rest_of-Ready nonzero fd port backlog [] (number b ∷ bytes x ∷ rs) = tt
rest_of-Ready negative fd port backlog [] (number b ∷ number l ∷ rs) =
    (refl, ([], (b, (l, refl)), refl, refl))
rest_of-Ready nonzero fd port backlog [] (number b ∷ number zero ∷ rs) =
    (refl, ([], (b, (0, refl)), refl, refl))
rest_of-Ready nonzero fd port backlog [] (number b ∷ number (suc l) ∷ rs) = refl
rest_of-Ready last fd port backlog (option ∷ os) [] = tt
rest_of-Ready last fd port backlog (option ∷ os) (r ∷ rs) =
    rw (and_then-after (option fd ∷ []) (set_options fd os rs) _) (
      more-Ready fd option os port backlog r rs (rest_of last fd port backlog os rs)
        (rest_of-Ready last fd port backlog os rs))

Ready-Opened :
    (fd : ℕ) (options : List (ℕ → Call)) (port backlog : ℕ) (rs : List Reply) (o : Outcome Call ℕ)
    → Ready fd options port backlog rs o
    → Opened options port backlog (number fd ∷ rs) (after (socket inet stream ∷ []) o)
Ready-Opened fd options port backlog rs (done a rest t)
      (same, (answers, (b, (l, eq)), len, calls)) =
    (answers, (b, (l, rw (same, eq))), len, rw (calls, ← same))
Ready-Opened fd options port backlog rs (exited s t) e = e
Ready-Opened fd options port backlog rs (blocked t) e = tt
Ready-Opened fd options port backlog rs (fault t) e = tt

-- Whatever the kernel replies, a run of the set-up of a listening socket that gives a descriptor
-- got it from socket(), had bind() and listen() answered by numbers, in this order and behind the
-- answers to the options, and made just these calls; a run that exits does so with status 1.
pub listening-Opened :
    (options : List (ℕ → Call)) (last : Test) (port backlog : ℕ) (rs : List Reply)
    → Opened options port backlog rs (listening options last port backlog rs)
unfolding listening
listening-Opened options last port backlog [] = tt
listening-Opened options last port backlog (failed e ∷ rs) = refl
listening-Opened options last port backlog (bytes x ∷ rs) = tt
listening-Opened options last port backlog (number fd ∷ rs) =
    Ready-Opened fd options port backlog rs (rest_of last fd port backlog options rs)
      (rest_of-Ready last fd port backlog options rs)

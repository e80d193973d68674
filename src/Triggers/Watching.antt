-- ===== src/Triggers/Watching.antt =====
-- What the triggers go on watching.
use geek_network_programming.Base.{
  ℕ, suc, ◌≡◌, Bool, true, ◌&&◌, Option, none, some, List, [], ◌∷◌, ◌++◌, if◌then◌else◌, arith,
}
use geek_network_programming.Sys.{trace, trace-after}
use geek_network_programming.Triggers.{
  Call, wait, show, fgets, FdSet, selected, select_trigger, both,
}

-- the lines that the trigger asks the keyboard for, and the reports of the socket
abbrev pub lines : List Call → ℕ
lines [] = 0
lines (fgets ∷ t) = suc (lines t)
lines (c ∷ t) = lines t

abbrev pub reports : List Call → ℕ
reports [] = 0
reports (show ∷ t) = suc (reports t)
reports (c ∷ t) = reports t

-- the rounds up to the first in which the keyboard (the socket) is not ready
abbrev pub keyboard_rounds : List (Option FdSet) → ℕ
keyboard_rounds [] = 0
keyboard_rounds (none ∷ rs) = 0
keyboard_rounds (some r ∷ rs) = suc (if r.keyboard then keyboard_rounds rs else 0)

abbrev pub socket_rounds : List (Option FdSet) → ℕ
socket_rounds [] = 0
socket_rounds (none ∷ rs) = 0
socket_rounds (some r ∷ rs) = if r.socket then suc (socket_rounds rs) else 0

abbrev watching : Bool → Bool → FdSet
watching s k = record { socket = s; keyboard = k }

watched :
    (s k : Bool) (rs : List (Option FdSet))
    → (lines (trace (select_trigger (watching s k) rs)) ≡ (if k then keyboard_rounds rs else 0))
      × (reports (trace (select_trigger (watching s k) rs)) ≡ (if s then socket_rounds rs else 0))
unfolding select_trigger
watched s k [] = ground arith
watched s k (none ∷ rs) = ground arith
watched s k (some r ∷ rs) =
    let ih = watched (s && r.socket) (k && r.keyboard) rs in
    let rest = select_trigger (selected (watching s k) r) rs in
    let step =
      (wait ∷ (if s && r.socket then show ∷ [] else []) ++ (if k then fgets ∷ [] else [])) in
    rw (trace-after step rest) (ground arith)

-- Whatever is ready in the rounds, select_trigger.c asks the keyboard for one line in each round
-- up to and with the first in which it is not ready, and for none after it; and it reports the
-- socket in the rounds before the first in which that is not ready.
pub select_trigger-watched :
    (rs : List (Option FdSet))
    → (lines (trace (select_trigger both rs)) ≡ keyboard_rounds rs)
      × (reports (trace (select_trigger both rs)) ≡ socket_rounds rs)
select_trigger-watched rs = watched true true rs

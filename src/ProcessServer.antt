-- ===== src/ProcessServer.antt =====
-- The processes of chap-25/blocking_io_process_server.c, and the kernel's counts of how many processes
-- have each socket open.
pub mod References
pub mod Session
use geek_network_programming.Base.{
  ℕ, zero, suc, ◌+◌, ◌-◌, ◌≡◌, Option, none, some, Bool, true, false, List, [], ◌∷◌, ◌++◌, map,
  ◌==◌, length, get_elem?, get_or, set,
}
use geek_network_programming.Base.Result.{Result, ok, out_of_fuel}
use geek_network_programming.Sys.{
  Reply, number, bytes, failed, Outcome, done, exited, blocked, fault, after, Sys,
}
use geek_network_programming.Echo.{Call, read, write, rot13_char, max_line}

-- `child_run`: as `connection_loop` of the thread servers, but the descriptor is left to exit().
pub child_run : ℕ → Sys Call (Unit {0})
child_run fd [] = blocked (read fd max_line ∷ [])
child_run fd (number n ∷ rs) = fault (read fd max_line ∷ [])
child_run fd (failed e ∷ rs) = exited 1 (read fd max_line ∷ [])
child_run fd (bytes [] ∷ rs) = done tt rs (read fd max_line ∷ [])
child_run fd (bytes (b ∷ bs) ∷ []) =
    blocked (read fd max_line ∷ write fd (map rot13_char (b ∷ bs)) ∷ [])
child_run fd (bytes (b ∷ bs) ∷ failed e ∷ rs) =
    exited 1 (read fd max_line ∷ write fd (map rot13_char (b ∷ bs)) ∷ [])
child_run fd (bytes (b ∷ bs) ∷ number n ∷ rs) =
    after (read fd max_line ∷ write fd (map rot13_char (b ∷ bs)) ∷ []) (child_run fd rs)
child_run fd (bytes (b ∷ bs) ∷ bytes x ∷ rs) =
    fault (read fd max_line ∷ write fd (map rot13_char (b ∷ bs)) ∷ [])

-- A child that serves the connection `k`: behind fork(), with both sockets open; behind the close() of
-- the listening socket; terminated; waited for.
pub data Child : Type 0 where
  forked serving : ℕ → Child
  zombie reaped : Child

-- where main() is: at accept(), before fork(), before the close() of its connection
pub data Parent : Type 0 where
  accepting : Parent
  forking closing : ℕ → Parent

-- Connections are numbered in the order of their accept(); `refs` has for each how many processes have
-- it open, `listen_refs` for the listening socket.
pub record System : Type 0 where
  pub parent : Parent
  pub children : List Child
  pub listen_refs : ℕ
  pub refs : List ℕ

unfoldable pub start : System
start = record { parent = accepting; children = []; listen_refs = 1; refs = [] }

abbrev pub open_once_more : List ℕ → ℕ → List ℕ
open_once_more refs k = set refs k (get_or refs k 0 + 1)

abbrev pub close_once : List ℕ → ℕ → List ℕ
close_once refs k = set refs k (get_or refs k 0 - 1)

-- `waitpid(-1, 0, WNOHANG)` that finds a terminated child
pub waited : List Child → Option (List Child)
waited [] = none
waited (zombie ∷ cs) = some (reaped ∷ cs)
waited (c ∷ cs) = elim (waited cs) [ none ↦ none | some ds ↦ some (c ∷ ds) ]

-- the loop of `sigchld_handler`
pub handler : ℕ → List Child → Result (List Child)
handler zero cs = out_of_fuel
handler (suc f) cs = elim (waited cs) [ none ↦ ok cs | some ds ↦ handler f ds ]

pub data Step : System → System → Type 0 where
  accept :
      (s : System)
      → s.parent ≡ accepting
      → Step s (record s { parent = forking (length s.refs); refs = s.refs ++ 1 ∷ [] })
  -- The child gets both sockets.
  fork :
      (s : System) (k : ℕ)
      → s.parent ≡ forking k
      → Step s (record s {
        parent = closing k;
        children = s.children ++ forked k ∷ [];
        listen_refs = s.listen_refs + 1;
        refs = open_once_more s.refs k;
      })
  -- A fork() of -1 takes the branch of the parent too.
  fork_fails :
      (s : System) (k : ℕ) → s.parent ≡ forking k → Step s (record s { parent = closing k })
  close_connection :
      (s : System) (k : ℕ)
      → s.parent ≡ closing k
      → Step s (record s { parent = accepting; refs = close_once s.refs k })
  close_listener :
      (s : System) (i k : ℕ)
      → get_elem? s.children i ≡ some (forked k)
      → Step s
          (record s { children = set s.children i (serving k); listen_refs = s.listen_refs - 1 })
  -- child_run() has returned or exited, and exit() closes the connection.
  leave :
      (s : System) (i k : ℕ)
      → get_elem? s.children i ≡ some (serving k)
      → Step s (record s { children = set s.children i zombie; refs = close_once s.refs k })
  -- SIGCHLD can arrive at any time.
  signal :
      (s : System) (f : ℕ) (cs : List Child)
      → handler f s.children ≡ ok cs
      → Step s (record s { children = cs })

pub data Reach (s : System) : System → Type 0 where
  here : Reach s s
  next : {t u : System} → Reach s t → Step t u → Reach s u

-- ===== src/ProcessServer/Session.antt =====
-- A child's session beside that of a thread.
use geek_network_programming.Base.{ℕ, ◌≡◌, refl, List, [], ◌∷◌, map}
use geek_network_programming.Sys.{Reply, number, bytes, failed, trace, trace-after}
use geek_network_programming.Echo.{Call, read, write, rot13_char, max_line, connection_loop}
use geek_network_programming.Echo.Session.{written, closes}
use geek_network_programming.ProcessServer.{child_run}

-- Whatever the kernel replies, a child of the process server writes just what a thread of the
-- thread servers writes for the same replies, and does not close the descriptor itself.
pub child_run-connection_loop :
    (fd : ℕ) (rs : List Reply)
    → (written (trace (child_run fd rs)) ≡ written (trace (connection_loop fd rs)))
      × (closes (trace (child_run fd rs)) ≡ 0)
unfolding child_run connection_loop
child_run-connection_loop fd [] = (refl, refl)
child_run-connection_loop fd (number n ∷ rs) = (refl, refl)
child_run-connection_loop fd (failed e ∷ rs) = (refl, refl)
child_run-connection_loop fd (bytes [] ∷ []) = (refl, refl)
child_run-connection_loop fd (bytes [] ∷ r ∷ rs) = (refl, refl)
child_run-connection_loop fd (bytes (b ∷ bs) ∷ []) = (refl, refl)
child_run-connection_loop fd (bytes (b ∷ bs) ∷ failed e ∷ rs) = (refl, refl)
child_run-connection_loop fd (bytes (b ∷ bs) ∷ bytes x ∷ rs) = (refl, refl)
child_run-connection_loop fd (bytes (b ∷ bs) ∷ number n ∷ rs) =
    let round : List Call = read fd max_line ∷ write fd (map rot13_char (b ∷ bs)) ∷ [] in
    let (same, none_) = child_run-connection_loop fd rs in
    (
      rw (trace-after round (child_run fd rs), trace-after round (connection_loop fd rs), same)
          refl,
      rw (trace-after round (child_run fd rs)) none_,
    )

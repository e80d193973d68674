-- ===== src/Tests/Shells.antt =====
-- The remote shell's server at some clients, and the output of a command.
use geek_network_programming.Base.{ℕ, ◌≡◌, refl, some, List, [], ◌∷◌, ◌++◌, replicate, drop, arith}
use geek_network_programming.Base.Result.{ok, ◌>>=◌}
use geek_network_programming.Sys.{number, failed, eintr}
use geek_network_programming.Strings.{c_string}
use geek_network_programming.Telnet.Server.{closed, handle_client_request}
use geek_network_programming.Telnet.Server.Listening.{
  accept, session, close, Visit, listening, main, accept_client_connect, serve,
}
use geek_network_programming.Telnet.Server.Listening.Clients.{Balanced, main-Balanced, main-refuses}
use geek_network_programming.Telnet.Server.Output.{
  output, execute_system_cmd, execute_system_cmd-listing,
}

-- a client that leaves at once, and an accept() that is interrupted
abbrev guest : ℕ → Visit
guest fd = record { reply = number fd; inputs = closed ∷ []; errno = 0 }

abbrev interrupted : Visit
interrupted = record { reply = failed eintr; inputs = []; errno = 0 }

keep : ℕ → ℕ
keep e = e

-- The first client is served, the second is lost.
two_clients :
    main keep 0 (guest 7 ∷ interrupted ∷ guest 8 ∷ [])
    ≡ listening (accept ∷ session 7 [] ∷ close 7 ∷ accept ∷ accept ∷ accept ∷ [])
unfolding main accept_client_connect serve keep handle_client_request
two_clients = refl

two_guests : Balanced (main keep 0 (guest 7 ∷ guest 8 ∷ []))
two_guests = main-Balanced keep 0 (guest 7 ∷ guest 8 ∷ [])

refuses_example :
    main keep eintr (guest 8 ∷ interrupted ∷ []) ≡ listening (accept ∷ accept ∷ accept ∷ [])
unfolding keep
refuses_example = main-refuses keep refl (guest 8 ∷ interrupted ∷ []) (tt, (refl, tt))

-- the names of two files, in memory that has a stray letter behind them
abbrev names : List (List ℕ)
names = (b'm' ∷ b'a' ∷ b'i' ∷ b'n' ∷ 10 ∷ []) ∷ (b'l' ∷ b'i' ∷ b'b' ∷ 10 ∷ []) ∷ []

abbrev memory : List ℕ
memory = replicate 9 1 ++ (b'x' ∷ 0 ∷ [])

listing_example :
    (execute_system_cmd memory (some names) >>= c_string)
    ≡ (c_string (drop 9 memory) >>= λ s. ok (output names ++ s))
listing_example = execute_system_cmd-listing memory names (
  λ e. absurd (omega arith),
  (
    λ e. absurd (omega arith),
    (
      λ e. absurd (omega arith),
      (
        λ e. absurd (omega arith),
        (
          λ e. absurd (omega arith),
          (
            λ e. absurd (omega arith),
            (
              λ e. absurd (omega arith),
              (λ e. absurd (omega arith), (λ e. absurd (omega arith), tt)),
            ),
          ),
        ),
      ),
    ),
  ),
)

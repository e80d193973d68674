-- ===== src/Telnet/Server/Session.antt =====
-- The replies of the remote shell in a session.
use geek_network_programming.Base.{
  ℕ, ◌+◌, ◌-◌, ◌≤◌, ◌<◌, ◌≡◌, refl, Bool, true, false, not, ◌||◌, Bool-cases, inl, inr, List, [],
  ◌∷◌, ◌++◌, ◌==◌, ltb, leb, if◌then◌else◌, pos, is_neg, eq_ℤ, arith, length,
}
use geek_network_programming.Telnet.{Message, msg_ping, msg_pong, msg_text}
use geek_network_programming.Telnet.Client.{starts_with, quit}
use geek_network_programming.Telnet.Server.{
  System, Action, send, chdir, Ran, ran, fault, cd, ls, pwd, unknown_command, answer, answer_copy,
  change_directory, execute_cmd, Input, failed, closed, got, End, waiting, ended, faulted, after,
  go_on, after_command, handle_client_request,
}

-- the calls of send()
abbrev pub replies : List Action → ℕ
replies [] = 0
replies (send m ∷ t) = 1 + replies t
replies (chdir p ∷ t) = replies t

-- A command that does not go wrong calls send() once.
abbrev pub Answered : Ran → Type 0
Answered (ran result t) = replies t ≡ 1
Answered (fault t) = replies t ≡ 0

answer-Answered :
    (sys : System) (t : List Action) (text : List ℕ) → replies t ≡ 0 → Answered (answer sys t text)
unfolding answer
answer-Answered sys [] text e = refl
answer-Answered sys (send m ∷ t) text e = absurd (omega arith)
answer-Answered sys (chdir p ∷ t) text e = answer-Answered sys t text e

if-Answered : (b : Bool) (x y : Ran) → Answered x → Answered y → Answered (if b then x else y)
if-Answered true x y a b = a
if-Answered false x y a b = b

answer_copy-Answered : (sys : System) (text : List ℕ) → Answered (answer_copy sys text)
unfolding answer_copy
answer_copy-Answered sys text =
    if-Answered (leb 4096 (length text)) (fault []) (answer sys [] text) refl
      (answer-Answered sys [] text refl)

change_directory-Answered : (sys : System) (cmd : List ℕ) → Answered (change_directory sys cmd)
unfolding change_directory
change_directory-Answered sys cmd =
    if-Answered (ltb (length cmd) 4 || leb 256 (length cmd - 4)) (fault []) _ refl
      (answer-Answered sys _ _ refl)

execute_cmd-Answered : (sys : System) (cmd : List ℕ) → Answered (execute_cmd sys cmd)
unfolding execute_cmd
execute_cmd-Answered sys cmd = if-Answered (starts_with quit cmd) _ _ refl (
    if-Answered (starts_with ls cmd) _ _ (answer_copy-Answered sys sys.listing) (
      if-Answered (starts_with pwd cmd) _ _ (answer_copy-Answered sys sys.directory) (
        if-Answered (starts_with cd cmd) _ _ (change_directory-Answered sys cmd)
          (answer-Answered sys [] unknown_command refl))))

-- the pings and commands among the input
abbrev pub requests : List Input → ℕ
requests [] = 0
requests (failed ∷ ins) = requests ins
requests (closed ∷ ins) = requests ins
requests (got m sys ∷ ins) =
    if m.type == msg_ping || m.type == msg_text then 1 + requests ins else requests ins

-- The calls of send() when a session stands so: one for each request if it waits for more input; at
-- most that if it has ended; less than that if the work on a request has gone wrong.
abbrev pub Served : ℕ → End → Type 0
Served n (waiting t) = replies t ≡ n
Served n (ended t) = replies t ≤ n
Served n (faulted t) = replies t < n

replies-append : (t u : List Action) → replies (t ++ u) ≡ replies t + replies u
replies-append [] u = omega arith
replies-append (send m ∷ t) u = omega (arith, replies-append t u)
replies-append (chdir p ∷ t) u = replies-append t u

after-Served :
    (n : ℕ) (t : List Action) (e : End) → replies t ≡ 1 → Served n e → Served (1 + n) (after t e)
after-Served n t (waiting u) one s = omega (arith, replies-append t u)
after-Served n t (ended u) one s = omega (arith, replies-append t u)
after-Served n t (faulted u) one s = omega (arith, replies-append t u)

go_on-Served :
    (flag : Bool) (n : ℕ) (t : List Action) (e : End)
    → replies t ≡ 1
    → Served n e
    → Served (1 + n) (go_on flag t e)
unfolding go_on
go_on-Served true n t e one s = after-Served n t e one s
go_on-Served false n t e one s = omega arith

after_command-Served :
    (r : Ran) (n : ℕ) (e : End) → Answered r → Served n e → Served (1 + n) (after_command r e)
unfolding after_command
after_command-Served (ran result t) n e one s = go_on-Served (not (is_neg result)) n t e one s
after_command-Served (fault t) n e none_ s = omega arith

-- In any session of the remote shell, as long as it waits for input the server has called send()
-- exactly once for every ping and every command so far, whether or not that failed, and for
-- nothing else; a session that has ended has called it no more often than there were requests, and
-- one that has gone wrong less often.
pub handle_client_request-Served :
    (ins : List Input) → Served (requests ins) (handle_client_request ins)
unfolding handle_client_request
handle_client_request-Served [] = refl
handle_client_request-Served (failed ∷ ins) = handle_client_request-Served ins
handle_client_request-Served (closed ∷ ins) = omega arith
handle_client_request-Served (got m sys ∷ ins) =
    let next = handle_client_request ins in
    let ih = handle_client_request-Served ins in
    elim (Bool-cases (m.type == msg_ping)) [
      | inl p ↦
          let pong : List Action = send (record { type = msg_pong; text = m.text }) ∷ [] in
          rw p (go_on-Served (not (eq_ℤ sys.sent (pos 0))) (requests ins) pong next refl ih)
      | inr p ↦ elim (Bool-cases (m.type == msg_text)) [
        | inl q ↦
            rw (p, q)
              (after_command-Served (execute_cmd sys m.text) (requests ins) next
                (execute_cmd-Answered sys m.text) ih)
        | inr q ↦ rw (p, q) ih
      ]
    ]

-- A ping is answered by a pong with the same data, and the session goes on if send() did not return 0.
pub handle_client_request-ping :
    (m : Message) (sys : System) (ins : List Input)
    → m.type ≡ msg_ping
    → eq_ℤ sys.sent (pos 0) ≡ false
    → handle_client_request (got m sys ∷ ins)
      ≡ after (send (record { type = msg_pong; text = m.text }) ∷ []) (handle_client_request ins)
unfolding handle_client_request go_on
handle_client_request-ping m sys ins p s = rw (p, s)

-- The count `strlen(cmd) - 4` wraps around for a `cd` of less than four bytes: such a command is
-- undefined behaviour, whatever the system.
pub execute_cmd_short_cd :
    (sys : System) (rest : List ℕ)
    → length rest < 2
    → execute_cmd sys (b'c' ∷ b'd' ∷ rest) ≡ fault []
unfolding execute_cmd change_directory
execute_cmd_short_cd sys rest h = ground arith

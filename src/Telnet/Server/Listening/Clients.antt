-- ===== src/Telnet/Server/Listening/Clients.antt =====
-- Which clients the remote shell serves, and which it loses.
use geek_network_programming.Base.{
  ℕ, suc, ◌≡◌, refl, Option, none, some, List, [], ◌∷◌, ◌++◌, replicate, length,
}
use geek_network_programming.Sys.{Reply, number, bytes, failed, eintr}
use geek_network_programming.Telnet.Server.{End, waiting, ended, faulted, handle_client_request}
use geek_network_programming.Telnet.Server.Listening.{
  Call, accept, session, close, Visit, Running, listening, serving, broken, after,
  accept_client_connect, serve, main,
}

-- the descriptors of the sessions, and those closed
abbrev pub served : List Call → List ℕ
served [] = []
served (accept ∷ t) = served t
served (session fd u ∷ t) = fd ∷ served t
served (close fd ∷ t) = served t

abbrev pub closed : List Call → List ℕ
closed [] = []
closed (accept ∷ t) = closed t
closed (session fd u ∷ t) = closed t
closed (close fd ∷ t) = fd ∷ closed t

-- each session's descriptor is closed before the next accept(), but for a session under way
abbrev pub Balanced : Running → Type 0
Balanced (listening t) = served t ≡ closed t
Balanced (serving t) = (fd : ℕ) × (served t ≡ closed t ++ fd ∷ [])
Balanced (broken t) = (fd : ℕ) × (served t ≡ closed t ++ fd ∷ [])

refused-Balanced : (r : Running) → Balanced r → Balanced (after (accept ∷ []) r)
refused-Balanced (listening t) b = b
refused-Balanced (serving t) b = b
refused-Balanced (broken t) b = b

closed-Balanced :
    (fd : ℕ) (u : List _) (r : Running)
    → Balanced r
    → Balanced (after (accept ∷ session fd u ∷ close fd ∷ []) r)
closed-Balanced fd u (listening t) b = rw b refl
closed-Balanced fd u (serving t) (x, b) = (x, rw b refl)
closed-Balanced fd u (broken t) (x, b) = (x, rw b refl)

module _ (log : ℕ → ℕ) where
  serve-Balanced :
      (o : Option ℕ) (e : End) (r s : Running)
      → Balanced r
      → Balanced s
      → Balanced (serve log o e r s)
  unfolding serve
  serve-Balanced none e r s b c = refused-Balanced r b
  serve-Balanced (some fd) (waiting t) r s b c = (fd, refl)
  serve-Balanced (some fd) (faulted t) r s b c = (fd, refl)
  serve-Balanced (some fd) (ended t) r s b c = closed-Balanced fd t s c

  -- In whatever way clients come, the server of the remote shell closes each descriptor that it
  -- has served before the next accept(), once and in order; but for the one whose session is under
  -- way or has gone wrong.
  pub main-Balanced : (errno : ℕ) (vs : List Visit) → Balanced (main log errno vs)
  unfolding main
  main-Balanced errno [] = refl
  main-Balanced errno (v ∷ vs) =
      let (o, e) = accept_client_connect log errno v.reply in
      serve-Balanced o (handle_client_request v.inputs) (main log e vs) (main log v.errno vs)
        (main-Balanced e vs) (main-Balanced v.errno vs)

  -- accept() gives a connection, or is interrupted
  abbrev pub Interrupted : Reply → Type 0
  Interrupted (number fd) = Unit {0}
  Interrupted (failed e) = e ≡ eintr
  Interrupted (bytes x) = ⊥

  abbrev pub AllInterrupted : List Visit → Type 0
  AllInterrupted [] = Unit {0}
  AllInterrupted (v ∷ vs) = Interrupted v.reply × AllInterrupted vs

  refuses :
      (kept : log eintr ≡ eintr) (r : Reply)
      → Interrupted r
      → accept_client_connect log eintr r ≡ (none, eintr)
  unfolding accept_client_connect
  refuses kept (number fd) i = rw kept refl
  refuses kept (failed e) i = rw (i, kept) refl
  refuses kept (bytes x) i = absurd i

  -- Once errno is EINTR, and if logging leaves it so, the remote shell's server accepts each
  -- client that comes and neither serves nor closes it, as long as accept() returns connections or
  -- is interrupted again.
  pub main-refuses :
      log eintr ≡ eintr
      → (vs : List Visit) → AllInterrupted vs
      → main log eintr vs ≡ listening (replicate (suc (length vs)) accept)
  unfolding main serve
  main-refuses kept [] a = refl
  main-refuses kept (v ∷ vs) (i, a) = rw (refuses kept v.reply i, main-refuses kept vs a) refl

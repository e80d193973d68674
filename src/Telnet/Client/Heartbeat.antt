-- ===== src/Telnet/Client/Heartbeat.antt =====
-- The keep-alive probes of the remote shell's client.
use geek_network_programming.Base.{
  ℕ, ◌+◌, ◌≤◌, ◌≡◌, refl, Bool, true, false, ◌||◌, Bool-cases, inl, inr, Option, none, some, List,
  [], ◌∷◌, ltb, ◌==◌, if◌then◌else◌, ℤ, pos, eq_ℤ, arith,
}
use geek_network_programming.Telnet.{msg_ping}
use geek_network_programming.Telnet.Client.{
  State, start, keep_alive_time, keep_alive_interval, Typed, Round, failed, timeout, ready, Action,
  send, shutdown, show_pong, show_text, show_unknown, Step, continue, stop, show, typed, typed_line,
  End, waiting, stopped, exited, after, proceed, loop,
}

-- the timeouts since select() last found something, `n` of them before the rounds
abbrev pub silent : ℕ → List Round → ℕ
silent n [] = n
silent n (failed ∷ rs) = silent n rs
silent n (timeout k ∷ rs) = silent (n + 1) rs
silent n (ready l r k ∷ rs) = silent 0 rs

-- the microseconds in `tv` after the rounds, `u` before them
abbrev pub left_over : ℕ → List Round → ℕ
left_over u [] = u
left_over u (failed ∷ rs) = left_over u rs
left_over u (timeout k ∷ rs) = left_over 0 rs
left_over u (ready l r k ∷ rs) = left_over l rs

-- whether select() fails, or a fourth timeout in a row comes, `n` of them before the rounds
abbrev pub dead : ℕ → List Round → Bool
dead n [] = false
dead n (failed ∷ rs) = true
dead n (timeout k ∷ rs) = ltb 3 (n + 1) || dead (n + 1) rs
dead n (ready l r k ∷ rs) = dead 0 rs

-- At most three probes are out, and select() waits 3 seconds with a probe out and 10 without.
pub record IsValid (s : State) : Type 0 where
  pub probes : s.heartbeats ≤ 3
  pub waits : s.seconds ≡ (if s.heartbeats == 0 then keep_alive_time else keep_alive_interval)

-- a state in which the loop waits, after the rounds
abbrev pub Waits : (n u : ℕ) → List Round → End → Type 0
Waits n u rs (waiting s t) =
    IsValid s × (s.heartbeats ≡ silent n rs) × (s.micros ≡ left_over u rs) × (dead n rs ≡ false)
Waits n u rs (stopped t) = Unit {0}
Waits n u rs (exited k t) = (k ≡ 1) × (dead n rs ≡ true)

after-Waits :
    (n m : ℕ) (rs : List Round) (t : List Action) (e : End)
    → Waits n m rs e
    → Waits n m rs (after t e)
after-Waits n m rs t (waiting s u) w = w
after-Waits n m rs t (stopped u) w = w
after-Waits n m rs t (exited k u) w = w

-- a timeout that is not the fourth in a row
timeout-Waits :
    (n u : ℕ) (k : ℤ) (rs : List Round) (e : End)
    → ltb 3 (n + 1) ≡ false
    → Waits (n + 1) 0 rs e
    → Waits n u (timeout k ∷ rs) e
timeout-Waits n u k rs (waiting s t) few (v, h, m, d) =
    let alive : (ltb 3 (n + 1) || dead (n + 1) rs) ≡ false = rw few d in (v, h, m, alive)
timeout-Waits n u k rs (stopped t) few w = w
timeout-Waits n u k rs (exited x t) few (one, d) =
    let lost : (ltb 3 (n + 1) || dead (n + 1) rs) ≡ true = rw few d in (one, lost)

-- a property of whatever `typed` comes to
typed-cases :
    (s : State) (t : List Action) (k : Option Typed) (P : Step → Type 0)
    → ((u : List Action) → P (continue s u))
    → ((u : List Action) → P (stop u))
    → P (typed s t k)
unfolding typed
typed-cases s t none P c d = c t
typed-cases s t (some k) P c d = line k.line
  where
    line : (o : Option (List ℕ)) → P (typed_line s t o k.sent)
    line none = c t
    line (some l) = elim (Bool-cases (eq_ℤ k.sent (pos 0))) [
      | inl e ↦ rw e (d _)
      | inr e ↦ rw e (c _)
    ]

-- the state behind a round that has found something
abbrev again : ℕ → State
again l = record start { micros = l }

again-IsValid : (l : ℕ) → IsValid (again l)
again-IsValid l = (omega arith)

loop-Waits : (s : State) (rs : List Round) → IsValid s → Waits s.heartbeats s.micros rs (loop s rs)
unfolding loop
loop-Waits s [] v = (v, refl, refl, refl)
loop-Waits s (failed ∷ rs) v = (refl, refl)
loop-Waits s (timeout k ∷ rs) v = elim (Bool-cases (ltb 3 (s.heartbeats + 1))) [
  | inl e ↦
      let lost : (ltb 3 (s.heartbeats + 1) || dead (s.heartbeats + 1) rs) ≡ true = rw e refl in
      rw e (refl, lost)
  | inr e ↦ elim (Bool-cases (eq_ℤ k (pos 0))) [
    | inl z ↦ rw (e, z) tt
    | inr z ↦
        rw (e, z)
          (let s' : State = record {
            heartbeats = s.heartbeats + 1;
            seconds = keep_alive_interval;
            micros = 0;
          } in
            let v' : IsValid s' = ground arith in
            let t : List Action = send (record { type = msg_ping; text = [] }) ∷ [] in
            timeout-Waits s.heartbeats s.micros k rs (after t (loop s' rs)) e
              (after-Waits (s.heartbeats + 1) 0 rs t (loop s' rs) (loop-Waits s' rs v')))
  ]
]
loop-Waits s (ready l none k ∷ rs) v =
    typed-cases (again l) [] k
      (λ p. Waits s.heartbeats s.micros (ready l none k ∷ rs) (proceed (λ s'. loop s' rs) p))
      (λ u. after-Waits 0 l rs u (loop (again l) rs) (loop-Waits (again l) rs (again-IsValid l)))
      (λ u. tt)
loop-Waits s (ready l (some r) k ∷ rs) v = elim (Bool-cases (eq_ℤ r.result (pos 0))) [
  | inl z ↦ rw z tt
  | inr z ↦ rw z (
      typed-cases (again l) (show r) k
        (λ p. Waits s.heartbeats s.micros (ready l (some r) k ∷ rs) (proceed (λ s'. loop s' rs) p))
        (λ u. after-Waits 0 l rs u (loop (again l) rs) (loop-Waits (again l) rs (again-IsValid l)))
        (λ u. tt))
]

-- Whatever select() finds in each round, wherever the loop of the telnet client waits there are at
-- most three probes out, as many as rounds have timed out since something was last ready; it waits
-- 3 seconds if a probe is out, else 10, and in both cases the microseconds that the last select()
-- left, none at first; select() has not failed and there were no four timeouts in a row. If the
-- client exits inside the loop, it is with status 1 and one of these has happened.
pub loop-start-Waits : (rs : List Round) → Waits 0 0 rs (loop start rs)
loop-start-Waits rs = loop-Waits start rs (again-IsValid 0)

-- how many probes a trace sends
abbrev pub pings : List Action → ℕ
pings [] = 0
pings (send m ∷ t) = (if m.type == msg_ping then 1 else 0) + pings t
pings (shutdown ∷ t) = pings t
pings (show_pong ∷ t) = pings t
pings (show_text x ∷ t) = pings t
pings (show_unknown ∷ t) = pings t

-- Four timeouts in a row, from a state without a probe out and with a peer that takes the probes,
-- end the telnet client with status 1 after three probes.
pub loop-timeouts :
    (s : State) (a b c d : ℤ) (rs : List Round)
    → s.heartbeats ≡ 0
    → eq_ℤ a (pos 0) ≡ false
    → eq_ℤ b (pos 0) ≡ false
    → eq_ℤ c (pos 0) ≡ false
    → (t : List Action) × (loop s (timeout a ∷ timeout b ∷ timeout c ∷ timeout d ∷ rs) ≡ exited 1 t)
      × (pings t ≡ 3)
unfolding loop
loop-timeouts s a b c d rs h ea eb ec =
    let probe : Action = send (record { type = msg_ping; text = [] }) in
    (probe ∷ probe ∷ probe ∷ [], rw (h, ea, eb, ec), refl)

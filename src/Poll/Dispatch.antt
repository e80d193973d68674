-- ===== src/Poll/Dispatch.antt =====
-- Which descriptors `poll_dispatch` of lib/poll_dispatcher.c serves.
use geek_network_programming.Base.{
  ℕ, zero, suc, ◌-◌, ◌≡◌, refl, false, Bool-cases, inl, inr, none, some, List, [], ◌∷◌, ◌++◌,
  append-nil, if◌then◌else◌, leb, ℤ, pos, negsuc, arith, take,
}
use geek_network_programming.Base.Result.{Result, ok, fault, out_of_fuel, ◌>>=◌}
use geek_network_programming.EventLoop.{EventLoop, Callback}
use geek_network_programming.Poll.{Pollfd, skips, activate, dispatch_loop, poll_dispatch}

module _ (pollrdnorm pollwrnorm : ℕ) where
  -- the slots in use that poll() reports an event for
  unfoldable pub reported : List Pollfd → List Pollfd
  reported [] = []
  reported (s ∷ fds) = if skips pollrdnorm pollwrnorm s then reported fds else s ∷ reported fds

  -- one activation after another
  unfoldable pub activate_all : EventLoop → List Pollfd → Result (List Callback)
  activate_all loop [] = ok []
  activate_all loop (s ∷ fds) = do
    calls ← activate pollrdnorm pollwrnorm loop s
    rest ← activate_all loop fds
    ok (calls ++ rest)

  bind_id :
      (r : Result (List Callback)) → (r >>= λ calls. ok calls) ≡ (r >>= λ calls. ok (calls ++ []))
  bind_id (ok x) = rw append-nil
  bind_id fault = refl
  bind_id out_of_fuel = refl

  dispatch_loop_lem :
      (loop : EventLoop) (fds : List Pollfd) (n : ℕ)
      → dispatch_loop pollrdnorm pollwrnorm loop fds (suc n)
        ≡ activate_all loop (take (suc n) (reported fds))
  unfolding dispatch_loop reported activate_all
  dispatch_loop_lem loop [] n = refl
  dispatch_loop_lem loop (s ∷ fds) zero = elim (Bool-cases (skips pollrdnorm pollwrnorm s)) [
    | inl e ↦ rw e (dispatch_loop_lem loop fds zero)
    | inr e ↦ rw e (bind_id (activate pollrdnorm pollwrnorm loop s))
  ]
  dispatch_loop_lem loop (s ∷ fds) (suc n) = elim (Bool-cases (skips pollrdnorm pollwrnorm s)) [
    | inl e ↦ rw e (dispatch_loop_lem loop fds (suc n))
    | inr e ↦
        let more : leb (suc (suc n)) 1 ≡ false = ground arith in
        let less : suc (suc n) - 1 ≡ suc n = omega arith in
        rw (e, more, less, dispatch_loop_lem loop fds n)
  ]

  -- poll_dispatch exits if poll() failed. Else it activates, in the order of the slots, the first
  -- `ready` of those in use with an event, where `ready` is what poll() returned, and no other.
  pub poll_dispatch-reported :
      (loop : EventLoop) (ready : ℤ) (fds : List Pollfd)
      → poll_dispatch pollrdnorm pollwrnorm loop ready fds ≡ (elim ready [
        | pos n ↦ activate_all loop (take n (reported fds)) >>= λ calls. ok (some calls)
        | negsuc n ↦ ok none
      ])
  unfolding poll_dispatch activate_all
  poll_dispatch-reported loop (negsuc n) fds = refl
  poll_dispatch-reported loop (pos zero) fds = refl
  poll_dispatch-reported loop (pos (suc n)) fds = rw (dispatch_loop_lem loop fds n)

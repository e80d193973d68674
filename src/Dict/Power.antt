-- ===== src/Dict/Power.antt =====
-- The loop of `_dictNextPower` of lib/dict.c.
use geek_network_programming.Base.{
  ℕ, zero, suc, ◌*◌, ◌%◌, ◌^◌, ◌≤◌, ◌<◌, ◌≡◌, refl, ap, ◌⊎◌, inl, inr, Bool-cases, leb, arith, true,
  false,
}
use native.Mathlib.Nat.{pow-suc}
use geek_network_programming.Dict.Defs.{ok, ulong_mod, long_max}
use geek_network_programming.Dict.Tables.{power_loop, next_power}

double_pow : (i j : ℕ) → i * 2 * 2 ^ j ≡ i * 2 ^ suc j
double_pow i j = omega (arith, ap (λ (t : ℕ). i * t) (pow-suc 2 j))

-- From `i` with `k` doublings enough, and more than `k` rounds, the loop ends at a doubling of `i`
-- that is large enough and, unless it is `i`, less than twice as large.
power_loop_lem :
    (k f i size : ℕ)
    → k < f
    → size ≤ 2 ^ 63
    → size ≤ i * 2 ^ k
    → (j : ℕ) × (power_loop f i size ≡ ok (i * 2 ^ j))
      × (size ≤ i * 2 ^ j)
      × ((j ≡ 0) ⊎ (i * 2 ^ j < 2 * size))
unfolding power_loop
power_loop_lem k zero i size h small enough = absurd (omega arith)
power_loop_lem zero (suc f) i size h small enough =
    let e : leb size i ≡ true = ground arith in rw e (0, ap ok (omega arith), omega arith, inl refl)
power_loop_lem (suc k) (suc f) i size h small enough = elim (Bool-cases (leb size i)) [
  | inl e ↦ rw e (0, ap ok (omega arith), ground arith, inl refl)
  | inr e ↦
      let lt : i < size = ground arith in
      let fits : i * 2 % ulong_mod ≡ i * 2 = omega arith in
      let (j, run, large, near) =
        power_loop_lem k f (i * 2) size (omega arith) small (rw double_pow enough) in
      (
        suc j,
        rw (e, fits, run) (ap ok (double_pow i j)),
        rw (← double_pow i j) large,
        inr (rw (← double_pow i j) (first_or near lt)),
      )
]
  where
    first_or : {j : ℕ} → (j ≡ 0) ⊎ (i * 2 * 2 ^ j < 2 * size) → i < size → i * 2 * 2 ^ j < 2 * size
    first_or (inl e) lt = rw e (omega arith)
    first_or (inr h) lt = h

-- Up to LONG_MAX, _dictNextPower needs no more than the 64 rounds given, and its result is 4 times
-- a power of 2 that is at least `size` and, unless it is 4, less than twice that.
pub next_power_lem :
    (size : ℕ)
    → size < long_max
    → (n : ℕ) × (next_power size ≡ ok n)
      × ((j : ℕ) × (n ≡ 4 * 2 ^ j) × (size ≤ n) × ((n ≡ 4) ⊎ (n < 2 * size)))
unfolding next_power
next_power_lem size lt =
    let (j, run, large, near) =
      power_loop_lem 61 64 4 size (omega arith) (omega arith) (omega arith) in
    let e : leb long_max size ≡ false = ground arith in
    (4 * 2 ^ j, rw (e, run), (j, refl, large, four near))
  where
    four : {j : ℕ} → (j ≡ 0) ⊎ (4 * 2 ^ j < 2 * size) → (4 * 2 ^ j ≡ 4) ⊎ (4 * 2 ^ j < 2 * size)
    four (inl e) = inl (rw e)
    four (inr h) = inr h

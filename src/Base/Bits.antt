-- ===== src/Base/Bits.antt =====
-- Bounds on masked and joined bits.
use Prim.Native.Nat.{
  ℕ, zero, suc, ◌/◌, ◌≤◌, min, max, bit_and, bit_or, digits, bit_and-bitwise, bit_or-bitwise,
}
use native.Mathlib.Omega.{arith}

abbrev common_digits : ℕ → ℕ → ℕ → ℕ
common_digits n a b = digits (λ _. zero) min n a b

common_digits-le : (n a b : ℕ) → common_digits n a b ≤ b
common_digits-le zero a b = omega arith
common_digits-le (suc n) zero b = omega arith
common_digits-le (suc n) (suc a) b = omega (arith, common_digits-le n (suc a / 2) (b / 2))

pub bit_and-le : (a b : ℕ) → bit_and a b ≤ b
bit_and-le a b = omega (arith, bit_and-bitwise a b, common_digits-le a a b)

-- A joined value is at least each of its parts.
abbrev joined_digits : ℕ → ℕ → ℕ → ℕ
joined_digits n a b = digits (λ b. b) max n a b

joined_digits-ge : (n a b : ℕ) → b ≤ joined_digits n a b
joined_digits-ge zero a b = omega arith
joined_digits-ge (suc n) zero b = omega arith
joined_digits-ge (suc n) (suc a) b = omega (arith, joined_digits-ge n (suc a / 2) (b / 2))

joined_digits-ge_left : (n a b : ℕ) → a ≤ n → a ≤ joined_digits n a b
joined_digits-ge_left zero a b h = omega arith
joined_digits-ge_left (suc n) zero b h = omega arith
joined_digits-ge_left (suc n) (suc a) b h =
    omega (arith, joined_digits-ge_left n (suc a / 2) (b / 2) (omega arith))

pub bit_or-ge : (a b : ℕ) → b ≤ bit_or a b
bit_or-ge a b = omega (arith, bit_or-bitwise a b, joined_digits-ge a a b)

pub bit_or-ge_left : (a b : ℕ) → a ≤ bit_or a b
bit_or-ge_left a b = omega (arith, bit_or-bitwise a b, joined_digits-ge_left a a b (omega arith))

-- ===== src/Base/Counting.antt =====
-- How many elements of a list pass a test.
use Prim.Native.Nat.{ℕ, zero, suc, ◌+◌, ◌<◌}
use mathlib.Core.Path.{◌≡◌, refl}
use mathlib.Core.Bool.{Bool, true, false}
use mathlib.Core.List.{List, [], ◌∷◌, ◌++◌}
use mathlib.Core.Option.{some}
use native.Mathlib.Omega.{arith}
use geek_network_programming.Base.Tests.{if◌then◌else◌}
use geek_network_programming.Base.Lists.{get_elem?, set, replicate}

abbrev pub bit : Bool → ℕ
bit true = 1
bit false = 0

module _ {A : Type 0} (p : A → Bool) where
  abbrev pub count : List A → ℕ
  count [] = 0
  count (x ∷ xs) = (if p x then 1 else 0) + count xs

  pub count-set :
      (xs : List A) (i : ℕ) (a b : A)
      → get_elem? xs i ≡ some a
      → count (set xs i b) + bit (p a) ≡ count xs + bit (p b)
  count-set [] i a b h = absurd (ground arith)
  count-set (x ∷ xs) zero a b h = ground arith
  count-set (x ∷ xs) (suc i) a b h = ground (arith, count-set xs i a b h)

  pub count_pos :
      (xs : List A) (i : ℕ) (a : A) → get_elem? xs i ≡ some a → p a ≡ true → 0 < count xs
  count_pos [] i a h e = absurd (ground arith)
  count_pos (x ∷ xs) zero a h e = ground arith
  count_pos (x ∷ xs) (suc i) a h e = ground (arith, count_pos xs i a h e)

  pub count-replicate : (n : ℕ) (a : A) → p a ≡ false → count (replicate n a) ≡ 0
  count-replicate zero a e = refl
  count-replicate (suc n) a e = ground (arith, count-replicate n a e)

  pub count-append : (xs ys : List A) → count (xs ++ ys) ≡ count xs + count ys
  count-append [] ys = omega arith
  count-append (x ∷ xs) ys = omega (arith, count-append xs ys)

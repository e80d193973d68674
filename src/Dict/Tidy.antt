-- ===== src/Dict/Tidy.antt =====
-- Tables of lib/dict.c in which each string has one cell, in its home slot, and the counter is right.
use geek_network_programming.Base.{
  ℕ, zero, suc, ◌+◌, ◌≤◌, ◌<◌, ◌≡◌, refl, ap, inl, inr, true, Bool-cases, List, [], ◌==◌, ==_iff,
  ==_ne, if◌then◌else◌, arith, length,
}
use geek_network_programming.Dict.Defs.{Ptr, Dictht, ulong_mod}
use geek_network_programming.Dict.Chains.{Cell}
use geek_network_programming.Dict.Model.{blank}
use geek_network_programming.Dict.Tables.{table_of}
use geek_network_programming.Dict.Removal.{Unique}
use geek_network_programming.Dict.Remains.{Homes}

-- the cells of the first `n` chains
abbrev pub total : (ℕ → List Cell) → ℕ → ℕ
total c zero = 0
total c (suc n) = length (c n) + total c n

abbrev pub replaced : (ℕ → List Cell) → ℕ → List Cell → ℕ → List Cell
replaced c i xs j = if j == i then xs else c j

pub total-le : (c : ℕ → List Cell) (i n : ℕ) → i < n → length (c i) ≤ total c n
total-le c i zero lt = absurd (omega arith)
total-le c i (suc n) lt = elim (Bool-cases (i == n)) [
  | inl e ↦ let same = (==_iff i n).0 e in rw same (omega arith)
  | inr e ↦ let later = total-le c i n (ground arith) in omega arith
]

module _ (c : ℕ → List Cell) (i : ℕ) (xs : List Cell) where
  total-beyond : (n : ℕ) → n ≤ i → total (replaced c i xs) n ≡ total c n
  total-beyond zero le = refl
  total-beyond (suc n) le = rw (==_ne n i (omega arith)) (rw (total-beyond n (omega arith)) refl)

  pub total-replaced :
      (n : ℕ) → suc (length xs) ≡ length (c i) → i < n → suc (total (replaced c i xs) n) ≡ total c n
  total-replaced zero e lt = absurd (omega arith)
  total-replaced (suc n) e lt = elim (Bool-cases (n == i)) [
    | inl here ↦
        let same = (==_iff n i).0 here in
        let before = total-beyond n (omega arith) in
        let len : length (c n) ≡ length (c i) = ap (λ k. length (c k)) same in rw here (omega arith)
    | inr other ↦ let below = total-replaced n e (ground arith) in rw other (omega arith)
  ]

module _ (text : Ptr → List ℕ) where
  pub record Tidy (t : Dictht) (c : ℕ → List Cell) : Type 0 where
    pub homes : (i : ℕ) → Homes text t i (c i)
    pub unique : (i : ℕ) → Unique text (c i)
    pub counts : total c t.size ≡ t.used
    pub beyond : (i : ℕ) → t.size ≤ i → c i ≡ []
    pub small : t.used < ulong_mod

  total-blank : (n : ℕ) → total blank n ≡ 0
  total-blank zero = refl
  total-blank (suc n) = omega (arith, total-blank n)

  -- a table fresh from calloc
  pub table_of-Tidy : (n : ℕ) → Tidy (table_of true n) blank
  table_of-Tidy n = record {
    homes = λ i. tt;
    unique = λ i. tt;
    counts = total-blank n;
    beyond = λ i le. refl;
    small = omega arith;
  }

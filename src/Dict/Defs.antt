-- ===== src/Dict/Defs.antt =====
-- The data of lib/dict.h and lib/dict.c: two tables of chains, and the heap of entries they lead into.
use geek_network_programming.Base.{
  ℕ, ◌+◌, ◌-◌, ◌%◌, ◌^◌, Bool, Option, none, some, List, [], ◌==◌, if◌then◌else◌, not, ◌&&◌, true,
  false, ◌∷◌, ℤ, pos, negsuc, minus_one, eq_ℤ, get_elem?,
}
pub use geek_network_programming.Base.Result.{Result, ok, fault, out_of_fuel, ◌>>=◌, ◌>>◌, check}

-- An address; 0 is NULL.
abbrev pub Ptr : Type 0
Ptr = ℕ

abbrev pub null : Ptr
null = 0

-- `dictEntry`; `val` is a pointer of the client's, which the dictionary only hands back.
pub record Entry : Type 0 where
  pub key : Ptr
  pub val : Ptr
  pub next : Ptr

-- `none` is an address at which no entry is allocated.
abbrev pub Heap : Type 0
Heap = Ptr → Option Entry

-- `dictht`. A NULL table is the empty list; calloc is never asked for an empty one.
pub record Dictht : Type 0 where
  pub table : List Ptr
  pub size : ℕ
  pub mask : ℕ
  pub used : ℕ

-- `dict`, with the heap that its entries live in
pub record Dict : Type 0 where
  pub ht0 : Dictht
  pub ht1 : Dictht
  pub rehashidx : ℤ
  pub heap : Heap

abbrev pub dict_ok : ℕ
dict_ok = 1

abbrev pub dict_err : ℕ
dict_err = 0

abbrev pub ht_initial_size : ℕ
ht_initial_size = 4

-- 2 ^ 64 and LONG_MAX
abbrev pub ulong_mod : ℕ
ulong_mod = 2 ^ 64

abbrev pub long_max : ℕ
long_max = 2 ^ 63 - 1

-- a `long` converted to `unsigned long`
abbrev pub to_ulong : ℤ → ℕ
to_ulong (pos n) = n % ulong_mod
to_ulong (negsuc n) = ulong_mod - 1 - n

-- `dictSize` and `dictIsRehashing`
abbrev pub dict_size : Dict → ℕ
dict_size d = (d.ht0.used + d.ht1.used) % ulong_mod

abbrev pub is_rehashing : Dict → Bool
is_rehashing d = not (eq_ℤ d.rehashidx minus_one)

unfoldable pub load : Heap → Ptr → Result Entry
load h p = elim (h p) [ none ↦ fault | some e ↦ ok e ]

abbrev pub update : Heap → Ptr → Option Entry → Heap
update h p c q = if q == p then c else h q

-- `ht->table[i]`
unfoldable pub slot : Dictht → ℕ → Result Ptr
slot t i = elim (get_elem? t.table i) [ none ↦ fault | some p ↦ ok p ]

-- `strcmp(a, b) == 0`
abbrev pub same_text : List ℕ → List ℕ → Bool
same_text [] [] = true
same_text [] (y ∷ ys) = false
same_text (x ∷ xs) [] = false
same_text (x ∷ xs) (y ∷ ys) = x == y && same_text xs ys

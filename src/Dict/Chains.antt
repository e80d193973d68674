-- ===== src/Dict/Chains.antt =====
-- Chains of entries in the heap, and one table of them.
use geek_network_programming.Base.{
  ℕ, zero, suc, ◌+◌, ◌≤◌, ◌<◌, ◌≡◌, refl, ap, ◌∙◌, ◌≢◌, inl, inr, Bool, true, false, Bool-cases,
  Option, none, some, List, [], ◌∷◌, ◌==◌, ==_iff, ==_refl, ==_ne, if◌then◌else◌, pos, arith,
  length, get_or, set, length-set, get_elem?-eq-get_or, get_or-set_self, get_or-set_ne, bit_and,
  bit_and-le,
}
use geek_network_programming.Dict.Defs.{
  Ptr, null, Entry, Heap, Dictht, ok, load, update, slot, same_text, ulong_mod,
}
use geek_network_programming.Dict.Tables.{gen_hash, find_entry, search_table}
use geek_network_programming.Dict.Rehash.{slot_at, more_used}
use geek_network_programming.Dict.Operations.{put_front}

-- an entry at its address
abbrev pub Cell : Type 0
Cell = Ptr × Entry

-- From `p` the `next` pointers lead through the cells to NULL.
abbrev pub IsChain : Heap → Ptr → List Cell → Type 0
IsChain h p [] = p ≡ null
IsChain h p ((q, e) ∷ cs) = (p ≡ q) × (q ≢ null) × (h q ≡ some e) × IsChain h e.next cs

-- address and value of the first entry that passes
abbrev pub first : (Entry → Bool) → List Cell → Option (Ptr × Ptr)
first test [] = none
first test ((q, e) ∷ cs) = if test e then some (q, e.val) else first test cs

abbrev pub address : Option (Ptr × Ptr) → Ptr
address none = null
address (some (p, v)) = p

pub load-some : (h : Heap) (p : Ptr) (e : Entry) → h p ≡ some e → load h p ≡ ok e
unfolding load
load-some h p e at = ground arith

pub slot-in : (t : Dictht) (i : ℕ) → i < length t.table → slot t i ≡ ok (get_or t.table i null)
unfolding slot
slot-in t i lt = ground (arith, get_elem?-eq-get_or t.table i null lt)

pub find_entry-first :
    (test : Entry → Bool) (h : Heap) (f : ℕ) (p : Ptr) (cs : List Cell)
    → IsChain h p cs
    → length cs < f
    → find_entry test h f p ≡ ok (address (first test cs))
unfolding find_entry
find_entry-first test h zero p cs c lt = absurd (omega arith)
find_entry-first test h (suc f) p [] c lt = rw c
find_entry-first test h (suc f) p ((q, e) ∷ cs) (same, ne, at, rest) lt =
    let tail = find_entry-first test h f e.next cs rest (omega arith) in
    rw (same, ==_ne q 0 ne, load-some h q e at, tail)
      (elim (Bool-cases (test e)) [ inl t ↦ rw t | inr t ↦ rw t ])

IsChain-update :
    (h : Heap) (fresh : Ptr) (e : Option Entry) (p : Ptr) (cs : List Cell)
    → h fresh ≡ none
    → IsChain h p cs
    → IsChain (update h fresh e) p cs
IsChain-update h fresh e p [] free_ c = c
IsChain-update h fresh e p ((q, e') ∷ cs) free_ (same, ne, at, rest) =
    (same, ne, ground arith, IsChain-update h fresh e e'.next cs free_ rest)

pub same_text-eq : (xs ys : List ℕ) → same_text xs ys ≡ true → xs ≡ ys
same_text-eq [] [] e = refl
same_text-eq [] (y ∷ ys) e = cc
same_text-eq (x ∷ xs) [] e = cc
same_text-eq (x ∷ xs) (y ∷ ys) e = ground (arith, same_text-eq xs ys)

pub same_text_refl : (xs : List ℕ) → same_text xs xs ≡ true
same_text_refl [] = refl
same_text_refl (x ∷ xs) = rw (==_refl x, same_text_refl xs)

-- A table whose slot `i` heads the chain `c i`.
pub record Holds (h : Heap) (t : Dictht) (c : ℕ → List Cell) : Type 0 where
  pub width : length t.table ≡ t.size
  pub masked : t.mask + 1 ≡ t.size
  pub chains : (i : ℕ) → i < t.size → IsChain h (get_or t.table i null) (c i)
  pub counted : (i : ℕ) → length (c i) ≤ t.used

abbrev pub home : Dictht → List ℕ → ℕ
home t q = bit_and (gen_hash q) t.mask

pub home-lt :
    {h : Heap} {t : Dictht} {c : ℕ → List Cell} (q : List ℕ) → Holds h t c → home t q < t.size
home-lt {t} q w = omega (arith, bit_and-le (gen_hash q) t.mask, w.masked)

-- An entry at a new address leaves a table as it is.
pub Holds-update :
    {h : Heap} {t : Dictht} {c : ℕ → List Cell} (fresh : Ptr) (e : Option Entry)
    → h fresh ≡ none
    → Holds h t c
    → Holds (update h fresh e) t c
Holds-update {h} {t} {c} fresh e free_ w = record {
  width = w.width;
  masked = w.masked;
  chains = λ i lt. IsChain-update h fresh e (get_or t.table i null) (c i) free_ (w.chains i lt);
  counted = w.counted;
}

module _ (text : Ptr → List ℕ) where
  -- the entry for the string `q` in its chain
  abbrev pub lookup_in : Dictht → (ℕ → List Cell) → List ℕ → Option (Ptr × Ptr)
  lookup_in t c q = first (λ e. same_text q (text e.key)) (c (home t q))

  pub search_table_lem :
      {h : Heap} {t : Dictht} {c : ℕ → List Cell} (f : ℕ) (key : Ptr)
      → Holds h t c
      → t.used < f
      → search_table text f h t key ≡ ok (address (lookup_in t c (text key)))
  unfolding search_table
  search_table_lem {h} {t} {c} f key w lt =
      let i = home t (text key) in
      let in_ = home-lt (text key) w in
      rw (slot-in t i (omega (arith, w.width))) (
        find_entry-first (λ e. same_text (text key) (text e.key)) h f (get_or t.table i null) (c i)
          (w.chains i in_) (omega (arith, w.counted i)))

  abbrev pub push_cell : (ℕ → List Cell) → ℕ → Cell → ℕ → List Cell
  push_cell c i x j = if j == i then x ∷ c i else c j

  -- the entry that `dictAdd` makes, and the table it leaves
  abbrev pub made : Dictht → ℕ → (key val : Ptr) → Entry
  made t i key val = record { key = key; val = val; next = get_or t.table i null }

  abbrev pub extended : Dictht → ℕ → Ptr → Dictht
  extended t i fresh = more_used (record t { table = set t.table i fresh })

  module _ {h : Heap} {t : Dictht} {c : ℕ → List Cell} (w : Holds h t c) (fresh key val : Ptr)
      (given : fresh ≢ null) (free_ : h fresh ≡ none) (small : t.used + 1 < ulong_mod) where
    pub put_front_lem :
        (i : ℕ)
        → i < t.size
        → put_front h t (pos i) fresh key val
          ≡ ok (update h fresh (some (made t i key val)), extended t i fresh)
    unfolding put_front slot_at
    put_front_lem i lt = rw (==_ne fresh 0 given, slot-in t i (omega (arith, w.width)))

    pub extended-Holds :
        (i : ℕ)
        → i < t.size
        → Holds
            (update h fresh (some (made t i key val)))
            (extended t i fresh)
            (push_cell c i (fresh, made t i key val))
    extended-Holds i lt =
        let e = made t i key val in
        record {
          width = length-set t.table i fresh ∙ w.width;
          masked = w.masked;
          chains = λ j lj. elim (Bool-cases (j == i)) [
            | inl same ↦
                rw
                  (
                    (==_iff j i).0 same,
                    get_or-set_self t.table i fresh null (omega (arith, w.width)),
                    ==_refl i,
                  )
                  (
                    refl,
                    given,
                    ground arith,
                    IsChain-update h fresh (some e) e.next (c i) free_ (w.chains i lt),
                  )
            | inr other ↦
                rw
                  (
                    get_or-set_ne t.table i j fresh null
                        (λ (eq : i ≡ j). cc (==_refl i, other, eq)),
                    other,
                  )
                  (IsChain-update h fresh (some e) (get_or t.table j null) (c j) free_
                    (w.chains j lj))
          ];
          counted = λ j. ground (arith, w.counted j, w.counted i);
        }

    apart : (q : List ℕ) → (home t q == home t (text key)) ≡ false → same_text q (text key) ≡ false
    apart q other = elim (Bool-cases (same_text q (text key))) [
      | inl e ↦
          let same = ap (home t) (same_text-eq q (text key) e) in
          absurd (cc (==_refl (home t (text key)), other, same))
      | inr e ↦ e
    ]

    -- The new entry is found under its key, and every other string as before.
    pub lookup-extended :
        (q : List ℕ)
        → lookup_in
            (extended t (home t (text key)) fresh)
            (push_cell c (home t (text key)) (fresh, made t (home t (text key)) key val))
            q
          ≡ (if same_text q (text key) then some (fresh, val) else lookup_in t c q)
    lookup-extended q =
        let i = home t (text key) in
        elim (Bool-cases (home t q == i)) [
          | inl here ↦ rw (here, ← (==_iff (home t q) i).0 here)
          | inr other ↦ rw (other, apart q other)
        ]

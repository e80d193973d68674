-- ===== src/Dict/Removal.antt =====
-- Taking an entry out of a table of lib/dict.c, by the address of its key.
use geek_network_programming.Base.{
  ℕ, zero, suc, ◌<◌, ◌≡◌, refl, ap, ◌≢◌, inl, inr, true, false, Bool-cases, Option, none, some,
  List, [], ◌∷◌, ◌++◌, ==_iff, ==_ne, arith, length,
}
use geek_network_programming.Dict.Defs.{Ptr, null, Entry, Heap, ok, same_text}
use geek_network_programming.Dict.Operations.{find_prev}
use geek_network_programming.Dict.Chains.{Cell, IsChain, first, address, load-some, same_text_refl}
use geek_network_programming.Dict.Cells.{NotIn, Distinct, last_of}

-- No cell's key is at the address.
abbrev pub NoKey : Ptr → List Cell → Type 0
NoKey key [] = Unit {0}
NoKey key ((q, e) ∷ cs) = (key ≢ e.key) × NoKey key cs

-- The search finds the first cell whose key is at the address, with the address before it.
pub find_prev-append :
    (h : Heap) (f : ℕ) (key prev p : Ptr) (pre : List Cell) (q : Ptr) (e : Entry) (post : List Cell)
    → IsChain h p (pre ++ (q, e) ∷ post)
    → NoKey key pre
    → key ≡ e.key
    → length (pre ++ (q, e) ∷ post) < f
    → find_prev h f key prev p ≡ ok (last_of prev pre, q)
unfolding find_prev
find_prev-append h zero key prev p pre q e post c n same lt = absurd (omega arith)
find_prev-append h (suc f) key prev p [] q e post (is, given, at, rest) n same lt =
    rw (is, ==_ne q 0 given, load-some h q e at, (==_iff key e.key).1 same) refl
find_prev-append h (suc f) key prev p ((r, x) ∷ pre) q e post (is, given, at, rest) (ne, n) same
      lt =
    rw
      (
        is,
        ==_ne r 0 given,
        load-some h r x at,
        ==_ne key x.key ne,
        find_prev-append h f key r x.next pre q e post rest n same (omega arith),
      )
      refl

pub find_prev_none :
    (h : Heap) (f : ℕ) (key prev p : Ptr) (cs : List Cell)
    → IsChain h p cs
    → NoKey key cs
    → length cs < f
    → find_prev h f key prev p ≡ ok (last_of prev cs, null)
unfolding find_prev
find_prev_none h zero key prev p cs c n lt = absurd (omega arith)
find_prev_none h (suc f) key prev p [] c n lt = rw c refl
find_prev_none h (suc f) key prev p ((r, x) ∷ cs) (is, given, at, rest) (ne, n) lt =
    rw
      (
        is,
        ==_ne r 0 given,
        load-some h r x at,
        ==_ne key x.key ne,
        find_prev_none h f key r x.next cs rest n (omega arith),
      )
      refl

module _ (text : Ptr → List ℕ) where
  -- no cell for the string
  abbrev pub NoText : List ℕ → List Cell → Type 0
  NoText s [] = Unit {0}
  NoText s ((q, e) ∷ cs) = (same_text s (text e.key) ≡ false) × NoText s cs

  -- each string has one cell at most
  abbrev pub Unique : List Cell → Type 0
  Unique [] = Unit {0}
  Unique ((q, e) ∷ cs) = NoText (text e.key) cs × Unique cs

  pub NoText-NoKey : (key : Ptr) (cs : List Cell) → NoText (text key) cs → NoKey key cs
  NoText-NoKey key [] n = tt
  NoText-NoKey key ((q, e) ∷ cs) (ne, n) =
      (λ same. cc (same_text_refl (text key), ne, ap text same), NoText-NoKey key cs n)

  -- a string that is found stands at one place of its chain
  pub record Found (s : List ℕ) (cs : List Cell) (a v : Ptr) : Type 0 where
    pub pre : List Cell
    pub entry : Entry
    pub post : List Cell
    pub split : cs ≡ pre ++ (a, entry) ∷ post
    pub before : NoText s pre
    pub keyed : same_text s (text entry.key) ≡ true
    pub value : entry.val ≡ v

  pub first-Found :
      (s : List ℕ) (cs : List Cell) {a v : Ptr}
      → first (λ e. same_text s (text e.key)) cs ≡ some (a, v)
      → Found s cs a v
  first-Found s [] e = absurd (ground arith)
  first-Found s ((q, e) ∷ cs) {a} {v} found = elim (Bool-cases (same_text s (text e.key))) [
    | inl t ↦
        (let eq : ◌≡◌ {A = Option (Ptr × Ptr)} (some (q, e.val)) (some (a, v)) = rw t at found in
          let at : q ≡ a = ap address eq in
          record {
            pre = [];
            entry = e;
            post = cs;
            split = ap (λ p. (p, e) ∷ cs) at;
            before = tt;
            keyed = t;
            value = cc eq;
          })
    | inr t ↦
        let later = first-Found s cs (rw t at found) in
        record {
          pre = (q, e) ∷ later.pre;
          entry = later.entry;
          post = later.post;
          split = ap (λ xs. (q, e) ∷ xs) later.split;
          before = (t, later.before);
          keyed = later.keyed;
          value = later.value;
        }
  ]

  pub first_none-NoText :
      (s : List ℕ) (cs : List Cell) → first (λ e. same_text s (text e.key)) cs ≡ none → NoText s cs
  first_none-NoText s [] e = tt
  first_none-NoText s ((q, e) ∷ cs) absent = elim (Bool-cases (same_text s (text e.key))) [
    | inl t ↦ absurd (ground arith)
    | inr t ↦ (t, first_none-NoText s cs (rw t at absent))
  ]

  -- Cells of a chain with different strings have different addresses.
  pub NoText-NotIn :
      (h : Heap) (p q : Ptr) (e : Entry) (cs : List Cell)
      → h q ≡ some e
      → IsChain h p cs
      → NoText (text e.key) cs
      → NotIn q cs
  NoText-NotIn h p q e [] at c n = tt
  NoText-NotIn h p q e ((r, x) ∷ cs) at (is, given, at', rest) (ne, n) = (
    λ same. let eq : e ≡ x = cc in cc (same_text_refl (text e.key), ne, eq),
    NoText-NotIn h x.next q e cs at rest n,
  )

  pub Unique-Distinct :
      (h : Heap) (p : Ptr) (cs : List Cell) → IsChain h p cs → Unique cs → Distinct cs
  Unique-Distinct h p [] c u = tt
  Unique-Distinct h p ((q, e) ∷ cs) (is, given, at, rest) (n, u) =
      (NoText-NotIn h e.next q e cs at rest n, Unique-Distinct h e.next cs rest u)

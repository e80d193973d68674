-- ===== src/Dict/Model.antt =====
-- What a dictionary stands for: a map from strings to the entry's address and value.
use geek_network_programming.Base.{
  ℕ, zero, suc, ◌+◌, ◌≤◌, ◌<◌, ◌≡◌, refl, ap, ◌∙◌, sym, ◌≢◌, inl, inr, true, false, Bool-cases,
  Option-cases, Option, none, some, List, [], ◌∷◌, minus_one, arith, length, get_or, replicate,
  length-replicate,
}
use geek_network_programming.Dict.Defs.{
  Ptr, null, Entry, Heap, Dictht, Dict, is_rehashing, same_text,
}
use geek_network_programming.Dict.Tables.{reset, table_of}
use geek_network_programming.Dict.Chains.{
  Cell, IsChain, first, address, Holds, home, home-lt, lookup_in,
}

-- A string's entry, if it is a key: the entry's address, and the value in it.
abbrev pub View : Type 0
View = List ℕ → Option (Ptr × Ptr)

abbrev pub or_else : Option (Ptr × Ptr) → Option (Ptr × Ptr) → Option (Ptr × Ptr)
or_else none y = y
or_else (some x) y = some x

abbrev pub blank : ℕ → List Cell
blank i = []

module _ (text : Ptr → List ℕ) where
  -- before the first key: no table
  pub record Unused (d : Dict) (f : View) : Type 0 where
    pub table0 : d.ht0 ≡ reset
    pub used1 : d.ht1.used ≡ 0
    pub still : is_rehashing d ≡ false
    pub reads : (q : List ℕ) → f q ≡ none

  -- no rehash is under way
  pub record Single (d : Dict) (f : View) : Type 0 where
    pub c : ℕ → List Cell
    pub holds : Holds d.heap d.ht0 c
    pub used1 : d.ht1.used ≡ 0
    pub still : is_rehashing d ≡ false
    pub reads : (q : List ℕ) → f q ≡ lookup_in text d.ht0 c q

  -- a rehash is under way: an entry is in either table
  pub record Double (d : Dict) (f : View) : Type 0 where
    pub c0 : ℕ → List Cell
    pub c1 : ℕ → List Cell
    pub holds0 : Holds d.heap d.ht0 c0
    pub holds1 : Holds d.heap d.ht1 c1
    pub going : is_rehashing d ≡ true
    pub reads : (q : List ℕ) → f q ≡ or_else (lookup_in text d.ht0 c0 q) (lookup_in text d.ht1 c1 q)

  pub data Models (d : Dict) (f : View) : Type 0 where
    unused : Unused d f → Models d f
    single : Single d f → Models d f
    double : Double d f → Models d f

  -- an entry at `p` for the string `q` with value `v`
  pub record Stored (h : Heap) (q : List ℕ) (p v : Ptr) : Type 0 where
    pub entry : Entry
    pub at : h p ≡ some entry
    pub value : entry.val ≡ v
    pub keyed : same_text q (text entry.key) ≡ true
    pub given : p ≢ null

  first-Stored :
      (h : Heap) (q : List ℕ) (p : Ptr) (cs : List Cell) {a v : Ptr}
      → IsChain h p cs
      → first (λ e. same_text q (text e.key)) cs ≡ some (a, v)
      → Stored h q a v
  first-Stored h q p [] c e = absurd (ground arith)
  first-Stored h q p ((b, e) ∷ cs) (same, ne, at, rest) found =
      elim (Bool-cases (same_text q (text e.key))) [
        | inl t ↦
            (let eq : ◌≡◌ {A = Option (Ptr × Ptr)} (some (b, e.val)) (some (_, _)) =
                rw t at found in
              let e1 = ap (λ o. address o) eq in
              record {
                entry = e;
                at = rw (← e1) at;
                value = cc eq;
                keyed = t;
                given = rw (← e1) ne;
              })
        | inr t ↦ first-Stored h q e.next cs rest (rw t at found)
      ]

  pub lookup-Stored :
      {h : Heap} {t : Dictht} {c : ℕ → List Cell} (q : List ℕ) {a v : Ptr}
      → Holds h t c
      → lookup_in text t c q ≡ some (a, v)
      → Stored h q a v
  lookup-Stored {h} {t} {c} q w e =
      first-Stored h q (get_or t.table (home t q) null) (c (home t q))
        (w.chains (home t q) (home-lt q w)) e

  or_else-Stored :
      {h : Heap} {t u : Dictht} {c b : ℕ → List Cell} (q : List ℕ) {a v : Ptr}
      → Holds h t c
      → Holds h u b
      → or_else (lookup_in text t c q) (lookup_in text u b q) ≡ some (a, v)
      → Stored h q a v
  or_else-Stored {t} {c} q w x e = elim (Option-cases (lookup_in text t c q)) [
    | inl o ↦ lookup-Stored q x (rw o at e)
    | inr (y, o) ↦ lookup-Stored q w (o ∙ (rw o at e))
  ]

  -- What the map gives is an entry of the heap, under its key and with its value.
  pub Models-Stored :
      {d : Dict} {f : View} (q : List ℕ) {a v : Ptr}
      → Models d f
      → f q ≡ some (a, v)
      → Stored d.heap q a v
  Models-Stored q (unused m) e = absurd (cc (m.reads q))
  Models-Stored q (single m) e = lookup-Stored q m.holds (sym (m.reads q) ∙ e)
  Models-Stored q (double m) e = or_else-Stored q m.holds0 m.holds1 (sym (m.reads q) ∙ e)

  -- A table with nothing in it finds nothing.
  lookup-empty :
      {h : Heap} {t : Dictht} {c : ℕ → List Cell} (q : List ℕ)
      → Holds h t c
      → t.used ≡ 0
      → lookup_in text t c q ≡ none
  lookup-empty {t} {c} q w e = go (c (home t q)) (omega (arith, w.counted (home t q)))
    where
      go : (cs : List Cell) → length cs ≤ 0 → first (λ e. same_text q (text e.key)) cs ≡ none
      go [] le = refl
      go (x ∷ cs) le = absurd (omega arith)

  pub Models-empty :
      {d : Dict} {f : View} (q : List ℕ) → Models d f → d.ht0.used + d.ht1.used ≡ 0 → f q ≡ none
  Models-empty q (unused m) e = m.reads q
  Models-empty q (single m) e = m.reads q ∙ lookup-empty q m.holds (omega arith)
  Models-empty q (double m) e =
      rw (m.reads q, lookup-empty q m.holds0 (omega arith), lookup-empty q m.holds1 (omega arith))

  -- When the first table is empty, the second alone gives the map.
  pub Double-Single :
      {d : Dict} {f : View}
      → Double d f
      → d.ht0.used ≡ 0
      → Single (record d { ht0 = d.ht1; ht1 = reset; rehashidx = minus_one }) f
  Double-Single m e = record {
    c = m.c1;
    holds = m.holds1;
    used1 = refl;
    still = refl;
    reads = λ q. m.reads q ∙ rw (lookup-empty q m.holds0 e);
  }

get_or-replicate : (n i : ℕ) → get_or (replicate n null) i null ≡ null
get_or-replicate zero i = refl
get_or-replicate (suc n) zero = refl
get_or-replicate (suc n) (suc i) = get_or-replicate n i

-- a table fresh from calloc
pub table_of-Holds : (h : Heap) (n : ℕ) → 0 < n → Holds h (table_of true n) blank
table_of-Holds h n lt = record {
  width = length-replicate n null;
  masked = omega arith;
  chains = λ i _. get_or-replicate n i;
  counted = λ i. omega arith;
}

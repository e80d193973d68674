-- ===== src/Dict/Remains.antt =====
-- What is left of a chain when one cell is taken out: strings, homes and lookups.
use geek_network_programming.Base.{
  ℕ, suc, ◌≡◌, refl, ap, ◌∙◌, sym, ◌≢◌, inl, inr, false, Bool-cases, none, some, List, [], ◌∷◌,
  ◌++◌, if◌then◌else◌, length,
}
use geek_network_programming.Dict.Defs.{Ptr, Entry, Heap, Dictht, same_text}
use geek_network_programming.Dict.Chains.{Cell, IsChain, first, home, same_text-eq}
use geek_network_programming.Dict.Cells.{NotIn, last_of, relink}
use geek_network_programming.Dict.Removal.{NoText, Unique}

-- the cells without the one between `pre` and `post`, whose successor is `next`
abbrev pub without : List Cell → Ptr → List Cell → List Cell
without pre next post = relink pre next ++ post

pub length-without :
    (pre : List Cell) (next : Ptr) (x : Cell) (post : List Cell)
    → suc (length (without pre next post)) ≡ length (pre ++ x ∷ post)
length-without [] next x post = refl
length-without ((q, e) ∷ []) next x post = refl
length-without (c ∷ d ∷ pre) next x post = ap suc (length-without (d ∷ pre) next x post)

module _ (text : Ptr → List ℕ) where
  -- Every cell is in its home slot.
  abbrev pub Homes : Dictht → ℕ → List Cell → Type 0
  Homes t i [] = Unit {0}
  Homes t i ((q, e) ∷ cs) = (home t (text e.key) ≡ i) × Homes t i cs

  pub without-Homes :
      (t : Dictht) (i : ℕ) (pre : List Cell) (next : Ptr) (x : Cell) (post : List Cell)
      → Homes t i (pre ++ x ∷ post)
      → Homes t i (without pre next post)
  without-Homes t i [] next x post (g, h) = h
  without-Homes t i ((q, e) ∷ []) next x post (g, (k, h)) = (g, h)
  without-Homes t i ((q, e) ∷ d ∷ pre) next x post (g, h) =
      (g, without-Homes t i (d ∷ pre) next x post h)

  pub without-NoText :
      (s : List ℕ) (pre : List Cell) (next : Ptr) (x : Cell) (post : List Cell)
      → NoText text s (pre ++ x ∷ post)
      → NoText text s (without pre next post)
  without-NoText s [] next x post (g, h) = h
  without-NoText s ((q, e) ∷ []) next x post (g, (k, h)) = (g, h)
  without-NoText s ((q, e) ∷ d ∷ pre) next x post (g, h) =
      (g, without-NoText s (d ∷ pre) next x post h)

  pub without-Unique :
      (pre : List Cell) (next : Ptr) (x : Cell) (post : List Cell)
      → Unique text (pre ++ x ∷ post)
      → Unique text (without pre next post)
  without-Unique [] next x post (g, h) = h
  without-Unique ((q, e) ∷ []) next x post ((a, n), (k, h)) = (n, h)
  without-Unique ((q, e) ∷ d ∷ pre) next x post (n, h) =
      (without-NoText (text e.key) (d ∷ pre) next x post n, without-Unique (d ∷ pre) next x post h)

  pub NoText-first :
      (s : List ℕ) (cs : List Cell)
      → NoText text s cs
      → first (λ e. same_text s (text e.key)) cs ≡ none
  NoText-first s [] n = refl
  NoText-first s ((q, e) ∷ cs) (ne, n) = rw ne (NoText-first s cs n)

  NoText-append :
      (s : List ℕ) (pre : List Cell) (q : Ptr) (e : Entry) (post : List Cell)
      → NoText text s (pre ++ (q, e) ∷ post)
      → same_text s (text e.key) ≡ false
  NoText-append s [] q e post (ne, n) = ne
  NoText-append s ((r, x) ∷ pre) q e post (ne, n) = NoText-append s pre q e post n

  -- one cell of the search
  first_cell :
      (s : List ℕ) (q : Ptr) (e : Entry) (post : List Cell)
      → NoText text (text e.key) post
      → first (λ x. same_text s (text x.key)) post ≡ (
          if same_text s (text e.key)
          then none
          else first (λ x. same_text s (text x.key)) ((q, e) ∷ post))
  first_cell s q e post n = elim (Bool-cases (same_text s (text e.key))) [
    | inl t ↦ rw (t, same_text-eq s (text e.key) t) (NoText-first (text e.key) post n)
    | inr t ↦ rw t refl
  ]

  -- The string of the cell taken out is gone, and every other is found as before.
  pub first-without :
      (s : List ℕ) (pre : List Cell) (next q : Ptr) (e : Entry) (post : List Cell)
      → Unique text (pre ++ (q, e) ∷ post)
      → first (λ x. same_text s (text x.key)) (without pre next post) ≡ (
          if same_text s (text e.key)
          then none
          else first (λ x. same_text s (text x.key)) (pre ++ (q, e) ∷ post))
  first-without s [] next q e post (n, u) = first_cell s q e post n
  first-without s ((r, x) ∷ []) next q e post ((k, n), (n', u)) =
      elim (Bool-cases (same_text s (text x.key))) [
        | inl t ↦ rw (t, same_text-eq s (text x.key) t, k)
        | inr t ↦ rw t (first_cell s q e post n')
      ]
  first-without s ((r, x) ∷ d ∷ pre) next q e post (n, u) =
      elim (Bool-cases (same_text s (text x.key))) [
        | inl t ↦
            rw (t, same_text-eq s (text x.key) t, NoText-append (text x.key) (d ∷ pre) q e post n)
        | inr t ↦ rw t (first-without s (d ∷ pre) next q e post u)
      ]

  -- A cell that belongs to another slot is not in the chain.
  pub Homes-NotIn :
      (t : Dictht) (i j : ℕ) (h : Heap) (p q : Ptr) (e : Entry) (cs : List Cell)
      → h q ≡ some e
      → home t (text e.key) ≡ i
      → i ≢ j
      → IsChain h p cs
      → Homes t j cs
      → NotIn q cs
  Homes-NotIn t i j h p q e [] at own ne c hs = tt
  Homes-NotIn t i j h p q e ((r, x) ∷ cs) at own ne (is, given, at', rest) (here, hs) = (
    λ same.
        let eq : e ≡ x = cc in ne (sym own ∙ (ap (λ (y : Entry). home t (text y.key)) eq ∙ here)),
    Homes-NotIn t i j h x.next q e cs at own ne rest hs,
  )

  -- the last of some cells, in the heap and at home
  pub last-Homes :
      (t : Dictht) (i : ℕ) (h : Heap) (p b : Ptr) (x : Entry) (pre post : List Cell)
      → IsChain h p ((b, x) ∷ pre ++ post)
      → Homes t i ((b, x) ∷ pre ++ post)
      → (eb : Entry) × (h (last_of b pre) ≡ some eb)
        × (home t (text eb.key) ≡ i)
        × (last_of b pre ≢ 0)
  last-Homes t i h p b x [] post (is, given, at, rest) (own, hs) = (x, at, own, given)
  last-Homes t i h p b x ((r, y) ∷ pre) post (is, given, at, rest) (own, hs) =
      last-Homes t i h x.next r y pre post rest hs

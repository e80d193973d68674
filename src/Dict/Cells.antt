-- ===== src/Dict/Cells.antt =====
-- Chains whose entries stand apart, and a chain from which one entry is taken.
use geek_network_programming.Base.{
  ◌≡◌, sym, ◌≢◌, Option, none, some, List, [], ◌∷◌, ◌++◌, ==_ne, arith,
}
use geek_network_programming.Dict.Defs.{Ptr, Entry, Heap, update}
use geek_network_programming.Dict.Chains.{Cell, IsChain}

-- no cell has the address
abbrev pub NotIn : Ptr → List Cell → Type 0
NotIn a [] = Unit {0}
NotIn a ((q, e) ∷ cs) = (q ≢ a) × NotIn a cs

abbrev pub Distinct : List Cell → Type 0
Distinct [] = Unit {0}
Distinct ((q, e) ∷ cs) = NotIn q cs × Distinct cs

pub IsChain-update_ne :
    (h : Heap) (a : Ptr) (x : Option Entry) (p : Ptr) (cs : List Cell)
    → NotIn a cs
    → IsChain h p cs
    → IsChain (update h a x) p cs
IsChain-update_ne h a x p [] n c = c
IsChain-update_ne h a x p ((q, e) ∷ cs) (ne, n) (same, given, at, rest) =
    (same, given, ground arith, IsChain-update_ne h a x e.next cs n rest)

-- the part of a chain from one cell on
pub IsChain-drop :
    (h : Heap) (p : Ptr) (pre cs : List Cell) → IsChain h p (pre ++ cs) → (r : Ptr) × IsChain h r cs
IsChain-drop h p [] cs c = (p, c)
IsChain-drop h p ((q, e) ∷ pre) cs (same, given, at, rest) = IsChain-drop h e.next pre cs rest

-- the last address of some cells, or the one before them
abbrev pub last_of : Ptr → List Cell → Ptr
last_of prev [] = prev
last_of prev ((q, e) ∷ cs) = last_of q cs

-- the cells with the last one led to `n`
abbrev pub relink : List Cell → Ptr → List Cell
relink [] n = []
relink ((q, e) ∷ []) n = (q, record e { next = n }) ∷ []
relink (x ∷ y ∷ cs) n = x ∷ relink (y ∷ cs) n

NotIn-append : (a : Ptr) (xs ys : List Cell) → NotIn a (xs ++ ys) → NotIn a xs × NotIn a ys
NotIn-append a [] ys n = (tt, n)
NotIn-append a ((q, e) ∷ xs) ys (ne, n) = let (m, k) = NotIn-append a xs ys n in ((ne, m), k)

pub NotIn-last_of : (a q : Ptr) (cs : List Cell) → q ≢ a → NotIn a cs → last_of q cs ≢ a
NotIn-last_of a q [] ne n = ne
NotIn-last_of a q ((r, e) ∷ cs) ne (m, n) = NotIn-last_of a r cs m n

-- the heap after an entry `q` behind `b` is taken out
abbrev pub cut : Heap → (b : Ptr) → Entry → (next q : Ptr) → Heap
cut h b eb next q = update (update h b (some (record eb { next = next }))) q none

pub IsChain-relink :
    (h : Heap) (p b : Ptr) (ex : Entry) (pre : List Cell) (q : Ptr) (e : Entry) (post : List Cell)
    (eb : Entry)
    → IsChain h p ((b, ex) ∷ pre ++ (q, e) ∷ post)
    → Distinct ((b, ex) ∷ pre ++ (q, e) ∷ post)
    → h (last_of b pre) ≡ some eb
    → IsChain (cut h (last_of b pre) eb e.next q) p (relink ((b, ex) ∷ pre) e.next ++ post)
IsChain-relink h p b ex [] q e post eb (same, given, at, (sq, gq, atq, rest)) ((ne, nb), (nq, d))
      last =
    let h1 = update h b (some (record eb { next = e.next })) in
    let entry : eb ≡ ex = cc in
    (
      same,
      given,
      ground arith,
      IsChain-update_ne h1 q none e.next post nq
          (IsChain-update_ne h b (some (record eb { next = e.next })) e.next post nb rest),
    )
IsChain-relink h p b ex ((x, ey) ∷ pre) q e post eb (same, given, at, rest) ((ne, nb), d) last =
    let (front, back) = NotIn-append b pre ((q, e) ∷ post) nb in
    let apart = NotIn-last_of b x pre ne front in
    (
      same,
      given,
      rw
          (
            ==_ne b q (λ (same' : b ≡ q). back.0 (sym same')),
            ==_ne b (last_of x pre) (λ (same' : b ≡ last_of x pre). apart (sym same')),
          )
          at,
      IsChain-relink h ex.next x ey pre q e post eb rest d last,
    )

-- ===== src/Dict/Unlink.antt =====
-- What `dictDel` of lib/dict.c leaves of a table and the heap when it has found the entry.
use geek_network_programming.Base.{
  ℕ, ◌<◌, ◌≡◌, refl, inl, inr, false, Bool-cases, Option, none, some, List, [], ◌∷◌, ◌++◌, ◌==◌,
  ==_iff, ==_refl, ==_ne, arith, length, get_or, set, length-set, get_or-set_self, get_or-set_ne,
}
use geek_network_programming.Dict.Defs.{Ptr, null, Entry, Heap, Dictht, ok, update}
use geek_network_programming.Dict.Rehash.{less_used}
use geek_network_programming.Dict.Operations.{unlink}
use geek_network_programming.Dict.Chains.{Cell, IsChain, Holds, home, load-some}
use geek_network_programming.Dict.Cells.{IsChain-update_ne, last_of, cut, IsChain-relink}
use geek_network_programming.Dict.Removal.{Unique, Unique-Distinct}
use geek_network_programming.Dict.Remains.{without, Homes, Homes-NotIn, last-Homes}
use geek_network_programming.Dict.Tidy.{Tidy, replaced}

-- the table and the heap that `unlink` leaves
pub record Unlinked (text : Ptr → List ℕ) (h : Heap) (t : Dictht) (c : ℕ → List Cell) (i : ℕ)
    (prev q : Ptr) (rest : List Cell) : Type 0 where
  pub heap : Heap
  pub table : List Ptr
  pub run : unlink h t i prev q ≡ ok (heap, less_used (record t { table = table }))
  pub width : length table ≡ length t.table
  pub chains : (j : ℕ) → j < t.size → IsChain heap (get_or table j null) (replaced c i rest j)
  pub freed : heap q ≡ none
  pub keeps : (a : Ptr) → h a ≡ none → heap a ≡ none

module _ (text : Ptr → List ℕ) {h : Heap} {t : Dictht} {c : ℕ → List Cell} (w : Holds h t c)
    (y : Tidy text t c) (i : ℕ) (lt : i < t.size) (q : Ptr) (e : Entry) (post : List Cell) where
  -- a chain of another slot, when the entry at `a`, which is at home in slot `i`, changes
  others :
      (h' : Heap) (a : Ptr) (x : Option Entry) (b : Entry) (j : ℕ)
      → h a ≡ some b
      → home t (text b.key) ≡ i
      → (j == i) ≡ false
      → j < t.size
      → IsChain h' (get_or t.table j null) (c j)
      → IsChain (update h' a x) (get_or t.table j null) (c j)
  others h' a x b j at own ne lj chain =
      IsChain-update_ne h' a x (get_or t.table j null) (c j)
        (Homes-NotIn text t i j h (get_or t.table j null) a b (c j) at own
          (λ same. cc (==_refl i, ne, same)) (w.chains j lj) (y.homes j))
        chain

  -- the cell behind some others, in the heap and at home
  cell_at :
      (b : Ptr) (x : Entry) (pre : List Cell) (h : Heap) (p : Ptr)
      → IsChain h p ((b, x) ∷ pre ++ (q, e) ∷ post)
      → Homes text t i ((b, x) ∷ pre ++ (q, e) ∷ post)
      → (h q ≡ some e) × (home t (text e.key) ≡ i)
  cell_at b x [] h p (is, given, at, (is', given', at', rest)) (own, (own', hs)) = (at', own')
  cell_at b x ((r, z) ∷ pre) h p (is, given, at, rest) (own, hs) = cell_at r z pre h x.next rest hs

  -- the entry heads its chain
  unlink_head : c i ≡ (q, e) ∷ post → Unlinked text h t c i null q (without [] e.next post)
  unfolding unlink
  unlink_head split =
      let cs = (q, e) ∷ post in
      let chain : IsChain h (get_or t.table i null) cs = rw split at (w.chains i lt) in
      let own : Homes text t i cs = rw split at (y.homes i) in
      let uniq : Unique text cs = rw split at (y.unique i) in
      let apart = Unique-Distinct text h (get_or t.table i null) cs chain uniq in
      record {
        heap = update h q none;
        table = set t.table i e.next;
        run = rw (load-some h q e (chain.2)) refl;
        width = length-set t.table i e.next;
        chains = λ j lj. elim (Bool-cases (j == i)) [
          | inl here ↦
              rw
                (
                  (==_iff j i).0 here,
                  get_or-set_self t.table i e.next null (omega (arith, w.width)),
                  ==_refl i,
                )
                (IsChain-update_ne h q none e.next post (apart.0) (chain.3))
          | inr other ↦
              rw
                (
                  get_or-set_ne t.table i j e.next null (λ (s : i ≡ j). cc (==_refl i, other, s)),
                  other,
                )
                (others h q none e j (chain.2) (own.0) other lj (w.chains j lj))
        ];
        freed = rw (==_refl q) refl;
        keeps =
            λ z unused. elim (Bool-cases (z == q)) [ inl e1 ↦ rw e1 refl | inr e1 ↦ rw e1 unused ];
      }

  -- another entry stands before it
  unlink_behind :
      (b : Ptr) (x : Entry) (pre : List Cell)
      → c i ≡ (b, x) ∷ pre ++ (q, e) ∷ post
      → Unlinked text h t c i (last_of b pre) q (without ((b, x) ∷ pre) e.next post)
  unfolding unlink
  unlink_behind b x pre split =
      let cs = (b, x) ∷ pre ++ (q, e) ∷ post in
      let p = get_or t.table i null in
      let chain : IsChain h p cs = rw split at (w.chains i lt) in
      let own : Homes text t i cs = rw split at (y.homes i) in
      let uniq : Unique text cs = rw split at (y.unique i) in
      let apart = Unique-Distinct text h p cs chain uniq in
      let (eb, last, own_b, given_b) = last-Homes text t i h p b x pre ((q, e) ∷ post) chain own in
      let (at, own_q) = cell_at b x pre h p chain own in
      let a = last_of b pre in
      let new = record eb { next = e.next } in
      record {
        heap = cut h a eb e.next q;
        table = t.table;
        run = rw (load-some h q e at, ==_ne a 0 given_b, load-some h a eb last) refl;
        width = refl;
        chains = λ j lj. elim (Bool-cases (j == i)) [
          | inl here ↦
              rw ((==_iff j i).0 here, ==_refl i)
                (IsChain-relink h p b x pre q e post eb chain apart last)
          | inr other ↦ rw other (
              others (update h a (some new)) q none e j at own_q other lj
                (others h a (some new) eb j last own_b other lj (w.chains j lj)))
        ];
        freed = rw (==_refl q) refl;
        keeps = λ z unused. elim (Bool-cases (z == q)) [
          | inl e1 ↦ rw e1 refl
          | inr e1 ↦ elim (Bool-cases (z == a)) [
            | inl e2 ↦ let same : z ≡ a = (==_iff z a).0 e2 in absurd (cc (last, unused, same))
            | inr e2 ↦ rw (e1, e2) unused
          ]
        ];
      }

  pub unlink_lem :
      (pre : List Cell)
      → c i ≡ pre ++ (q, e) ∷ post
      → Unlinked text h t c i (last_of null pre) q (without pre e.next post)
  unlink_lem [] split = unlink_head split
  unlink_lem ((b, x) ∷ pre) split = unlink_behind b x pre split

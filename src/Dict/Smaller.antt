-- ===== src/Dict/Smaller.antt =====
-- The table of lib/dict.c that `dictDel` leaves: its chains, its counter and what is found in it.
use geek_network_programming.Base.{
  ℕ, suc, ◌+◌, ◌-◌, ◌%◌, ◌≤◌, ◌<◌, ◌≡◌, refl, ap, ◌∙◌, sym, inl, inr, false, Bool-cases, none, List,
  ◌∷◌, ◌++◌, ◌==◌, ==_iff, ==_refl, ==_ne, if◌then◌else◌, arith, ltb, ltb→lt, length,
}
use geek_network_programming.Dict.Defs.{Ptr, null, Entry, Heap, Dictht, same_text, ulong_mod}
use geek_network_programming.Dict.Rehash.{less_used}
use geek_network_programming.Dict.Chains.{Cell, Holds, home, home-lt, lookup_in, same_text-eq}
use geek_network_programming.Dict.Model.{View}
use geek_network_programming.Dict.Cells.{last_of}
use geek_network_programming.Dict.Remains.{
  without, length-without, without-Homes, without-Unique, first-without,
}
use geek_network_programming.Dict.Tidy.{Tidy, total, total-le, replaced, total-replaced}
use geek_network_programming.Dict.Unlink.{Unlinked}

-- the map after `dictDel`
abbrev pub without_key : View → List ℕ → View
without_key f k q = if same_text q k then none else f q

pub less_used_lem : (u : ℕ) → 0 < u → u < ulong_mod → (u + ulong_mod - 1) % ulong_mod ≡ u - 1
less_used_lem u lt small = omega arith

module _ (text : Ptr → List ℕ) {h : Heap} {t : Dictht} {c : ℕ → List Cell} (w : Holds h t c)
    (y : Tidy text t c) (k : List ℕ) (q : Ptr) (e : Entry) (pre post : List Cell)
    (split : c (home t k) ≡ pre ++ (q, e) ∷ post) (keyed : text e.key ≡ k) where
  abbrev pub slot_of : ℕ
  slot_of = home t k

  abbrev pub rest : List Cell
  rest = without pre e.next post

  pub nonempty : 0 < t.used
  nonempty =
      let n = w.counted (home t k) in
      let l = ap length split in let s = length-without pre e.next (q, e) post in omega arith

  shorter : suc (length rest) ≡ length (c slot_of)
  shorter = length-without pre e.next (q, e) post ∙ sym (ap length split)

  left : suc (total (replaced c slot_of rest) t.size) ≡ t.used
  left = total-replaced c slot_of rest t.size shorter (home-lt k w) ∙ y.counts

  pub fewer : (less_used t).used ≡ t.used - 1
  fewer = less_used_lem t.used nonempty y.small

  -- each chain of the smaller table against its counter
  chain_le : (j : ℕ) → length (replaced c slot_of rest j) ≤ (less_used t).used
  chain_le j = rw fewer (elim (Bool-cases (ltb j t.size)) [
    | inl in_ ↦
        let le = total-le (replaced c slot_of rest) j t.size (ltb→lt j t.size in_) in
        let l = left in omega arith
    | inr out ↦
        let far : t.size ≤ j = ground arith in
        let lt = home-lt k w in rw (==_ne j (home t k) (omega arith), y.beyond j far) (omega arith)
  ])

  -- the smaller table
  abbrev pub table_of_rest : List Ptr → Dictht
  table_of_rest ps = less_used (record t { table = ps })

  pub rest-Holds :
      (u : Unlinked text h t c slot_of (last_of null pre) q rest)
      → Holds u.heap (table_of_rest u.table) (replaced c slot_of rest)
  rest-Holds u = record {
    width = u.width ∙ w.width;
    masked = w.masked;
    chains = u.chains;
    counted = chain_le;
  }

  pub rest-Tidy : (ps : List Ptr) → Tidy text (table_of_rest ps) (replaced c slot_of rest)
  rest-Tidy ps = record {
    homes = λ j. elim (Bool-cases (j == slot_of)) [
      | inl here ↦
          rw (here, (==_iff j slot_of).0 here)
            (without-Homes text t slot_of pre e.next (q, e) post (rw split at (y.homes slot_of)))
      | inr other ↦ rw other (y.homes j)
    ];
    unique = λ j. elim (Bool-cases (j == slot_of)) [
      | inl here ↦
          rw here (without-Unique text pre e.next (q, e) post (rw split at (y.unique slot_of)))
      | inr other ↦ rw other (y.unique j)
    ];
    counts = let l = left in let f = fewer in omega arith;
    beyond = λ j le. let lt = home-lt k w in rw (==_ne j slot_of (omega arith)) (y.beyond j le);
    small = let f = fewer in let s = y.small in omega arith;
  }

  -- the string is gone, and every other is found as before
  pub lookup-rest :
      (ps : List Ptr) (s : List ℕ)
      → lookup_in text (table_of_rest ps) (replaced c slot_of rest) s
        ≡ without_key (lookup_in text t c) k s
  lookup-rest ps s = elim (Bool-cases (home t s == slot_of)) [
    | inl here ↦
        let same = (==_iff (home t s) slot_of).0 here in
        rw (here, same, split)
          (rw keyed at (first-without text s pre e.next q e post (rw split at (y.unique slot_of))))
    | inr other ↦ rw (other, apart s other) refl
  ]
    where
      apart : (s : List ℕ) → (home t s == home t k) ≡ false → same_text s k ≡ false
      apart s other = elim (Bool-cases (same_text s k)) [
        | inl e ↦
            let same = ap (home t) (same_text-eq s k e) in
            absurd (cc (==_refl (home t k), other, same))
        | inr e ↦ e
      ]

-- ===== src/Dict/Del.antt =====
-- `dictDel` of lib/dict.c on the map that a dictionary stands for, while no rehash is under way.
use geek_network_programming.Base.{
  ℕ, suc, ◌+◌, ◌≤◌, ◌<◌, ◌≡◌, refl, ap, ◌∙◌, sym, ◌≢◌, inl, inr, Bool, false, Bool-cases,
  Option-cases, Option, none, some, List, ◌∷◌, ◌++◌, ◌==◌, ==_ne, arith, length, get_or,
}
use geek_network_programming.Dict.Defs.{Ptr, null, Entry, Dict, ok, slot, dict_size}
use geek_network_programming.Dict.Rehash.{less_used, rehash_step}
use geek_network_programming.Dict.Operations.{del}
use geek_network_programming.Dict.Chains.{IsChain, home, home-lt, slot-in}
use geek_network_programming.Dict.Model.{View, Single, single, Models-Stored}
use geek_network_programming.Dict.Growth.{rehash_step-still}
use geek_network_programming.Dict.Cells.{IsChain-drop}
use geek_network_programming.Dict.Removal.{
  NoText-NoKey, first-Found, find_prev-append, find_prev_none, first_none-NoText,
}
use geek_network_programming.Dict.Remains.{without}
use geek_network_programming.Dict.Tidy.{Tidy, replaced}
use geek_network_programming.Dict.Unlink.{unlink_lem}
use geek_network_programming.Dict.Smaller.{
  without_key, nonempty, fewer, rest-Holds, rest-Tidy, lookup-rest,
}

-- the outcome of `dictDel` on the map `f`, by what `f` had for the string `k`
abbrev pub Deleted :
    (Ptr → List ℕ) → View → List ℕ → Dict → Option (Ptr × Ptr) → Ptr × Dict → Type 0
Deleted text f k d none (p, d') = (p ≡ null) × (d' ≡ d)
Deleted text f k d (some (q, v)) (p, d') =
    (p ≡ q)
    × ((n : Single text d' (without_key f k)) × Tidy text d'.ht0 n.c)
    × (d'.heap q ≡ none)
    × (d'.ht0.used + 1 ≡ d.ht0.used)
    × (d'.ht0.size ≡ d.ht0.size)
    × ((a : Ptr) → d.heap a ≡ none → d'.heap a ≡ none)

module _ (text : Ptr → List ℕ) (room : Bool) {f : View} (d : Dict) (fuel : ℕ) (key : Ptr)
    (m : Single text d f) (y : Tidy text d.ht0 m.c) (enough : d.ht0.used ≤ fuel) where
  nothing_to_do : d.ht0.used ≢ 0 → rehash_step text room (suc fuel) d ≡ ok d
  nothing_to_do some_ = rehash_step-still text room fuel d some_

  head_of :
      slot d.ht0 (home d.ht0 (text key)) ≡ ok (get_or d.ht0.table (home d.ht0 (text key)) null)
  head_of =
      let lt = home-lt (text key) m.holds in
      slot-in d.ht0 (home d.ht0 (text key)) (omega (arith, m.holds.width))

  full : 0 < d.ht0.used → (dict_size d == 0) ≡ false
  full lt = ==_ne (dict_size d) 0 (let u = m.used1 in let s = y.small in omega arith)

  -- the string is there
  del-stored :
      (q v : Ptr) (e : Entry)
      → f (text key) ≡ some (q, v)
      → d.heap q ≡ some e
      → e.key ≡ key
      → (d' : Dict) × (del text room (suc fuel) d key ≡ ok (q, d'))
        × ((n : Single text d' (without_key f (text key))) × Tidy text d'.ht0 n.c)
        × (d'.heap q ≡ none)
        × (d'.ht0.used + 1 ≡ d.ht0.used)
        × (d'.ht0.size ≡ d.ht0.size)
        × ((a : Ptr) → d.heap a ≡ none → d'.heap a ≡ none)
  unfolding del
  del-stored q v e stored at same =
      let k = text key in
      let i = home d.ht0 k in
      let c = m.c in
      let w = m.holds in
      let p = get_or d.ht0.table i null in
      let lt = home-lt k w in
      let found = first-Found text k (c i) (sym (m.reads k) ∙ stored) in
      let cells = found.pre ++ (q, found.entry) ∷ found.post in
      let chain : IsChain d.heap p cells = rw found.split at (w.chains i lt) in
      let cell = (IsChain-drop d.heap p found.pre ((q, found.entry) ∷ found.post) chain).1 in
      let entry : found.entry ≡ e = cc (cell.2) in
      let keyed : key ≡ found.entry.key = sym (ap (λ (z : Entry). z.key) entry ∙ same) in
      let u = unlink_lem text w y i lt q found.entry found.post found.pre found.split in
      let count = ap length found.split in
      let within = w.counted i in
      let some_ =
        nonempty text w y k q found.entry found.pre found.post found.split (ap text (sym keyed)) in
      let find =
        find_prev-append d.heap (suc fuel) key null p found.pre q found.entry found.post chain
          (NoText-NoKey text key found.pre found.before) keyed (omega arith) in
      (
        record d { ht0 = less_used (record d.ht0 { table = u.table }); heap = u.heap },
        rw (full some_, nothing_to_do (omega arith), head_of, find, ==_ne q 0 (cell.1), u.run) refl,
        (
          record {
            c = replaced c i (without found.pre found.entry.next found.post);
            holds =
                rest-Holds text w y k q found.entry found.pre found.post found.split
                  (ap text (sym keyed)) u;
            used1 = m.used1;
            still = m.still;
            reads = λ s.
                rw
                  (
                    lookup-rest text w y k q found.entry found.pre found.post found.split
                        (ap text (sym keyed)) u.table s,
                    m.reads s,
                  )
                  refl;
          },
          rest-Tidy text w y k q found.entry found.pre found.post found.split (ap text (sym keyed))
              u.table,
        ),
        u.freed,
        (let l =
              fewer text w y k q found.entry found.pre found.post found.split
                (ap text (sym keyed)) in
            omega arith),
        refl,
        u.keeps,
      )

  -- it is not
  del-absent : f (text key) ≡ none → del text room (suc fuel) d key ≡ ok (null, d)
  unfolding del
  del-absent absent =
      let k = text key in
      let i = home d.ht0 k in
      let w = m.holds in
      let none_ = first_none-NoText text k (m.c i) (sym (m.reads k) ∙ absent) in
      let within = w.counted i in
      let find =
        find_prev_none d.heap (suc fuel) key null (get_or d.ht0.table i null) (m.c i)
          (w.chains i (home-lt k w)) (NoText-NoKey text key (m.c i) none_) (omega arith) in
      elim (Bool-cases (dict_size d == 0)) [
        | inl e ↦ rw e refl
        | inr e ↦ rw (e, nothing_to_do (ground arith), head_of, find, m.still) refl
      ]

  -- dictDel on a dictionary that stands for a map and is not rehashing, where each string has one
  -- cell, in its home slot, and the counter is that of the cells: if the entry stored for the
  -- string, where there is one, has its key at the given address, then with one round more than
  -- there are entries the result is the address of that entry, which is freed, the dictionary then
  -- stands for the map without the string, is in the same order, with a table of the same size,
  -- and counts one entry less, and no unused address becomes used; for a string that is not there
  -- the result is NULL and nothing changes.
  pub del-Deleted :
      ((q v : Ptr) (e : Entry) → f (text key) ≡ some (q, v) → d.heap q ≡ some e → e.key ≡ key)
      → (r : Ptr × Dict) × (del text room (suc fuel) d key ≡ ok r)
        × Deleted text f (text key) d (f (text key)) r
  del-Deleted same = elim (Option-cases (f (text key))) [
    | inl e ↦ ((null, d), del-absent e, rw e (refl, refl))
    | inr ((q, v), e) ↦
        let s = Models-Stored text (text key) (single m) e in
        let (d', run, model, freed, count, size, keeps) =
          del-stored q v s.entry e s.at (same q v s.entry e s.at) in
        ((q, d'), run, rw e (refl, model, freed, count, size, keeps))
  ]

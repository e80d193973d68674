-- ===== src/Dict/AddDel.antt =====
-- `dictAdd` and then `dictDel` of lib/dict.c with the same key, in a table with room.
use geek_network_programming.Base.{
  ℕ, zero, suc, ◌+◌, ◌^◌, ◌≤◌, ◌<◌, ◌≡◌, refl, ap, ◌∙◌, sym, ◌≢◌, inl, inr, Bool, true, false,
  Bool-cases, Option, none, some, List, ◌∷◌, ◌==◌, ==_ne, ==_iff, ==_refl, leb, arith, length,
}
use mathlib.Core.Path.{subst}
use geek_network_programming.Dict.Remains.{Homes}
use geek_network_programming.Dict.Defs.{
  Ptr, null, Entry, Dict, ok, dict_ok, same_text, update, is_rehashing,
}
use geek_network_programming.Dict.Rehash.{rehash_step, rehash, rehash_loop, finish}
use geek_network_programming.Dict.Tables.{key_index}
use geek_network_programming.Dict.Operations.{add, insert, del}
use geek_network_programming.Dict.Chains.{
  Cell, home, home-lt, push_cell, made, extended, put_front_lem, extended-Holds, same_text-eq,
  same_text_refl, lookup-extended, address,
}
use geek_network_programming.Dict.Model.{View, Single}
use geek_network_programming.Dict.Growth.{expand_not}
use geek_network_programming.Dict.Index.{index-Single}
use geek_network_programming.Dict.Add.{with_key}
use geek_network_programming.Dict.Removal.{NoText, first_none-NoText}
use geek_network_programming.Dict.Tidy.{Tidy, total}
use geek_network_programming.Dict.Smaller.{without_key}
use geek_network_programming.Dict.Del.{Deleted, del-Deleted}

total_below :
    (text : Ptr → List ℕ) (c : ℕ → List Cell) (i : ℕ) (x : Cell) (n : ℕ)
    → n ≤ i
    → total (push_cell text c i x) n ≡ total c n
total_below text c i x zero le = refl
total_below text c i x (suc n) le =
    rw (==_ne n i (omega arith)) (rw (total_below text c i x n (omega arith)) refl)

-- one cell more in slot `i`
total-push_cell :
    (text : Ptr → List ℕ) (c : ℕ → List Cell) (i : ℕ) (x : Cell) (n : ℕ)
    → i < n
    → total (push_cell text c i x) n ≡ suc (total c n)
total-push_cell text c i x zero lt = absurd (omega arith)
total-push_cell text c i x (suc n) lt = elim (Bool-cases (n == i)) [
  | inl here ↦
      let same = (==_iff n i).0 here in
      let below = total_below text c i x n (omega arith) in
      let len : length (c n) ≡ length (c i) = ap (λ k. length (c k)) same in rw here (omega arith)
  | inr other ↦ let later = total-push_cell text c i x n (ground arith) in rw other (omega arith)
]

pub rehash_step_idle :
    (text : Ptr → List ℕ) (room : Bool) (f : ℕ) (d : Dict)
    → is_rehashing d ≡ false
    → rehash_step text room (suc f) d ≡ ok d
unfolding rehash_step rehash rehash_loop finish
rehash_step_idle text room f d still = rw still refl

module _ (text : Ptr → List ℕ) {f : View} (d : Dict) (fuel : ℕ) (fresh key val : Ptr)
    (m : Single text d f) (y : Tidy text d.ht0 m.c) (given : fresh ≢ null)
    (free_ : d.heap fresh ≡ none) (absent : f (text key) ≡ none) (space : d.ht0.used < d.ht0.size)
    (enough : d.ht0.used < fuel) (small : d.ht0.used + 1 < 2 ^ 62) where
  abbrev k : List ℕ
  k = text key

  abbrev i : ℕ
  i = home d.ht0 k

  abbrev e : Entry
  e = made text d.ht0 i key val

  abbrev c' : ℕ → List Cell
  c' = push_cell text m.c i (fresh, e)

  abbrev d1 : Dict
  d1 = record d { ht0 = extended text d.ht0 i fresh; heap = update d.heap fresh (some e) }

  no_such : NoText text k (m.c i)
  no_such = first_none-NoText text k (m.c i) (sym (m.reads k) ∙ absent)

  added-Tidy : Tidy text d1.ht0 c'
  added-Tidy = record {
    homes = λ j. elim (Bool-cases (j == i)) [
      | inl here ↦
          let same : j ≡ i = (==_iff j i).0 here in
          rw here
            (subst (λ n. Homes text d.ht0 n ((fresh, e) ∷ m.c i)) (sym same) (refl, y.homes i))
      | inr other ↦ rw other (y.homes j)
    ];
    unique = λ j. elim (Bool-cases (j == i)) [
      | inl here ↦ rw here (no_such, y.unique i)
      | inr other ↦ rw other (y.unique j)
    ];
    counts =
        omega
          (arith, total-push_cell text m.c i (fresh, e) d.ht0.size (home-lt k m.holds), y.counts);
    beyond = λ j le. rw (==_ne j i (omega (arith, home-lt k m.holds))) (y.beyond j le);
    small = omega arith;
  }

  pub added : (n : Single text d1 (with_key f k fresh val)) × Tidy text d1.ht0 n.c
  added = (
    record {
      c = c';
      holds =
          extended-Holds text m.holds fresh key val given free_ (omega arith) i (home-lt k m.holds);
      used1 = m.used1;
      still = m.still;
      reads = λ q.
          rw (lookup-extended text m.holds fresh key val given free_ (omega arith) q, m.reads q);
    },
    added-Tidy,
  )

  pub add_run : add text true (suc fuel) d fresh key val ≡ ok (dict_ok, d1)
  unfolding add key_index insert
  add_run =
      let masked = m.holds.masked in
      let more : leb d.ht0.size d.ht0.used ≡ false = ground arith in
      rw
        (
          rehash_step_idle text true fuel d m.still,
          expand_not d m.still (omega arith) more,
          index-Single text d (suc fuel) key m (omega arith),
          absent,
          m.still,
          put_front_lem text m.holds fresh key val given free_ (omega arith) i (home-lt k m.holds),
        )
        refl

  own_key :
      (q v : Ptr) (x : Entry)
      → with_key f k fresh val k ≡ some (q, v)
      → d1.heap q ≡ some x
      → x.key ≡ key
  own_key q v x found at =
      let eq : ◌≡◌ {A = Option (Ptr × Ptr)} (some (fresh, val)) (some (q, v)) =
        rw (same_text_refl k) at found in
      let here : fresh ≡ q = ap address eq in
      let entry : ◌≡◌ {A = Option Entry} (some e) (some x) = rw (← here, ==_refl fresh) at at in
      cc entry

  forgotten : (q : List ℕ) → f q ≡ without_key (with_key f k fresh val) k q
  forgotten q = elim (Bool-cases (same_text q k)) [
    | inl t ↦ rw t (ap f (same_text-eq q k t) ∙ absent)
    | inr t ↦ rw t refl
  ]

  -- On a dictionary that is not rehashing, in which each string has one cell, in its home slot,
  -- the counter is that of the cells, and which has fewer than 2 ^ 62 - 1 entries and room for one
  -- more: dictAdd of a string that is not there, with an unused address from malloc, succeeds, and
  -- dictDel with the same key then returns that address, frees it, and leaves a dictionary that
  -- stands for the same map as at first, in the same order and with as many entries.
  pub add-del :
      (d1 : Dict) × (d2 : Dict) × (add text true (suc fuel) d fresh key val ≡ ok (dict_ok, d1))
      × (del text true (suc fuel) d1 key ≡ ok (fresh, d2))
      × ((n : Single text d2 f) × Tidy text d2.ht0 n.c)
      × (d2.heap fresh ≡ none)
      × (d2.ht0.used ≡ d.ht0.used)
  add-del =
      let (n, t) = added in
      let (r, run, out) = del-Deleted text true d1 fuel key n t (omega arith) own_key in
      let out' : Deleted text (with_key f k fresh val) k d1 (some (fresh, val)) r =
        rw (same_text_refl k) at out in
      let (at, (n2, t2), freed, count, size, keeps) = out' in
      let result : r ≡ (fresh, r.1) = ap (λ p. (p, r.1)) at in
      (d1, r.1, add_run, run ∙ ap ok result, (again r.1 n2, t2), freed, omega arith)
    where
      again :
          (d2 : Dict) (n : Single text d2 (without_key (with_key f k fresh val) k))
          → Single text d2 f
      again d2 n = record {
        c = n.c;
        holds = n.holds;
        used1 = n.used1;
        still = n.still;
        reads = λ q. forgotten q ∙ n.reads q;
      }

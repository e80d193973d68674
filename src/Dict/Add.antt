-- ===== src/Dict/Add.antt =====
-- `dictAdd` of lib/dict.c on the map that a dictionary stands for.
use geek_network_programming.Base.{
  ℕ, suc, ◌+◌, ◌^◌, ◌≤◌, ◌<◌, ◌≡◌, refl, ap, ◌∙◌, sym, ◌≢◌, inl, inr, Bool, true, Bool-cases,
  Option, none, some, List, ==_ne, if◌then◌else◌, pos, minus_one, eq_ℤ, arith,
}
use geek_network_programming.Dict.Defs.{
  Ptr, null, Heap, Dict, ok, dict_ok, dict_err, same_text, update, ulong_mod,
}
use geek_network_programming.Dict.Operations.{add, insert}
use geek_network_programming.Dict.Chains.{
  home, home-lt, lookup_in, push_cell, made, extended, put_front_lem, extended-Holds, same_text-eq,
  lookup-extended, Holds-update,
}
use geek_network_programming.Dict.Model.{View, or_else, Single, Double, Models, single, double}
use geek_network_programming.Dict.Growth.{Kept, Ready, Ready-Models, one, two, rehash_step-Models}
use geek_network_programming.Dict.Index.{index_for, target, key_index_lem}

absent_first : (x y : Option (Ptr × Ptr)) → or_else x y ≡ none → x ≡ none
absent_first none y e = refl
absent_first (some x) y e = e

-- the map after `dictAdd`
abbrev pub with_key : View → List ℕ → Ptr → Ptr → View
with_key f k fresh val q = if same_text q k then some (fresh, val) else f q

-- One entry more, at `fresh`; nothing else in the heap has changed.
pub record Added (fresh : Ptr) (d d' : Dict) : Type 0 where
  pub others : (a : Ptr) → a ≢ fresh → d'.heap a ≡ d.heap a
  pub total : d'.ht0.used + d'.ht1.used ≡ d.ht0.used + d.ht1.used + 1

-- the outcome of `dictAdd` on `d` and the map `f`, by what `f` had for the string `k`
abbrev pub AddsTo :
    (Ptr → List ℕ) → Dict → View → List ℕ → Ptr → Ptr → Option (Ptr × Ptr) → ℕ × Dict → Type 0
AddsTo text d f k fresh val none (status, d') =
    (status ≡ dict_ok) × Models text d' (with_key f k fresh val) × Added fresh d d'
AddsTo text d f k fresh val (some x) (status, d') =
    (status ≡ dict_err) × Models text d' f × Kept d d'

Added-Kept : {fresh : Ptr} (c : Dict) {d d' : Dict} → Kept c d → Added fresh d d' → Added fresh c d'
Added-Kept c {d} k a = record {
  others = λ p ne. a.others p ne ∙ ap (λ (h : Heap). h p) k.heap;
  total = omega (arith, a.total, k.total);
}

Kept-Kept : {c d e : Dict} → Kept c d → Kept d e → Kept c e
Kept-Kept k l = record { heap = l.heap ∙ k.heap; total = l.total ∙ k.total }

-- the outcome as seen from a dictionary before
AddsTo-Kept :
    (text : Ptr → List ℕ) (c d : Dict) (f : View) (k : List ℕ) (fresh val : Ptr)
    (o : Option (Ptr × Ptr)) (r : ℕ × Dict)
    → Kept c d
    → AddsTo text d f k fresh val o r
    → AddsTo text c f k fresh val o r
AddsTo-Kept text c d f k fresh val none (s, d') kept (status, m, a) =
    (status, m, Added-Kept c kept a)
AddsTo-Kept text c d f k fresh val (some x) (s, d') kept (status, m, same) =
    (status, m, Kept-Kept kept same)

module _ (text : Ptr → List ℕ) {f : View} (fresh key val : Ptr) (given : fresh ≢ null) where
  insert-Single :
      (room : Bool) (d : Dict)
      → Single text d f
      → d.heap fresh ≡ none
      → d.ht0.used + 1 < ulong_mod
      → (d' : Dict) × (insert text room d (pos (home d.ht0 (text key))) fresh key val
          ≡ ok (dict_ok, d'))
        × Models text d' (with_key f (text key) fresh val)
        × Added fresh d d'
  unfolding insert
  insert-Single room d m free_ small =
      let i = home d.ht0 (text key) in
      let lt = home-lt (text key) m.holds in
      let e = made text d.ht0 i key val in
      (
        record d { ht0 = extended text d.ht0 i fresh; heap = update d.heap fresh (some e) },
        rw (m.still, put_front_lem text m.holds fresh key val given free_ small i lt),
        single (record {
          c = push_cell text m.c i (fresh, e);
          holds = extended-Holds text m.holds fresh key val given free_ small i lt;
          used1 = m.used1;
          still = m.still;
          reads =
              λ q. rw (lookup-extended text m.holds fresh key val given free_ small q, m.reads q);
        }),
        record { others = λ a ne. rw (==_ne a fresh ne); total = omega arith },
      )

  insert-Double :
      (room : Bool) (d : Dict)
      → Double text d f
      → f (text key) ≡ none
      → d.heap fresh ≡ none
      → d.ht1.used + 1 < ulong_mod
      → (d' : Dict) × (insert text room d (pos (home d.ht1 (text key))) fresh key val
          ≡ ok (dict_ok, d'))
        × Models text d' (with_key f (text key) fresh val)
        × Added fresh d d'
  unfolding insert
  insert-Double room d m absent free_ small =
      let i = home d.ht1 (text key) in
      let lt = home-lt (text key) m.holds1 in
      let e = made text d.ht1 i key val in
      (
        record d { ht1 = extended text d.ht1 i fresh; heap = update d.heap fresh (some e) },
        rw (m.going, put_front_lem text m.holds1 fresh key val given free_ small i lt),
        double (record {
          c0 = m.c0;
          c1 = push_cell text m.c1 i (fresh, e);
          holds0 = Holds-update fresh (some e) free_ m.holds0;
          holds1 = extended-Holds text m.holds1 fresh key val given free_ small i lt;
          going = m.going;
          reads = λ q.
              rw (lookup-extended text m.holds1 fresh key val given free_ small q, m.reads q)
                (later q);
        }),
        record { others = λ a ne. rw (==_ne a fresh ne); total = omega arith },
      )
    where
      later :
          (q : List ℕ)
          → (if same_text q (text key)
              then some (fresh, val)
              else or_else (lookup_in text d.ht0 m.c0 q) (lookup_in text d.ht1 m.c1 q))
            ≡ or_else
                (lookup_in text d.ht0 m.c0 q)
                (if same_text q (text key) then some (fresh, val) else lookup_in text d.ht1 m.c1 q)
      later q = elim (Bool-cases (same_text q (text key))) [
        | inl e ↦ rw (
          e,
          absent_first (lookup_in text d.ht0 m.c0 q) (lookup_in text d.ht1 m.c1 q)
              (sym (m.reads q) ∙ ap f (same_text-eq q (text key) e) ∙ absent),
        )
        | inr e ↦ rw e
      ]

  insert_ready :
      (room : Bool) (d : Dict)
      → Ready text d f
      → f (text key) ≡ none
      → d.heap fresh ≡ none
      → d.ht0.used + d.ht1.used + 1 < ulong_mod
      → (d' : Dict) × (insert text room d (pos (target d (text key))) fresh key val
          ≡ ok (dict_ok, d'))
        × Models text d' (with_key f (text key) fresh val)
        × Added fresh d d'
  insert_ready room d (one m) absent free_ small =
      rw m.still (insert-Single room d m free_ (omega arith))
  insert_ready room d (two m) absent free_ small =
      rw m.going (insert-Double room d m absent free_ (omega arith))

  add_indexed :
      (d : Dict)
      → Ready text d f
      → d.heap fresh ≡ none
      → d.ht0.used + d.ht1.used + 1 < ulong_mod
      → (o : Option (Ptr × Ptr)) → f (text key) ≡ o
      → (r : ℕ × Dict) × ((if eq_ℤ (index_for o (target d (text key))) minus_one
            then ok (dict_err, d)
            else insert text true d (index_for o (target d (text key))) fresh key val)
          ≡ ok r)
        × AddsTo text d f (text key) fresh val o r
  add_indexed d ready free_ small none e =
      let (d', run, m, a) = insert_ready true d ready e free_ small in
      ((dict_ok, d'), run, (refl, m, a))
  add_indexed d ready free_ small (some x) e =
      ((dict_err, d), refl, (refl, Ready-Models ready, record { heap = refl; total = refl }))

  -- dictAdd on a dictionary that stands for a map, when malloc gives an unused address and calloc
  -- finds memory and fewer than 2 ^ 62 entries are stored: a string that is not there is added
  -- with the given entry and value and DICT_OK, every other string keeps what it had, there is one
  -- entry more, and no other address of the heap has changed; for a string that is there the
  -- result is DICT_ERR, and the map, the heap and the number of entries stay. With one round more
  -- than there are entries the run neither faults nor runs out of fuel.
  pub add-Models :
      (d : Dict) (fuel : ℕ)
      → Models text d f
      → d.heap fresh ≡ none
      → d.ht0.used + d.ht1.used ≤ fuel
      → d.ht0.used + d.ht1.used < 2 ^ 62
      → (r : ℕ × Dict) × (add text true (suc fuel) d fresh key val ≡ ok r)
        × AddsTo text d f (text key) fresh val (f (text key)) r
  unfolding add
  add-Models d fuel m free_ lt small =
      let (d1, step, m1, k1) = rehash_step-Models text true fuel d m in
      let (d2, index, ready, k2) =
        key_index_lem text d1 (suc fuel) key m1 (rw k1.total (omega arith)) (rw k1.total small) in
      let totals : d2.ht0.used + d2.ht1.used ≡ d.ht0.used + d.ht1.used = k2.total ∙ k1.total in
      let heaps : d2.heap fresh ≡ none = rw (k2.heap, k1.heap) free_ in
      let (r, run, out) = add_indexed d2 ready heaps (omega arith) (f (text key)) refl in
      (
        r,
        rw (step, index) run,
        AddsTo-Kept text d d2 f (text key) fresh val (f (text key)) r (Kept-Kept k1 k2) out,
      )

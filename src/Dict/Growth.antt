-- ===== src/Dict/Growth.antt =====
-- Growth of lib/dict.c, the step of a rehash and `_dictExpandIfNeeded`, on the map that is stored.
use geek_network_programming.Base.{
  length, ℕ, suc, ◌+◌, ◌*◌, ◌%◌, ◌^◌, ◌≤◌, ◌<◌, ◌≡◌, refl, ◌∙◌, ◌≢◌, inl, inr, Bool, true, false,
  Bool-cases, Option, none, some, List, ◌==◌, ==_iff, ==_ne, leb, pos, minus_one, arith,
}
use geek_network_programming.Dict.Defs.{Ptr, Dictht, Dict, ok, dict_ok, is_rehashing, ulong_mod}
use geek_network_programming.Dict.Tables.{
  reset, table_of, install, expand, expand_if_needed, next_power, power_loop,
}
use geek_network_programming.Dict.Rehash.{rehash_loop, rehash, rehash_step, finish}
use geek_network_programming.Dict.Power.{next_power_lem}
use geek_network_programming.Dict.Chains.{lookup_in}
use geek_network_programming.Dict.Model.{
  View, or_else, blank, Unused, Single, Double, Models, unused, single, double, Double-Single,
  table_of-Holds,
}

-- _dictRehashStep asks for `--n` rounds with `n` 1, which is none: while the first table holds
-- anything, the step changes nothing.
pub rehash_step-still :
    (text : Ptr → List ℕ) (room : Bool) (f : ℕ) (d : Dict)
    → d.ht0.used ≢ 0
    → rehash_step text room (suc f) d ≡ ok d
unfolding rehash_step rehash rehash_loop finish
rehash_step-still text room f d h = ground arith

-- what a step leaves alone
pub record Kept (d d' : Dict) : Type 0 where
  pub heap : d'.heap ≡ d.heap
  pub total : d'.ht0.used + d'.ht1.used ≡ d.ht0.used + d.ht1.used

-- The tables are there, so a key has a slot.
pub data Ready (text : Ptr → List ℕ) (d : Dict) (f : View) : Type 0 where
  one : Single text d f → Ready text d f
  two : Double text d f → Ready text d f

pub Ready-Models : {text : Ptr → List ℕ} {d : Dict} {f : View} → Ready text d f → Models text d f
Ready-Models (one m) = single m
Ready-Models (two m) = double m

next_power_four : next_power 4 ≡ ok 4
unfolding next_power power_loop
next_power_four = refl

-- The first key gets a table of 4 slots.
expand_first :
    (d : Dict)
    → is_rehashing d ≡ false
    → d.ht0 ≡ reset
    → expand_if_needed true d ≡ ok (dict_ok, record d { ht0 = table_of true 4 })
unfolding expand_if_needed expand install
expand_first d still e = ground (arith, next_power_four)

install_full :
    (d : Dict) (t : Dictht)
    → 0 < length d.ht0.table
    → install d t ≡ record d { ht1 = t; rehashidx = pos 0 }
unfolding install
install_full d t lt = grind arith

-- A full table gets a second one beside it, and the rehash begins.
expand_full :
    (d : Dict) (n : ℕ)
    → is_rehashing d ≡ false
    → 0 < length d.ht0.table
    → 0 < d.ht0.size
    → d.ht0.size ≤ d.ht0.used
    → next_power (d.ht0.used * 2 % ulong_mod) ≡ ok n
    → n ≢ d.ht0.size
    → expand_if_needed true d ≡ ok (dict_ok, record d { ht1 = table_of true n; rehashidx = pos 0 })
unfolding expand_if_needed expand
expand_full d n still lt pos_ full e ne =
    let nonzero : (d.ht0.size == 0) ≡ false = ground arith in
    let grows : leb d.ht0.size d.ht0.used ≡ true = ground arith in
    rw (still, nonzero, grows, e, ==_ne n d.ht0.size ne, install_full d (table_of true n) lt)

pub expand_not :
    (d : Dict)
    → is_rehashing d ≡ false
    → 0 < d.ht0.size
    → leb d.ht0.size d.ht0.used ≡ false
    → expand_if_needed true d ≡ ok (dict_ok, d)
unfolding expand_if_needed
expand_not d still pos_ e =
    let nonzero : (d.ht0.size == 0) ≡ false = ground arith in rw (still, nonzero, e)

expand_going : (d : Dict) → is_rehashing d ≡ true → expand_if_needed true d ≡ ok (dict_ok, d)
unfolding expand_if_needed
expand_going d going = rw going

or_else-none : (o : Option (Ptr × Ptr)) → o ≡ or_else o none
or_else-none none = refl
or_else-none (some x) = refl

module _ (text : Ptr → List ℕ) {f : View} where
  pub rehash_step-Models :
      (room : Bool) (fuel : ℕ) (d : Dict)
      → Models text d f
      → (d' : Dict) × (rehash_step text room (suc fuel) d ≡ ok d') × Models text d' f × Kept d d'
  unfolding rehash_step rehash rehash_loop finish
  rehash_step-Models room fuel d (unused m) =
      (d, rw m.still, unused m, record { heap = refl; total = refl })
  rehash_step-Models room fuel d (single m) =
      (d, rw m.still, single m, record { heap = refl; total = refl })
  rehash_step-Models room fuel d (double m) = elim (Bool-cases (d.ht0.used == 0)) [
    | inl e ↦ (
      record d { ht0 = d.ht1; ht1 = reset; rehashidx = minus_one },
      rw (m.going, e),
      single (Double-Single text m ((==_iff d.ht0.used 0).0 e)),
      record { heap = refl; total = ground arith },
    )
    | inr e ↦ (d, rw (m.going, e), double m, record { heap = refl; total = refl })
  ]

  begin_rehash :
      (d : Dict) (n : ℕ)
      → Single text d f
      → 0 < n
      → Double text (record d { ht1 = table_of true n; rehashidx = pos 0 }) f
  begin_rehash d n m lt = record {
    c0 = m.c;
    c1 = blank;
    holds0 = m.holds;
    holds1 = table_of-Holds d.heap n lt;
    going = refl;
    reads = λ q. m.reads q ∙ or_else-none (lookup_in text d.ht0 m.c q);
  }

  first_table : (d : Dict) → Unused text d f → Single text (record d { ht0 = table_of true 4 }) f
  first_table d m = record {
    c = blank;
    holds = table_of-Holds d.heap 4 (omega arith);
    used1 = m.used1;
    still = m.still;
    reads = m.reads;
  }

  grow-Single :
      (d : Dict)
      → Single text d f
      → d.ht0.used + d.ht1.used < 2 ^ 62
      → (d' : Dict) × (expand_if_needed true d ≡ ok (dict_ok, d')) × Ready text d' f × Kept d d'
  grow-Single d m small = elim (Bool-cases (leb d.ht0.size d.ht0.used)) [
    | inl e ↦
        let used1 = m.used1 in
        let masked = m.holds.masked in
        let width = m.holds.width in
        let full : d.ht0.size ≤ d.ht0.used = ground arith in
        let (n, run, (j, shape, large, tight)) =
          next_power_lem (d.ht0.used * 2 % ulong_mod) (omega arith) in
        let ne : n ≢ d.ht0.size = omega arith in
        (
          record d { ht1 = table_of true n; rehashidx = pos 0 },
          expand_full d n m.still (omega arith) (omega arith) full run ne,
          two (begin_rehash d n m (omega arith)),
          record { heap = refl; total = omega arith },
        )
    | inr e ↦
        let masked = m.holds.masked in
        (d, expand_not d m.still (omega arith) e, one m, record { heap = refl; total = refl })
  ]

  pub expand_if_needed_lem :
      (d : Dict)
      → Models text d f
      → d.ht0.used + d.ht1.used < 2 ^ 62
      → (d' : Dict) × (expand_if_needed true d ≡ ok (dict_ok, d')) × Ready text d' f × Kept d d'
  expand_if_needed_lem d (unused m) small = (
    record d { ht0 = table_of true 4 },
    expand_first d m.still m.table0,
    one (first_table d m),
    record { heap = refl; total = rw m.table0 },
  )
  expand_if_needed_lem d (single m) small = grow-Single d m small
  expand_if_needed_lem d (double m) small =
      (d, expand_going d m.going, two m, record { heap = refl; total = refl })

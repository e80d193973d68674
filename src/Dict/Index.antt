-- ===== src/Dict/Index.antt =====
-- `_dictKeyIndex` of lib/dict.c on the map that a dictionary stands for.
use geek_network_programming.Base.{
  ℕ, ◌+◌, ◌^◌, ◌<◌, ◌≡◌, inl, inr, true, false, Option-cases, Option, none, some, List, ◌==◌, ==_ne,
  if◌then◌else◌, ℤ, pos, minus_one, arith,
}
use geek_network_programming.Dict.Defs.{Ptr, null, Heap, Dictht, Dict, ok, is_rehashing}
use geek_network_programming.Dict.Tables.{index_in_tables, key_index}
use geek_network_programming.Dict.Chains.{Cell, Holds, home, lookup_in, search_table_lem}
use geek_network_programming.Dict.Model.{View, Single, Double, Models, lookup-Stored}
use geek_network_programming.Dict.Growth.{Kept, Ready, one, two, expand_if_needed_lem}

-- the index of `_dictKeyIndex`: -1 for a string that is there
abbrev pub index_for : Option (Ptr × Ptr) → ℕ → ℤ
index_for none i = pos i
index_for (some x) i = minus_one

-- the slot that a new key goes to
abbrev pub target : Dict → List ℕ → ℕ
target d q = if is_rehashing d then home d.ht1 q else home d.ht0 q

module _ (text : Ptr → List ℕ) where
  pub found_ne :
      {h : Heap} {t : Dictht} {c : ℕ → List Cell} (q : List ℕ) (a v : Ptr)
      → Holds h t c
      → lookup_in text t c q ≡ some (a, v)
      → (a == null) ≡ false
  found_ne q a v w e = let s = lookup-Stored text q w e in ==_ne a 0 s.given

module _ (text : Ptr → List ℕ) {f : View} where
  pub index-Single :
      (d : Dict) (fuel : ℕ) (key : Ptr)
      → Single text d f
      → d.ht0.used < fuel
      → index_in_tables text fuel d key ≡ ok (index_for (f (text key)) (home d.ht0 (text key)))
  unfolding index_in_tables
  index-Single d fuel key m lt =
      let q = text key in
      rw (search_table_lem text fuel key m.holds lt, m.reads q)
        (elim (Option-cases (lookup_in text d.ht0 m.c q)) [
          | inl o ↦ rw (o, m.still)
          | inr ((a, v), o) ↦ rw (o, found_ne text q a v m.holds o)
        ])

  index-Double :
      (d : Dict) (fuel : ℕ) (key : Ptr)
      → Double text d f
      → d.ht0.used < fuel
      → d.ht1.used < fuel
      → index_in_tables text fuel d key ≡ ok (index_for (f (text key)) (home d.ht1 (text key)))
  unfolding index_in_tables
  index-Double d fuel key m lt0 lt1 =
      let q = text key in
      rw (search_table_lem text fuel key m.holds0 lt0, m.reads q)
        (elim (Option-cases (lookup_in text d.ht0 m.c0 q)) [
          | inl o ↦
              rw (o, m.going, search_table_lem text fuel key m.holds1 lt1)
                (elim (Option-cases (lookup_in text d.ht1 m.c1 q)) [
                  | inl o' ↦ rw o'
                  | inr ((a, v), o') ↦ rw (o', found_ne text q a v m.holds1 o')
                ])
          | inr ((a, v), o) ↦ rw (o, found_ne text q a v m.holds0 o)
        ])

  index_ready :
      (d : Dict) (fuel : ℕ) (key : Ptr)
      → Ready text d f
      → d.ht0.used + d.ht1.used < fuel
      → index_in_tables text fuel d key ≡ ok (index_for (f (text key)) (target d (text key)))
  index_ready d fuel key (one m) lt = rw m.still (index-Single d fuel key m (omega arith))
  index_ready d fuel key (two m) lt =
      rw m.going (index-Double d fuel key m (omega arith) (omega arith))

  -- `_dictKeyIndex` on the map: the slot for a new string, -1 for one that is there
  pub key_index_lem :
      (d : Dict) (fuel : ℕ) (key : Ptr)
      → Models text d f
      → d.ht0.used + d.ht1.used < fuel
      → d.ht0.used + d.ht1.used < 2 ^ 62
      → (d' : Dict) × (key_index text fuel true d key
          ≡ ok (index_for (f (text key)) (target d' (text key)), d'))
        × Ready text d' f
        × Kept d d'
  unfolding key_index
  key_index_lem d fuel key m lt small =
      let (d', run, ready, kept) = expand_if_needed_lem text d m small in
      (d', rw (run, index_ready d' fuel key ready (rw kept.total lt)), ready, kept)

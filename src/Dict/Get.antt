-- ===== src/Dict/Get.antt =====
-- `dictGet` of lib/dict.c on the map that a dictionary stands for.
use geek_network_programming.Base.{
  ℕ, suc, ◌+◌, ◌^◌, ◌≤◌, ◌<◌, ◌≡◌, refl, ap, inl, inr, Bool, Bool-cases, Option-cases, List, ◌==◌,
  arith,
}
use geek_network_programming.Dict.Defs.{Ptr, Dictht, Dict, ok, dict_size}
use geek_network_programming.Dict.Operations.{get, get_in_tables}
use geek_network_programming.Dict.Chains.{address, lookup_in, search_table_lem}
use geek_network_programming.Dict.Model.{
  View, Single, Double, Models, unused, single, double, Models-empty,
}
use geek_network_programming.Dict.Growth.{Kept, rehash_step-Models}
use geek_network_programming.Dict.Index.{found_ne}

module _ (text : Ptr → List ℕ) {f : View} where
  pub get-Single :
      (room : Bool) (d : Dict) (fuel : ℕ) (key : Ptr)
      → Single text d f
      → d.ht0.used < fuel
      → get_in_tables text room fuel d key ≡ ok (address (f (text key)))
  unfolding get_in_tables
  get-Single room d fuel key m lt =
      let q = text key in
      rw (search_table_lem text fuel key m.holds lt, m.reads q)
        (elim (Option-cases (lookup_in text d.ht0 m.c q)) [
          | inl o ↦ rw (o, m.still)
          | inr ((a, v), o) ↦ rw (o, found_ne text q a v m.holds o)
        ])

  get-Double :
      (room : Bool) (d : Dict) (fuel : ℕ) (key : Ptr)
      → Double text d f
      → d.ht0.used < fuel
      → d.ht1.used < fuel
      → get_in_tables text room fuel d key ≡ ok (address (f (text key)))
  unfolding get_in_tables
  get-Double room d fuel key m lt0 lt1 =
      let q = text key in
      rw (search_table_lem text fuel key m.holds0 lt0, m.reads q)
        (elim (Option-cases (lookup_in text d.ht0 m.c0 q)) [
          | inl o ↦ rw (o, m.going, search_table_lem text fuel key m.holds1 lt1)
          | inr ((a, v), o) ↦ rw (o, found_ne text q a v m.holds0 o)
        ])

  get_models :
      (room : Bool) (d : Dict) (fuel : ℕ) (key : Ptr)
      → Models text d f
      → d.ht0.used + d.ht1.used < fuel
      → 0 < d.ht0.used + d.ht1.used
      → get_in_tables text room fuel d key ≡ ok (address (f (text key)))
  get_models room d fuel key (unused m) lt full =
      let none_ : d.ht0.used ≡ 0 = ap (λ (t : Dictht). t.used) m.table0 in
      let none_' = m.used1 in absurd (omega arith)
  get_models room d fuel key (single m) lt full = get-Single room d fuel key m (omega arith)
  get_models room d fuel key (double m) lt full =
      get-Double room d fuel key m (omega arith) (omega arith)

  -- dictGet on a dictionary that stands for a map of fewer than 2 ^ 62 entries returns the address
  -- of a string's entry, and NULL for a string that is not there, with one round more than there
  -- are entries; what the dictionary stands for, the heap and the number of entries stay the same.
  pub get-Models :
      (room : Bool) (d : Dict) (fuel : ℕ) (key : Ptr)
      → Models text d f
      → d.ht0.used + d.ht1.used ≤ fuel
      → d.ht0.used + d.ht1.used < 2 ^ 62
      → (d' : Dict) × (get text room (suc fuel) d key ≡ ok (address (f (text key)), d'))
        × Models text d' f
        × Kept d d'
  unfolding get
  get-Models room d fuel key m lt small = elim (Bool-cases (dict_size d == 0)) [
    | inl e ↦
        let nothing : d.ht0.used + d.ht1.used ≡ 0 = ground arith in
        (d, rw (e, Models-empty text (text key) m nothing), m, record { heap = refl; total = refl })
    | inr e ↦
        let (d', run, m', kept) = rehash_step-Models text room fuel d m in
        let same = kept.total in
        (
          d',
          rw (e, run, get_models room d' (suc fuel) key m' (omega arith) (ground arith)),
          m',
          kept,
        )
  ]

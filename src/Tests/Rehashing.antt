-- ===== src/Tests/Rehashing.antt =====
-- A dictionary of two keys in the middle of a rehash: one key in each table, in slots of the same hash.
use geek_network_programming.Base.{
  ℕ, ◌<◌, ◌≡◌, refl, sym, inl, inr, Bool-cases, ◌==◌, ==_iff, ==_ne, none, some, List, [], ◌∷◌,
  true, pos, arith,
}
use geek_network_programming.Dict.Defs.{Ptr, Dict, Dictht, Heap, update, ok, fault, slot}
use geek_network_programming.Dict.Tables.{table_of, gen_hash}
use geek_network_programming.Dict.Operations.{del, get}
use geek_network_programming.Dict.Chains.{
  Holds-update, Cell, home, home-lt, push_cell, made, extended, extended-Holds, lookup_in,
}
use geek_network_programming.Dict.Model.{View, Double, blank, or_else, table_of-Holds}
use geek_network_programming.Dict.Tidy.{Tidy, total}
use geek_network_programming.Dict.Dangling.{del-Dangles}

abbrev text : Ptr → List ℕ
text p = p ∷ []

-- a table of `n` slots with one key, which is at address `key`, and whose entry is at `a`
abbrev place : ℕ → Ptr → ℕ
place n key = home (table_of true n) (text key)

abbrev one : ℕ → (a key : Ptr) → Dictht
one n a key = extended text (table_of true n) (place n key) a

abbrev cells : ℕ → (a key : Ptr) → ℕ → List Cell
cells n a key =
    push_cell text blank (place n key) (a, made text (table_of true n) (place n key) key 7)

one-Tidy :
    (n : ℕ) (a key : Ptr)
    → place n key < n
    → total (cells n a key) n ≡ 1
    → Tidy text (one n a key) (cells n a key)
one-Tidy n a key lt one_ = record {
  homes = λ i. elim (Bool-cases (i == place n key)) [
    | inl e ↦ rw e (sym ((==_iff i (place n key)).0 e), tt)
    | inr e ↦ rw e tt
  ];
  unique = λ i. elim (Bool-cases (i == place n key)) [ inl e ↦ rw e (tt, tt) | inr e ↦ rw e tt ];
  counts = one_;
  beyond = λ i le. rw (==_ne i (place n key) (omega arith)) refl;
  small = omega arith;
}

abbrev first_heap : Heap
first_heap = update (λ _. none) 1 (some (made text (table_of true 4) (place 4 101) 101 7))

abbrev half_way : Dict
half_way = record {
  ht0 = one 4 1 101;
  ht1 = one 8 2 105;
  rehashidx = pos 0;
  heap = update first_heap 2 (some (made text (table_of true 8) (place 8 105) 105 7));
}

abbrev view : View
view s =
    or_else (lookup_in text half_way.ht0 (cells 4 1 101) s)
      (lookup_in text half_way.ht1 (cells 8 2 105) s)

half_way-Double : Double text half_way view
unfolding gen_hash
half_way-Double = record {
  c0 = cells 4 1 101;
  c1 = cells 8 2 105;
  holds0 = Holds-update 2 (some _) refl (
      extended-Holds text (table_of-Holds (λ _. none) 4 (omega arith)) 1 101 7
        (λ e. absurd (omega arith)) refl (omega arith) (place 4 101)
        (home-lt (101 ∷ []) (table_of-Holds (λ _. none) 4 (omega arith))));
  holds1 =
      extended-Holds text (table_of-Holds first_heap 8 (omega arith)) 2 105 7
        (λ e. absurd (omega arith)) refl (omega arith) (place 8 105)
        (home-lt (105 ∷ []) (table_of-Holds first_heap 8 (omega arith)));
  going = refl;
  reads = λ s. refl;
}

dangling_example :
    (d' : Dict) × (del text true 3 half_way 105 ≡ ok (2, d'))
    × (d'.heap 2 ≡ none)
    × (slot d'.ht1 (home half_way.ht1 (105 ∷ [])) ≡ ok 2)
    × (get text true 3 d' 105 ≡ fault)
unfolding gen_hash half_way-Double
dangling_example =
    del-Dangles text true half_way 2 105 half_way-Double (one-Tidy 4 1 101 (omega arith) refl)
      (one-Tidy 8 2 105 (omega arith) refl) 1 (made text (table_of true 4) (place 4 101) 101 7) [] 2
      (made text (table_of true 8) (place 8 105) 105 7) [] refl refl refl refl tt (omega arith)
      (omega arith)

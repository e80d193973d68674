-- ===== src/Tests/Dictionary.antt =====
-- lib/dict.c at small dictionaries.
use geek_network_programming.Base.{
  ℕ, ◌≡◌, refl, sym, ap, inl, inr, Bool-cases, ◌==◌, ==_iff, ==_ne, Option, none, some, List, [],
  ◌∷◌, true, ℤ, pos, minus_one, arith,
}
use geek_network_programming.Dict.Chains.{
  Holds, Cell, home, home-lt, lookup_in, push_cell, made, extended, extended-Holds, address,
}
use geek_network_programming.Dict.Model.{
  View, Models, unused, single, Single, blank, table_of-Holds,
}
use geek_network_programming.Dict.Growth.{Kept, rehash_step-still}
use geek_network_programming.Dict.Get.{get-Models}
use geek_network_programming.Dict.Add.{AddsTo, add-Models}
use geek_network_programming.Dict.Tidy.{Tidy}
use geek_network_programming.Dict.Del.{Deleted, del-Deleted}
use geek_network_programming.Dict.AddDel.{add-del}
use geek_network_programming.Dict.Session.{Op, store, lookup, remove, run, final}
use geek_network_programming.Dict.Session.Idle.{InOrder}
use geek_network_programming.Dict.Session.Answers.{run-answers}
use geek_network_programming.Dict.Defs.{
  Ptr, Entry, Dict, Dictht, Heap, update, dict_ok, dict_err, Result, ok, ◌>>=◌, load, slot,
}
use geek_network_programming.Dict.Tables.{
  reset, table_of, init, gen_hash, next_power, expand_if_needed, expand, install, index_in_tables,
  key_index, search_table, find_entry,
}
use geek_network_programming.Dict.Rehash.{
  rehash, rehash_step, rehash_loop, finish, skip_empty, move_chain, move_entry, slot_at,
}
use geek_network_programming.Dict.Operations.{add, get, del, insert, put_front, get_in_tables}

-- The string at address 100 + n is the one byte n.
abbrev text : Ptr → List ℕ
text p = p ∷ []

abbrev empty : Dict
empty = init (λ _. none)

-- one name for all that the runs look into
put : Ptr → Dict → Result Dict
unfolding add rehash_step rehash rehash_loop finish key_index expand_if_needed expand install
    next_power index_in_tables search_table find_entry load slot gen_hash insert put_front get
    get_in_tables skip_empty move_chain move_entry slot_at
put k d = add text true 20 d k k 7 >>= λ r. ok r.1

five : Result Dict
unfolding put
five = put 1 empty >>= put 2 >>= put 3 >>= put 4 >>= put 5

look : Ptr → Dict → Result Ptr
look k d = get text true 20 d k >>= λ r. ok r.0

hash_of_ab : gen_hash (97 ∷ 98 ∷ []) ≡ 5863208
unfolding gen_hash
hash_of_ab = refl

abbrev numbers : Dict → ℕ × ℕ × ℕ × ℕ × ℤ
numbers d = (d.ht0.size, d.ht0.used, d.ht1.size, d.ht1.used, d.rehashidx)

-- The fifth key starts a rehash that the additions do not advance.
five_keys : (five >>= λ d. ok (numbers d)) ≡ ok (4, 4, 8, 1, pos 0)
unfolding five
five_keys = refl

found : (five >>= look 3) ≡ ok 3
unfolding five look
found = refl

-- A rehash of two rounds moves key 3 to a slot that is not its own, and a search misses it.
lost : (five >>= λ d. rehash text true 20 d 2 >>= λ r. look 3 r.1) ≡ ok 0
unfolding five look
lost = refl

abbrev nothing : View
nothing q = none

empty-Models : Models text empty nothing
empty-Models = unused (record { table0 = refl; used1 = refl; still = refl; reads = λ q. refl })

-- The entry at address 1 is given to the string of key 101.
add_example :
    (r : ℕ × Dict) × (add text true 6 empty 1 101 7 ≡ ok r)
    × AddsTo text empty nothing (101 ∷ []) 1 7 none r
add_example =
    add-Models text 1 101 7 (λ e. absurd (omega arith)) empty 5 empty-Models refl (omega arith)
      (omega arith)

abbrev table : Dictht
table = table_of true 4

abbrev no_entry : Heap
no_entry p = none

abbrev place : ℕ
place = home table (101 ∷ [])

-- one key, in a table of four slots
abbrev one_key : Dict
one_key = record {
  ht0 = extended text table place 1;
  ht1 = reset;
  rehashidx = minus_one;
  heap = update no_entry 1 (some (made text table place 101 7));
}

abbrev cells : ℕ → List Cell
cells = push_cell text blank place (1, made text table place 101 7)

abbrev one_key_view : View
one_key_view q = lookup_in text (extended text table place 1) cells q

one_key-Holds : Holds one_key.heap one_key.ht0 cells
unfolding gen_hash
one_key-Holds =
    extended-Holds text (table_of-Holds no_entry 4 (omega arith)) 1 101 7
      (λ e. absurd (omega arith)) refl (omega arith) place
      (home-lt (101 ∷ []) (table_of-Holds no_entry 4 (omega arith)))

one_key-Models : Models text one_key one_key_view
one_key-Models =
    single
      (record { c = cells; holds = one_key-Holds; used1 = refl; still = refl; reads = λ q. refl })

get_example :
    (d' : Dict) × (get text true 2 one_key 101 ≡ ok (address (one_key_view (101 ∷ [])), d'))
    × Models text d' one_key_view
    × Kept one_key d'
get_example = get-Models text true one_key 1 101 one_key-Models (omega arith) (omega arith)

still_example : rehash_step text true 3 one_key ≡ ok one_key
still_example = rehash_step-still text true 2 one_key (λ e. absurd (omega arith))

one_key-Tidy : Tidy text one_key.ht0 cells
unfolding gen_hash
one_key-Tidy = record {
  homes = λ i. elim (Bool-cases (i == place)) [
    | inl e ↦ rw e (sym ((==_iff i place).0 e), tt)
    | inr e ↦ rw e tt
  ];
  unique = λ i. elim (Bool-cases (i == place)) [ inl e ↦ rw e (tt, tt) | inr e ↦ rw e tt ];
  counts = refl;
  beyond = λ i le. rw (==_ne i place (omega arith)) refl;
  small = omega arith;
}

stored_key :
    (q v : Ptr) (e : Entry)
    → one_key_view (101 ∷ []) ≡ some (q, v)
    → one_key.heap q ≡ some e
    → e.key ≡ 101
unfolding gen_hash
stored_key q v e s at =
    let here : 1 ≡ q = ap address s in
    let entry : ◌≡◌ {A = Option Entry} (some (made text table place 101 7)) (some e) =
      rw (← here) at at in
    cc entry

del_example :
    (r : Ptr × Dict) × (del text true 2 one_key 101 ≡ ok r)
    × Deleted text one_key_view (101 ∷ []) one_key (one_key_view (101 ∷ [])) r
del_example =
    del-Deleted text true one_key 1 101
      (record { c = cells; holds = one_key-Holds; used1 = refl; still = refl; reads = λ q. refl })
      one_key-Tidy (omega arith) stored_key

-- A second key, with the entry at address 2, and its deletion.
there_and_back_example :
    (d1 : Dict) × (d2 : Dict) × (add text true 3 one_key 2 103 8 ≡ ok (dict_ok, d1))
    × (del text true 3 d1 103 ≡ ok (2, d2))
    × ((n : Single text d2 one_key_view) × Tidy text d2.ht0 n.c)
    × (d2.heap 2 ≡ none)
    × (d2.ht0.used ≡ 1)
unfolding gen_hash
there_and_back_example =
    add-del text one_key 2 2 103 8
      (record { c = cells; holds = one_key-Holds; used1 = refl; still = refl; reads = λ q. refl })
      one_key-Tidy (λ e. absurd (omega arith)) refl refl (omega arith) (omega arith) (omega arith)

-- A key is added, refused, and looked for; it is deleted and is not there any more.
abbrev operations : List Op
operations = store 2 103 8 ∷ store 3 103 9 ∷ lookup 101 ∷ remove 103 ∷ lookup 103 ∷ []

sequence_example :
    (d' : Dict) × (run text 5 operations one_key ≡ ok (dict_ok ∷ dict_err ∷ 1 ∷ 2 ∷ 0 ∷ [], d'))
    × InOrder text d' (final text operations one_key_view)
unfolding gen_hash
sequence_example =
    run-answers text (λ a b e. cc) 4 operations one_key one_key_view
      (record {
        model = record {
          c = cells;
          holds = one_key-Holds;
          used1 = refl;
          still = refl;
          reads = λ q. refl;
        };
        tidy = one_key-Tidy;
      })
      (omega arith) (omega arith)
      (
        (λ e. absurd (omega arith)),
        refl,
        ((λ e. absurd (omega arith)), tt),
        ((λ e. absurd (omega arith)), refl, tt, tt),
      )
      (omega arith)

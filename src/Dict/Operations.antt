-- ===== src/Dict/Operations.antt =====
-- `dictAdd`, `dictGet` and `dictDel` of lib/dict.c.
use geek_network_programming.Base.{
  ℕ, zero, suc, Bool, not, List, ◌==◌, if◌then◌else◌, ℤ, pos, negsuc, minus_one, eq_ℤ, set, some,
  none, bit_and,
}
use geek_network_programming.Dict.Defs.{
  Ptr, null, Heap, Dictht, Dict, Result, ok, fault, out_of_fuel, ◌>>=◌, dict_ok, dict_err,
  dict_size, is_rehashing, load, update, slot,
}
use geek_network_programming.Dict.Tables.{hash_of, search_table, key_index}
use geek_network_programming.Dict.Rehash.{slot_at, less_used, more_used, rehash_step}

-- the writes of `dictAdd` to the chosen table
unfoldable pub put_front : Heap → Dictht → ℤ → (fresh key val : Ptr) → Result (Heap × Dictht)
unfolding slot_at
put_front h t index fresh key val = if fresh == null then fault else do
  head ← slot_at t index
  elim index [
    | pos i ↦ ok (
      update h fresh (some (record { key = key; val = val; next = head })),
      more_used (record t { table = set t.table i fresh }),
    )
    | negsuc i ↦ fault
  ]

-- the search of `dictDel`: by the address of the key. The result has the entry before the one found.
unfoldable pub find_prev : Heap → ℕ → (key prev p : Ptr) → Result (Ptr × Ptr)
find_prev h zero key prev p = out_of_fuel
find_prev h (suc f) key prev p = if p == null then ok (prev, null) else do
  e ← load h p
  let rest = find_prev h f key p e.next
  if key == e.key then ok (prev, p) else rest

-- the writes of `dictDel` when entry `p` is found behind `prev` in slot `i` of a table
unfoldable pub unlink : Heap → Dictht → ℕ → (prev p : Ptr) → Result (Heap × Dictht)
unlink h t i prev p = do
  e ← load h p
  if prev == null
      then ok (update h p none, less_used (record t { table = set t.table i e.next }))
      else do
        b ← load h prev
        ok (update (update h prev (some (record b { next = e.next }))) p none, less_used t)

module _ (text : Ptr → List ℕ) (room : Bool) where
  -- the part of `dictAdd` behind the index
  unfoldable pub insert : Dict → ℤ → (fresh key val : Ptr) → Result (ℕ × Dict)
  insert d index fresh key val =
      if is_rehashing d
      then (do
        (h, t) ← put_front d.heap d.ht1 index fresh key val
        ok (dict_ok, record d { ht1 = t; heap = h }))
      else do
        (h, t) ← put_front d.heap d.ht0 index fresh key val
        ok (dict_ok, record d { ht0 = t; heap = h })

  -- `dictAdd`. The test of `dictIsRehashing` before `_dictRehashStep` is left out: `dictRehash` makes it
  -- too, and changes nothing if it fails.
  unfoldable pub add : ℕ → Dict → (fresh key val : Ptr) → Result (ℕ × Dict)
  add f d fresh key val = do
    d1 ← rehash_step text room f d
    (index, d2) ← key_index text f room d1 key
    if eq_ℤ index minus_one then ok (dict_err, d2) else insert d2 index fresh key val

  -- the loop over the two tables in `dictGet`
  unfoldable pub get_in_tables : ℕ → Dict → Ptr → Result Ptr
  get_in_tables f d key = do
    found ← search_table text f d.heap d.ht0 key
    if not (found == null)
        then ok found
        else if not (is_rehashing d)
        then ok null
        else search_table text f d.heap d.ht1 key

  -- `dictGet`: the result is the entry's address, or NULL.
  unfoldable pub get : ℕ → Dict → Ptr → Result (Ptr × Dict)
  get f d key =
      if dict_size d == 0
      then ok (null, d)
      else do d1 ← rehash_step text room f d; found ← get_in_tables f d1 key; ok (found, d1)

  -- The result is the address of the entry that was freed, or NULL. `prev` is not reset between the
  -- tables, as in the source.
  unfoldable pub del : ℕ → Dict → Ptr → Result (Ptr × Dict)
  unfolding find_prev unlink
  del f d key = if dict_size d == 0 then ok (null, d) else do
    d1 ← rehash_step text room f d
    let i0 = bit_and (hash_of text key) d1.ht0.mask
    head ← slot d1.ht0 i0
    (prev, p) ← find_prev d1.heap f key null head
    if not (p == null)
        then (do (h, t) ← unlink d1.heap d1.ht0 i0 prev p; ok (p, record d1 { ht0 = t; heap = h }))
        else if not (is_rehashing d1)
        then ok (null, d1)
        else do
          let i1 = bit_and (hash_of text key) d1.ht1.mask
          head' ← slot d1.ht1 i1
          (prev', p') ← find_prev d1.heap f key prev head'
          if not (p' == null)
              then (do
                (h, t) ← unlink d1.heap d1.ht1 i1 prev' p'
                ok (p', record d1 { ht1 = t; heap = h }))
              else ok (null, d1)

-- ===== src/Dict/Tables.antt =====
-- The tables of lib/dict.c: creation, hashing, growth, and the search for a key.
-- A function takes the dictionary and returns it anew.
--
-- Parameters: `text` is the C string at an address, which the client leaves alone while it is a key.
-- `room` says whether calloc finds memory, `fresh` is what malloc returns. Loops run on fuel.
use geek_network_programming.Base.{
  ℕ, zero, suc, ◌+◌, ◌-◌, ◌*◌, ◌%◌, ◌^◌, Bool, not, Option, none, some, List, [], ◌∷◌, ◌==◌, leb,
  if◌then◌else◌, ℤ, pos, minus_one, replicate, bit_and,
}
use geek_network_programming.Dict.Defs.{
  Ptr, null, Entry, Heap, Dictht, Dict, Result, ok, out_of_fuel, ◌>>=◌, dict_ok, dict_err,
  ht_initial_size, ulong_mod, long_max, is_rehashing, load, slot, same_text,
}

-- `_dictReset`
abbrev pub reset : Dictht
reset = record { table = []; size = 0; mask = 0; used = 0 }

-- `_dictInit`
abbrev pub init : Heap → Dict
init h = record { ht0 = reset; ht1 = reset; rehashidx = minus_one; heap = h }

-- `dictCreate`; `fresh` is what malloc returns for the `dict` itself.
unfoldable pub create : Ptr → Heap → Option Dict
create fresh h = if fresh == null then none else some (init h)

-- the loop of `_dictGenHash` on an unsigned int, the bytes being unsigned
unfoldable pub hash_loop : ℕ → List ℕ → ℕ
hash_loop hash [] = hash
hash_loop hash (c ∷ cs) = hash_loop ((hash * 2 ^ 5 % 2 ^ 32 + hash + c) % 2 ^ 32) cs

unfoldable pub gen_hash : List ℕ → ℕ
unfolding hash_loop
gen_hash s = hash_loop 5381 s

-- the loop of `_dictNextPower`
unfoldable pub power_loop : ℕ → ℕ → ℕ → Result ℕ
power_loop zero i size = out_of_fuel
power_loop (suc f) i size =
    let rest = power_loop f (i * 2 % ulong_mod) size in if leb size i then ok i else rest

-- `_dictNextPower`, with 64 rounds for its loop.
unfoldable pub next_power : ℕ → Result ℕ
unfolding power_loop
next_power size =
    if leb long_max size
    then ok ((long_max + 1) % ulong_mod)
    else power_loop 64 ht_initial_size size

-- the table that `dictExpand` allocates
abbrev pub table_of : Bool → ℕ → Dictht
table_of room n = record {
  table = if room then replicate n null else [];
  size = n;
  mask = n - 1;
  used = 0;
}

-- the part of `dictExpand` behind the tests
unfoldable pub install : Dict → Dictht → Dict
install d t = elim d.ht0.table [
  | [] ↦ record d { ht0 = t }
  | _ ↦ record d { ht1 = t; rehashidx = pos 0 }
]

-- `dictExpand`
unfoldable pub expand : Bool → Dict → ℕ → Result (ℕ × Dict)
unfolding next_power install
expand room d size = if is_rehashing d then ok (dict_ok, d) else do
  realsize ← next_power size
  if realsize == d.ht0.size
      then ok (dict_err, d)
      else ok (dict_ok, install d (table_of room realsize))

-- `_dictExpandIfNeeded`. `dict_can_resize` is 1, so the ratio of 5 is never asked for.
unfoldable pub expand_if_needed : Bool → Dict → Result (ℕ × Dict)
unfolding expand
expand_if_needed room d =
    if is_rehashing d
    then ok (dict_ok, d)
    else if d.ht0.size == 0
    then expand room d ht_initial_size
    else if leb d.ht0.size d.ht0.used
    then expand room d (d.ht0.used * 2 % ulong_mod)
    else ok (dict_ok, d)

-- `while (entry) { if (test) …; entry = entry->next; }`: the first entry that passes, or NULL
unfoldable pub find_entry : (Entry → Bool) → Heap → ℕ → Ptr → Result Ptr
find_entry test h zero p = out_of_fuel
find_entry test h (suc f) p =
    if p == null
    then ok null
    else do e ← load h p; let rest = find_entry test h f e.next; if test e then ok p else rest

module _ (text : Ptr → List ℕ) where
  abbrev pub hash_of : Ptr → ℕ
  hash_of key = gen_hash (text key)

  -- the loop over the two tables in `_dictKeyIndex` and `dictGet`: one round for table `t`
  unfoldable pub search_table : ℕ → Heap → Dictht → Ptr → Result Ptr
  search_table f h t key = do
    head ← slot t (bit_and (hash_of key) t.mask)
    find_entry (λ e. same_text (text key) (text e.key)) h f head

  -- the loop of `_dictKeyIndex`: -1 if the key is there
  unfoldable pub index_in_tables : ℕ → Dict → Ptr → Result ℤ
  index_in_tables f d key = do
    found ← search_table f d.heap d.ht0 key
    if not (found == null)
        then ok minus_one
        else if not (is_rehashing d)
        then ok (pos (bit_and (hash_of key) d.ht0.mask))
        else do
          found' ← search_table f d.heap d.ht1 key
          if not (found' == null) then ok minus_one else ok (pos (bit_and (hash_of key) d.ht1.mask))

  -- `_dictKeyIndex`
  unfoldable pub key_index : ℕ → Bool → Dict → Ptr → Result (ℤ × Dict)
  key_index f room d key = do
    (status, d') ← expand_if_needed room d
    if status == dict_err
        then ok (minus_one, d')
        else do index ← index_in_tables f d' key; ok (index, d')

-- ===== src/Dict/Rehash.antt =====
-- `dictRehash` and `_dictRehashStep` of lib/dict.c: moving entries from the first table to the second.
use geek_network_programming.Base.{
  ℕ, zero, suc, ◌+◌, ◌-◌, ◌*◌, ◌%◌, Bool, true, false, not, ◌||◌, List, ◌==◌, ltb, if◌then◌else◌, ℤ,
  pos, negsuc, minus_one, eq_ℤ, set, some, bit_and,
}
use geek_network_programming.Dict.Defs.{
  Ptr, null, Entry, Dictht, Dict, Result, ok, fault, out_of_fuel, ◌>>=◌, ◌>>◌, check, ulong_mod,
  to_ulong, is_rehashing, load, update, slot,
}
use geek_network_programming.Dict.Tables.{reset, key_index}

-- `i + 1` and `i - 1` on `int` and `long` (the code's counters stay far from the ends)
abbrev pub inc : ℤ → ℤ
inc (pos n) = pos (n + 1)
inc (negsuc zero) = pos 0
inc (negsuc (suc n)) = negsuc n

abbrev pub dec : ℤ → ℤ
dec (pos zero) = minus_one
dec (pos (suc n)) = pos n
dec (negsuc n) = negsuc (n + 1)

abbrev pub is_zero : ℤ → Bool
is_zero i = eq_ℤ i (pos 0)

-- `table[i]` at a `long` index
unfoldable pub slot_at : Dictht → ℤ → Result Ptr
unfolding slot
slot_at t (pos i) = slot t i
slot_at t (negsuc i) = fault

-- `while (table[rehashidx] == NULL)`: the result is false if the visits are used up.
unfoldable pub skip_empty : ℕ → ℤ → Dict → Result (Bool × ℤ × Dict)
skip_empty zero visits d = out_of_fuel
skip_empty (suc f) visits d = do
  p ← slot_at d.ht0 d.rehashidx
  let d' = record d { rehashidx = inc d.rehashidx }
  let rest = skip_empty f (dec visits) d'
  if p == null
      then (if is_zero (dec visits) then ok (false, dec visits, d') else rest)
      else ok (true, visits, d)

-- `used--` and `used++` on `unsigned long`
abbrev pub less_used : Dictht → Dictht
less_used t = record t { used = (t.used + ulong_mod - 1) % ulong_mod }

abbrev pub more_used : Dictht → Dictht
more_used t = record t { used = (t.used + 1) % ulong_mod }

module _ (text : Ptr → List ℕ) (room : Bool) where
  -- one entry goes to the front of a chain of the second table
  unfoldable pub move_entry : ℕ → Dict → Ptr → Entry → Result Dict
  move_entry f d p e = do
    (index, d') ← key_index text f room d e.key
    let h = bit_and (to_ulong index) d'.ht0.mask
    head ← slot d'.ht1 h
    ok (record d' {
      ht0 = less_used d'.ht0;
      ht1 = more_used (record d'.ht1 { table = set d'.ht1.table h p });
      heap = update d'.heap p (some (record e { next = head }));
    })

  -- `while (de)`
  unfoldable pub move_chain : ℕ → Dict → Ptr → Result Dict
  unfolding move_entry
  move_chain zero d p = out_of_fuel
  move_chain (suc f) d p =
      if p == null
      then ok d
      else do e ← load d.heap p; d' ← move_entry (suc f) d p e; move_chain f d' e.next

  -- `table[rehashidx] = NULL; rehashidx++;`
  abbrev pub close_slot : Dict → Result Dict
  close_slot d = elim d.rehashidx [
    | pos i ↦ ok (record d {
      ht0 = record d.ht0 { table = set d.ht0.table i null };
      rehashidx = inc d.rehashidx;
    })
    | negsuc i ↦ fault
  ]

  -- `while (--n && used != 0)`: the result is false if the visits were used up.
  unfoldable pub rehash_loop : ℕ → ℤ → ℤ → Dict → Result (Bool × Dict)
  unfolding skip_empty move_chain
  rehash_loop zero n visits d = out_of_fuel
  rehash_loop (suc f) n visits d =
      let n' = dec n in
      if is_zero n' || d.ht0.used == 0 then ok (true, d) else do
        check (ltb (to_ulong d.rehashidx) d.ht0.size)
        (found, visits', d1) ← skip_empty (suc f) visits d
        let move = do
          p ← slot_at d1.ht0 d1.rehashidx
          d2 ← move_chain (suc f) d1 p
          d3 ← close_slot d2
          rehash_loop f n' visits' d3
        if found then move else ok (false, d1)

  -- the part of `dictRehash` behind the loop; the heap has no tables, so nothing is freed in it
  unfoldable pub finish : Dict → Dict
  finish d =
      if d.ht0.used == 0 then record d { ht0 = d.ht1; ht1 = reset; rehashidx = minus_one } else d

  -- `dictRehash` for a count of at least 0; `n * 10` visits of empty slots are allowed.
  unfoldable pub rehash : ℕ → Dict → ℕ → Result (ℕ × Dict)
  unfolding rehash_loop finish
  rehash f d n = if not (is_rehashing d) then ok (0, d) else do
    (through, d') ← rehash_loop f (pos n) (pos (n * 10)) d
    if through then ok (1, finish d') else ok (1, d')

  -- `_dictRehashStep`, as it is called: only while rehashing
  unfoldable pub rehash_step : ℕ → Dict → Result Dict
  unfolding rehash
  rehash_step f d = if is_rehashing d then (do (_, d') ← rehash f d 1; ok d') else ok d

-- ===== src/ChannelMap.antt =====
-- The table from descriptors to channels of lib/channel_map.c.
pub mod Growth
use geek_network_programming.Base.{
  ℕ, zero, suc, ◌+◌, ◌-◌, ◌*◌, ◌^◌, Bool, true, false, Option, none, some, List, [], ◌∷◌, ◌++◌,
  ◌==◌, ltb, leb, if◌then◌else◌, ℤ, pos, minus_one, get_elem?, replicate,
}
use geek_network_programming.Base.Result.{Result, ok, fault, out_of_fuel, ◌>>=◌}

-- The address of a channel; 0 is NULL.
abbrev pub Ptr : Type 0
Ptr = ℕ

-- `struct channel_map`. NULL entries are the empty list: nothing is allocated before a slot is used.
pub record ChannelMap : Type 0 where
  pub entries : List Ptr
  pub available_num : ℕ

abbrev pub default_entries_size : ℕ
default_entries_size = 32

-- the end of `int`
abbrev pub int_max : ℕ
int_max = 2 ^ 31 - 1

-- `while (available_num <= slot) available_num <<= 1;` on an `int`, whose overflow is a fault
pub grow_loop : ℕ → ℕ → ℕ → Result ℕ
grow_loop zero n slot = out_of_fuel
grow_loop (suc f) n slot =
    let rest = if ltb int_max (n * 2) then fault else grow_loop f (n * 2) slot in
    if leb n slot then rest else ok n

-- `map_make_space` for a slot of at least 0, with `entry_size` the size of a pointer: realloc keeps
-- the entries and memset clears those behind them. The sizes that they get are products of two
-- `int`s, of which the one for realloc is not the smaller, and whose overflow is a fault. `room`
-- says whether realloc finds memory. The loop has 32 rounds.
pub make_space : Bool → ChannelMap → (slot entry_size : ℕ) → Result (ℤ × ChannelMap)
unfolding grow_loop
make_space room map slot entry_size = if ltb slot map.available_num then ok (pos 0, map) else do
  n ← grow_loop 32 (if map.available_num == 0 then default_entries_size else map.available_num) slot
  if ltb int_max (n * entry_size)
      then fault
      else if room
      then ok (
        pos 0,
        record { entries = map.entries ++ replicate (n - map.available_num) 0; available_num = n },
      )
      else ok (minus_one, map)

-- `map_init`
pub init : ChannelMap
init = record { entries = []; available_num = 0 }

-- the loop of `map_clear` over `n` entries from `i` on: the channels that it frees, in order
pub free_entries : List Ptr → ℕ → ℕ → Result (List Ptr)
free_entries entries zero i = ok []
free_entries entries (suc n) i = do
  rest ← free_entries entries n (i + 1)
  elim (get_elem? entries i) [ none ↦ fault | some p ↦ ok (if p == 0 then rest else p ∷ rest) ]

-- `map_clear`: the channels freed, and the map after it
pub clear : ChannelMap → Result (List Ptr × ChannelMap)
unfolding free_entries
clear map = elim map.entries [
  | [] ↦ ok ([], record { entries = []; available_num = 0 })
  | _ ↦ do
    freed ← free_entries map.entries map.available_num 0
    ok (freed, record { entries = []; available_num = 0 })
]

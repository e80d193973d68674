-- ===== src/ChannelMap/Growth.antt =====
-- What map_make_space and map_clear of lib/channel_map.c do to the entries.
use geek_network_programming.Base.{
  ℕ, zero, suc, ◌+◌, ◌-◌, ◌*◌, ◌^◌, ◌≤◌, ◌<◌, ◌≡◌, refl, ◌⊎◌, Option, none, some, List, [], ◌∷◌,
  ◌++◌, ◌==◌, if◌then◌else◌, arith, length, get_elem?, replicate,
}
use geek_network_programming.Base.Result.{ok}
use geek_network_programming.ChannelMap.{
  Ptr, ChannelMap, default_entries_size, int_max, init, free_entries, clear,
}

-- There are as many entries as the map says, in an `int`.
pub record IsValid (m : ChannelMap) : Type 0 where
  pub counted : length m.entries ≡ m.available_num
  pub fits : m.available_num ≤ int_max

abbrev pub or_null : Option Ptr → Ptr
or_null none = 0
or_null (some p) = p

-- what a lookup of descriptor `i` finds, NULL where there is no entry
abbrev pub lookup : ChannelMap → ℕ → Ptr
lookup m i = or_null (get_elem? m.entries i)

-- `m'` has a place for the slot and reads as `m`.
pub record Grown (m : ChannelMap) (slot : ℕ) (m' : ChannelMap) : Type 0 where
  pub valid : IsValid m'
  pub above : slot < m'.available_num
  pub least :
      (m'.available_num ≡ m.available_num)
      ⊎ ((m'.available_num ≡ default_entries_size) ⊎ (m'.available_num ≤ 2 * slot))
  pub kept : (i : ℕ) → lookup m' i ≡ lookup m i
  pub allocated : (i : ℕ) → i < m'.available_num → (p : Ptr) × (get_elem? m'.entries i ≡ some p)

module _ (m : ChannelMap) (v : IsValid m) (slot entry_size : ℕ) (some_size : 0 < entry_size)
    (first : 32 * entry_size < 2 ^ 31) (few : slot * entry_size < 2 ^ 30) where
  first_size : ℕ
  first_size = if m.available_num == 0 then default_entries_size else m.available_num

  enlarged : (n : ℕ) → ChannelMap
  enlarged n = record {
    entries = m.entries ++ replicate (n - m.available_num) 0;
    available_num = n;
  }

-- the channels in a list of entries
pub channels_of : List Ptr → List Ptr
channels_of [] = []
channels_of (p ∷ ps) = if p == 0 then channels_of ps else p ∷ channels_of ps

free_entries-cons :
    (x : Ptr) (xs : List Ptr) (n i : ℕ) → free_entries (x ∷ xs) n (suc i) ≡ free_entries xs n i
unfolding free_entries
free_entries-cons x xs zero i = refl
free_entries-cons x xs (suc n) i =
    let e : suc i + 1 ≡ suc (i + 1) = omega arith in rw (e, free_entries-cons x xs n (i + 1))

free_entries_lem : (xs : List Ptr) → free_entries xs (length xs) 0 ≡ ok (channels_of xs)
unfolding free_entries channels_of
free_entries_lem [] = refl
free_entries_lem (x ∷ xs) =
    let e : ◌≡◌ {A = ℕ} (0 + 1) 1 = refl in
    rw (free_entries-cons x xs (length xs) 0, free_entries_lem xs)

clear_lem :
    (es : List Ptr) (n : ℕ)
    → length es ≡ n
    → clear (record { entries = es; available_num = n }) ≡ ok (channels_of es, init)
unfolding clear channels_of init
clear_lem [] n e = refl
clear_lem (x ∷ es) n e = rw (← e, free_entries_lem (x ∷ es))

-- map_clear of a valid map reads inside the entries, frees each channel that is there once, in the
-- order of their descriptors, and leaves the map as map_init makes it.
pub clear-init : (m : ChannelMap) → IsValid m → clear m ≡ ok (channels_of m.entries, init)
clear-init m v = clear_lem m.entries m.available_num v.counted

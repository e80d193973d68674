-- ===== src/EventLoop.antt =====
-- Channels (lib/channel.c) and the activation of a channel's events (lib/event_loop.c).
pub mod Activation
use geek_network_programming.Base.{
  ℕ, ◌+◌, Bool, true, false, not, Option, none, some, List, [], ◌∷◌, ◌++◌, ◌==◌, ltb, leb,
  if◌then◌else◌, ℤ, pos, negsuc, minus_one, eq_ℤ, get_elem?, bit_and,
}
use geek_network_programming.Base.Result.{Result, ok, fault, ◌>>=◌, ◌>>◌, check}
use geek_network_programming.ChannelMap.{Ptr, ChannelMap}

abbrev pub event_read : ℕ
event_read = 0x01

abbrev pub event_write : ℕ
event_write = 0x02

-- `struct channel`; the two callbacks are the client's, known here by their addresses.
pub record Channel : Type 0 where
  pub fd : ℤ
  pub events : ℕ
  pub user : Ptr
  pub read : Ptr
  pub write : Ptr

-- `channel_create`, with what malloc returned not NULL
unfoldable pub channel_create : ℤ → ℕ → Ptr → Ptr → Ptr → Channel
channel_create fd events user read write = record {
  fd = fd;
  events = events;
  user = user;
  read = read;
  write = write;
}

-- `channel_write_event_is_enabled`
unfoldable pub channel_write_event_is_enabled : Channel → ℕ
channel_write_event_is_enabled c = bit_and c.events event_write

-- A call of a callback, with its argument.
pub record Callback : Type 0 where
  pub function : Ptr
  pub argument : Ptr

-- What the code reads of `struct event_loop`: the map, and the channels at their addresses (`none`
-- where there is no channel, as at NULL).
pub record EventLoop : Type 0 where
  pub channel_map : ChannelMap
  pub channels : Ptr → Option Channel

-- `x & bit` as a condition
abbrev pub has_bit : ℕ → ℕ → Bool
has_bit x bit = not (bit_and x bit == 0)

-- the two tests of `channel_event_activate`: the callbacks called, in order
abbrev pub callbacks : Channel → ℕ → List Callback
callbacks c events =
    (if has_bit events event_read then record { function = c.read; argument = c.user } ∷ [] else [])
    ++ (if has_bit events event_write
        then record { function = c.write; argument = c.user } ∷ []
        else [])

-- `event_loop->channel_map->entries[fd]`, and the channel behind it
unfoldable pub channel_at : EventLoop → ℕ → Result Channel
channel_at loop fd = elim (get_elem? loop.channel_map.entries fd) [
  | none ↦ fault
  | some p ↦ elim (loop.channels p) [ none ↦ fault | some c ↦ ok c ]
]

-- `channel_event_activate`: the result, and the callbacks called
unfoldable pub channel_event_activate : EventLoop → ℤ → ℕ → Result (ℤ × List Callback)
unfolding channel_at
channel_event_activate loop (negsuc n) events = ok (pos 0, [])
channel_event_activate loop (pos fd) events =
    if ltb loop.channel_map.available_num fd
    then ok (minus_one, [])
    else do c ← channel_at loop fd; check (eq_ℤ (pos fd) c.fd); ok (pos 0, callbacks c events)

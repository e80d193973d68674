-- ===== src/EventLoop/Activation.antt =====
-- Which callbacks an activation calls, and the descriptor at which it leaves the entries.
use geek_network_programming.Base.{
  ℕ, ◌≡◌, false, some, ltb, pos, arith, ==_refl, get_elem?, get_elem?-out, get_elem?-lt,
}
use geek_network_programming.Base.Result.{ok, fault}
use geek_network_programming.ChannelMap.{Ptr}
use geek_network_programming.ChannelMap.Growth.{IsValid}
use geek_network_programming.EventLoop.{
  Channel, EventLoop, callbacks, channel_at, channel_event_activate,
}

-- The channel of descriptor `fd` is registered in the map.
pub record Registered (loop : EventLoop) (fd : ℕ) (c : Channel) : Type 0 where
  pub address : Ptr
  pub entry : get_elem? loop.channel_map.entries fd ≡ some address
  pub channel : loop.channels address ≡ some c
  pub own : c.fd ≡ pos fd

channel_at-Registered :
    (loop : EventLoop) (fd : ℕ) (c : Channel) → Registered loop fd c → channel_at loop fd ≡ ok c
unfolding channel_at
channel_at-Registered loop fd c r = ground arith

-- For a registered descriptor of a valid map the activation returns 0 and calls the read callback
-- if the events have the read bit, then the write callback if they have the write bit, each on the
-- channel's data.
pub activate-callbacks :
    (loop : EventLoop) (fd : ℕ) (c : Channel) (events : ℕ)
    → IsValid loop.channel_map
    → Registered loop fd c
    → channel_event_activate loop (pos fd) events ≡ ok (pos 0, callbacks c events)
unfolding channel_event_activate
activate-callbacks loop fd c events v r =
    let in_ = get_elem?-lt loop.channel_map.entries fd r.entry in
    let counted = v.counted in
    let below : ltb loop.channel_map.available_num fd ≡ false = ground arith in
    rw (below, channel_at-Registered loop fd c r, r.own, ==_refl fd)

-- The guard of the activation compares with `>`: at the descriptor that is just the number of
-- entries of a valid map, it reads behind them.
pub activate-behind :
    (loop : EventLoop) (events : ℕ)
    → IsValid loop.channel_map
    → channel_event_activate loop (pos loop.channel_map.available_num) events ≡ fault
unfolding channel_event_activate channel_at
activate-behind loop events v =
    let out =
      get_elem?-out loop.channel_map.entries loop.channel_map.available_num
        (omega (arith, v.counted)) in
    ground arith

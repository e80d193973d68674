-- ===== src/Tests.antt =====
-- Tests at small inputs, and the theorems at inputs that meet their hypotheses.
mod Dictionary
mod Pools
mod Rehashing
mod Queue
mod Channels
mod Sessions
mod Handlers
mod Setups
mod Servers
mod Requests
mod Shells
mod Races

-- ===== src/Dispatcher.antt =====
-- The interface of a dispatcher, lib/event_dispatcher.h, and what an event loop expects of one.
pub mod Polling
pub mod Epolling
pub mod Setup
use geek_network_programming.Base.{
  ℕ, Bool, true, false, ◌≡◌, Option, none, some, List, [], ◌∷◌, ◌++◌,
}
use geek_network_programming.Base.Result.{Result, ok}
use geek_network_programming.ChannelMap.Growth.{IsValid}
use geek_network_programming.EventLoop.{Channel, EventLoop, Callback}
use geek_network_programming.EventLoop.Activation.{Registered}
use geek_network_programming.Epoll.{Action, calls}

-- `struct event_dispatcher`, without its name. `Report` is what the kernel answers when the dispatch
-- asks for events; `none` is an exit.
pub record EventDispatcher : Type 1 where
  pub Data : Type 0
  pub Report : Type 0
  pub add : Data → Channel → Data
  pub del : Data → Channel → Data
  pub update : Data → Channel → Data
  pub dispatch : EventLoop → Report → Data → Result (Option (List Action))

-- what is found of a descriptor
pub record Event : Type 0 where
  pub fd : ℕ
  pub readable : Bool
  pub writable : Bool

-- each of the descriptors has its channel in the map
abbrev pub AllRegistered : EventLoop → (ℕ → Channel) → List Event → Type 0
AllRegistered loop chan [] = Unit {0}
AllRegistered loop chan (e ∷ es) = Registered loop e.fd (chan e.fd) × AllRegistered loop chan es

-- the calls for one channel: its read callback if it is readable, then its write callback if it is
-- writable, each on the channel's data
abbrev pub called : Channel → (readable writable : Bool) → List Callback
called c true true =
    record { function = c.read; argument = c.user }
    ∷ record { function = c.write; argument = c.user }
    ∷ []
called c true false = record { function = c.read; argument = c.user } ∷ []
called c false true = record { function = c.write; argument = c.user } ∷ []
called c false false = []

abbrev pub all_callbacks : (ℕ → Channel) → List Event → List Callback
all_callbacks chan [] = []
all_callbacks chan (e ∷ es) = called (chan e.fd) e.readable e.writable ++ all_callbacks chan es

-- The events in what the kernel found, of which `none` is a failure.
abbrev pub events_in : Option (List Event) → List Event
events_in none = []
events_in (some es) = es

abbrev pub wanted_actions : (ℕ → Channel) → Option (List Event) → Option (List Action)
wanted_actions chan none = none
wanted_actions chan (some es) = some (calls (all_callbacks chan es))

-- A dispatch calls back for the events that the kernel reports, in order, and does nothing else.
abbrev pub IsFaithful : (D : EventDispatcher) → (D.Data → D.Report → Option (List Event)) → Type 0
IsFaithful D found =
    (loop : EventLoop) (chan : ℕ → Channel) (data_ : D.Data) (report : D.Report)
    → IsValid loop.channel_map
    → AllRegistered loop chan (events_in (found data_ report))
    → D.dispatch loop report data_ ≡ ok (wanted_actions chan (found data_ report))

-- ===== src/Event.antt =====
-- internal/event/hub.go: the hub that keeps the last events and hands each one to its subscribers.
-- A buffered channel is the list of the events that wait in it; its key stands for its address. The
-- JSON encoder and the clock are parameters.
pub mod History
mod Examples
use mahiron.Base.{
  ℕ, ◌+◌, ◌-◌, Bool, true, false, List, [], ◌∷◌, ◌++◌, length, drop, ltb, leb, ◌==◌, if◌then◌else◌,
  Option, none, some,
}
use mahiron.Base.Assoc.{Map, lookup, insert, remove}
use mahiron.Ts.Words.{Bytes}

abbrev pub default_log_capacity : ℕ
default_log_capacity = 100

-- `make(chan Event, 128)`
abbrev pub channel_capacity : ℕ
channel_capacity = 128

pub record Event : Type 0 where
  pub resource : Bytes
  pub kind : Bytes
  pub payload : Bytes
  pub time : ℕ

pub record Hub : Type 0 where
  pub capacity : ℕ
  pub log : List Event
  pub subscribers : Map (List Event)

-- A capacity below 0 is as 0 here: both give the default.
unfoldable pub new_with_capacity : ℕ → Hub
new_with_capacity capacity = record {
  capacity = if capacity == 0 then default_log_capacity else capacity;
  log = [];
  subscribers = [];
}

unfoldable pub new_hub : Hub
new_hub = new_with_capacity default_log_capacity

-- The log with one more event: what exceeds the capacity is cut at the front.
unfoldable pub append_log : ℕ → List Event → Event → List Event
append_log capacity log event =
    let log' = log ++ event ∷ [] in
    let overflow = length log' - capacity in if ltb 0 overflow then drop overflow log' else log'

-- `select { case ch <- event: default: }`: a full channel loses the event.
unfoldable pub offer : Event → List Event → List Event
offer event queue = if ltb (length queue) channel_capacity then queue ++ event ∷ [] else queue

unfoldable pub offer_all : Event → Map (List Event) → Map (List Event)
offer_all event [] = []
offer_all event ((id, queue) ∷ m) = (id, offer event queue) ∷ offer_all event m

-- The part of `PublishEvent` under the lock.
unfoldable pub publish : Event → Hub → Hub
publish event h = record h {
  log = append_log h.capacity h.log event;
  subscribers = offer_all event h.subscribers;
}

-- `PublishEvent`: what the encoder refuses is not published.
unfoldable pub publish_event {ℓ} :
    {A : Type ℓ} → (A → Option Bytes) → ℕ → Bytes → Bytes → A → Hub → Hub
publish_event marshal now resource kind value h = elim (marshal value) [
  | none ↦ h
  | some raw ↦ publish (record { resource = resource; kind = kind; payload = raw; time = now }) h
]

unfoldable pub event_log : Hub → List Event
event_log h = h.log

unfoldable pub subscriber_count : Hub → ℕ
subscriber_count h = length h.subscribers

-- `Subscribe` makes a channel; its unsubscribe function takes it out again, the first time.
unfoldable pub subscribe : ℕ → Hub → Hub
subscribe id h = record h { subscribers = insert id [] h.subscribers }

unfoldable pub unsubscribe : ℕ → Hub → Hub
unsubscribe id h = record h { subscribers = remove id h.subscribers }

-- A sequence of calls of `publish`.
unfoldable pub publish_all : List Event → Hub → Hub
publish_all [] h = h
publish_all (event ∷ rest) h = publish_all rest (publish event h)

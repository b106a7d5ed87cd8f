-- ===== src/Event/Examples.antt =====
-- Runs of the hub.
use mahiron.Base.{ℕ, ◌-◌, ◌≤◌, ◌≡◌, refl, List, [], ◌∷◌, ◌++◌, length, take, some, arith}
use mahiron.Base.Assoc.{lookup, insert}
use mahiron.Event.{
  Event, Hub, new_with_capacity, publish_all, subscribe, event_log, channel_capacity,
}
use mahiron.Event.History.{last, publish_all-log, publish_all-queue}

abbrev event_at : ℕ → Event
event_at time = record { resource = []; kind = []; payload = []; time = time }

abbrev three_events : List Event
three_events = event_at 1 ∷ event_at 2 ∷ event_at 3 ∷ []

abbrev subscribed : Hub
subscribed = subscribe 5 (new_with_capacity 2)

publish_all-log_example :
    (event_log (publish_all three_events (new_with_capacity 2)) ≡ last 2 three_events)
    × (length (event_log (publish_all three_events (new_with_capacity 2))) ≤ 2)
publish_all-log_example = publish_all-log 2 three_events (omega arith)

publish_all-queue_example :
    lookup 5 (publish_all three_events subscribed).subscribers
    ≡ some ([] ++ take (channel_capacity - 0) three_events)
publish_all-queue_example =
    publish_all-queue three_events 5 [] subscribed
      (unfold subscribe new_with_capacity insert lookup in refl)

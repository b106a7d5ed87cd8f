-- ===== src/Event/History.antt =====
-- What the log and the channels hold after any number of events.
use mahiron.Base.{
  ℕ, zero, suc, ◌+◌, ◌-◌, ◌<◌, ◌≤◌, ◌≡◌, refl, sym, ap, ◌∙◌, false, List, [], ◌∷◌, ◌++◌, length,
  take, drop, ltb, ◌==◌, some, arith, Bool-cases, inl, inr, length-append, length-drop,
  drop-append_le, drop-drop, drop_of_length-le, append_assoc, append-nil,
}
use mahiron.Base.Assoc.{Map, lookup}
use mahiron.Event.{
  Event, Hub, new_with_capacity, append_log, offer, offer_all, publish, publish_all,
  channel_capacity, event_log,
}

-- The last `n` events of a history.
abbrev pub last : ℕ → List Event → List Event
last n history = drop (length history - n) history

append_log-eq :
    (capacity : ℕ) (log : List Event) (event : Event)
    → append_log capacity log event ≡ last capacity (log ++ event ∷ [])
unfolding append_log
append_log-eq capacity log event =
    elim (Bool-cases (ltb 0 (length (log ++ event ∷ []) - capacity))) [
      | inl over ↦ rw over refl
      | inr fits ↦
          let zero_over : length (log ++ event ∷ []) - capacity ≡ 0 = ground arith in
          rw fits (rw zero_over refl)
    ]

-- One more event keeps the log the end of the history.
append_log-last :
    (capacity : ℕ) (history : List Event) (event : Event)
    → append_log capacity (last capacity history) event ≡ last capacity (history ++ event ∷ [])
append_log-last capacity history event =
    let k : ℕ = length history - capacity in
    let all : List Event = history ++ event ∷ [] in
    let joined : last capacity history ++ event ∷ [] ≡ drop k all =
      sym (drop-append_le k history (event ∷ []) (omega arith)) in
    let n = length-append history (event ∷ []) in
    let m = length-drop k all in
    let sum : k + (length (drop k all) - capacity) ≡ length all - capacity = omega arith in
    append_log-eq capacity (last capacity history) event
    ∙ ap (last capacity) joined
    ∙ drop-drop (length (drop k all) - capacity) k all
    ∙ ap (λ d. drop d all) sum

publish_all-log_from :
    (events history : List Event) (h : Hub)
    → h.log ≡ last h.capacity history
    → (publish_all events h).log ≡ last h.capacity (history ++ events)
unfolding publish_all publish
publish_all-log_from [] history h e = e ∙ ap (last h.capacity) (sym (append-nil history))
publish_all-log_from (event ∷ rest) history h e =
    publish_all-log_from rest (history ++ event ∷ []) (publish event h)
      (ap (λ log. append_log h.capacity log event) e ∙ append_log-last h.capacity history event)
    ∙ ap (last h.capacity) (append_assoc history (event ∷ []) rest)

new_with_capacity-log : (capacity n : ℕ) → (new_with_capacity capacity).log ≡ last n []
unfolding new_with_capacity
new_with_capacity-log capacity n = sym (drop_of_length-le (0 - n) [] (omega arith))

-- After any events on a new hub of a capacity above 0, `Log` is the last `capacity` of them in their
-- order: nothing else is lost, and the log never exceeds the capacity.
pub publish_all-log :
    (capacity : ℕ) (events : List Event)
    → 0 < capacity
    → (event_log (publish_all events (new_with_capacity capacity)) ≡ last capacity events)
      × (length (event_log (publish_all events (new_with_capacity capacity))) ≤ capacity)
unfolding event_log
publish_all-log capacity events h =
    let zero_ : (capacity == 0) ≡ false = ground arith in
    let hub = new_with_capacity capacity in
    let same : hub.capacity ≡ capacity = unfold new_with_capacity in rw zero_ refl in
    let all : (publish_all events hub).log ≡ last hub.capacity events =
      publish_all-log_from events [] hub (new_with_capacity-log capacity hub.capacity) in
    let e = all ∙ ap (λ c. last c events) same in
    let n = length-drop (length events - capacity) events in (e, rw e (omega arith))

lookup-offer_all :
    (event : Event) (id : ℕ) (queue : List Event) (m : Map (List Event))
    → lookup id m ≡ some queue
    → lookup id (offer_all event m) ≡ some (offer event queue)
unfolding lookup offer_all
lookup-offer_all event id queue [] e = cc
lookup-offer_all event id queue ((j, q) ∷ m) e = ground (arith, lookup-offer_all event id queue m)

offer-take :
    (event : Event) (rest queue : List Event)
    → offer event queue ++ take (channel_capacity - length (offer event queue)) rest
      ≡ queue ++ take (channel_capacity - length queue) (event ∷ rest)
unfolding offer
offer-take event rest queue = elim (Bool-cases (ltb (length queue) channel_capacity)) [
  | inl room ↦
      let n = length-append queue (event ∷ []) in
      let cut : channel_capacity - length queue
          ≡ suc (channel_capacity - length (queue ++ event ∷ [])) =
        ground arith in
      rw room (
        rw cut (
          append_assoc queue (event ∷ [])
            (take (channel_capacity - length (queue ++ event ∷ [])) rest)))
  | inr full ↦
      let none_left : channel_capacity - length queue ≡ 0 = ground arith in
      rw full (rw none_left refl)
]

-- Without a receiver, a subscriber's channel takes the events in their order until 128 wait in it,
-- and loses the later ones; other subscribers do not matter.
pub publish_all-queue :
    (events : List Event) (id : ℕ) (queue : List Event) (h : Hub)
    → lookup id h.subscribers ≡ some queue
    → lookup id (publish_all events h).subscribers
      ≡ some (queue ++ take (channel_capacity - length queue) events)
unfolding publish_all publish
publish_all-queue [] id queue h e =
    e
    ∙ ap some
        (sym (append-nil queue) ∙ ap (◌++◌ queue) (sym (nothing (channel_capacity - length queue))))
  where
    nothing : (n : ℕ) → take {A = Event} n [] ≡ []
    nothing zero = refl
    nothing (suc n) = refl
publish_all-queue (event ∷ rest) id queue h e =
    publish_all-queue rest id (offer event queue) (publish event h)
      (lookup-offer_all event id queue h.subscribers e)
    ∙ ap some (offer-take event rest queue)

-- ===== src/Examples/Events.antt =====
-- The broker at concrete histories.
use keebhub.Prelude.{ℕ, ◌≡◌, ◌≢◌, refl, true, false, none, some, [], ◌∷◌}
use keebhub.Prelude.Maps.{get_elem?}
use keebhub.Domain.Chat.{MessageCreatedEvent}
use keebhub.Sse.Broker.{Broker, new_broker, subscribe, unsubscribe, close, publish_message_created}
use keebhub.Sse.Broker.Invariant.{Inv}
use keebhub.Sse.Broker.Delivery.{Published, publish_message_created_lem}
use keebhub.Sse.Broker.Closing.{Closed, in_some_set, close_lem}
use keebhub.Sse.Broker.Lifecycle.{start, next, subscribes, Reach-Inv, Reach-total}
use keebhub.Examples.{event}

-- The seller listens on channel 0, the buyer on channel 1.
abbrev listening : Broker
listening = record {
  closed = false;
  subscribers = (8, 1 ∷ []) ∷ (7, 0 ∷ []) ∷ [];
  heap =
      record { user_id = 7; events = []; is_closed = false }
      ∷ record { user_id = 8; events = []; is_closed = false }
      ∷ [];
}

abbrev listening-Inv : Inv listening
listening-Inv = record { keys = refl; sets = refl; bounded = refl; ended = refl }

publish_message_created_lem_example :
    (b' : Broker) × (publish_message_created event listening ≡ some b')
    × Published event listening b'
publish_message_created_lem_example = publish_message_created_lem event listening listening-Inv

close_lem_example :
    (b' : Broker) × (close listening ≡ some b')
    × Inv b'
    × (b'.closed ≡ true)
    × (b'.subscribers ≡ [])
    × Closed (λ q. in_some_set q listening.subscribers) listening.heap b'.heap
close_lem_example = close_lem listening listening-Inv

abbrev subscribed : Broker
subscribed = (subscribe 7 new_broker).1

Reach-Inv_example : Inv subscribed
Reach-Inv_example = Reach-Inv (next start (subscribes 7))

Reach-total_example :
    ((e : MessageCreatedEvent) → publish_message_created e subscribed ≢ none)
    × ((p : ℕ) → (get_elem? subscribed.heap p ≢ none) → unsubscribe p subscribed ≢ none)
    × (close subscribed ≢ none)
Reach-total_example = Reach-total (next start (subscribes 7))

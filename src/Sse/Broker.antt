-- ===== src/Sse/Broker.antt =====
-- internal/adapter/sse/broker.go. Every method holds the mutex to its end, so a call is one step. A
-- subscriber is a cell of the heap, named by its index: the browser's stream and the broker share
-- it. A panic (send or close on a closed channel, nil dereference) is `none`.
use keebhub.Prelude.{
  ℕ, ◌+◌, Bool, true, false, Option, none, some, List, [], ◌∷◌, ◌++◌, ltb, ◌==◌, if◌then◌else◌,
  length,
}
use keebhub.Prelude.Maps.{mem, without, get_elem?, set, find, insert, delete}
use keebhub.Domain.Chat.{MessageCreatedEvent}
pub mod Sets
pub mod Invariant
pub mod Delivery
pub mod Closing
pub mod Lifecycle

abbrev pub subscription_buffer_size : ℕ
subscription_buffer_size = 16

-- A subscriber with its buffered channel, oldest event first.
pub record Subscriber : Type 0 where
  pub user_id : ℕ
  pub events : List MessageCreatedEvent
  pub is_closed : Bool

-- user_id ↦ set of subscribers
abbrev pub Subscribers : Type 0
Subscribers = List (ℕ × List ℕ)

pub record Broker : Type 0 where
  pub closed : Bool
  pub subscribers : Subscribers
  pub heap : List Subscriber

abbrev pub new_broker : Broker
new_broker = record { closed = false; subscribers = []; heap = [] }

infixl 5 ◌>>=◌
abbrev pub ◌>>=◌ {ℓ κ} : {A : Type ℓ} {B : Type κ} → Option A → (A → Option B) → Option B
none >>= f = none
some a >>= f = f a

-- The set of a user, empty where the map has no entry.
abbrev pub members : ℕ → Subscribers → List ℕ
members user_id m = elim (find user_id m) [ none ↦ [] | some ps ↦ ps ]

-- The new subscription, or `none` for ErrBrokerClosed.
unfoldable pub subscribe : ℕ → Broker → Option ℕ × Broker
subscribe user_id b = if b.closed then (none, b) else (
  some (length b.heap),
  record b {
    subscribers = insert user_id (length b.heap ∷ members user_id b.subscribers) b.subscribers;
    heap = b.heap ++ record { user_id = user_id; events = []; is_closed = false } ∷ [];
  },
)

-- `close(subscription.events)`
unfoldable pub close_channel : ℕ → List Subscriber → Option (List Subscriber)
close_channel p heap = elim (get_elem? heap p) [
  | none ↦ none
  | some s ↦ if s.is_closed then none else some (set heap p (record s { is_closed = true }))
]

-- delete(userSubscriptions, subscription), and the user's entry with its last subscription
abbrev pub drop_member : ℕ → ℕ → List ℕ → Subscribers → Subscribers
drop_member user_id p ps m = elim (without p ps) [
  | [] ↦ delete user_id m
  | q ∷ qs ↦ insert user_id (q ∷ qs) m
]

-- The test of the two map lookups.
abbrev pub is_registered : ℕ → ℕ → Subscribers → Bool
is_registered user_id p m = mem p (members user_id m)

unfoldable pub close_subscription_locked : ℕ → Broker → Option (Bool × Broker)
unfolding close_channel
close_subscription_locked p b = elim (get_elem? b.heap p) [
  | none ↦ none
  | some s ↦
      if is_registered s.user_id p b.subscribers
      then (do
        heap ← close_channel p b.heap
        some (
          true,
          record b {
            subscribers = drop_member s.user_id p (members s.user_id b.subscribers) b.subscribers;
            heap = heap;
          },
        ))
      else some (false, b)
]

-- The `select` with a default: true if the event went into the buffer.
unfoldable pub try_send :
    ℕ → MessageCreatedEvent → List Subscriber → Option (Bool × List Subscriber)
try_send p event heap = elim (get_elem? heap p) [
  | none ↦ none
  | some s ↦
      if s.is_closed
      then none
      else if ltb (length s.events) subscription_buffer_size
      then some (true, set heap p (record s { events = s.events ++ event ∷ [] }))
      else some (false, heap)
]

-- One round of the loop.
unfoldable pub deliver : MessageCreatedEvent → ℕ → Broker → Option Broker
unfolding try_send close_subscription_locked
deliver event p b = do
  (sent, heap) ← try_send p event b.heap
  if sent
      then some (record b { heap = heap })
      else (do (_, b') ← close_subscription_locked p b; some b')

unfoldable pub deliver_all : MessageCreatedEvent → List ℕ → Broker → Option Broker
unfolding deliver
deliver_all event [] b = some b
deliver_all event (p ∷ ps) b = deliver event p b >>= λ b'. deliver_all event ps b'

-- The loop ranges over the set as it is at the start: a round deletes its own subscription only.
unfoldable pub publish_to_user_locked : ℕ → MessageCreatedEvent → Broker → Option Broker
unfolding deliver_all
publish_to_user_locked user_id event b = deliver_all event (members user_id b.subscribers) b

unfoldable pub publish_message_created : MessageCreatedEvent → Broker → Option Broker
unfolding publish_to_user_locked
publish_message_created event b = if b.closed then some b else do
  b' ← publish_to_user_locked event.seller_id event b
  if event.buyer_id == event.seller_id
      then some b'
      else publish_to_user_locked event.buyer_id event b'

unfoldable pub unsubscribe : ℕ → Broker → Option Broker
unfolding close_subscription_locked
unsubscribe p b = do (_, b') ← close_subscription_locked p b; some b'

unfoldable pub close_channels : List ℕ → List Subscriber → Option (List Subscriber)
unfolding close_channel
close_channels [] heap = some heap
close_channels (p ∷ ps) heap = close_channel p heap >>= λ heap'. close_channels ps heap'

unfoldable pub close_sets : Subscribers → List Subscriber → Option (List Subscriber)
unfolding close_channels
close_sets [] heap = some heap
close_sets ((u, ps) ∷ m) heap = close_channels ps heap >>= λ heap'. close_sets m heap'

unfoldable pub close : Broker → Option Broker
unfolding close_sets
close b = if b.closed then some b else do
  heap ← close_sets b.subscribers b.heap
  some (record { closed = true; subscribers = []; heap = heap })

-- The browser's stream takes the oldest event; an empty channel that is closed ends the stream.
unfoldable pub receive : ℕ → List Subscriber → List Subscriber
receive p heap = elim (get_elem? heap p) [
  | none ↦ heap
  | some s ↦ elim s.events [ [] ↦ heap | e ∷ rest ↦ set heap p (record s { events = rest }) ]
]

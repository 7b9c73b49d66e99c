-- ===== src/Sse/Broker/Lifecycle.antt =====
-- Subscribing, unsubscribing and reading; every history of the broker.
use keebhub.Prelude.{
  ℕ, ◌≡◌, ◌≢◌, subst, refl, inl, inr, Bool-cases, Option-cases, true, false, ◌&&◌, ◌||◌, not,
  Option, none, some, List, [], ◌∷◌, ◌++◌, arith, ◌==◌, if◌then◌else◌, every, every-append, length,
  ==_iff, ==_refl,
}
use keebhub.Prelude.Maps.{
  mem, distinct, get_elem?, set, insert, distinct_keys-insert, get_elem?-append, get_elem?-length,
  every-mem,
}
use keebhub.Domain.Chat.{MessageCreatedEvent}
use keebhub.Sse.Broker.{
  Subscriber, Subscribers, Broker, new_broker, members, is_registered, subscribe, unsubscribe,
  close, receive, publish_message_created,
}
use keebhub.Sse.Broker.Sets.{open_for, sets_ok, in_bounds, every-set, members-ok, sets_ok-same}
use keebhub.Sse.Broker.Invariant.{
  Inv, members-insert, open_for-sent, every-get_elem?, is_registered-drop_member, shut,
  close_subscription_locked-registered, close_subscription_locked-unregistered,
}
use keebhub.Sse.Broker.Delivery.{publish_message_created_lem}
use keebhub.Sse.Broker.Closing.{close_lem}

module _ (heap : List Subscriber) (s : Subscriber) where
  open_for-fresh : (v q : ℕ) → open_for heap v q ≡ true → open_for (heap ++ s ∷ []) v q ≡ true
  open_for-fresh v q h =
      ground (arith, get_elem?-append heap s q, get_elem?-length heap, ==_iff q (length heap))

  every-fresh :
      (v : ℕ) (ps : List ℕ)
      → every (open_for heap v) ps ≡ true
      → every (open_for (heap ++ s ∷ []) v) ps ≡ true
  every-fresh v [] h = refl
  every-fresh v (q ∷ ps) h = ground (arith, open_for-fresh v q, every-fresh v ps)

  sets_ok-fresh : (m : Subscribers) → sets_ok heap m ≡ true → sets_ok (heap ++ s ∷ []) m ≡ true
  sets_ok-fresh [] h = refl
  sets_ok-fresh ((v, ps) ∷ m) h = ground (arith, every-fresh v ps, sets_ok-fresh m)

sets_ok-put :
    (heap : List Subscriber) (u : ℕ) (qs : List ℕ) (m : Subscribers)
    → every (open_for heap u) qs ≡ true
    → distinct qs ≡ true
    → sets_ok heap m ≡ true
    → sets_ok heap (insert u qs m) ≡ true
sets_ok-put heap u qs [] a d h = ground arith
sets_ok-put heap u qs ((v, ps) ∷ m) a d h = ground (arith, sets_ok-put heap u qs m)

-- The name of a new subscriber is in no set.
fresh-not_mem :
    (heap : List Subscriber) (u : ℕ) (ps : List ℕ)
    → every (open_for heap u) ps ≡ true
    → mem (length heap) ps ≡ false
fresh-not_mem heap u ps h = elim (Bool-cases (mem (length heap) ps)) [
  | inl k ↦
      absurd
        (ground (arith, every-mem (open_for heap u) (length heap) ps h k, get_elem?-length heap))
  | inr k ↦ k
]

-- A closed broker refuses; an open one adds one open, empty channel for the user, registers it, and
-- keeps every other registration.
pub subscribe_lem :
    (u : ℕ) (b : Broker)
    → Inv b
    → Inv (subscribe u b).1
      × ((subscribe u b).0 ≡ (if b.closed then none else some (length b.heap)))
      × ((v q : ℕ)
          → is_registered v q (subscribe u b).1.subscribers
            ≡ (is_registered v q b.subscribers || (not b.closed && (u == v && q == length b.heap))))
unfolding subscribe
subscribe_lem u b v = elim (Bool-cases b.closed) [
  | inl closed ↦ simp closed (v, refl, λ w q. ground arith)
  | inr running ↦
      let s : Subscriber = record { user_id = u; events = []; is_closed = false } in
      let (opened, apart) = members-ok b.heap u b.subscribers v.sets in
      let fresh = fresh-not_mem b.heap u (members u b.subscribers) opened in
      simp running (
        record {
          keys = distinct_keys-insert u _ b.subscribers v.keys;
          sets =
              sets_ok-put (b.heap ++ s ∷ []) u (length b.heap ∷ members u b.subscribers)
                b.subscribers
                (ground (
                  arith,
                  every-fresh b.heap s u (members u b.subscribers) opened,
                  get_elem?-append b.heap s (length b.heap),
                  ==_refl (length b.heap),
                  ==_refl u,
                ))
                (ground arith) (sets_ok-fresh b.heap s b.subscribers v.sets);
          bounded = ground (arith, every-append in_bounds b.heap (s ∷ []), v.bounded);
          ended = ground arith;
        },
        refl,
        λ w q. ground (
          arith,
          members-insert u w (length b.heap ∷ members u b.subscribers) b.subscribers,
          ==_iff u w,
          ==_iff q (length b.heap),
          ==_iff (length b.heap) q,
        ),
      )
]

-- Unsubscribing never panics, also for a subscription that the broker has dropped before; exactly
-- the one subscription is gone.
pub unsubscribe_lem :
    (p : ℕ) (s : Subscriber) (b : Broker)
    → Inv b
    → get_elem? b.heap p ≡ some s
    → (b' : Broker) × (unsubscribe p b ≡ some b')
      × Inv b'
      × ((v q : ℕ)
          → is_registered v q b'.subscribers
            ≡ (is_registered v q b.subscribers && not (s.user_id == v && q == p)))
unfolding unsubscribe
unsubscribe_lem p s b v cell = elim (Bool-cases (is_registered s.user_id p b.subscribers)) [
  | inl here ↦
      let (done, inv) = close_subscription_locked-registered b p s v cell here in
      (
        shut b p s v cell,
        rw done,
        inv,
        λ w q. is_registered-drop_member s.user_id p w q b.subscribers,
      )
  | inr gone ↦ (
    b,
    rw (close_subscription_locked-unregistered b p s v cell gone),
    v,
    λ w q. ground (arith, ==_iff s.user_id w, ==_iff q p),
  )
]

receive_cases {ℓ} :
    (P : List Subscriber → Type ℓ) (p : ℕ) (heap : List Subscriber)
    → P heap
    → ((s : Subscriber) (e : MessageCreatedEvent) (rest : List MessageCreatedEvent)
        → get_elem? heap p ≡ some s
        → s.events ≡ e ∷ rest
        → P (set heap p (record s { events = rest })))
    → P (receive p heap)
unfolding receive
receive_cases P p heap stay taken = elim (Option-cases (get_elem? heap p)) [
  | inl e ↦ rw (e, receive) stay
  | inr (s, e) ↦ rw (e, receive) (step s s.events e refl)
]
  where
    step :
        (s : Subscriber) (events : List MessageCreatedEvent)
        → get_elem? heap p ≡ some s
        → s.events ≡ events
        → P (elim events [ [] ↦ heap | e ∷ rest ↦ set heap p (record s { events = rest }) ])
    step s [] h k = stay
    step s (e ∷ rest) h k = taken s e rest h k

receive-Inv : (p : ℕ) (b : Broker) → Inv b → Inv (record b { heap = receive p b.heap })
receive-Inv p b v =
    receive_cases (λ heap. Inv (record b { heap = heap })) p b.heap v
      (λ s e rest cell events. record {
        keys = v.keys;
        sets =
            sets_ok-same b.heap _ (λ w q. open_for-sent b.heap p s rest w q cell) b.subscribers
              v.sets;
        bounded =
            every-set b.heap p (record s { events = rest }) v.bounded
              (ground (arith, every-get_elem? b.heap p s v.bounded cell));
        ended = v.ended;
      })

-- One call of a method, by any goroutine, or one read of a browser's stream.
pub data Step (b : Broker) : Broker → Type 0 where
  subscribes : (u : ℕ) → Step b (subscribe u b).1
  unsubscribes :
      (p : ℕ) (s : Subscriber) {b' : Broker}
      → get_elem? b.heap p ≡ some s
      → unsubscribe p b ≡ some b'
      → Step b b'
  publishes :
      (event : MessageCreatedEvent) {b' : Broker}
      → publish_message_created event b ≡ some b'
      → Step b b'
  closes : {b' : Broker} → close b ≡ some b' → Step b b'
  receives : (p : ℕ) → Step b (record b { heap = receive p b.heap })

pub data Reach : Broker → Type 0 where
  start : Reach new_broker
  next : {b b' : Broker} → Reach b → Step b b' → Reach b'

new_broker-Inv : Inv new_broker
new_broker-Inv = record { keys = refl; sets = refl; bounded = refl; ended = refl }

-- What a call that returns leaves is what the lemma about it says.
same_result {ℓ} :
    (P : Broker → Type ℓ) {b c : Broker} {o : Option Broker} → o ≡ some b → o ≡ some c → P b → P c
same_result P h k p = subst P (ground arith) p

-- After any history of calls and reads the invariant holds: registered channels are open, belong to
-- their user and hold at most 16 events.
pub Reach-Inv : {b : Broker} → Reach b → Inv b
Reach-Inv start = new_broker-Inv
Reach-Inv (next r (subscribes u)) = (subscribe_lem u _ (Reach-Inv r)).0
Reach-Inv (next r (unsubscribes p s cell e)) =
    let (b', done, inv, _) = unsubscribe_lem p s _ (Reach-Inv r) cell in same_result Inv done e inv
Reach-Inv (next r (publishes event e)) =
    let (b', done, all) = publish_message_created_lem event _ (Reach-Inv r) in
    same_result Inv done e all.inv
Reach-Inv (next r (closes e)) =
    let (b', done, inv, _, _, _) = close_lem _ (Reach-Inv r) in same_result Inv done e inv
Reach-Inv (next r (receives p)) = receive-Inv p _ (Reach-Inv r)

-- No call panics, whatever happened before: nothing is sent on or closed twice.
pub Reach-total :
    {b : Broker}
    → Reach b
    → ((event : MessageCreatedEvent) → publish_message_created event b ≢ none)
      × ((p : ℕ) → (get_elem? b.heap p ≢ none) → unsubscribe p b ≢ none)
      × (close b ≢ none)
Reach-total {b} r = (
  λ event e. let (b', done, _) = publish_message_created_lem event _ (Reach-Inv r) in cc (done, e),
  λ p there e. elim (Option-cases (get_elem? b.heap p)) [
    | inl missing ↦ absurd (there missing)
    | inr (s, cell) ↦
        let (b', done, _, _) = unsubscribe_lem p s _ (Reach-Inv r) cell in cc (done, e)
  ],
  λ e. let (b', done, _, _, _, _) = close_lem _ (Reach-Inv r) in cc (done, e),
)

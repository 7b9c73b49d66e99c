-- ===== src/Sse/Broker/Delivery.antt =====
-- What publishing an event does to every channel.
use keebhub.Prelude.{
  ℕ, ◌≡◌, refl, inl, inr, Bool-cases, Bool, true, false, ◌&&◌, ◌||◌, not, Option, none, some, List,
  [], ◌∷◌, ◌++◌, arith, ltb, ◌==◌, if◌then◌else◌, every, length, length-append, ==_iff, ==_refl,
  &&-true_iff,
}
use keebhub.Prelude.Maps.{mem, distinct, get_elem?, set, get_elem?-set}
use keebhub.Domain.Chat.{MessageCreatedEvent}
use keebhub.Sse.Broker.{
  Subscriber, Broker, subscription_buffer_size, members, is_registered, deliver, deliver_all,
  publish_to_user_locked, publish_message_created,
}
use keebhub.Sse.Broker.Sets.{open_for-cell, one_owner, every-set, members-ok, sets_ok-same}
use keebhub.Sse.Broker.Invariant.{
  Inv, registered-open_for, open_if_registered, is_registered-drop_member, open_for-sent, shut,
  close_subscription_locked-registered,
}

-- An open channel takes the event if it has room, and is closed otherwise.
abbrev pub delivered : MessageCreatedEvent → Subscriber → Subscriber
delivered event s =
    if ltb (length s.events) subscription_buffer_size
    then record s { events = s.events ++ event ∷ [] }
    else record s { is_closed = true }

abbrev pub map_cell : (Subscriber → Subscriber) → Option Subscriber → Option Subscriber
map_cell f none = none
map_cell f (some s) = some (f s)

-- The channels that `hit` names have been delivered to, and no other channel or registration of
-- the user u has changed.
pub record Delivered (event : MessageCreatedEvent) (u : ℕ) (hit : ℕ → Bool) (b b' : Broker)
    : Type 0 where
  pub inv : Inv b'
  pub cells :
      (q : ℕ)
      → get_elem? b'.heap q
        ≡ (if hit q then map_cell (delivered event) (get_elem? b.heap q) else get_elem? b.heap q)
  pub others :
      (v q : ℕ)
      → (u == v && hit q) ≡ false
      → is_registered v q b'.subscribers ≡ is_registered v q b.subscribers

module _ (event : MessageCreatedEvent) (u : ℕ) where
  sent-Delivered :
      (b : Broker) (p : ℕ) (s : Subscriber)
      → Inv b
      → get_elem? b.heap p ≡ some s
      → s.is_closed ≡ false
      → ltb (length s.events) 16 ≡ true
      → (b' : Broker) × (deliver event p b ≡ some b') × Delivered event u (λ q. p == q) b b'
  unfolding deliver
  sent-Delivered b p s v cell opened room = (
    record b { heap = set b.heap p (record s { events = s.events ++ event ∷ [] }) },
    ground arith,
    record {
      inv = record {
        keys = v.keys;
        sets =
            sets_ok-same b.heap _ (λ w q. open_for-sent b.heap p s _ w q cell) b.subscribers v.sets;
        bounded =
            every-set b.heap p _ v.bounded (ground (arith, length-append s.events (event ∷ [])));
        ended = v.ended;
      };
      cells = λ q. ground (
        arith,
        get_elem?-set b.heap p q s (record s { events = s.events ++ event ∷ [] }) cell,
        ==_iff p q,
      );
      others = λ w q h. refl;
    },
  )

  full-Delivered :
      (b : Broker) (p : ℕ) (s : Subscriber)
      → Inv b
      → get_elem? b.heap p ≡ some s
      → s.user_id ≡ u
      → s.is_closed ≡ false
      → is_registered u p b.subscribers ≡ true
      → ltb (length s.events) 16 ≡ false
      → (b' : Broker) × (deliver event p b ≡ some b') × Delivered event u (λ q. p == q) b b'
  unfolding deliver
  full-Delivered b p s v cell owner opened h full =
      let (done, inv) = close_subscription_locked-registered b p s v cell (rw owner h) in
      (
        shut b p s v cell,
        (let e = done in ground arith),
        record {
          inv = inv;
          cells = λ q.
              ground (
                arith,
                get_elem?-set b.heap p q s (record s { is_closed = true }) cell,
                ==_iff p q,
              );
          others = λ w q k.
              ground (arith, is_registered-drop_member s.user_id p w q b.subscribers, ==_iff p q);
        },
      )

  deliver-Delivered :
      (b : Broker) (p : ℕ)
      → Inv b
      → is_registered u p b.subscribers ≡ true
      → (b' : Broker) × (deliver event p b ≡ some b') × Delivered event u (λ q. p == q) b b'
  deliver-Delivered b p v h =
      let (s, cell, owner, opened) = open_for-cell b.heap u p (registered-open_for b u p v h) in
      elim (Bool-cases (ltb (length s.events) 16)) [
        | inl room ↦ sent-Delivered b p s v cell opened room
        | inr full ↦ full-Delivered b p s v cell owner opened h full
      ]

  still_registered :
      (b b' : Broker) (p : ℕ) (ps : List ℕ)
      → Delivered event u (λ q. p == q) b b'
      → mem p ps ≡ false
      → every (λ q. is_registered u q b.subscribers) ps ≡ true
      → every (λ q. is_registered u q b'.subscribers) ps ≡ true
  still_registered b b' p [] one d h = refl
  still_registered b b' p (q ∷ ps) one d h =
      ground (arith, one.others u q, ==_iff p q, still_registered b b' p ps one)

  Delivered-cons :
      (b b' b'' : Broker) (p : ℕ) (ps : List ℕ)
      → Delivered event u (λ q. p == q) b b'
      → Delivered event u (λ q. mem q ps) b' b''
      → mem p ps ≡ false
      → Delivered event u (λ q. mem q (p ∷ ps)) b b''
  Delivered-cons b b' b'' p ps one many d = record {
    inv = many.inv;
    cells = λ q. elim (Bool-cases (p == q)) [
      | inl e ↦ rw (← (==_iff p q).0 e) (ground (arith, many.cells p, one.cells p, ==_refl p))
      | inr e ↦ ground (arith, many.cells q, one.cells q)
    ];
    others = λ w q k. ground (arith, many.others w q, one.others w q);
  }

  deliver_all-Delivered :
      (b : Broker) (ps : List ℕ)
      → Inv b
      → distinct ps ≡ true
      → every (λ q. is_registered u q b.subscribers) ps ≡ true
      → (b' : Broker) × (deliver_all event ps b ≡ some b') × Delivered event u (λ q. mem q ps) b b'
  unfolding deliver_all
  deliver_all-Delivered b [] v d h =
      (b, refl, record { inv = v; cells = λ q. refl; others = λ w q k. refl })
  deliver_all-Delivered b (p ∷ ps) v d h =
      let (now, later) =
        (&&-true_iff (is_registered u p b.subscribers)
            (every (λ q. is_registered u q b.subscribers) ps)).0
          h in
      let (apart, d') = (&&-true_iff (not (mem p ps)) (distinct ps)).0 d in
      let fresh : mem p ps ≡ false = ground arith in
      let (b', done, one) = deliver-Delivered b p v now in
      let (b'', rest, many) =
        deliver_all-Delivered b' ps one.inv d' (still_registered b b' p ps one fresh later) in
      (b'', rw done rest, Delivered-cons b b' b'' p ps one many fresh)

every_member : (ps : List ℕ) → every (λ q. mem q ps) ps ≡ true
every_member ps = go ps ps (λ q h. h)
  where
    go :
        (ps qs : List ℕ)
        → ((q : ℕ) → mem q qs ≡ true → mem q ps ≡ true)
        → every (λ q. mem q ps) qs ≡ true
    go ps [] h = refl
    go ps (q ∷ qs) h = ground (arith, h q, ==_refl q, go ps qs (λ r k. h r (ground arith)))

-- Publishing to one user delivers to each of the user's channels, and to no other.
pub publish_to_user_locked-Delivered :
    (event : MessageCreatedEvent) (u : ℕ) (b : Broker)
    → Inv b
    → (b' : Broker) × (publish_to_user_locked u event b ≡ some b')
      × Delivered event u (λ q. is_registered u q b.subscribers) b b'
unfolding publish_to_user_locked
publish_to_user_locked-Delivered event u b v =
    deliver_all-Delivered event u b (members u b.subscribers) v
      (members-ok b.heap u b.subscribers v.sets).1 (every_member (members u b.subscribers))

-- A subscription of the event's seller or buyer.
abbrev pub concerns : MessageCreatedEvent → Broker → ℕ → Bool
concerns event b q =
    is_registered event.seller_id q b.subscribers || is_registered event.buyer_id q b.subscribers

pub record Published (event : MessageCreatedEvent) (b b' : Broker) : Type 0 where
  pub inv : Inv b'
  pub cells :
      (q : ℕ)
      → get_elem? b'.heap q ≡ (
          if concerns event b q
          then map_cell (delivered event) (get_elem? b.heap q)
          else get_elem? b.heap q)

not_both :
    (b : Broker) (u w q : ℕ)
    → Inv b
    → (w == u) ≡ false
    → is_registered u q b.subscribers ≡ true
    → is_registered w q b.subscribers ≡ false
not_both b u w q v apart h = elim (Bool-cases (is_registered w q b.subscribers)) [
  | inl k ↦ absurd (
      ground (
        arith,
        one_owner b.heap u w q (registered-open_for b u q v h) (registered-open_for b w q v k),
      ))
  | inr k ↦ k
]

none_concerned :
    (event : MessageCreatedEvent) (b : Broker) (q : ℕ)
    → Inv b
    → b.closed ≡ true
    → concerns event b q ≡ false
none_concerned event b q v closed = ground (
  arith,
  open_if_registered b.closed b.subscribers event.seller_id q v.ended,
  open_if_registered b.closed b.subscribers event.buyer_id q v.ended,
)

both-Published :
    (event : MessageCreatedEvent) (b b' b'' : Broker)
    → Inv b
    → (event.buyer_id == event.seller_id) ≡ false
    → Delivered event event.seller_id (λ q. is_registered event.seller_id q b.subscribers) b b'
    → Delivered event event.buyer_id (λ q. is_registered event.buyer_id q b'.subscribers) b' b''
    → Published event b b''
both-Published event b b' b'' v apart sold bought = record {
  inv = bought.inv;
  cells = λ q.
      let kept = sold.others event.buyer_id q (
        ground
          (arith, ==_iff event.seller_id event.buyer_id, ==_iff event.buyer_id event.seller_id)) in
      elim (Bool-cases (is_registered event.seller_id q b.subscribers)) [
        | inl s ↦ ground (
          arith,
          bought.cells q,
          sold.cells q,
          not_both b event.seller_id event.buyer_id q v apart s,
        )
        | inr s ↦ ground (arith, bought.cells q, sold.cells q)
      ];
}

-- Publishing never blocks or panics, and keeps the invariant: it returns with the event at the end
-- of every channel of the seller and of the buyer that has room, those that have none closed, and
-- every other channel as it was.
pub publish_message_created_lem :
    (event : MessageCreatedEvent) (b : Broker)
    → Inv b
    → (b' : Broker) × (publish_message_created event b ≡ some b') × Published event b b'
unfolding publish_message_created
publish_message_created_lem event b v = elim (Bool-cases b.closed) [
  | inl closed ↦
      (b, rw closed, record { inv = v; cells = λ q. rw (none_concerned event b q v closed) })
  | inr running ↦
      let (b', done, sold) = publish_to_user_locked-Delivered event event.seller_id b v in
      elim (Bool-cases (event.buyer_id == event.seller_id)) [
        | inl self ↦ (
          b',
          ground arith,
          record {
            inv = sold.inv;
            cells = λ q. ground (arith, sold.cells q, ==_iff event.buyer_id event.seller_id);
          },
        )
        | inr other ↦
            let (b'', rest, bought) =
              publish_to_user_locked-Delivered event event.buyer_id b' sold.inv in
            (b'', ground arith, both-Published event b b' b'' v other sold bought)
      ]
]

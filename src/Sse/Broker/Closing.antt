-- ===== src/Sse/Broker/Closing.antt =====
-- Close closes each registered channel once.
use keebhub.Prelude.{
  ℕ, ◌≡◌, refl, inl, inr, Bool-cases, Bool, true, false, ◌&&◌, ◌||◌, not, some, List, [], ◌∷◌,
  arith, ◌==◌, if◌then◌else◌, every, ==_iff, &&-true_iff,
}
use keebhub.Prelude.Maps.{mem, distinct, get_elem?, set, has_key, distinct_keys, get_elem?-set}
use keebhub.Sse.Broker.{
  Subscriber, Subscribers, Broker, close_channel, close_channels, close_sets, close,
}
use keebhub.Sse.Broker.Sets.{open_for, sets_ok, in_bounds, open_for-cell, every-set, sets_ok-closed}
use keebhub.Sse.Broker.Invariant.{Inv, none_left, open_for-closed, every-get_elem?}
use keebhub.Sse.Broker.Delivery.{map_cell}

abbrev pub ended : Subscriber → Subscriber
ended s = record s { is_closed = true }

-- The channels that `hit` names are closed, and the others are as they were.
pub record Closed (hit : ℕ → Bool) (heap heap' : List Subscriber) : Type 0 where
  pub bounded : every in_bounds heap' ≡ true
  pub cells :
      (q : ℕ)
      → get_elem? heap' q ≡ (if hit q then map_cell ended (get_elem? heap q) else get_elem? heap q)

close_channel-Closed :
    (heap : List Subscriber) (u p : ℕ)
    → every in_bounds heap ≡ true
    → open_for heap u p ≡ true
    → (heap' : List Subscriber) × (close_channel p heap ≡ some heap')
      × Closed (λ q. p == q) heap heap'
      × ((v q : ℕ) → open_for heap' v q ≡ (open_for heap v q && not (q == p)))
unfolding close_channel
close_channel-Closed heap u p h k =
    let (s, cell, owner, opened) = open_for-cell heap u p k in
    (
      set heap p (ended s),
      ground arith,
      record {
        bounded = every-set heap p (ended s) h (every-get_elem? heap p s h cell);
        cells = λ q. ground (arith, get_elem?-set heap p q s (ended s) cell, ==_iff p q);
      },
      λ v q. open_for-closed heap p s v q cell,
    )

Closed-join :
    (hit hit' : ℕ → Bool) (a b c : List Subscriber)
    → Closed hit a b
    → Closed hit' b c
    → Closed (λ q. hit q || hit' q) a c
Closed-join hit hit' a b c one many = record {
  bounded = many.bounded;
  cells = λ q. ground (arith, one.cells q, many.cells q);
}

still_open :
    (heap heap' : List Subscriber) (u p : ℕ) (ps : List ℕ)
    → ((v q : ℕ) → open_for heap' v q ≡ (open_for heap v q && not (q == p)))
    → mem p ps ≡ false
    → every (open_for heap u) ps ≡ true
    → every (open_for heap' u) ps ≡ true
still_open heap heap' u p [] now d h = refl
still_open heap heap' u p (q ∷ ps) now d h =
    ground (arith, now u q, ==_iff q p, still_open heap heap' u p ps now)

close_channels-Closed :
    (heap : List Subscriber) (u : ℕ) (ps : List ℕ) (m : Subscribers)
    → every in_bounds heap ≡ true
    → every (open_for heap u) ps ≡ true
    → distinct ps ≡ true
    → has_key u m ≡ false
    → sets_ok heap m ≡ true
    → (heap' : List Subscriber) × (close_channels ps heap ≡ some heap')
      × Closed (λ q. mem q ps) heap heap'
      × (sets_ok heap' m ≡ true)
unfolding close_channels
close_channels-Closed heap u [] m h k d f o =
    (heap, refl, record { bounded = h; cells = λ q. refl }, o)
close_channels-Closed heap u (p ∷ ps) m h k d f o =
    let (first, later) = (&&-true_iff (open_for heap u p) (every (open_for heap u) ps)).0 k in
    let (apart, d') = (&&-true_iff (not (mem p ps)) (distinct ps)).0 d in
    let fresh : mem p ps ≡ false = ground arith in
    let (heap', done, one, now) = close_channel-Closed heap u p h first in
    let (heap'', rest, many, o') =
      close_channels-Closed heap' u ps m one.bounded (still_open heap heap' u p ps now fresh later)
        d' f (sets_ok-closed heap heap' u p first now m f o) in
    (heap'', rw done rest, Closed-join (λ q. p == q) (λ q. mem q ps) heap heap' heap'' one many, o')

abbrev pub in_some_set : ℕ → Subscribers → Bool
in_some_set q [] = false
in_some_set q ((u, ps) ∷ m) = mem q ps || in_some_set q m

close_sets-Closed :
    (heap : List Subscriber) (m : Subscribers)
    → every in_bounds heap ≡ true
    → distinct_keys m ≡ true
    → sets_ok heap m ≡ true
    → (heap' : List Subscriber) × (close_sets m heap ≡ some heap')
      × Closed (λ q. in_some_set q m) heap heap'
unfolding close_sets
close_sets-Closed heap [] h k o = (heap, refl, record { bounded = h; cells = λ q. refl })
close_sets-Closed heap ((u, ps) ∷ m) h k o =
    let (apart, k') = (&&-true_iff (not (has_key u m)) (distinct_keys m)).0 k in
    let (here, o') =
      (&&-true_iff (every (open_for heap u) ps && distinct ps) (sets_ok heap m)).0 o in
    let (opened, d) = (&&-true_iff (every (open_for heap u) ps) (distinct ps)).0 here in
    let (heap', done, one, o'') = close_channels-Closed heap u ps m h opened d (ground arith) o' in
    let (heap'', rest, many) = close_sets-Closed heap' m one.bounded k' o'' in
    (
      heap'',
      rw done rest,
      Closed-join (λ q. mem q ps) (λ q. in_some_set q m) heap heap' heap'' one many,
    )

no_subscribers :
    (closed : Bool) (m : Subscribers) → closed ≡ true → none_left closed m ≡ true → m ≡ []
no_subscribers closed [] h k = refl
no_subscribers true (e ∷ m) h k = absurd (ground arith)
no_subscribers false (e ∷ m) h k = absurd (ground arith)

-- Close never panics and keeps the invariant: it returns a closed broker with no subscriptions,
-- whose registered channels are all closed and whose other channels are as they were.
pub close_lem :
    (b : Broker)
    → Inv b
    → (b' : Broker) × (close b ≡ some b')
      × Inv b'
      × (b'.closed ≡ true)
      × (b'.subscribers ≡ [])
      × Closed (λ q. in_some_set q b.subscribers) b.heap b'.heap
unfolding close
close_lem b v = elim (Bool-cases b.closed) [
  | inl shut ↦
      let empty = no_subscribers b.closed b.subscribers shut v.ended in
      (b, ground arith, v, shut, empty, record { bounded = v.bounded; cells = λ q. rw empty })
  | inr running ↦
      let (heap', done, all) = close_sets-Closed b.heap b.subscribers v.bounded v.keys v.sets in
      (
        record { closed = true; subscribers = []; heap = heap' },
        ground arith,
        record { keys = refl; sets = refl; bounded = all.bounded; ended = refl },
        refl,
        refl,
        all,
      )
]

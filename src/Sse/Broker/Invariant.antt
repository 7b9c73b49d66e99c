-- ===== src/Sse/Broker/Invariant.antt =====
-- The broker's invariant, and that every method keeps it and never panics.
use keebhub.Prelude.{
  ℕ, ◌≡◌, refl, Bool, true, false, ◌&&◌, not, some, List, [], ◌∷◌, arith, ◌==◌, if◌then◌else◌,
  every, ==_iff,
}
use keebhub.Prelude.Maps.{
  mem, without, get_elem?, set, insert, delete, distinct_keys, find-insert, find-delete,
  distinct_keys-insert, distinct_keys-delete, every-mem, mem-without, get_elem?-set,
}
use keebhub.Domain.Chat.{MessageCreatedEvent}
use keebhub.Sse.Broker.{
  Subscriber, Subscribers, Broker, members, drop_member, is_registered, close_subscription_locked,
}
use keebhub.Sse.Broker.Sets.{
  open_for, sets_ok, in_bounds, every-set, members-ok, sets_ok-drop_member,
}

abbrev pub none_left : Bool → Subscribers → Bool
none_left true (e ∷ m) = false
none_left closed m = true

-- No user stands in the map twice; each registered channel is open, belongs to its user and is
-- registered once; no buffer is overfull; a closed broker has no subscribers.
pub record Inv (b : Broker) : Type 0 where
  pub keys : distinct_keys b.subscribers ≡ true
  pub sets : sets_ok b.heap b.subscribers ≡ true
  pub bounded : every in_bounds b.heap ≡ true
  pub ended : none_left b.closed b.subscribers ≡ true

pub registered-open_for :
    (b : Broker) (u p : ℕ)
    → Inv b
    → is_registered u p b.subscribers ≡ true
    → open_for b.heap u p ≡ true
registered-open_for b u p v h =
    every-mem (open_for b.heap u) p (members u b.subscribers)
      (members-ok b.heap u b.subscribers v.sets).0 h

distinct_keys-drop_member :
    (u p : ℕ) (ps : List ℕ) (m : Subscribers)
    → distinct_keys m ≡ true
    → distinct_keys (drop_member u p ps m) ≡ true
distinct_keys-drop_member u p ps m h = go (without p ps)
  where
    go :
        (qs : List ℕ)
        → distinct_keys (elim qs [ [] ↦ delete u m | q ∷ qs ↦ insert u (q ∷ qs) m ]) ≡ true
    go [] = distinct_keys-delete u m h
    go (q ∷ qs) = distinct_keys-insert u (q ∷ qs) m h

pub members-insert :
    (u v : ℕ) (qs : List ℕ) (m : Subscribers)
    → members v (insert u qs m) ≡ (if u == v then qs else members v m)
members-insert u v qs m = ground (arith, find-insert u v qs m)

members-delete :
    (u v : ℕ) (m : Subscribers) → members v (delete u m) ≡ (if u == v then [] else members v m)
members-delete u v m = ground (arith, find-delete u v m)

-- Exactly the one registration goes.
pub is_registered-drop_member :
    (u p v q : ℕ) (m : Subscribers)
    → is_registered v q (drop_member u p (members u m) m)
      ≡ (is_registered v q m && not (u == v && q == p))
is_registered-drop_member u p v q m = go (without p (members u m)) (mem-without p q (members u m))
  where
    go :
        (qs : List ℕ)
        → mem q qs ≡ (mem q (members u m) && not (q == p))
        → is_registered v q (elim qs [ [] ↦ delete u m | r ∷ qs ↦ insert u (r ∷ qs) m ])
          ≡ (is_registered v q m && not (u == v && q == p))
    go [] h = ground (arith, members-delete u v m, ==_iff u v)
    go (r ∷ qs) h = ground (arith, members-insert u v (r ∷ qs) m, ==_iff u v)

pub open_for-closed :
    (heap : List Subscriber) (p : ℕ) (s : Subscriber) (v q : ℕ)
    → get_elem? heap p ≡ some s
    → open_for (set heap p (record s { is_closed = true })) v q
      ≡ (open_for heap v q && not (q == p))
open_for-closed heap p s v q cell =
    ground (arith, get_elem?-set heap p q s (record s { is_closed = true }) cell, ==_iff p q)

pub open_for-sent :
    (heap : List Subscriber) (p : ℕ) (s : Subscriber) (events : List MessageCreatedEvent) (v q : ℕ)
    → get_elem? heap p ≡ some s
    → open_for (set heap p (record s { events = events })) v q ≡ open_for heap v q
open_for-sent heap p s events v q cell =
    ground (arith, get_elem?-set heap p q s (record s { events = events }) cell, ==_iff p q)

pub every-get_elem? :
    (heap : List Subscriber) (p : ℕ) (s : Subscriber)
    → every in_bounds heap ≡ true
    → get_elem? heap p ≡ some s
    → in_bounds s ≡ true
every-get_elem? [] p s h k = absurd (ground arith)
every-get_elem? (x ∷ heap) ℕ.zero s h k = ground arith
every-get_elem? (x ∷ heap) (ℕ.suc p) s h k = ground (arith, every-get_elem? heap p s)

-- A broker that has a registration is not closed.
pub open_if_registered :
    (closed : Bool) (m : Subscribers) (u p : ℕ)
    → none_left closed m ≡ true
    → is_registered u p m ≡ true
    → closed ≡ false
open_if_registered false m u p h k = refl
open_if_registered true [] u p h k = absurd (ground arith)
open_if_registered true (e ∷ m) u p h k = absurd (ground arith)

module _ (b : Broker) (p : ℕ) (s : Subscriber) (v : Inv b)
    (cell : get_elem? b.heap p ≡ some s) where
  abbrev pub shut : Broker
  shut = record b {
    subscribers = drop_member s.user_id p (members s.user_id b.subscribers) b.subscribers;
    heap = set b.heap p (record s { is_closed = true });
  }

  pub close_subscription_locked-registered :
      is_registered s.user_id p b.subscribers ≡ true
      → (close_subscription_locked p b ≡ some (true, shut)) × Inv shut
  unfolding close_subscription_locked
  close_subscription_locked-registered h =
      let was = registered-open_for b s.user_id p v h in
      (
        ground arith,
        record {
          keys =
              distinct_keys-drop_member s.user_id p (members s.user_id b.subscribers) b.subscribers
                v.keys;
          sets =
              sets_ok-drop_member b.heap _ s.user_id p was
                (λ w q. open_for-closed b.heap p s w q cell) b.subscribers v.keys v.sets;
          bounded =
              every-set b.heap p (record s { is_closed = true }) v.bounded
                (every-get_elem? b.heap p s v.bounded cell);
          ended = rw (open_if_registered b.closed b.subscribers s.user_id p v.ended h);
        },
      )

  pub close_subscription_locked-unregistered :
      is_registered s.user_id p b.subscribers ≡ false
      → close_subscription_locked p b ≡ some (false, b)
  unfolding close_subscription_locked
  close_subscription_locked-unregistered h = ground arith

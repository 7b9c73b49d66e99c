-- ===== src/Sse/Broker/Sets.antt =====
-- The broker's sets of subscribers against the heap: each is open, belongs to its user, and stands
-- in a set once. What sending to a channel and closing one do to that.
use keebhub.Prelude.{
  ℕ, ◌≡◌, refl, inl, inr, Bool-cases, Bool, true, false, ◌&&◌, not, Option, none, some, List, [],
  ◌∷◌, arith, leb, ◌==◌, every, length, ==_iff,
}
use keebhub.Prelude.Maps.{
  without, distinct, get_elem?, set, insert, delete, has_key, distinct_keys, distinct-without,
}
use keebhub.Sse.Broker.{Subscriber, Subscribers, subscription_buffer_size, members, drop_member}

-- The channel p is open and belongs to the user.
abbrev pub open_for : List Subscriber → ℕ → ℕ → Bool
open_for heap u p = elim (get_elem? heap p) [
  | none ↦ false
  | some s ↦ s.user_id == u && not s.is_closed
]

abbrev pub sets_ok : List Subscriber → Subscribers → Bool
sets_ok heap [] = true
sets_ok heap ((u, ps) ∷ m) = (every (open_for heap u) ps && distinct ps) && sets_ok heap m

abbrev pub in_bounds : Subscriber → Bool
in_bounds s = leb (length s.events) subscription_buffer_size

pub open_for-cell :
    (heap : List Subscriber) (u p : ℕ)
    → open_for heap u p ≡ true
    → (s : Subscriber) × (get_elem? heap p ≡ some s) × (s.user_id ≡ u) × (s.is_closed ≡ false)
open_for-cell heap u p h = go (get_elem? heap p) h
  where
    go :
        (o : Option Subscriber)
        → elim o [ none ↦ false | some s ↦ s.user_id == u && not s.is_closed ] ≡ true
        → (s : Subscriber) × (o ≡ some s) × (s.user_id ≡ u) × (s.is_closed ≡ false)
    go none h = absurd (ground arith)
    go (some s) h = (s, refl, ground arith, ground arith)

pub one_owner :
    (heap : List Subscriber) (u v p : ℕ)
    → open_for heap u p ≡ true
    → open_for heap v p ≡ true
    → v ≡ u
one_owner heap u v p h k = ground arith

pub every-set :
    (heap : List Subscriber) (p : ℕ) (s : Subscriber)
    → every in_bounds heap ≡ true
    → in_bounds s ≡ true
    → every in_bounds (set heap p s) ≡ true
every-set [] p s h k = refl
every-set (x ∷ heap) ℕ.zero s h k = ground arith
every-set (x ∷ heap) (ℕ.suc p) s h k = ground (arith, every-set heap p s)

pub members-ok :
    (heap : List Subscriber) (u : ℕ) (m : Subscribers)
    → sets_ok heap m ≡ true
    → (every (open_for heap u) (members u m) ≡ true) × (distinct (members u m) ≡ true)
members-ok heap u [] h = (refl, refl)
members-ok heap u ((v, ps) ∷ m) h = ground (arith, members-ok heap u m)

module _ (heap heap' : List Subscriber)
    (same : (v q : ℕ) → open_for heap' v q ≡ open_for heap v q) where
  every-same :
      (v : ℕ) (ps : List ℕ) → every (open_for heap v) ps ≡ true → every (open_for heap' v) ps ≡ true
  every-same v [] h = refl
  every-same v (p ∷ ps) h = ground (arith, same v p, every-same v ps)

  pub sets_ok-same : (m : Subscribers) → sets_ok heap m ≡ true → sets_ok heap' m ≡ true
  sets_ok-same [] h = refl
  sets_ok-same ((v, ps) ∷ m) h = ground (arith, every-same v ps, sets_ok-same m)

-- The channel p of user u has been closed.
module _ (heap heap' : List Subscriber) (u p : ℕ) (was : open_for heap u p ≡ true)
    (now : (v q : ℕ) → open_for heap' v q ≡ (open_for heap v q && not (q == p))) where
  pub every-closed_self :
      (ps : List ℕ)
      → every (open_for heap u) ps ≡ true
      → every (open_for heap' u) (without p ps) ≡ true
  every-closed_self [] h = refl
  every-closed_self (q ∷ ps) h = ground (arith, now u q, every-closed_self ps)

  open_for-other :
      (v q : ℕ) → (v == u) ≡ false → open_for heap v q ≡ true → open_for heap' v q ≡ true
  open_for-other v q h k = elim (Bool-cases (q == p)) [
    | inl e ↦ absurd (ground (arith, one_owner heap u v p was (rw (← (==_iff q p).0 e) k)))
    | inr e ↦ ground (arith, now v q)
  ]

  every-closed_other :
      (v : ℕ) (ps : List ℕ)
      → (v == u) ≡ false
      → every (open_for heap v) ps ≡ true
      → every (open_for heap' v) ps ≡ true
  every-closed_other v [] h k = refl
  every-closed_other v (q ∷ ps) h k = ground (arith, open_for-other v q, every-closed_other v ps)

  pub sets_ok-closed :
      (m : Subscribers) → has_key u m ≡ false → sets_ok heap m ≡ true → sets_ok heap' m ≡ true
  sets_ok-closed [] h k = refl
  sets_ok-closed ((v, ps) ∷ m) h k = ground (arith, every-closed_other v ps, sets_ok-closed m)

  sets_ok-delete : (m : Subscribers) → sets_ok heap m ≡ true → sets_ok heap' (delete u m) ≡ true
  sets_ok-delete [] h = refl
  sets_ok-delete ((v, ps) ∷ m) h = ground (arith, every-closed_other v ps, sets_ok-delete m)

  sets_ok-insert :
      (qs : List ℕ) (m : Subscribers)
      → every (open_for heap' u) qs ≡ true
      → distinct qs ≡ true
      → distinct_keys m ≡ true
      → sets_ok heap m ≡ true
      → sets_ok heap' (insert u qs m) ≡ true
  sets_ok-insert qs [] a d k h = ground arith
  sets_ok-insert qs ((v, ps) ∷ m) a d k h =
      ground (arith, every-closed_other v ps, sets_ok-insert qs m, sets_ok-closed m, ==_iff v u)

  -- Without the closed channel the sets are in order again.
  pub sets_ok-drop_member :
      (m : Subscribers)
      → distinct_keys m ≡ true
      → sets_ok heap m ≡ true
      → sets_ok heap' (drop_member u p (members u m) m) ≡ true
  sets_ok-drop_member m k h =
      let (a, d) = members-ok heap u m h in
      go (without p (members u m)) (every-closed_self (members u m) a)
        (distinct-without p (members u m) d)
    where
      go :
          (qs : List ℕ)
          → every (open_for heap' u) qs ≡ true
          → distinct qs ≡ true
          → sets_ok heap' (elim qs [ [] ↦ delete u m | q ∷ qs ↦ insert u (q ∷ qs) m ]) ≡ true
      go [] a d = sets_ok-delete m h
      go (q ∷ qs) a d = sets_ok-insert (q ∷ qs) m a d k h

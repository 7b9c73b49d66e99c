-- ===== src/Postgres/Chat/Unread.antt =====
-- internal/app/chat.go over internal/adapter/postgres/chat.go: what marking as read does to the
-- number of unread messages.
use keebhub.Prelude.{
  ℕ, ◌≡◌, ◌∙◌, refl, sym, ap, subst, Bool, true, false, not, ◌&&◌, Option, none, some, inl, inr,
  Bool-cases, [], ◌∷◌, arith, keep, length, ltb, ◌==◌, ==_refl,
}
use Prim.Native.Nat.{max}
use keebhub.Prelude.Rows.{change, first-change, every-first}
use keebhub.Domain.Errors.{Result, ok, err, validation}
use keebhub.Domain.Listing.{Listing}
use keebhub.Domain.Chat.{Conversation, is_participant, is_seller}
use keebhub.App.Exec.{Exec}
use keebhub.App.Chat.{ChatService, mark_conversation_read}
use keebhub.Postgres.Chat.{chat_store, advance_read_pointer}
use keebhub.Postgres.Chat.Tables.{Tables}
use keebhub.Postgres.Chat.Statements.{read_by_seller, read_by_buyer, advanced}
use keebhub.Postgres.Chat.Inbox.{coalesce, pointer_of, counterpart_of, is_unread, unread_count}
use keebhub.Postgres.Chat.Database.{table_queries}
use keebhub.Postgres.Chat.WellFormed.{IsWellFormed}
use keebhub.Postgres.Chat.Writes.{
  found, AdvanceOutcome, not_a_target, seller_moves, buyer_moves,
  advance_read_pointer-AdvanceOutcome,
}
use keebhub.Postgres.Chat.Journal.{found-IsMember}
use keebhub.Postgres.Chat.Pages.{get_conversation_found}

-- How a participant's conversation looks after a message is marked as read.
pub record IsRead (t u : Tables) (id user_id message_id : ℕ) (c : Conversation) : Type 0 where
  pub conversation : Conversation
  pub found_again : found u id user_id ≡ some conversation
  pub pointer : pointer_of user_id conversation ≡ max (pointer_of user_id c) message_id
  pub other_pointer :
      pointer_of (counterpart_of user_id c) conversation ≡ pointer_of (counterpart_of user_id c) c
  pub unread :
      unread_count u.messages user_id conversation
      ≡ length (keep (is_unread id user_id (max (pointer_of user_id c) message_id)) t.messages)

advanced-max :
    (pointer : Option ℕ) (message_id : ℕ)
    → coalesce (advanced pointer message_id) 0 ≡ max (coalesce pointer 0) message_id
advanced-max none message_id = omega arith
advanced-max (some p) message_id = ground arith

module _ (c : Conversation) (user_id message_id : ℕ)
    (differ : not (c.seller_id == c.buyer_id) ≡ true) where
  seller_pointers :
      is_seller c user_id ≡ true
      → (pointer_of user_id (read_by_seller message_id c) ≡ max (pointer_of user_id c) message_id)
        × (pointer_of (counterpart_of user_id c) (read_by_seller message_id c)
            ≡ pointer_of (counterpart_of user_id c) c)
  unfolding is_seller
  seller_pointers s =
      let other : (c.seller_id == c.buyer_id) ≡ false = ground arith in
      (simp s (advanced-max c.seller_last_read_message_id message_id), simp (s, other))

  buyer_pointers :
      is_seller c user_id ≡ false
      → (pointer_of user_id (read_by_buyer message_id c) ≡ max (pointer_of user_id c) message_id)
        × (pointer_of (counterpart_of user_id c) (read_by_buyer message_id c)
            ≡ pointer_of (counterpart_of user_id c) c)
  unfolding is_seller
  buyer_pointers s =
      (simp s (advanced-max c.buyer_last_read_message_id message_id), simp (s, ==_refl c.seller_id))

module _ (t : Tables) (id user_id message_id : ℕ) (service : ChatService Tables)
    (get_listing : ℕ → Exec Tables Listing) where
  mark_refused :
      service.listings ≡ some get_listing
      → service.repository ≡ some (chat_store table_queries)
      → ltb message_id 1 ≡ true
      → mark_conversation_read service user_id id message_id t
        ≡ (err (validation (("last_read_message_id", "must be a positive integer") ∷ [])), t)
  unfolding mark_conversation_read
  mark_refused set_up set_up' low = simp (set_up, set_up', low)

  mark_done :
      (c : Conversation)
      → service.listings ≡ some get_listing
      → service.repository ≡ some (chat_store table_queries)
      → ltb message_id 1 ≡ false
      → found t id user_id ≡ some c
      → mark_conversation_read service user_id id message_id t
        ≡ advance_read_pointer table_queries c user_id message_id t
  unfolding mark_conversation_read
  mark_done c set_up set_up' high there =
      simp (set_up, set_up', high, get_conversation_found t id user_id c there)

module _ (t : Tables) (id user_id message_id : ℕ) (c : Conversation)
    (there : found t id user_id ≡ some c) (w : IsWellFormed t) where
  -- The conversation that the update `f` of the chosen rows leaves.
  change-IsRead :
      (q : Conversation → Bool) (f : Conversation → Conversation)
      → ((d : Conversation) → (f d).id ≡ d.id)
      → ((d : Conversation) → is_participant (f d) user_id ≡ is_participant d user_id)
      → q c ≡ true
      → (pointer_of user_id (f c) ≡ max (pointer_of user_id c) message_id)
        × (pointer_of (counterpart_of user_id c) (f c) ≡ pointer_of (counterpart_of user_id c) c)
      → IsRead t (record t { conversations = change q f t.conversations }) id user_id message_id c
  unfolding unread_count is_participant
  change-IsRead q f same_id same_users chosen (own, other) = record {
    conversation = f c;
    found_again =
        first-change (λ d. d.id == id && is_participant d user_id) q f t.conversations c
          (λ d. rw (same_id d, same_users d)) there
        ∙ rw chosen;
    pointer = own;
    other_pointer = other;
    unread =
        ap (λ i. length (keep (is_unread i user_id (pointer_of user_id (f c))) t.messages))
          (same_id c ∙ (found-IsMember t id user_id c there).0)
        ∙ ap (λ p. length (keep (is_unread id user_id p) t.messages)) own;
  }

  differ : not (c.seller_id == c.buyer_id) ≡ true
  differ =
      every-first (λ d. not (d.seller_id == d.buyer_id))
        (λ d. d.id == id && is_participant d user_id) t.conversations c w.participants_differ there

  advance-IsRead :
      {r : Result (Unit {0}) × Tables}
      → AdvanceOutcome c user_id message_id t r
      → r.0 ≡ ok tt
      → IsRead t r.1 id user_id message_id c
  unfolding is_participant is_seller
  advance-IsRead (not_a_target e) h = absurd (ground arith)
  advance-IsRead (seller_moves m target s) h =
      change-IsRead (λ d. d.id == c.id && d.seller_id == user_id) (read_by_seller message_id)
        (λ d. refl) (λ d. refl) (ground (arith, s)) (seller_pointers c user_id message_id differ s)
  advance-IsRead (buyer_moves m target s) h =
      let member = (found-IsMember t id user_id c there).1 in
      change-IsRead (λ d. d.id == c.id && d.buyer_id == user_id) (read_by_buyer message_id)
        (λ d. refl) (λ d. refl) (ground (arith, s, member))
        (buyer_pointers c user_id message_id differ s)

  -- Where a participant succeeds in marking a message as read, their read pointer becomes the
  -- greater of what it was and this message, the other participant's stays, and what is unread
  -- afterwards are the messages of the other participant after the pointer. The tables are
  -- well-formed.
  pub mark_conversation_read-IsRead :
      (service : ChatService Tables) (get_listing : ℕ → Exec Tables Listing)
      → service.listings ≡ some get_listing
      → service.repository ≡ some (chat_store table_queries)
      → (mark_conversation_read service user_id id message_id t).0 ≡ ok tt
      → IsRead t (mark_conversation_read service user_id id message_id t).1 id user_id message_id c
  mark_conversation_read-IsRead service get_listing set_up set_up' h =
      elim (Bool-cases (ltb message_id 1)) [
        | inl low ↦
            let refused =
              mark_refused t id user_id message_id service get_listing set_up set_up' low in
            absurd (ground (arith, ap (λ r. r.0) refused))
        | inr high ↦
            let done =
              mark_done t id user_id message_id service get_listing c set_up set_up' high there in
            subst (λ r. IsRead t r.1 id user_id message_id c) (sym done)
              (advance-IsRead (advance_read_pointer-AdvanceOutcome c user_id message_id t)
                (ap (λ r. r.0) (sym done) ∙ h))
      ]

-- ===== src/Postgres/Chat/WellFormed.antt =====
-- What holds of the chat's tables at all times, and how the writes of a statement keep it.
use keebhub.Prelude.{
  ℕ, ◌+◌, ◌≤◌, ◌≡◌, ◌∙◌, refl, sym, ap, subst, Bool, true, false, not, ◌&&◌, Option, none, some,
  List, [], ◌∷◌, ◌++◌, arith, ltb, leb, ◌==◌, every, every-append, first, is_some,
}
use keebhub.Prelude.Rows.{
  change, every_mono, first-eq-none, every-change, every-change_same, is_some-first-append,
  is_some-first-change, rising, rising-append, rising-change,
}
use keebhub.Domain.Chat.{Conversation, is_participant, Message}
use keebhub.App.Chat.{StartConversationParams}
use keebhub.Postgres.Chat.Tables.{
  new_conversation, Tables, has_message, in_conversation, same_participants,
}

abbrev pub sent_by_participant : List Conversation → Message → Bool
sent_by_participant conversations m =
    is_some (first (λ c. c.id == m.conversation_id && is_participant c m.sender_id) conversations)

abbrev pub points_to : List Message → ℕ → Option ℕ → Bool
points_to messages conversation_id none = true
points_to messages conversation_id (some id) = has_message messages id conversation_id

abbrev pub is_dated : ℕ → Option ℕ → Bool
is_dated created_at none = true
is_dated created_at (some at) = leb created_at at

-- No two conversations have the same listing, seller and buyer.
abbrev pub unique : List Conversation → Bool
unique [] = true
unique (c ∷ cs) =
    every (λ d. not (same_participants c.listing_id c.seller_id c.buyer_id d)) cs && unique cs

pub record IsWellFormed (t : Tables) : Type 0 where
  pub conversations_rise : rising Conversation.id t.conversations ≡ true
  pub messages_rise : rising Message.id t.messages ≡ true
  pub conversations_counted : every (λ c. ltb c.id t.next_conversation_id) t.conversations ≡ true
  pub messages_counted : every (λ m. ltb m.id t.next_message_id) t.messages ≡ true
  pub message_ids_positive : every (λ m. ltb 0 m.id) t.messages ≡ true
  pub next_id_positive : ltb 0 t.next_message_id ≡ true
  pub participants_differ : every (λ c. not (c.seller_id == c.buyer_id)) t.conversations ≡ true
  pub participants_unique : unique t.conversations ≡ true
  pub participants_send : every (sent_by_participant t.conversations) t.messages ≡ true
  pub dated : every (λ c. is_dated c.created_at c.last_message_at) t.conversations ≡ true
  pub seller_pointers :
      every (λ c. points_to t.messages c.id c.seller_last_read_message_id) t.conversations ≡ true
  pub buyer_pointers :
      every (λ c. points_to t.messages c.id c.buyer_last_read_message_id) t.conversations ≡ true

-- An update of a conversation that leaves alone who talks about what.
pub record KeepsParticipants (f : Conversation → Conversation) : Type 0 where
  pub same_id : (c : Conversation) → (f c).id ≡ c.id
  pub same_listing : (c : Conversation) → (f c).listing_id ≡ c.listing_id
  pub same_seller : (c : Conversation) → (f c).seller_id ≡ c.seller_id
  pub same_buyer : (c : Conversation) → (f c).buyer_id ≡ c.buyer_id

-- Identifiers that were taken and not used do no harm.
pub counters-IsWellFormed :
    (t : Tables) (n m : ℕ)
    → t.next_conversation_id ≤ n
    → t.next_message_id ≤ m
    → IsWellFormed t
    → IsWellFormed (record t { next_conversation_id = n; next_message_id = m })
counters-IsWellFormed t n m h k w = record {
  conversations_rise = w.conversations_rise;
  messages_rise = w.messages_rise;
  conversations_counted =
      every_mono (λ c. ltb c.id t.next_conversation_id) (λ c. ltb c.id n) t.conversations
        (λ c below. ground arith) w.conversations_counted;
  messages_counted =
      every_mono (λ m'. ltb m'.id t.next_message_id) (λ m'. ltb m'.id m) t.messages
        (λ m' below. ground arith) w.messages_counted;
  message_ids_positive = w.message_ids_positive;
  next_id_positive = let p = w.next_id_positive in ground arith;
  participants_differ = w.participants_differ;
  participants_unique = w.participants_unique;
  participants_send = w.participants_send;
  dated = w.dated;
  seller_pointers = w.seller_pointers;
  buyer_pointers = w.buyer_pointers;
}

module _ (q : Conversation → Bool) (f : Conversation → Conversation)
    (keeps : KeepsParticipants f) where
  every_other-change :
      (listing_id seller_id buyer_id : ℕ) (cs : List Conversation)
      → every (λ d. not (same_participants listing_id seller_id buyer_id d)) (change q f cs)
        ≡ every (λ d. not (same_participants listing_id seller_id buyer_id d)) cs
  every_other-change listing_id seller_id buyer_id cs =
      every-change_same (λ d. not (same_participants listing_id seller_id buyer_id d)) q f cs
        (λ d. rw (keeps.same_listing d, keeps.same_seller d, keeps.same_buyer d))

  unique-change : (cs : List Conversation) → unique (change q f cs) ≡ unique cs
  unique-change [] = refl
  unique-change (c ∷ cs) = ground (
    arith,
    keeps.same_listing c,
    keeps.same_seller c,
    keeps.same_buyer c,
    unique-change cs,
    every_other-change c.listing_id c.seller_id c.buyer_id cs,
    every_other-change (f c).listing_id (f c).seller_id (f c).buyer_id cs,
  )

  pub sent_by_participant-change :
      (cs : List Conversation) (m : Message)
      → sent_by_participant (change q f cs) m ≡ sent_by_participant cs m
  unfolding is_participant
  sent_by_participant-change cs m =
      is_some-first-change (λ c. c.id == m.conversation_id && is_participant c m.sender_id) q f cs
        (λ c. rw (keeps.same_id c, keeps.same_seller c, keeps.same_buyer c))

  -- An update of conversations, with what it must keep of dates and pointers.
  pub change-IsWellFormed :
      (t : Tables)
      → every (λ c. is_dated c.created_at c.last_message_at) (change q f t.conversations) ≡ true
      → ((c : Conversation)
          → points_to t.messages c.id c.seller_last_read_message_id ≡ true
          → q c ≡ true
          → points_to t.messages (f c).id (f c).seller_last_read_message_id ≡ true)
      → ((c : Conversation)
          → points_to t.messages c.id c.buyer_last_read_message_id ≡ true
          → q c ≡ true
          → points_to t.messages (f c).id (f c).buyer_last_read_message_id ≡ true)
      → IsWellFormed t
      → IsWellFormed (record t { conversations = change q f t.conversations })
  change-IsWellFormed t dates sellers buyers w = record {
    conversations_rise =
        rising-change Conversation.id q f t.conversations keeps.same_id ∙ w.conversations_rise;
    messages_rise = w.messages_rise;
    conversations_counted =
        every-change_same (λ c. ltb c.id t.next_conversation_id) q f t.conversations
          (λ c. ap (λ n. ltb n t.next_conversation_id) (keeps.same_id c))
        ∙ w.conversations_counted;
    messages_counted = w.messages_counted;
    message_ids_positive = w.message_ids_positive;
    next_id_positive = w.next_id_positive;
    participants_differ =
        every-change_same (λ c. not (c.seller_id == c.buyer_id)) q f t.conversations
          (λ c. rw (keeps.same_seller c, keeps.same_buyer c))
        ∙ w.participants_differ;
    participants_unique = unique-change t.conversations ∙ w.participants_unique;
    participants_send =
        every_mono (sent_by_participant t.conversations)
          (sent_by_participant (change q f t.conversations)) t.messages
          (λ m h. sent_by_participant-change t.conversations m ∙ h) w.participants_send;
    dated = dates;
    seller_pointers =
        every-change (λ c. points_to t.messages c.id c.seller_last_read_message_id) q f
          t.conversations sellers w.seller_pointers;
    buyer_pointers =
        every-change (λ c. points_to t.messages c.id c.buyer_last_read_message_id) q f
          t.conversations buyers w.buyer_pointers;
  }

points_to-append :
    (ms ns : List Message) (id : ℕ) (pointer : Option ℕ)
    → points_to ms id pointer ≡ true
    → points_to (ms ++ ns) id pointer ≡ true
points_to-append ms ns id none h = refl
points_to-append ms ns id (some p) h = is_some-first-append (in_conversation p id) ms ns h

-- A new message with the next identifier.
pub message-IsWellFormed :
    (t : Tables) (m : Message)
    → m.id ≡ t.next_message_id
    → sent_by_participant t.conversations m ≡ true
    → IsWellFormed t
    → IsWellFormed
        (record t { messages = t.messages ++ m ∷ []; next_message_id = t.next_message_id + 1 })
message-IsWellFormed t m next sent w = record {
  conversations_rise = w.conversations_rise;
  messages_rise =
      rising-append Message.id t.messages m w.messages_rise
        (subst (λ n. every (λ m'. ltb m'.id n) t.messages ≡ true) (sym next) w.messages_counted);
  conversations_counted = w.conversations_counted;
  messages_counted =
      let old =
        every_mono (λ m'. ltb m'.id t.next_message_id) (λ m'. ltb m'.id (t.next_message_id + 1))
          t.messages (λ m' below. ground arith) w.messages_counted in
      rw (every-append (λ m'. ltb m'.id (t.next_message_id + 1)) t.messages (m ∷ []), old, next)
        (ground arith);
  message_ids_positive =
      let p = w.next_id_positive in
      rw (every-append (λ m'. ltb 0 m'.id) t.messages (m ∷ []), w.message_ids_positive, next)
        (ground arith);
  next_id_positive = ground arith;
  participants_differ = w.participants_differ;
  participants_unique = w.participants_unique;
  participants_send =
      rw
        (
          every-append (sent_by_participant t.conversations) t.messages (m ∷ []),
          w.participants_send,
        )
        (ground (arith, sent));
  dated = w.dated;
  seller_pointers =
      every_mono (λ c. points_to t.messages c.id c.seller_last_read_message_id)
        (λ c. points_to (t.messages ++ m ∷ []) c.id c.seller_last_read_message_id) t.conversations
        (λ c. points_to-append t.messages (m ∷ []) c.id c.seller_last_read_message_id)
        w.seller_pointers;
  buyer_pointers =
      every_mono (λ c. points_to t.messages c.id c.buyer_last_read_message_id)
        (λ c. points_to (t.messages ++ m ∷ []) c.id c.buyer_last_read_message_id) t.conversations
        (λ c. points_to-append t.messages (m ∷ []) c.id c.buyer_last_read_message_id)
        w.buyer_pointers;
}

unique-append :
    (cs : List Conversation) (c : Conversation)
    → unique cs ≡ true
    → every (λ d. not (same_participants c.listing_id c.seller_id c.buyer_id d)) cs ≡ true
    → unique (cs ++ c ∷ []) ≡ true
unique-append [] c h k = refl
unique-append (d ∷ cs) c h k = ground (
  arith,
  unique-append cs c,
  every-append (λ e. not (same_participants d.listing_id d.seller_id d.buyer_id e)) cs (c ∷ []),
)

-- A new conversation with the next identifier and new participants.
pub conversation-IsWellFormed :
    (t : Tables) (params : StartConversationParams)
    → (params.seller_id == params.buyer_id) ≡ false
    → first (same_participants params.listing_id params.seller_id params.buyer_id) t.conversations
      ≡ none
    → IsWellFormed t
    → IsWellFormed (record t {
      conversations = t.conversations ++ new_conversation params t.next_conversation_id ∷ [];
      next_conversation_id = t.next_conversation_id + 1;
    })
conversation-IsWellFormed t params differ fresh w =
    let c = new_conversation params t.next_conversation_id in
    record {
      conversations_rise =
          rising-append Conversation.id t.conversations c w.conversations_rise
            w.conversations_counted;
      messages_rise = w.messages_rise;
      conversations_counted =
          let old =
            every_mono (λ d. ltb d.id t.next_conversation_id)
              (λ d. ltb d.id (t.next_conversation_id + 1)) t.conversations (λ d below. ground arith)
              w.conversations_counted in
          rw
            (
              every-append (λ d. ltb d.id (t.next_conversation_id + 1)) t.conversations (c ∷ []),
              old,
            )
            (ground arith);
      messages_counted = w.messages_counted;
      message_ids_positive = w.message_ids_positive;
      next_id_positive = w.next_id_positive;
      participants_differ =
          rw
            (
              every-append (λ d. not (d.seller_id == d.buyer_id)) t.conversations (c ∷ []),
              w.participants_differ,
            )
            (ground arith);
      participants_unique = unique-append t.conversations c w.participants_unique (
          first-eq-none (same_participants params.listing_id params.seller_id params.buyer_id)
            t.conversations fresh);
      participants_send =
          every_mono (sent_by_participant t.conversations)
            (sent_by_participant (t.conversations ++ c ∷ [])) t.messages
            (λ m.
              is_some-first-append (λ d. d.id == m.conversation_id && is_participant d m.sender_id)
                t.conversations (c ∷ []))
            w.participants_send;
      dated = rw (
        every-append (λ d. is_dated d.created_at d.last_message_at) t.conversations (c ∷ []),
        w.dated,
      );
      seller_pointers = rw (
        every-append (λ d. points_to t.messages d.id d.seller_last_read_message_id) t.conversations
            (c ∷ []),
        w.seller_pointers,
      );
      buyer_pointers = rw (
        every-append (λ d. points_to t.messages d.id d.buyer_last_read_message_id) t.conversations
            (c ∷ []),
        w.buyer_pointers,
      );
    }

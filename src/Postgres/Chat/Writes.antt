-- ===== src/Postgres/Chat/Writes.antt =====
-- internal/adapter/postgres/chat.go: what the writes of ChatStore do to the tables.
use keebhub.Prelude.{
  ℕ, ◌+◌, ◌≡◌, Bool, true, false, ◌&&◌, Option, none, some, [], ◌∷◌, ◌++◌, ltb, ◌==◌, String, first,
  Option-cases, Bool-cases, inl, inr,
}
use keebhub.Prelude.Rows.{change}
use keebhub.Domain.Errors.{not_found, invalid_read_target, wrapped, Result, ok, err}
use keebhub.Domain.Chat.{Conversation, is_participant, is_seller, Message}
use keebhub.App.Chat.{StartConversationParams, CreateMessageParams}
use keebhub.Postgres.Answers.{DatabaseError, postgres_error}
use keebhub.Postgres.Chat.{
  database_error, start_conversation, create_message, store_message, advance_read_pointer,
}
use keebhub.Postgres.Chat.Tables.{
  Tables, new_message, stored_time, same_participants, new_conversation, in_conversation,
}
use keebhub.Postgres.Chat.Statements.{
  participant_statement, message_statement, message_violation, activity_statement, touched,
  dangling, start_statement, target_statement, seller_statement, buyer_statement, read_by_seller,
  read_by_buyer,
}
use keebhub.Postgres.Chat.Database.{table_queries}

-- GetConversationForParticipant finds this conversation, or none.
abbrev pub found : Tables → ℕ → ℕ → Option Conversation
found t conversation_id user_id =
    first (λ c. c.id == conversation_id && is_participant c user_id) t.conversations

-- The conversation was created after this time.
abbrev pub created_after : Tables → ℕ → ℕ → Option Conversation
created_after t conversation_id at =
    first (λ c. c.id == conversation_id && ltb at c.created_at) t.conversations

-- CreateMessage, with the cause of each result and the tables after it. A sequence does not go back.
pub data CreateOutcome (params : CreateMessageParams) (t : Tables)
    : Result (Message × Conversation) × Tables → Type 0 where
  outsider :
      found t params.conversation_id params.sender_id ≡ none
      → CreateOutcome params t (err not_found, t)
  refused :
      (c : Conversation) (e : DatabaseError)
      → found t params.conversation_id params.sender_id ≡ some c
      → message_violation t params ≡ some e
      → CreateOutcome params t (
        err (wrapped "insert message" (database_error e)),
        record t { next_message_id = t.next_message_id + 1 },
      )
  too_early :
      (c d : Conversation)
      → found t params.conversation_id params.sender_id ≡ some c
      → message_violation t params ≡ none
      → created_after t params.conversation_id (stored_time params.created_at) ≡ some d
      → CreateOutcome params t (
        err (
            wrapped "update conversation activity"
              (database_error (postgres_error "23514" "conversations_last_message_after_created"))),
        record t { next_message_id = t.next_message_id + 1 },
      )
  created :
      (c : Conversation)
      → found t params.conversation_id params.sender_id ≡ some c
      → message_violation t params ≡ none
      → created_after t params.conversation_id (stored_time params.created_at) ≡ none
      → CreateOutcome params t (
        ok (new_message params t.next_message_id, c),
        record t {
          conversations =
              change
                (λ d. d.id == params.conversation_id)
                (touched (stored_time params.created_at))
                t.conversations;
          messages = t.messages ++ new_message params t.next_message_id ∷ [];
          next_message_id = t.next_message_id + 1;
        },
      )

pub create_message-CreateOutcome :
    (params : CreateMessageParams) (t : Tables)
    → CreateOutcome params t (create_message table_queries params t)
unfolding create_message participant_statement message_statement activity_statement
create_message-CreateOutcome params t =
    elim (Option-cases (found t params.conversation_id params.sender_id)) [
      | inl missing ↦ simp (missing, store_message) (outsider missing)
      | inr (c, there) ↦
          simp (there, store_message)
            (elim (Option-cases (message_violation t params)) [
              | inr (e, bad) ↦ simp (bad, store_message) (refused c e there bad)
              | inl good ↦
                  simp (good, store_message)
                    (elim (Option-cases
                      (created_after t params.conversation_id (stored_time params.created_at))) [
                        | inr (d, late) ↦ simp (late, store_message) (too_early c d there good late)
                        | inl early ↦ simp (early, store_message) (created c there good early)
                      ])
            ])
    ]

-- StartConversation, likewise.
pub data StartOutcome (params : StartConversationParams) (t : Tables)
    : Result (Conversation × Bool) × Tables → Type 0 where
  with_oneself :
      (params.seller_id == params.buyer_id) ≡ true
      → StartOutcome params t (
        err (
            wrapped "start conversation"
              (database_error (postgres_error "23514" "conversations_distinct_participants"))),
        record t { next_conversation_id = t.next_conversation_id + 1 },
      )
  again :
      (c : Conversation)
      → (params.seller_id == params.buyer_id) ≡ false
      → first (same_participants params.listing_id params.seller_id params.buyer_id) t.conversations
        ≡ some c
      → StartOutcome params t
          (ok (c, false), record t { next_conversation_id = t.next_conversation_id + 1 })
  dangles :
      (constraint : String)
      → (params.seller_id == params.buyer_id) ≡ false
      → first (same_participants params.listing_id params.seller_id params.buyer_id) t.conversations
        ≡ none
      → dangling t params ≡ some constraint
      → StartOutcome params t (
        err (wrapped "start conversation" (database_error (postgres_error "23503" constraint))),
        record t { next_conversation_id = t.next_conversation_id + 1 },
      )
  opened :
      (params.seller_id == params.buyer_id) ≡ false
      → first (same_participants params.listing_id params.seller_id params.buyer_id) t.conversations
        ≡ none
      → dangling t params ≡ none
      → StartOutcome params t (
        ok (new_conversation params t.next_conversation_id, true),
        record t {
          conversations = t.conversations ++ new_conversation params t.next_conversation_id ∷ [];
          next_conversation_id = t.next_conversation_id + 1;
        },
      )

pub start_conversation-StartOutcome_tables :
    (params : StartConversationParams) (t : Tables)
    → StartOutcome params t (start_conversation table_queries params t)
unfolding start_conversation start_statement
start_conversation-StartOutcome_tables params t =
    let same = same_participants params.listing_id params.seller_id params.buyer_id in
    elim (Bool-cases (params.seller_id == params.buyer_id)) [
      | inl self ↦ rw self (with_oneself self)
      | inr differ ↦ rw differ (elim (Option-cases (first same t.conversations)) [
        | inr (c, old) ↦ rw old (again c differ old)
        | inl fresh ↦ rw fresh (elim (Option-cases (dangling t params)) [
          | inr (constraint, bad) ↦ rw bad (dangles constraint differ fresh bad)
          | inl good ↦ rw good (opened differ fresh good)
        ])
      ])
    ]

-- AdvanceReadPointer, likewise. No pointer is moved to a message of another conversation.
pub data AdvanceOutcome (c : Conversation) (user_id message_id : ℕ) (t : Tables)
    : Result (Unit {0}) × Tables → Type 0 where
  not_a_target :
      first (in_conversation message_id c.id) t.messages ≡ none
      → AdvanceOutcome c user_id message_id t (err invalid_read_target, t)
  seller_moves :
      (m : Message)
      → first (in_conversation message_id c.id) t.messages ≡ some m
      → is_seller c user_id ≡ true
      → AdvanceOutcome c user_id message_id t (
        ok tt,
        record t {
          conversations =
              change
                (λ d. d.id == c.id && d.seller_id == user_id)
                (read_by_seller message_id)
                t.conversations;
        },
      )
  buyer_moves :
      (m : Message)
      → first (in_conversation message_id c.id) t.messages ≡ some m
      → is_seller c user_id ≡ false
      → AdvanceOutcome c user_id message_id t (
        ok tt,
        record t {
          conversations =
              change
                (λ d. d.id == c.id && d.buyer_id == user_id)
                (read_by_buyer message_id)
                t.conversations;
        },
      )

pub advance_read_pointer-AdvanceOutcome :
    (c : Conversation) (user_id message_id : ℕ) (t : Tables)
    → AdvanceOutcome c user_id message_id t
        (advance_read_pointer table_queries c user_id message_id t)
unfolding advance_read_pointer target_statement seller_statement buyer_statement
advance_read_pointer-AdvanceOutcome c user_id message_id t =
    elim (Option-cases (first (in_conversation message_id c.id) t.messages)) [
      | inl missing ↦ simp missing (not_a_target missing)
      | inr (m, there) ↦ elim (Bool-cases (is_seller c user_id)) [
        | inl seller ↦ simp (there, seller) (seller_moves m there seller)
        | inr buyer ↦ simp (there, buyer) (buyer_moves m there buyer)
      ]
    ]

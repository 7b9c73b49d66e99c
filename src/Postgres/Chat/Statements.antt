-- ===== src/Postgres/Chat/Statements.antt =====
-- internal/generated/db/chat.sql.go: the SQL statements of the chat as functions on the tables.
use keebhub.Prelude.{
  ℕ, ◌+◌, Bool, true, false, not, ◌&&◌, ◌||◌, Option, none, some, List, [], ◌∷◌, ◌++◌, ltb, ◌==◌,
  if◌then◌else◌, keep, take, first, is_none, String,
}
use keebhub.Prelude.Rows.{change, order_by, ascending, descending}
use keebhub.Domain.Chat.{Conversation, is_participant, Message}
use keebhub.App.Chat.{StartConversationParams, CreateMessageParams}
use keebhub.Postgres.Answers.{DatabaseError, no_rows, postgres_error, Answer, row, fault}
use keebhub.Postgres.Chat.Tables.{
  Tables, has_user, has_listing, has_conversation, has_message, in_conversation, same_participants,
  has_length, new_conversation, new_message, stored_time,
}

-- A query that wants one row.
abbrev pub one : {A : Type 0} → Option A → Tables → Answer A × Tables
one none t = (fault no_rows, t)
one (some a) t = (row a, t)

-- Whether a foreign key of the new row points to nothing, by the constraint's name.
abbrev pub dangling : Tables → StartConversationParams → Option String
dangling t params =
    if not (has_listing t.listings params.listing_id params.seller_id)
    then some "conversations_listing_seller_fkey"
    else if not (has_user t.users params.seller_id)
    then some "conversations_seller_fkey"
    else if not (has_user t.users params.buyer_id)
    then some "conversations_buyer_fkey"
    else none

abbrev pub insert_conversation :
    Tables → StartConversationParams → Option String → Answer (Conversation × Bool) × Tables
insert_conversation t params none = (
  row (new_conversation params t.next_conversation_id, true),
  record t {
    conversations = t.conversations ++ new_conversation params t.next_conversation_id ∷ [];
    next_conversation_id = t.next_conversation_id + 1;
  },
)
insert_conversation t params (some constraint) = (
  fault (postgres_error "23503" constraint),
  record t { next_conversation_id = t.next_conversation_id + 1 },
)

-- The conversation that has these participants already is left as it is; the identifier is taken
-- from the sequence in any case.
abbrev pub insert_or_find :
    Tables → StartConversationParams → Option Conversation → Answer (Conversation × Bool) × Tables
insert_or_find t params none = insert_conversation t params (dangling t params)
insert_or_find t params (some c) =
    (row (c, false), record t { next_conversation_id = t.next_conversation_id + 1 })

unfoldable pub start_statement :
    StartConversationParams → Tables → Answer (Conversation × Bool) × Tables
start_statement params t =
    if params.seller_id == params.buyer_id
    then (
      fault (postgres_error "23514" "conversations_distinct_participants"),
      record t { next_conversation_id = t.next_conversation_id + 1 },
    )
    else insert_or_find t params (
        first (same_participants params.listing_id params.seller_id params.buyer_id)
          t.conversations)

unfoldable pub participant_statement : ℕ → ℕ → Tables → Answer Conversation × Tables
unfolding is_participant
participant_statement conversation_id user_id t =
    one (first (λ c. c.id == conversation_id && is_participant c user_id) t.conversations) t

-- `before_id IS NULL OR id < before_id`
abbrev pub is_before : Option ℕ → ℕ → Bool
is_before none id = true
is_before (some bound) id = ltb id bound

unfoldable pub before_statement : ℕ → Option ℕ → ℕ → Tables → Answer (List Message) × Tables
before_statement conversation_id before_id limit t = (
  row (
      take limit (
        order_by (descending Message.id) (
          keep (λ m. m.conversation_id == conversation_id && is_before before_id m.id)
            t.messages))),
  t,
)

unfoldable pub after_statement : ℕ → ℕ → ℕ → Tables → Answer (List Message) × Tables
after_statement conversation_id after_id limit t = (
  row (
      take limit (
        order_by (ascending Message.id)
          (keep (λ m. m.conversation_id == conversation_id && ltb after_id m.id) t.messages))),
  t,
)

-- What is wrong with the row of a new message.
abbrev pub message_violation : Tables → CreateMessageParams → Option DatabaseError
message_violation t params =
    if not (has_length params.body)
    then some (postgres_error "23514" "messages_body_length")
    else if not (has_conversation t.conversations params.conversation_id)
    then some (postgres_error "23503" "messages_conversation_id_fkey")
    else if not (has_user t.users params.sender_id)
    then some (postgres_error "23503" "messages_sender_id_fkey")
    else none

abbrev pub insert_or_fail :
    Tables → CreateMessageParams → Option DatabaseError → Answer Message × Tables
insert_or_fail t params none = (
  row (new_message params t.next_message_id),
  record t {
    messages = t.messages ++ new_message params t.next_message_id ∷ [];
    next_message_id = t.next_message_id + 1;
  },
)
insert_or_fail t params (some e) = (fault e, record t { next_message_id = t.next_message_id + 1 })

unfoldable pub message_statement : CreateMessageParams → Tables → Answer Message × Tables
message_statement params t = insert_or_fail t params (message_violation t params)

-- SET last_message_at
abbrev pub touched : ℕ → Conversation → Conversation
touched at c = record c { last_message_at = some at }

unfoldable pub activity_statement : ℕ → ℕ → Tables → Answer (Unit {0}) × Tables
activity_statement conversation_id at t =
    if is_none
      (first (λ c. c.id == conversation_id && ltb (stored_time at) c.created_at) t.conversations)
    then (
      row tt,
      record t {
        conversations =
            change (λ c. c.id == conversation_id) (touched (stored_time at)) t.conversations;
      },
    )
    else (fault (postgres_error "23514" "conversations_last_message_after_created"), t)

abbrev pub id_of : Option Message → Option ℕ
id_of none = none
id_of (some m) = some m.id

unfoldable pub target_statement : ℕ → ℕ → Tables → Answer ℕ × Tables
target_statement message_id conversation_id t =
    one (id_of (first (in_conversation message_id conversation_id) t.messages)) t

-- `pointer IS NULL OR pointer < message_id`
abbrev pub is_behind : Option ℕ → ℕ → Bool
is_behind none message_id = true
is_behind (some pointer) message_id = ltb pointer message_id

abbrev pub advanced : Option ℕ → ℕ → Option ℕ
advanced pointer message_id = if is_behind pointer message_id then some message_id else pointer

abbrev pub read_by_seller : ℕ → Conversation → Conversation
read_by_seller message_id c = record c {
  seller_last_read_message_id = advanced c.seller_last_read_message_id message_id;
}

abbrev pub read_by_buyer : ℕ → Conversation → Conversation
read_by_buyer message_id c = record c {
  buyer_last_read_message_id = advanced c.buyer_last_read_message_id message_id;
}

-- UPDATE of the rows that pass `chosen`, whose new pointers must point to a message.
abbrev pub advance :
    ℕ
    → ℕ
    → (Conversation → Option ℕ)
    → (Conversation → Bool)
    → (Conversation → Conversation)
    → String
    → Tables
    → Answer (Unit {0}) × Tables
advance message_id conversation_id pointer chosen move constraint t =
    if has_message t.messages message_id conversation_id
      || is_none (first (λ c. chosen c && is_behind (pointer c) message_id) t.conversations)
    then (row tt, record t { conversations = change chosen move t.conversations })
    else (fault (postgres_error "23503" constraint), t)

unfoldable pub seller_statement : ℕ → ℕ → ℕ → Tables → Answer (Unit {0}) × Tables
seller_statement message_id conversation_id user_id =
    advance message_id conversation_id Conversation.seller_last_read_message_id
      (λ c. c.id == conversation_id && c.seller_id == user_id) (read_by_seller message_id)
      "conversations_seller_read_message_fkey"

unfoldable pub buyer_statement : ℕ → ℕ → ℕ → Tables → Answer (Unit {0}) × Tables
buyer_statement message_id conversation_id user_id =
    advance message_id conversation_id Conversation.buyer_last_read_message_id
      (λ c. c.id == conversation_id && c.buyer_id == user_id) (read_by_buyer message_id)
      "conversations_buyer_read_message_fkey"

-- ===== src/Postgres/Chat.antt =====
-- internal/adapter/postgres/chat.go: the chat repository over the generated queries.
use keebhub.Prelude.{
  ℕ, Bool, true, false, Option, none, some, List, [], map, ◌==◌, if◌then◌else◌, String, Text,
}
use keebhub.Domain.Errors.{Error, not_found, invalid_read_target, wrapped, Result, ok, err}
use keebhub.Domain.Listing.{PublicUser, ListingStatus}
use keebhub.Domain.Chat.{Conversation, is_seller, Message, ConversationSummary}
use keebhub.App.Exec.{Exec, pure, lift, continue, ◌>>=◌, ◌>>◌}
use keebhub.App.Chat.{
  StartConversationParams, ConversationQuery, CreateMessageParams, ChatRepository,
}
use keebhub.Postgres.Answers.{
  DatabaseError, no_rows, postgres_error, unexpected, Answer, row, fault,
}
pub mod Tables
pub mod Statements
pub mod Inbox
pub mod Database
pub mod WellFormed
pub mod Writes
pub mod Reachable
pub mod Journal
pub mod Growth
pub mod Pages
pub mod Members
pub mod Delivery
pub mod PageRest
pub mod CatchUp
pub mod Unread

-- The generated ListConversationsForUserRow; a conversation without messages has 0 for the last one.
pub record ConversationListRow : Type 0 where
  pub id : ℕ
  pub listing_id : ℕ
  pub seller_id : ℕ
  pub buyer_id : ℕ
  pub conversation_created_at : ℕ
  pub conversation_last_message_at : Option ℕ
  pub listing_title : Text
  pub listing_status : ListingStatus
  pub counterpart_id : ℕ
  pub counterpart_handle : Text
  pub counterpart_display_name : Text
  pub counterpart_avatar_url : Option Text
  pub last_message_id : ℕ
  pub last_message_sender_id : ℕ
  pub last_message_body : Text
  pub last_message_created_at : ℕ
  pub unread_count : ℕ
  pub activity_at : ℕ

-- The generated queries on a pool or a transaction. Their rows are the domain's records, with the
-- same fields.
pub record ChatQueries (S : Type 0) : Type 0 where
  pub start_conversation : StartConversationParams → S → Answer (Conversation × Bool) × S
  pub list_conversations_for_user : ConversationQuery → S → Answer (List ConversationListRow) × S
  pub get_conversation_for_participant : ℕ → ℕ → S → Answer Conversation × S
  pub list_messages_before : ℕ → Option ℕ → ℕ → S → Answer (List Message) × S
  pub list_messages_after : ℕ → ℕ → ℕ → S → Answer (List Message) × S
  pub insert_message : CreateMessageParams → S → Answer Message × S
  pub update_conversation_last_message_at : ℕ → ℕ → S → Answer (Unit {0}) × S
  pub get_message_in_conversation : ℕ → ℕ → S → Answer ℕ × S
  pub advance_seller_read_pointer : ℕ → ℕ → ℕ → S → Answer (Unit {0}) × S
  pub advance_buyer_read_pointer : ℕ → ℕ → ℕ → S → Answer (Unit {0}) × S
  pub begin_transaction : S → Answer (Unit {0}) × S
  pub commit : S → Answer (Unit {0}) × S
  -- the state before the transaction, and the one it is in
  pub rollback : S → S → S

abbrev pub database_error : DatabaseError → Error
database_error no_rows = Error.other "no rows in result set"
database_error (postgres_error code constraint) = Error.other constraint
database_error (unexpected message) = Error.other message

module _ {S A : Type 0} where
  -- `if err != nil { return fmt.Errorf("context: %w", err) }`
  abbrev pub queried : String → Answer A × S → Result A × S
  queried context (row a, s) = (ok a, s)
  queried context (fault e, s) = (err (wrapped context (database_error e)), s)

  -- The same, where pgx.ErrNoRows becomes an error of the domain.
  abbrev pub found_or : Error → String → Answer A × S → Result A × S
  found_or missing context (row a, s) = (ok a, s)
  found_or missing context (fault no_rows, s) = (err missing, s)
  found_or missing context (fault e, s) = (err (wrapped context (database_error e)), s)

abbrev pub last_message_of : ConversationListRow → Option Message
last_message_of r =
    if r.last_message_id == 0
    then none
    else some (record {
      id = r.last_message_id;
      conversation_id = r.id;
      sender_id = r.last_message_sender_id;
      body = r.last_message_body;
      created_at = r.last_message_created_at;
    })

-- The body of the loop of ListConversations.
unfoldable pub summary_of : ConversationListRow → ConversationSummary
summary_of r = record {
  conversation = record {
    id = r.id;
    listing_id = r.listing_id;
    seller_id = r.seller_id;
    buyer_id = r.buyer_id;
    seller_last_read_message_id = none;
    buyer_last_read_message_id = none;
    created_at = r.conversation_created_at;
    last_message_at = r.conversation_last_message_at;
  };
  listing_title = r.listing_title;
  listing_status = r.listing_status;
  counterpart = record {
    id = r.counterpart_id;
    handle = r.counterpart_handle;
    display_name = r.counterpart_display_name;
    avatar_url = r.counterpart_avatar_url;
    location = none;
    bio = none;
  };
  last_message = last_message_of r;
  unread_count = r.unread_count;
}

module _ {S : Type 0} (queries : ChatQueries S) where
  unfoldable pub start_conversation : StartConversationParams → Exec S (Conversation × Bool)
  start_conversation params s = queried "start conversation" (queries.start_conversation params s)

  abbrev pub summaries :
      Result (List ConversationListRow) × S → Result (List ConversationSummary) × S
  summaries (ok rows, s) = (ok (map summary_of rows), s)
  summaries (err e, s) = (err e, s)

  unfoldable pub list_conversations : ConversationQuery → Exec S (List ConversationSummary)
  list_conversations query s =
      summaries (queried "list conversations" (queries.list_conversations_for_user query s))

  unfoldable pub get_conversation_for_participant : ℕ → ℕ → Exec S Conversation
  get_conversation_for_participant conversation_id user_id s =
      found_or not_found "get participant conversation"
        (queries.get_conversation_for_participant conversation_id user_id s)

  unfoldable pub list_messages_before : ℕ → Option ℕ → ℕ → Exec S (List Message)
  list_messages_before conversation_id before_id limit s =
      queried "list messages before"
        (queries.list_messages_before conversation_id before_id limit s)

  unfoldable pub list_messages_after : ℕ → ℕ → ℕ → Exec S (List Message)
  list_messages_after conversation_id after_id limit s =
      queried "list messages after" (queries.list_messages_after conversation_id after_id limit s)

  abbrev pub committed : {A : Type 0} → A → Result (Unit {0}) × S → Result A × S
  committed a (ok _, s) = (ok a, s)
  committed a (err e, s) = (err e, s)

  -- `defer tx.Rollback(ctx)` on a return before the commit. After the call of Commit the transaction
  -- is closed, and the deferred Rollback does nothing, whatever Commit answered.
  abbrev pub settled : {A : Type 0} → S → Result A × S → Result A × S
  settled before (err e, s) = (err e, queries.rollback before s)
  settled before (ok a, s) = committed a (queried "commit message transaction" (queries.commit s))

  abbrev pub once_begun : {A : Type 0} → Exec S A → S → Result (Unit {0}) × S → Result A × S
  once_begun body before (ok _, s) = settled before (body s)
  once_begun body before (err e, s) = (err e, s)

  abbrev pub in_transaction : {A : Type 0} → Exec S A → Exec S A
  in_transaction body s =
      once_begun body s (queried "begin message transaction" (queries.begin_transaction s))

  -- CreateMessage between the beginning of its transaction and its commit.
  unfoldable pub store_message : CreateMessageParams → Exec S (Message × Conversation)
  store_message params = do
    conversation ← (λ s.
        found_or not_found "get message conversation"
          (queries.get_conversation_for_participant params.conversation_id params.sender_id s))
    message ← (λ s. queried "insert message" (queries.insert_message params s))
    updated ← (λ s.
        queried "update conversation activity"
          (queries.update_conversation_last_message_at params.conversation_id params.created_at s))
    pure (message, conversation)

  unfoldable pub create_message : CreateMessageParams → Exec S (Message × Conversation)
  unfolding store_message
  create_message params = in_transaction (store_message params)

  unfoldable pub advance_read_pointer : Conversation → ℕ → ℕ → Exec S (Unit {0})
  unfolding is_seller
  advance_read_pointer conversation user_id message_id = do
    target ← (λ s.
        found_or invalid_read_target "validate read target"
          (queries.get_message_in_conversation message_id conversation.id s))
    if is_seller conversation user_id
        then (λ s.
            queried "advance seller read pointer"
              (queries.advance_seller_read_pointer message_id conversation.id user_id s))
        else (λ s.
            queried "advance buyer read pointer"
              (queries.advance_buyer_read_pointer message_id conversation.id user_id s))

  -- ChatStore as a ChatRepository.
  abbrev pub chat_store : ChatRepository S
  chat_store = record {
    start_conversation = start_conversation;
    list_conversations = list_conversations;
    get_conversation_for_participant = get_conversation_for_participant;
    list_messages_before = list_messages_before;
    list_messages_after = list_messages_after;
    create_message = create_message;
    advance_read_pointer = advance_read_pointer;
  }

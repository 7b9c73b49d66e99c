-- ===== src/Postgres/Chat/Tables.antt =====
-- db/migrations/00004_chat_and_sse.sql: the tables of the chat and the constraints on them.
use keebhub.Prelude.{
  ℕ, ◌*◌, ◌/◌, Bool, ◌&&◌, none, List, leb, ◌==◌, keep, is_some, first, Text, rune_count,
}
use keebhub.Domain.Listing.{PublicUser, ListingStatus}
use keebhub.Domain.Chat.{Conversation, Message, maximum_message_body_length}
use keebhub.App.Chat.{StartConversationParams, CreateMessageParams}

-- The columns of a listing that the chat reads.
pub record ListingRow : Type 0 where
  pub id : ℕ
  pub seller_id : ℕ
  pub title : Text
  pub status : ListingStatus

-- Rows are in the order of their insertion. The last fields are the identity sequences.
pub record Tables : Type 0 where
  pub listings : List ListingRow
  pub users : List PublicUser
  pub conversations : List Conversation
  pub messages : List Message
  pub next_conversation_id : ℕ
  pub next_message_id : ℕ

abbrev pub has_user : List PublicUser → ℕ → Bool
has_user users user_id = is_some (first (λ u. u.id == user_id) users)

-- conversations_listing_seller_fkey
abbrev pub has_listing : List ListingRow → ℕ → ℕ → Bool
has_listing listings listing_id seller_id =
    is_some (first (λ l. l.id == listing_id && l.seller_id == seller_id) listings)

abbrev pub has_conversation : List Conversation → ℕ → Bool
has_conversation conversations id = is_some (first (λ c. c.id == id) conversations)

abbrev pub in_conversation : ℕ → ℕ → Message → Bool
in_conversation message_id conversation_id m =
    m.id == message_id && m.conversation_id == conversation_id

-- conversations_seller_read_message_fkey and conversations_buyer_read_message_fkey
abbrev pub has_message : List Message → ℕ → ℕ → Bool
has_message messages message_id conversation_id =
    is_some (first (in_conversation message_id conversation_id) messages)

-- conversations_unique_participants
abbrev pub same_participants : ℕ → ℕ → ℕ → Conversation → Bool
same_participants listing_id seller_id buyer_id c =
    c.listing_id == listing_id && (c.seller_id == seller_id && c.buyer_id == buyer_id)

-- messages_body_length
abbrev pub has_length : Text → Bool
has_length body = leb 1 (rune_count body) && leb (rune_count body) maximum_message_body_length

-- A TIMESTAMPTZ column keeps whole microseconds, and pgx drops the nanoseconds below them.
unfoldable pub stored_time : ℕ → ℕ
stored_time at = at / 1000 * 1000

abbrev pub new_conversation : StartConversationParams → ℕ → Conversation
new_conversation params id = record {
  id = id;
  listing_id = params.listing_id;
  seller_id = params.seller_id;
  buyer_id = params.buyer_id;
  seller_last_read_message_id = none;
  buyer_last_read_message_id = none;
  created_at = stored_time params.created_at;
  last_message_at = none;
}

abbrev pub new_message : CreateMessageParams → ℕ → Message
new_message params id = record {
  id = id;
  conversation_id = params.conversation_id;
  sender_id = params.sender_id;
  body = params.body;
  created_at = stored_time params.created_at;
}

-- The messages of a conversation in the order of their insertion.
abbrev pub history : ℕ → List Message → List Message
history conversation_id messages = keep (λ m. m.conversation_id == conversation_id) messages

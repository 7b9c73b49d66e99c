-- ===== src/Domain/Chat.antt =====
-- internal/domain/chat.go: conversations, messages and the rules on them.
use keebhub.Prelude.{
  ℕ, Bool, ◌||◌, Option, none, some, [], ◌∷◌, ltb, ◌==◌, if◌then◌else◌, ℤ, pos, ltb_ℤ, eqb_ℤ, Text,
  is_empty, rune_count, trim_space,
}
use keebhub.Domain.Errors.{Error, Result, ok, err, query, Fields, put, new_validation_error}
use keebhub.Domain.Listing.{ListingStatus, PublicUser, out_of_range}
pub mod Bodies

abbrev pub maximum_message_body_length : ℕ
maximum_message_body_length = 2000

abbrev pub default_chat_page_limit : ℕ
default_chat_page_limit = 20

abbrev pub maximum_chat_page_limit : ℕ
maximum_chat_page_limit = 100

pub record Conversation : Type 0 where
  pub id : ℕ
  pub listing_id : ℕ
  pub seller_id : ℕ
  pub buyer_id : ℕ
  pub seller_last_read_message_id : Option ℕ
  pub buyer_last_read_message_id : Option ℕ
  pub created_at : ℕ
  pub last_message_at : Option ℕ

unfoldable pub is_participant : Conversation → ℕ → Bool
is_participant c user_id = c.seller_id == user_id || c.buyer_id == user_id

unfoldable pub is_seller : Conversation → ℕ → Bool
is_seller c user_id = c.seller_id == user_id

pub record Message : Type 0 where
  pub id : ℕ
  pub conversation_id : ℕ
  pub sender_id : ℕ
  pub body : Text
  pub created_at : ℕ

pub record ConversationSummary : Type 0 where
  pub conversation : Conversation
  pub listing_title : Text
  pub listing_status : ListingStatus
  pub counterpart : PublicUser
  pub last_message : Option Message
  pub unread_count : ℕ

pub record MessageCreatedEvent : Type 0 where
  pub conversation_id : ℕ
  pub message_id : ℕ
  pub seller_id : ℕ
  pub buyer_id : ℕ

unfoldable pub normalize_message_body : Text → Text
normalize_message_body value = trim_space value

unfoldable pub validate_message_body : Text → Option Error
validate_message_body value =
    let fields = if is_empty value then put "body" "must not be blank" [] else [] in
    new_validation_error (
      if ltb maximum_message_body_length (rune_count value)
      then put "body" "must be at most 2000 characters" fields
      else fields)

unfoldable pub validate_chat_page_limit : ℤ → Result ℤ
validate_chat_page_limit limit =
    if eqb_ℤ limit (pos 0)
    then ok (pos default_chat_page_limit)
    else if out_of_range 1 maximum_chat_page_limit limit
    then err (query (("limit", "must be between 1 and 100") ∷ []))
    else ok limit

-- ===== src/Http/Chat.antt =====
-- internal/adapter/httpapi/chat.go: the handlers of the chat.
use keebhub.Prelude.{
  ℕ, Bool, true, false, Option, none, some, List, [], ◌∷◌, if◌then◌else◌, String, ℤ, map, Text,
}
use keebhub.Domain.Errors.{Error, Result, ok, err, validation}
use keebhub.Domain.Listing.{ListingStatus}
use keebhub.Domain.User.{User}
use keebhub.Domain.Chat.{Conversation, Message, ConversationSummary}
use keebhub.App.Exec.{Exec}
use keebhub.App.Cursor.{Codec, Clock}
use keebhub.App.Chat.{
  ConversationPage, MessageOptions, ChatService, start_conversation, list_messages, send_message,
  mark_conversation_read,
}
use keebhub.App.Chat.Conversations.{ChatCursor, list_conversations}
use keebhub.Http.Errors.{HttpError, Failure, api, unauthorized, internal_error, chat_error}
use keebhub.Http.Requests.{
  Checked, valid, rejected, JsonField, RequestBody, required, or_reject, parse_id, id_string,
  conversation_id_from_path, listing_id_from_path, optional_positive_query_id, optional_query_int,
  decode_json_request,
}
pub mod Privacy

-- What a handler answers: an error, or a status with a body.
pub data Reply (A : Type 0) : Type 0 where
  failed : Failure → Reply A
  replied : ℕ → A → Reply A

pub record MessageResponse : Type 0 where
  pub id : Text
  pub sender_id : Text
  pub body : Text
  pub created_at : Text

pub record ConversationSummaryResponse : Type 0 where
  pub id : Text
  pub listing_id : Text
  pub listing_title : Text
  pub listing_status : ListingStatus
  pub counterpart_id : Text
  pub counterpart_handle : Text
  pub counterpart_display_name : Text
  pub counterpart_avatar_url : Option Text
  pub last_message : Option MessageResponse
  pub unread_count : ℕ

pub record ConversationPageResponse (Token : Type 0) : Type 0 where
  pub items : List ConversationSummaryResponse
  pub next_cursor : Option Token

pub record ConversationCreatedResponse : Type 0 where
  pub id : Text
  pub created : Bool

-- chatHandlers; the chat service may be nil.
pub record ChatHandlers (S : Type 0) : Type 0 where
  pub chat : Option (ChatService S)

abbrev pub chat_unavailable : Failure
chat_unavailable = api (internal_error (Error.other "chat service is not configured"))

-- A failed check of a request's fields.
abbrev pub or_chat_error : {A : Type 0} → Result A → Checked A
or_chat_error (ok a) = valid a
or_chat_error (err e) = rejected (api (chat_error e))

-- `format` is formatTimestamp.
module _ (format : ℕ → Text) where
  unfoldable pub message_response_from_domain : Message → MessageResponse
  unfolding id_string
  message_response_from_domain message = record {
    id = id_string message.id;
    sender_id = id_string message.sender_id;
    body = message.body;
    created_at = format message.created_at;
  }

  abbrev pub last_message_response : Option Message → Option MessageResponse
  last_message_response none = none
  last_message_response (some message) = some (message_response_from_domain message)

  unfoldable pub summary_response : ConversationSummary → ConversationSummaryResponse
  unfolding id_string message_response_from_domain
  summary_response item = record {
    id = id_string item.conversation.id;
    listing_id = id_string item.conversation.listing_id;
    listing_title = item.listing_title;
    listing_status = item.listing_status;
    counterpart_id = id_string item.counterpart.id;
    counterpart_handle = item.counterpart.handle;
    counterpart_display_name = item.counterpart.display_name;
    counterpart_avatar_url = item.counterpart.avatar_url;
    last_message = last_message_response item.last_message;
    unread_count = item.unread_count;
  }

  abbrev pub messages_reply : List Message → Reply (List MessageResponse)
  messages_reply items = replied 200 (map message_response_from_domain items)

  -- conversationPageResponseFromDomain
  abbrev pub page_reply :
      {Token : Type 0} → ConversationPage Token → Reply (ConversationPageResponse Token)
  page_reply page =
      replied 200
        (record { items = map summary_response page.items; next_cursor = page.next_cursor })

  abbrev pub message_reply : Message → Reply MessageResponse
  message_reply message = replied 201 (message_response_from_domain message)

abbrev pub created_reply : Conversation × Bool → Reply ConversationCreatedResponse
created_reply (conversation, created) =
    replied (if created then 201 else 200)
      (record { id = id_string conversation.id; created = created })

-- markReadRequest.messageID
abbrev pub positive_message_id : Option ℕ → Result ℕ
positive_message_id none =
    err (validation (("last_read_message_id", "must be a positive integer") ∷ []))
positive_message_id (some id) = ok id

abbrev pub requested_message_id : Result Text → Result ℕ
requested_message_id (err e) = err e
requested_message_id (ok text) = positive_message_id (parse_id text)

module _ {S : Type 0} where
  -- `if err := h.available(); err != nil` and `CurrentUser(c)`
  abbrev pub signed_in :
      {A : Type 0}
      → ChatHandlers S
      → Option User
      → (ChatService S → User → S → Reply A × S)
      → S
      → Reply A × S
  signed_in h user next s = elim h.chat [
    | none ↦ (failed chat_unavailable, s)
    | some chat ↦ elim user [ none ↦ (failed unauthorized, s) | some u ↦ next chat u s ]
  ]

  -- `if err != nil { return err }`
  abbrev pub checked : {A B : Type 0} → Checked A → (A → S → Reply B × S) → S → Reply B × S
  checked (valid a) next s = next a s
  checked (rejected failure) next s = (failed failure, s)

  -- `if err != nil { return chatError(err) }`
  abbrev pub answered : {A B : Type 0} → (A → Reply B) → Result A × S → Reply B × S
  answered reply (ok a, s) = (reply a, s)
  answered reply (err e, s) = (failed (api (chat_error e)), s)

  unfoldable pub start_conversation_handler :
      ChatHandlers S → Option User → Text → ℕ → S → Reply ConversationCreatedResponse × S
  unfolding id_string listing_id_from_path
  start_conversation_handler h user listing_param now = signed_in h user λ chat u.
      checked (listing_id_from_path listing_param)
        λ listing_id s. answered created_reply (start_conversation chat u listing_id now s)

  module _ (format : ℕ → Text) where
    -- The parameters are the values of before_id, after_id and limit in the query.
    unfoldable pub list_messages_handler :
        ChatHandlers S
        → Option User
        → Text
        → List Text
        → List Text
        → List Text
        → S
        → Reply (List MessageResponse) × S
    unfolding message_response_from_domain conversation_id_from_path optional_positive_query_id
        optional_query_int
    list_messages_handler h user conversation_param before_values after_values limit_values =
        signed_in h user λ chat u.
          checked (conversation_id_from_path conversation_param) λ conversation_id.
            checked (optional_positive_query_id "before_id" before_values) λ before_id.
              checked (optional_positive_query_id "after_id" after_values) λ after_id.
                checked (optional_query_int "limit" limit_values) λ limit s.
                  answered (messages_reply format) (
                    list_messages chat u.id conversation_id
                      (record { before_id = before_id; after_id = after_id; limit = limit }) s)

    unfoldable pub send_message_handler :
        ChatHandlers S
        → Option User
        → Text
        → RequestBody (JsonField Text)
        → ℕ
        → S
        → Reply MessageResponse × S
    unfolding message_response_from_domain conversation_id_from_path decode_json_request
    send_message_handler h user conversation_param request now = signed_in h user λ chat u.
        checked (conversation_id_from_path conversation_param) λ conversation_id.
          checked (decode_json_request request) λ field.
            checked (or_chat_error (required "body" field)) λ body s.
              answered (message_reply format) (send_message chat u conversation_id body now s)

  unfoldable pub mark_conversation_read_handler :
      ChatHandlers S → Option User → Text → RequestBody (JsonField Text) → S → Reply (Unit {0}) × S
  unfolding conversation_id_from_path decode_json_request parse_id
  mark_conversation_read_handler h user conversation_param request = signed_in h user λ chat u.
      checked (conversation_id_from_path conversation_param) λ conversation_id.
        checked (decode_json_request request) λ field.
          checked (or_chat_error (requested_message_id (required "last_read_message_id" field)))
            λ message_id s.
              answered (replied 204) (mark_conversation_read chat u.id conversation_id message_id s)

  module _ (codec : Codec ChatCursor) (clock : Clock) (format : ℕ → Text) where
    open codec use {Token}

    unfoldable pub list_conversations_handler :
        ChatHandlers S
        → Option User
        → Token
        → List Text
        → S
        → Reply (ConversationPageResponse Token) × S
    unfolding summary_response optional_query_int
    list_conversations_handler h user cursor limit_values = signed_in h user λ chat u.
        checked (optional_query_int "limit" limit_values) λ limit s.
          answered (page_reply format) (list_conversations codec clock chat u.id cursor limit s)

-- ===== src/App/Chat.antt =====
-- internal/app/chat.go: conversations and messages.
use keebhub.Prelude.{
  ℕ, suc, zero, true, false, ◌+◌, ◌-◌, Bool, not, ◌&&◌, ◌||◌, Option, none, some, List, [], ◌∷◌,
  ltb, leb, ◌==◌, if◌then◌else◌, length, take, last?, String, is_none, ℤ, pos_part, Text,
}
use keebhub.Prelude.Maps.{get_elem?, set}
use keebhub.Domain.Errors.{
  Error, Result, ok, err, validation, query, user_disabled, listing_unavailable, self_conversation,
}
use keebhub.Domain.Listing.{Listing, ListingStatus, active, reserved, ModerationStatus, visible}
use keebhub.Domain.User.{User, is_disabled}
use keebhub.Domain.Chat.{
  Conversation, Message, ConversationSummary, MessageCreatedEvent, normalize_message_body,
  validate_message_body, validate_chat_page_limit,
}
use keebhub.App.Exec.{Exec, pure, configured, lift, require, ◌>>=◌, ◌>>◌}
use keebhub.App.Cursor.{Codec, Clock}
pub mod Reversal
pub mod Mirror
pub mod Guards
pub mod Reading
pub mod Conversations

abbrev pub chat_cursor_version : ℕ
chat_cursor_version = 1

pub record StartConversationParams : Type 0 where
  pub listing_id : ℕ
  pub seller_id : ℕ
  pub buyer_id : ℕ
  pub created_at : ℕ

pub record ConversationQuery : Type 0 where
  pub user_id : ℕ
  pub cursor_activity_at : Option ℕ
  pub cursor_id : Option ℕ
  pub limit : ℕ

pub record ConversationPage (Token : Type 0) : Type 0 where
  pub items : List ConversationSummary
  pub next_cursor : Option Token

pub record MessageOptions : Type 0 where
  pub before_id : Option ℕ
  pub after_id : Option ℕ
  pub limit : ℤ

pub record CreateMessageParams : Type 0 where
  pub conversation_id : ℕ
  pub sender_id : ℕ
  pub body : Text
  pub created_at : ℕ

pub record ChatRepository (S : Type 0) : Type 0 where
  pub start_conversation : StartConversationParams → Exec S (Conversation × Bool)
  pub list_conversations : ConversationQuery → Exec S (List ConversationSummary)
  pub get_conversation_for_participant : ℕ → ℕ → Exec S Conversation
  pub list_messages_before : ℕ → Option ℕ → ℕ → Exec S (List Message)
  pub list_messages_after : ℕ → ℕ → ℕ → Exec S (List Message)
  pub create_message : CreateMessageParams → Exec S (Message × Conversation)
  pub advance_read_pointer : Conversation → ℕ → ℕ → Exec S (Unit {0})

pub record ChatService (S : Type 0) : Type 0 where
  -- ChatListingReader has one method.
  pub listings : Option (ℕ → Exec S Listing)
  pub repository : Option (ChatRepository S)
  -- So has MessageCreatedPublisher, which returns nothing.
  pub publisher : Option (MessageCreatedEvent → S → S)

abbrev pub chat_unconfigured : String
chat_unconfigured = "chat dependencies are not configured"

-- The listing can be talked about.
abbrev pub is_open : ListingStatus → Bool
is_open active = true
is_open reserved = true
is_open status = false

abbrev pub is_visible : ModerationStatus → Bool
is_visible visible = true
is_visible status = false

-- The loop of reverseMessages. Its fuel is an upper bound on the rounds.
abbrev pub swap {ℓ} : {A : Type ℓ} → ℕ → ℕ → List A → List A
swap left right items = elim (get_elem? items left) [
  | none ↦ items
  | some a ↦ elim (get_elem? items right) [ none ↦ items | some b ↦ set (set items left b) right a ]
]

abbrev pub swap_loop {ℓ} : {A : Type ℓ} → ℕ → ℕ → ℕ → List A → List A
swap_loop zero left right items = items
swap_loop (suc fuel) left right items =
    let rest = swap_loop fuel (left + 1) (right - 1) (swap left right items) in
    if ltb left right then rest else items

unfoldable pub reverse_messages {ℓ} : {A : Type ℓ} → List A → List A
reverse_messages items = swap_loop (length items) 0 (length items - 1) items

abbrev pub start_params : User → Listing → ℕ → StartConversationParams
start_params user listing now = record {
  listing_id = listing.id;
  seller_id = listing.seller_id;
  buyer_id = user.id;
  created_at = now;
}

abbrev pub message_params : User → ℕ → Text → ℕ → CreateMessageParams
message_params user conversation_id body now = record {
  conversation_id = conversation_id;
  sender_id = user.id;
  body = body;
  created_at = now;
}

abbrev pub event_of : Message → Conversation → MessageCreatedEvent
event_of message conversation = record {
  conversation_id = conversation.id;
  message_id = message.id;
  seller_id = conversation.seller_id;
  buyer_id = conversation.buyer_id;
}

-- The identifier is given and below 1.
abbrev pub below_one : Option ℕ → Bool
below_one none = false
below_one (some n) = ltb n 1

-- The checks of ListMessages on its two identifiers.
abbrev pub message_options_error : MessageOptions → Option Error
message_options_error options =
    if not (is_none options.before_id) && not (is_none options.after_id)
    then some (
        query (
          ("before_id", "cannot be combined with after_id")
          ∷ ("after_id", "cannot be combined with before_id")
          ∷ []))
    else if below_one options.before_id
    then some (query (("before_id", "must be a positive integer") ∷ []))
    else if below_one options.after_id
    then some (query (("after_id", "must be a positive integer") ∷ []))
    else none

module _ {S : Type 0} where
  -- StartConversation once the listing is read.
  unfoldable pub open_conversation :
      ChatRepository S → User → ℕ → Listing → Exec S (Conversation × Bool)
  open_conversation repository user now listing = do
    require (
        if is_visible listing.moderation_status && is_open listing.status
        then none
        else some listing_unavailable)
    require (if listing.seller_id == user.id then some self_conversation else none)
    repository.start_conversation (start_params user listing now)

  unfoldable pub start_conversation : ChatService S → User → ℕ → ℕ → Exec S (Conversation × Bool)
  unfolding open_conversation
  start_conversation service user listing_id now = do
    get_listing ← configured service.listings chat_unconfigured
    repository ← configured service.repository chat_unconfigured
    require (if is_disabled user.status then some user_disabled else none)
    listing ← get_listing listing_id
    open_conversation repository user now listing

  -- ListMessages once the user is known to take part.
  unfoldable pub read_messages : ChatRepository S → ℕ → MessageOptions → ℕ → Exec S (List Message)
  unfolding reverse_messages
  read_messages repository conversation_id options limit = elim options.after_id [
    | some after_id ↦ repository.list_messages_after conversation_id after_id limit
    | none ↦ do
      items ← repository.list_messages_before conversation_id options.before_id limit
      pure (reverse_messages items)
  ]

  unfoldable pub list_messages : ChatService S → ℕ → ℕ → MessageOptions → Exec S (List Message)
  unfolding read_messages
  list_messages service user_id conversation_id options = do
    get_listing ← configured service.listings chat_unconfigured
    repository ← configured service.repository chat_unconfigured
    limit ← lift (validate_chat_page_limit options.limit)
    require (message_options_error options)
    conversation ← repository.get_conversation_for_participant conversation_id user_id
    read_messages repository conversation_id options (pos_part limit)

  abbrev pub notify : Option (MessageCreatedEvent → S → S) → MessageCreatedEvent → S → S
  notify none event s = s
  notify (some publish) event s = publish event s

  -- What SendMessage does with a created message.
  abbrev pub published :
      Option (MessageCreatedEvent → S → S) → Message × Conversation → Exec S Message
  published publisher (message, conversation) s =
      (ok message, notify publisher (event_of message conversation) s)

  unfoldable pub send_message : ChatService S → User → ℕ → Text → ℕ → Exec S Message
  unfolding normalize_message_body
  send_message service user conversation_id body now = do
    get_listing ← configured service.listings chat_unconfigured
    repository ← configured service.repository chat_unconfigured
    require (if is_disabled user.status then some user_disabled else none)
    let text = normalize_message_body body
    require (validate_message_body text)
    created ← repository.create_message (message_params user conversation_id text now)
    published service.publisher created

  unfoldable pub mark_conversation_read : ChatService S → ℕ → ℕ → ℕ → Exec S (Unit {0})
  mark_conversation_read service user_id conversation_id message_id = do
    get_listing ← configured service.listings chat_unconfigured
    repository ← configured service.repository chat_unconfigured
    require (
        if ltb message_id 1
        then some (validation (("last_read_message_id", "must be a positive integer") ∷ []))
        else none)
    conversation ← repository.get_conversation_for_participant conversation_id user_id
    repository.advance_read_pointer conversation user_id message_id

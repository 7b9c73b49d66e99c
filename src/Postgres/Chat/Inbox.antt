-- ===== src/Postgres/Chat/Inbox.antt =====
-- internal/generated/db/chat.sql.go: the statement that lists a user's conversations.
use keebhub.Prelude.{
  ℕ, Bool, true, false, not, ◌&&◌, ◌||◌, Option, none, some, List, [], ◌∷◌, ltb, ◌==◌,
  if◌then◌else◌, keep, take, length, first,
}
use keebhub.Prelude.Rows.{order_by, descending}
use keebhub.Domain.Listing.{PublicUser}
use keebhub.Domain.Chat.{Conversation, is_participant, Message}
use keebhub.App.Chat.{ConversationQuery}
use keebhub.Postgres.Answers.{Answer, row}
use keebhub.Postgres.Chat.{ConversationListRow}
use keebhub.Postgres.Chat.Tables.{ListingRow, Tables, history}

abbrev pub coalesce : {A : Type 0} → Option A → A → A
coalesce none a = a
coalesce (some b) a = b

abbrev pub activity_at : Conversation → ℕ
activity_at c = coalesce c.last_message_at c.created_at

-- The read pointer of a participant, 0 before the first message is read.
abbrev pub pointer_of : ℕ → Conversation → ℕ
pointer_of user_id c =
    if c.seller_id == user_id
    then coalesce c.seller_last_read_message_id 0
    else coalesce c.buyer_last_read_message_id 0

abbrev pub counterpart_of : ℕ → Conversation → ℕ
counterpart_of user_id c = if c.seller_id == user_id then c.buyer_id else c.seller_id

abbrev pub is_unread : ℕ → ℕ → ℕ → Message → Bool
is_unread conversation_id user_id pointer m =
    m.conversation_id == conversation_id && (not (m.sender_id == user_id) && ltb pointer m.id)

unfoldable pub unread_count : List Message → ℕ → Conversation → ℕ
unread_count messages user_id c =
    length (keep (is_unread c.id user_id (pointer_of user_id c)) messages)

-- LEFT JOIN LATERAL … ORDER BY id DESC LIMIT 1
unfoldable pub latest : List Message → ℕ → Option Message
latest messages conversation_id =
    first (λ m. true) (order_by (descending Message.id) (history conversation_id messages))

-- The last message of a row, 0 and empty where there is none.
abbrev pub with_latest : Option Message → ConversationListRow → ConversationListRow
with_latest none r = r
with_latest (some m) r = record r {
  last_message_id = m.id;
  last_message_sender_id = m.sender_id;
  last_message_body = m.body;
  last_message_created_at = m.created_at;
}

unfoldable pub list_row :
    List Message → ℕ → Conversation → ListingRow → PublicUser → ConversationListRow
unfolding unread_count latest
list_row messages user_id c listing counterpart = with_latest (latest messages c.id) (record {
  id = c.id;
  listing_id = c.listing_id;
  seller_id = c.seller_id;
  buyer_id = c.buyer_id;
  conversation_created_at = c.created_at;
  conversation_last_message_at = c.last_message_at;
  listing_title = listing.title;
  listing_status = listing.status;
  counterpart_id = counterpart.id;
  counterpart_handle = counterpart.handle;
  counterpart_display_name = counterpart.display_name;
  counterpart_avatar_url = counterpart.avatar_url;
  last_message_id = 0;
  last_message_sender_id = 0;
  last_message_body = [];
  last_message_created_at = 0;
  unread_count = unread_count messages user_id c;
  activity_at = activity_at c;
})

-- The inner joins drop a conversation whose listing or counterpart is missing.
abbrev pub joined :
    List Message
    → ℕ
    → Conversation
    → Option ListingRow
    → Option PublicUser
    → List ConversationListRow
    → List ConversationListRow
joined messages user_id c (some listing) (some counterpart) rows =
    list_row messages user_id c listing counterpart ∷ rows
joined messages user_id c (some listing) none rows = rows
joined messages user_id c none counterpart rows = rows

abbrev pub list_rows : Tables → ℕ → List Conversation → List ConversationListRow
list_rows t user_id [] = []
list_rows t user_id (c ∷ cs) =
    joined t.messages user_id c (first (λ l. l.id == c.listing_id) t.listings)
      (first (λ u. u.id == counterpart_of user_id c) t.users) (list_rows t user_id cs)

-- `(activity_at, id) < (cursor_activity_at, cursor_id)`, which no row passes by an unknown identifier.
abbrev pub id_below : Option ℕ → ℕ → Bool
id_below none id = false
id_below (some bound) id = ltb id bound

abbrev pub past_cursor : Option ℕ → Option ℕ → Conversation → Bool
past_cursor none cursor_id c = true
past_cursor (some at) cursor_id c =
    ltb (activity_at c) at || (activity_at c == at && id_below cursor_id c.id)

-- ORDER BY activity_at DESC, id DESC
abbrev pub more_recent : Conversation → Conversation → Bool
more_recent c d =
    ltb (activity_at d) (activity_at c) || (activity_at c == activity_at d && ltb d.id c.id)

unfoldable pub inbox_statement :
    ConversationQuery → Tables → Answer (List ConversationListRow) × Tables
unfolding is_participant list_row
inbox_statement query t = (
  row (
      take query.limit (
        list_rows t query.user_id (
          order_by more_recent (
            keep
              (λ c.
                is_participant c query.user_id
                && past_cursor query.cursor_activity_at query.cursor_id c)
              t.conversations)))),
  t,
)

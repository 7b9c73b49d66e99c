-- ===== src/Postgres/Chat/Pages.antt =====
-- internal/adapter/postgres/chat.go and internal/app/chat.go: the pages of messages that are read
-- are pages of the journals.
use keebhub.Prelude.{
  ℕ, ◌≡◌, ◌∙◌, sym, ap, true, Option, none, some, Option-cases, inl, inr, ℤ, pos_part, List, take,
  ltb, ◌==◌, keep,
}
use mathlib.Core.List.{reverse}
use keebhub.Prelude.Rows.{
  keep-keep, rising, rising-keep, ascending, descending, order_by, order_by-ascending,
  order_by-descending,
}
use keebhub.Domain.Errors.{ok}
use keebhub.Domain.Listing.{Listing}
use keebhub.Domain.Chat.{Conversation, Message, validate_chat_page_limit}
use keebhub.App.Exec.{Exec}
use keebhub.App.Chat.{
  ChatService, MessageOptions, message_options_error, read_messages, list_messages,
}
use keebhub.App.Chat.Mirror.{reverse_messages_lem}
use keebhub.Postgres.Chat.{
  chat_store, get_conversation_for_participant, list_messages_before, list_messages_after,
}
use keebhub.Postgres.Chat.Tables.{Tables}
use keebhub.Postgres.Chat.Statements.{
  is_before, participant_statement, before_statement, after_statement,
}
use keebhub.Postgres.Chat.Database.{table_queries}
use keebhub.Postgres.Chat.WellFormed.{IsWellFormed}
use keebhub.Postgres.Chat.Writes.{found}
use keebhub.Postgres.Chat.Journal.{journals}

pub journals-rise :
    (t : Tables) (id : ℕ) → IsWellFormed t → rising Message.id (journals t id) ≡ true
journals-rise t id w =
    rising-keep Message.id (λ m. m.conversation_id == id) t.messages w.messages_rise

pub list_messages_after-journals :
    (id after_id limit : ℕ) (t : Tables)
    → IsWellFormed t
    → list_messages_after table_queries id after_id limit t
      ≡ (ok (take limit (keep (λ m. ltb after_id m.id) (journals t id))), t)
unfolding list_messages_after after_statement
list_messages_after-journals id after_id limit t w =
    let js =
      rising-keep Message.id (λ m. ltb after_id m.id) (journals t id) (journals-rise t id w) in
    let same = keep-keep (λ m. ltb after_id m.id) (λ m. m.conversation_id == id) t.messages in
    ap (λ (ms : List Message). (ok (take limit ms), t))
      (ap (order_by (ascending Message.id)) (sym same)
        ∙ order_by-ascending Message.id (keep (λ m. ltb after_id m.id) (journals t id)) js)

pub list_messages_before-journals :
    (id : ℕ) (before_id : Option ℕ) (limit : ℕ) (t : Tables)
    → IsWellFormed t
    → list_messages_before table_queries id before_id limit t
      ≡ (ok (take limit (reverse (keep (λ m. is_before before_id m.id) (journals t id)))), t)
unfolding list_messages_before before_statement
list_messages_before-journals id before_id limit t w =
    let js =
      rising-keep Message.id (λ m. is_before before_id m.id) (journals t id)
        (journals-rise t id w) in
    let same =
      keep-keep (λ m. is_before before_id m.id) (λ m. m.conversation_id == id) t.messages in
    ap (λ (ms : List Message). (ok (take limit ms), t))
      (ap (order_by (descending Message.id)) (sym same)
        ∙ order_by-descending Message.id (keep (λ m. is_before before_id m.id) (journals t id)) js)

-- The page that the options ask for: the oldest messages after the given one, or the latest ones
-- before it, oldest first in both cases.
abbrev pub page : Option ℕ → Option ℕ → ℕ → List Message → List Message
page before_id (some after_id) limit ms = take limit (keep (λ m. ltb after_id m.id) ms)
page before_id none limit ms =
    reverse (take limit (reverse (keep (λ m. is_before before_id m.id) ms)))

read_messages-journals :
    (id : ℕ) (options : MessageOptions) (limit : ℕ) (t : Tables)
    → IsWellFormed t
    → read_messages (chat_store table_queries) id options limit t
      ≡ (ok (page options.before_id options.after_id limit (journals t id)), t)
unfolding read_messages
read_messages-journals id options limit t w = elim (Option-cases options.after_id) [
  | inr (a, e) ↦ rw e (list_messages_after-journals id a limit t w)
  | inl e ↦
      rw (e, read_messages)
        (simp (list_messages_before-journals id options.before_id limit t w, reverse_messages_lem))
]

pub get_conversation_found :
    (t : Tables) (id user_id : ℕ) (c : Conversation)
    → found t id user_id ≡ some c
    → get_conversation_for_participant table_queries id user_id t ≡ (ok c, t)
unfolding get_conversation_for_participant participant_statement
get_conversation_found t id user_id c there = rw there

-- On well-formed tables, a participant who asks for messages with a limit and identifiers that are
-- allowed receives that page of the conversation's journal, and nothing changes.
pub list_messages-journals :
    (service : ChatService Tables) (get_listing : ℕ → Exec Tables Listing) (user_id id : ℕ)
    (options : MessageOptions) (limit : ℤ) (t : Tables) (c : Conversation)
    → service.listings ≡ some get_listing
    → service.repository ≡ some (chat_store table_queries)
    → validate_chat_page_limit options.limit ≡ ok limit
    → message_options_error options ≡ none
    → found t id user_id ≡ some c
    → IsWellFormed t
    → list_messages service user_id id options t
      ≡ (ok (page options.before_id options.after_id (pos_part limit) (journals t id)), t)
unfolding list_messages
list_messages-journals service get_listing user_id id options limit t c l r valid fine there w =
    simp (l, r, valid, fine, get_conversation_found t id user_id c there)
      (read_messages-journals id options (pos_part limit) t w)

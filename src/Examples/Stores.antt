-- ===== src/Examples/Stores.antt =====
-- The chat store and the chat service on concrete tables.
use keebhub.Prelude.{
  ◌≡◌, refl, arith, true, none, some, List, [], ◌∷◌, ◌++◌, leb, every, pos, codes, trim_space,
}
use keebhub.Domain.Errors.{ok}
use keebhub.Domain.Listing.{active}
use keebhub.Domain.Chat.{
  Message, is_participant, is_seller, validate_message_body, validate_chat_page_limit,
}
use keebhub.App.Chat.{
  StartConversationParams, CreateMessageParams, ChatService, MessageOptions, list_messages,
  send_message, mark_conversation_read,
}
use keebhub.Postgres.Chat.{
  chat_store, start_conversation, create_message, advance_read_pointer,
  get_conversation_for_participant,
}
use keebhub.Postgres.Chat.Statements.{
  participant_statement, message_statement, activity_statement, start_statement, target_statement,
  seller_statement, buyer_statement,
}
use keebhub.Postgres.Chat.Tables.{Tables, stored_time}
use keebhub.Postgres.Chat.Database.{table_queries}
use keebhub.Postgres.Chat.WellFormed.{IsWellFormed}
use keebhub.Postgres.Chat.Reachable.{
  Request, create, start, advance, perform, run, run-IsWellFormed,
}
use keebhub.Postgres.Chat.Journal.{journals, Posts, create_message-Posts}
use keebhub.Postgres.Chat.Growth.{run-journals}
use keebhub.Postgres.Chat.Pages.{page, list_messages-journals}
use keebhub.Postgres.Chat.Delivery.{EndsWith, send_message-EndsWith}
use keebhub.Postgres.Chat.CatchUp.{read_on, read_on-run}
use keebhub.Postgres.Chat.Unread.{IsRead, mark_conversation_read-IsRead}
use keebhub.Examples.{budi, keyboard, siti, talk, hello}

abbrev pub tables : Tables
tables = record {
  listings = record { id = 5; seller_id = 7; title = codes "Tofu65"; status = active } ∷ [];
  users = budi ∷ record budi { id = 8; handle = codes "siti" } ∷ [];
  conversations = talk ∷ [];
  messages = record hello { id = 10; sender_id = 7 } ∷ hello ∷ [];
  next_conversation_id = 10;
  next_message_id = 12;
}

tables-IsWellFormed : IsWellFormed tables
unfolding is_participant
tables-IsWellFormed = record {
  conversations_rise = refl;
  messages_rise = refl;
  conversations_counted = refl;
  messages_counted = refl;
  message_ids_positive = refl;
  next_id_positive = refl;
  participants_differ = refl;
  participants_unique = refl;
  participants_send = refl;
  dated = refl;
  seller_pointers = refl;
  buyer_pointers = refl;
}

abbrev answer : CreateMessageParams
answer = record { conversation_id = 9; sender_id = 7; body = codes "hi"; created_at = 500_000 }

abbrev another : StartConversationParams
another = record { listing_id = 5; seller_id = 7; buyer_id = 8; created_at = 600_000 }

abbrev calls : List Request
calls = create answer ∷ start another ∷ advance talk 8 11 ∷ []

abbrev pub table_service : ChatService Tables
table_service = record {
  listings = some (λ id t. (ok (keyboard active), t));
  repository = some (chat_store table_queries);
  publisher = some (λ e t. t);
}

abbrev latest_two : MessageOptions
latest_two = record { before_id = none; after_id = none; limit = pos 2 }

run-IsWellFormed_example : IsWellFormed (run calls tables)
run-IsWellFormed_example = run-IsWellFormed calls tables tables-IsWellFormed

create_message-Posts_example :
    Posts answer
      (journals tables)
      (create_message table_queries answer tables).0
      (journals (create_message table_queries answer tables).1)
create_message-Posts_example = create_message-Posts answer tables

run-journals_example :
    (news : List Message) × (journals (run calls tables) 9 ≡ journals tables 9 ++ news)
    × (every (λ m. leb 12 m.id) news ≡ true)
run-journals_example = run-journals calls tables 9

list_messages-journals_example :
    list_messages table_service 8 9 latest_two tables
    ≡ (ok (page none none 2 (journals tables 9)), tables)
unfolding is_participant validate_chat_page_limit
list_messages-journals_example =
    list_messages-journals table_service (λ id t. (ok (keyboard active), t)) 8 9 latest_two (pos 2)
      tables talk refl refl refl refl refl tables-IsWellFormed

send_message-EndsWith_example :
    EndsWith
      (record hello { id = 12; body = codes "ok"; created_at = 700_000 })
      (list_messages table_service 7 9 latest_two
        (send_message table_service siti 9 (codes " ok ") 700_123 tables).1).0
unfolding is_participant send_message create_message validate_chat_page_limit validate_message_body
    trim_space participant_statement message_statement activity_statement stored_time
send_message-EndsWith_example =
    send_message-EndsWith table_service (λ id t. (ok (keyboard active), t)) 7 9 latest_two (pos 2)
      refl refl refl refl refl siti (codes " ok ") 700_123 tables
      (record hello { id = 12; body = codes "ok"; created_at = 700_000 }) (λ e s. refl) refl
      tables-IsWellFormed refl

read_on-run_example :
    journals tables 9 ++ read_on table_service 8 9 (pos 1) 3 11 (run calls tables)
    ≡ journals (run calls tables) 9
unfolding is_participant is_seller run perform create_message validate_chat_page_limit
    start_conversation advance_read_pointer participant_statement message_statement
    activity_statement start_statement target_statement seller_statement buyer_statement stored_time
read_on-run_example =
    read_on-run table_service 8 9 (pos 1) (λ id t. (ok (keyboard active), t)) (pos 1) refl refl refl
      calls tables hello 3 refl tables-IsWellFormed refl (omega arith)

mark_conversation_read-IsRead_example :
    IsRead tables (mark_conversation_read table_service 8 9 10 tables).1 9 8 10 talk
unfolding is_participant mark_conversation_read is_seller get_conversation_for_participant
    participant_statement advance_read_pointer target_statement buyer_statement
mark_conversation_read-IsRead_example =
    mark_conversation_read-IsRead tables 9 8 10 talk refl tables-IsWellFormed table_service
      (λ id t. (ok (keyboard active), t)) refl refl refl

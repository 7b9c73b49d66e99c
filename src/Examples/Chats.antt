-- ===== src/Examples/Chats.antt =====
-- Conversations and messages at concrete inputs.
use keebhub.Prelude.{ℕ, suc, refl, arith, true, none, some, [], ◌∷◌, pos, codes}
use keebhub.Domain.Errors.{ok}
use keebhub.Domain.Listing.{Listing, active}
use keebhub.App.Exec.{Exec}
use keebhub.App.Cursor.{plain_codec, plain_clock}
use keebhub.App.Chat.{
  ChatRepository, ChatService, MessageOptions, reverse_messages, start_conversation, list_messages,
  send_message, mark_conversation_read,
}
use keebhub.App.Chat.Reversal.{IsReversal, reverse_messages-IsReversal}
use keebhub.App.Chat.Guards.{
  StartOutcome, start_conversation-StartOutcome, SendOutcome, send_message-SendOutcome,
}
use keebhub.App.Chat.Reading.{
  ReadOutcome, list_messages-ReadOutcome, MarkOutcome, mark_conversation_read-MarkOutcome,
}
use keebhub.App.Chat.Conversations.{
  ChatCursor, IsConversationPage, conversation_page, conversation_page-IsConversationPage,
}
use keebhub.Examples.{keyboard, siti, talk, hello, summary}

abbrev get_listing : ℕ → Exec ℕ Listing
get_listing id n = (ok (keyboard active), n)

-- The state counts the writes and the events.
abbrev repository : ChatRepository ℕ
repository = record {
  start_conversation = λ p n. (ok (talk, true), suc n);
  list_conversations = λ q n. (ok [], n);
  get_conversation_for_participant = λ id user n. (ok talk, n);
  list_messages_before = λ id before limit n. (ok (hello ∷ record hello { id = 10 } ∷ []), n);
  list_messages_after = λ id after limit n. (ok [], n);
  create_message = λ p n. (ok (hello, talk), suc n);
  advance_read_pointer = λ c user message n. (ok tt, suc n);
}

abbrev service : ChatService ℕ
service = record {
  listings = some get_listing;
  repository = some repository;
  publisher = some (λ e n. suc n);
}

start_conversation-StartOutcome_example :
    StartOutcome get_listing repository siti 5 300 0 (start_conversation service siti 5 300 0)
start_conversation-StartOutcome_example =
    start_conversation-StartOutcome get_listing repository siti service 5 300 0 refl refl

send_message-SendOutcome_example :
    SendOutcome get_listing repository siti 9
      (codes " hello ")
      400
      service
      0
      (send_message service siti 9 (codes " hello ") 400 0)
send_message-SendOutcome_example =
    send_message-SendOutcome get_listing repository siti 9 (codes " hello ") 400 service 0 refl refl

abbrev latest : MessageOptions
latest = record { before_id = none; after_id = none; limit = pos 20 }

list_messages-ReadOutcome_example :
    ReadOutcome get_listing repository 8 9 latest 0 (list_messages service 8 9 latest 0)
list_messages-ReadOutcome_example =
    list_messages-ReadOutcome get_listing repository 8 9 service latest 0 refl refl

mark_conversation_read-MarkOutcome_example :
    MarkOutcome get_listing repository 8 9 11 0 (mark_conversation_read service 8 9 11 0)
mark_conversation_read-MarkOutcome_example =
    mark_conversation_read-MarkOutcome get_listing repository 8 9 service 11 0 refl refl

reverse_messages-IsReversal_example :
    IsReversal
      (hello ∷ record hello { id = 10 } ∷ record hello { id = 9 } ∷ [])
      (reverse_messages (hello ∷ record hello { id = 10 } ∷ record hello { id = 9 } ∷ []))
reverse_messages-IsReversal_example =
    reverse_messages-IsReversal (hello ∷ record hello { id = 10 } ∷ record hello { id = 9 } ∷ [])

conversation_page-IsConversationPage_example :
    IsConversationPage
      (plain_codec ChatCursor)
      plain_clock
      (summary 9 ∷ summary 4 ∷ [])
      1
      (conversation_page (plain_codec ChatCursor) plain_clock (summary 9 ∷ summary 4 ∷ []) 1)
conversation_page-IsConversationPage_example =
    conversation_page-IsConversationPage (plain_codec ChatCursor) plain_clock
      (summary 9 ∷ summary 4 ∷ []) 1 (omega arith)

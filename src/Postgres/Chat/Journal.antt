-- ===== src/Postgres/Chat/Journal.antt =====
-- internal/adapter/postgres/chat.go: the messages of a conversation as a journal that only grows.
use keebhub.Prelude.{
  ℕ, ◌*◌, ◌/◌, ◌≡◌, refl, true, ◌&&◌, some, List, [], ◌∷◌, ◌++◌, arith, ◌==◌, if◌then◌else◌,
}
use mathlib.Core.List.{append-nil}
use keebhub.Prelude.Rows.{keep-append, first-holds}
use keebhub.Domain.Errors.{Error, Result, ok, err}
use keebhub.Domain.Chat.{Conversation, is_participant, Message}
use keebhub.App.Chat.{CreateMessageParams}
use keebhub.Postgres.Chat.{create_message}
use keebhub.Postgres.Chat.Tables.{Tables, history, new_message, stored_time}
use keebhub.Postgres.Chat.Database.{table_queries}
use keebhub.Postgres.Chat.Writes.{
  found, CreateOutcome, outsider, refused, too_early, created, create_message-CreateOutcome,
}

-- The abstract view of the tables: each conversation's messages, oldest first.
abbrev pub Journals : Type 0
Journals = ℕ → List Message

abbrev pub journals : Tables → Journals
journals t id = history id t.messages

-- What CreateMessage promises of the journals: a message is added at the end of one of them, with
-- the sender and the text of the request and its time in whole microseconds, by one who takes part
-- in the conversation, or nothing changes.
pub data Posts (params : CreateMessageParams) (j : Journals)
    : Result (Message × Conversation) → Journals → Type 0 where
  posts :
      {k : Journals} (m : Message) (c : Conversation)
      → m.conversation_id ≡ params.conversation_id
      → m.sender_id ≡ params.sender_id
      → m.body ≡ params.body
      → m.created_at ≡ params.created_at / 1000 * 1000
      → c.id ≡ params.conversation_id
      → is_participant c params.sender_id ≡ true
      → ((id : ℕ) → k id ≡ (if id == params.conversation_id then j id ++ m ∷ [] else j id))
      → Posts params j (ok (m, c)) k
  fails : (e : Error) {k : Journals} → ((id : ℕ) → k id ≡ j id) → Posts params j (err e) k

history-append :
    (ms : List Message) (m : Message) (id : ℕ)
    → history id (ms ++ m ∷ [])
      ≡ (if id == m.conversation_id then history id ms ++ m ∷ [] else history id ms)
history-append ms m id =
    ground
      (arith, keep-append (λ n. n.conversation_id == id) ms (m ∷ []), append-nil (history id ms))

pub found-IsMember :
    (t : Tables) (id user_id : ℕ) (c : Conversation)
    → found t id user_id ≡ some c
    → (c.id ≡ id) × (is_participant c user_id ≡ true)
found-IsMember t id user_id c there =
    let h = first-holds (λ d. d.id == id && is_participant d user_id) t.conversations c there in
    (ground arith, ground arith)

create-Posts :
    (params : CreateMessageParams) (t : Tables) {r : Result (Message × Conversation) × Tables}
    → CreateOutcome params t r
    → Posts params (journals t) r.0 (journals r.1)
unfolding stored_time
create-Posts params t (outsider e) = fails _ (λ id. refl)
create-Posts params t (refused c e there bad) = fails _ (λ id. refl)
create-Posts params t (too_early c d there good late) = fails _ (λ id. refl)
create-Posts params t (created c there good early) =
    let member = found-IsMember t params.conversation_id params.sender_id c there in
    posts (new_message params t.next_message_id) c refl refl refl refl member.0 member.1
      (history-append t.messages (new_message params t.next_message_id))

-- Sending a message to the store, over tables whose statements fail only by a constraint and as seen
-- in the journals, adds one message with the sender and text of the request, and its time in whole
-- microseconds, at the end of the journal of its conversation, in which the sender takes part, and
-- leaves the others alone; where it fails no journal changes.
pub create_message-Posts :
    (params : CreateMessageParams) (t : Tables)
    → Posts params
        (journals t)
        (create_message table_queries params t).0
        (journals (create_message table_queries params t).1)
create_message-Posts params t = create-Posts params t (create_message-CreateOutcome params t)

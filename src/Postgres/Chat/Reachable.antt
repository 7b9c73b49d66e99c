-- ===== src/Postgres/Chat/Reachable.antt =====
-- internal/adapter/postgres/chat.go: any sequence of calls of ChatStore keeps the tables well-formed.
use keebhub.Prelude.{
  ℕ, ◌+◌, ◌≡◌, refl, ap, Bool, true, ◌&&◌, Option, none, some, List, [], ◌∷◌, arith, ltb, ◌==◌,
  first, is_some, Bool-cases, Option-cases, inl, inr, ◌∙◌, every,
}
use keebhub.Prelude.Rows.{change, every-change_same}
use keebhub.Domain.Errors.{Result}
use keebhub.Domain.Chat.{Conversation, Message}
use keebhub.App.Chat.{StartConversationParams, ConversationQuery, CreateMessageParams}
use keebhub.Postgres.Chat.{
  start_conversation, list_conversations, get_conversation_for_participant, list_messages_before,
  list_messages_after, create_message, advance_read_pointer,
}
use keebhub.Postgres.Chat.Tables.{Tables, new_message, stored_time, in_conversation, has_message}
use keebhub.Postgres.Chat.Statements.{
  touched, read_by_seller, read_by_buyer, advanced, participant_statement, before_statement,
  after_statement,
}
use keebhub.Postgres.Chat.Inbox.{inbox_statement}
use keebhub.Postgres.Chat.Database.{table_queries}
use keebhub.Postgres.Chat.WellFormed.{
  IsWellFormed, KeepsParticipants, is_dated, points_to, sent_by_participant-change,
  counters-IsWellFormed, change-IsWellFormed, message-IsWellFormed, conversation-IsWellFormed,
}
use keebhub.Postgres.Chat.Writes.{
  CreateOutcome, outsider, refused, too_early, created, create_message-CreateOutcome, StartOutcome,
  with_oneself, again, dangles, opened, start_conversation-StartOutcome_tables, AdvanceOutcome,
  not_a_target, seller_moves, buyer_moves, advance_read_pointer-AdvanceOutcome, found,
}

-- A call of the repository.
pub data Request : Type 0 where
  start : StartConversationParams → Request
  inbox : ConversationQuery → Request
  get : ℕ → ℕ → Request
  before : ℕ → Option ℕ → ℕ → Request
  after : ℕ → ℕ → ℕ → Request
  create : CreateMessageParams → Request
  advance : Conversation → ℕ → ℕ → Request

unfoldable pub perform : Request → Tables → Tables
perform (start params) t = (start_conversation table_queries params t).1
perform (inbox query) t = (list_conversations table_queries query t).1
perform (get id user_id) t = (get_conversation_for_participant table_queries id user_id t).1
perform (before id before_id limit) t = (list_messages_before table_queries id before_id limit t).1
perform (after id after_id limit) t = (list_messages_after table_queries id after_id limit t).1
perform (create params) t = (create_message table_queries params t).1
perform (advance c user_id message_id) t =
    (advance_read_pointer table_queries c user_id message_id t).1

unfoldable pub run : List Request → Tables → Tables
unfolding perform
run [] t = t
run (r ∷ rs) t = run rs (perform r t)

touched_keeps : (at : ℕ) → KeepsParticipants (touched at)
touched_keeps at = record {
  same_id = λ c. refl;
  same_listing = λ c. refl;
  same_seller = λ c. refl;
  same_buyer = λ c. refl;
}

read_by_seller_keeps : (message_id : ℕ) → KeepsParticipants (read_by_seller message_id)
read_by_seller_keeps message_id = record {
  same_id = λ c. refl;
  same_listing = λ c. refl;
  same_seller = λ c. refl;
  same_buyer = λ c. refl;
}

read_by_buyer_keeps : (message_id : ℕ) → KeepsParticipants (read_by_buyer message_id)
read_by_buyer_keeps message_id = record {
  same_id = λ c. refl;
  same_listing = λ c. refl;
  same_seller = λ c. refl;
  same_buyer = λ c. refl;
}

advanced_points :
    (messages : List Message) (id message_id : ℕ) (pointer : Option ℕ)
    → has_message messages message_id id ≡ true
    → points_to messages id pointer ≡ true
    → points_to messages id (advanced pointer message_id) ≡ true
advanced_points messages id message_id none h k = h
advanced_points messages id message_id (some p) h k = elim (Bool-cases (ltb p message_id)) [
  | inl e ↦ rw e h
  | inr e ↦ rw e k
]

touched-IsDated :
    (id at : ℕ) (cs : List Conversation)
    → first (λ c. c.id == id && ltb at c.created_at) cs ≡ none
    → every (λ c. is_dated c.created_at c.last_message_at) cs ≡ true
    → every
        (λ c. is_dated c.created_at c.last_message_at)
        (change (λ c. c.id == id) (touched at) cs)
      ≡ true
touched-IsDated id at [] h k = refl
touched-IsDated id at (c ∷ cs) h k = ground (arith, touched-IsDated id at cs)

create_message-IsWellFormed :
    (params : CreateMessageParams) (t : Tables) {r : Result (Message × Conversation) × Tables}
    → CreateOutcome params t r
    → IsWellFormed t
    → IsWellFormed r.1
create_message-IsWellFormed params t (outsider e) w = w
create_message-IsWellFormed params t (refused c e there bad) w =
    counters-IsWellFormed t t.next_conversation_id (t.next_message_id + 1) (omega arith)
      (omega arith) w
create_message-IsWellFormed params t (too_early c d there good late) w =
    counters-IsWellFormed t t.next_conversation_id (t.next_message_id + 1) (omega arith)
      (omega arith) w
create_message-IsWellFormed params t (created c there good early) w =
    message-IsWellFormed
      (record t {
        conversations =
            change (λ d. d.id == params.conversation_id) (touched (stored_time params.created_at))
              t.conversations;
      })
      (new_message params t.next_message_id) refl
      (sent_by_participant-change (λ d. d.id == params.conversation_id)
          (touched (stored_time params.created_at)) (touched_keeps (stored_time params.created_at))
          t.conversations (new_message params t.next_message_id)
        ∙ ap is_some there)
      (change-IsWellFormed (λ d. d.id == params.conversation_id)
        (touched (stored_time params.created_at)) (touched_keeps (stored_time params.created_at)) t
        (touched-IsDated params.conversation_id (stored_time params.created_at) t.conversations
          early w.dated)
        (λ d h k. h) (λ d h k. h) w)

target_of :
    (t : Tables) (message_id id d : ℕ) (m : Message)
    → first (in_conversation message_id id) t.messages ≡ some m
    → d ≡ id
    → has_message t.messages message_id d ≡ true
target_of t message_id id d m there same = rw (same, there)

pub get_unchanged :
    (id user_id : ℕ) (t : Tables)
    → (get_conversation_for_participant table_queries id user_id t).1 ≡ t
unfolding get_conversation_for_participant participant_statement
get_unchanged id user_id t = elim (Option-cases (found t id user_id)) [
  | inl missing ↦ rw missing
  | inr (c, there) ↦ rw there
]

start_conversation-IsWellFormed :
    (params : StartConversationParams) (t : Tables) {r : Result (Conversation × Bool) × Tables}
    → StartOutcome params t r
    → IsWellFormed t
    → IsWellFormed r.1
start_conversation-IsWellFormed params t (with_oneself e) w =
    counters-IsWellFormed t (t.next_conversation_id + 1) t.next_message_id (omega arith)
      (omega arith) w
start_conversation-IsWellFormed params t (again c e old) w =
    counters-IsWellFormed t (t.next_conversation_id + 1) t.next_message_id (omega arith)
      (omega arith) w
start_conversation-IsWellFormed params t (dangles constraint e fresh bad) w =
    counters-IsWellFormed t (t.next_conversation_id + 1) t.next_message_id (omega arith)
      (omega arith) w
start_conversation-IsWellFormed params t (opened e fresh good) w =
    conversation-IsWellFormed t params e fresh w

advance_read_pointer-IsWellFormed :
    (c : Conversation) (user_id message_id : ℕ) (t : Tables) {r : Result (Unit {0}) × Tables}
    → AdvanceOutcome c user_id message_id t r
    → IsWellFormed t
    → IsWellFormed r.1
advance_read_pointer-IsWellFormed c user_id message_id t (not_a_target e) w = w
advance_read_pointer-IsWellFormed c user_id message_id t (seller_moves m there s) w =
    let q = λ (d : Conversation). d.id == c.id && d.seller_id == user_id in
    change-IsWellFormed q (read_by_seller message_id) (read_by_seller_keeps message_id) t
      (every-change_same (λ d. is_dated d.created_at d.last_message_at) q
          (read_by_seller message_id) t.conversations (λ d. refl)
        ∙ w.dated)
      (λ d h k.
        advanced_points t.messages d.id message_id d.seller_last_read_message_id
          (target_of t message_id c.id d.id m there (ground arith)) h)
      (λ d h k. h) w
advance_read_pointer-IsWellFormed c user_id message_id t (buyer_moves m there s) w =
    let q = λ (d : Conversation). d.id == c.id && d.buyer_id == user_id in
    change-IsWellFormed q (read_by_buyer message_id) (read_by_buyer_keeps message_id) t
      (every-change_same (λ d. is_dated d.created_at d.last_message_at) q (read_by_buyer message_id)
          t.conversations (λ d. refl)
        ∙ w.dated)
      (λ d h k. h)
      (λ d h k.
        advanced_points t.messages d.id message_id d.buyer_last_read_message_id
          (target_of t message_id c.id d.id m there (ground arith)) h)
      w

pub perform-IsWellFormed : (r : Request) (t : Tables) → IsWellFormed t → IsWellFormed (perform r t)
unfolding perform list_conversations get_conversation_for_participant list_messages_before
    list_messages_after inbox_statement before_statement after_statement
perform-IsWellFormed (start params) t w =
    start_conversation-IsWellFormed params t (start_conversation-StartOutcome_tables params t) w
perform-IsWellFormed (inbox query) t w = w
perform-IsWellFormed (get id user_id) t w = rw (get_unchanged id user_id t) w
perform-IsWellFormed (before id before_id limit) t w = w
perform-IsWellFormed (after id after_id limit) t w = w
perform-IsWellFormed (create params) t w =
    create_message-IsWellFormed params t (create_message-CreateOutcome params t) w
perform-IsWellFormed (advance c user_id message_id) t w =
    advance_read_pointer-IsWellFormed c user_id message_id t
      (advance_read_pointer-AdvanceOutcome c user_id message_id t) w

-- From well-formed tables, whatever calls the program makes of its chat store, in any order and
-- with any arguments, successful or refused, the tables stay well-formed.
pub run-IsWellFormed : (rs : List Request) (t : Tables) → IsWellFormed t → IsWellFormed (run rs t)
unfolding run
run-IsWellFormed [] t w = w
run-IsWellFormed (r ∷ rs) t w = run-IsWellFormed rs (perform r t) (perform-IsWellFormed r t w)

-- ===== src/Postgres/Chat/Growth.antt =====
-- internal/adapter/postgres/chat.go: no call of ChatStore edits, removes or reorders a message.
use keebhub.Prelude.{
  ℕ, ◌≤◌, ◌≡◌, ◌∙◌, refl, sym, ap, Bool, true, List, [], ◌∷◌, ◌++◌, arith, leb, ◌==◌, every,
  every-append,
}
use mathlib.Core.List.{append-nil, append_assoc}
use keebhub.Prelude.Rows.{keep-append, every-keep, every_mono}
use keebhub.Domain.Errors.{Result}
use keebhub.Domain.Chat.{Conversation, Message}
use keebhub.App.Chat.{StartConversationParams, CreateMessageParams}
use keebhub.Postgres.Chat.{list_conversations, list_messages_before, list_messages_after}
use keebhub.Postgres.Chat.Tables.{Tables, history, new_message}
use keebhub.Postgres.Chat.Statements.{before_statement, after_statement}
use keebhub.Postgres.Chat.Inbox.{inbox_statement}
use keebhub.Postgres.Chat.Writes.{
  CreateOutcome, outsider, refused, too_early, created, create_message-CreateOutcome, StartOutcome,
  with_oneself, again, dangles, opened, start_conversation-StartOutcome_tables, AdvanceOutcome,
  not_a_target, seller_moves, buyer_moves, advance_read_pointer-AdvanceOutcome,
}
use keebhub.Postgres.Chat.Reachable.{
  Request, start, inbox, get, before, after, create, advance, perform, run, get_unchanged,
}
use keebhub.Postgres.Chat.Journal.{journals}

-- The messages of the second tables are those of the first and then some with new identifiers.
record Grows (t u : Tables) : Type 0 where
  news : List Message
  appended : u.messages ≡ t.messages ++ news
  numbered : every (λ m. leb t.next_message_id m.id) news ≡ true
  counted : t.next_message_id ≤ u.next_message_id

Grows-refl :
    (t u : Tables) → u.messages ≡ t.messages → t.next_message_id ≤ u.next_message_id → Grows t u
Grows-refl t u same h = record {
  news = [];
  appended = same ∙ sym (append-nil t.messages);
  numbered = refl;
  counted = h;
}

Grows-trans : (t u v : Tables) → Grows t u → Grows u v → Grows t v
Grows-trans t u v g h = record {
  news = g.news ++ h.news;
  appended =
      h.appended ∙ ap (λ ms. ms ++ h.news) g.appended ∙ append_assoc t.messages g.news h.news;
  numbered =
      let c = g.counted in
      let above =
        every_mono (λ m. leb u.next_message_id m.id) (λ m. leb t.next_message_id m.id) h.news
          (λ m k. ground arith) h.numbered in
      rw (every-append (λ m. leb t.next_message_id m.id) g.news h.news, g.numbered) above;
  counted = let c = g.counted in let d = h.counted in omega arith;
}

create-Grows :
    (params : CreateMessageParams) (t : Tables) {r : Result (Message × Conversation) × Tables}
    → CreateOutcome params t r
    → Grows t r.1
create-Grows params t (outsider e) = Grows-refl t _ refl (omega arith)
create-Grows params t (refused c e there bad) = Grows-refl t _ refl (omega arith)
create-Grows params t (too_early c d there good late) = Grows-refl t _ refl (omega arith)
create-Grows params t (created c there good early) = record {
  news = new_message params t.next_message_id ∷ [];
  appended = refl;
  numbered = ground arith;
  counted = omega arith;
}

start-Grows :
    (params : StartConversationParams) (t : Tables) {r : Result (Conversation × Bool) × Tables}
    → StartOutcome params t r
    → Grows t r.1
start-Grows params t (with_oneself e) = Grows-refl t _ refl (omega arith)
start-Grows params t (again c e old) = Grows-refl t _ refl (omega arith)
start-Grows params t (dangles constraint e fresh bad) = Grows-refl t _ refl (omega arith)
start-Grows params t (opened e fresh good) = Grows-refl t _ refl (omega arith)

advance-Grows :
    (c : Conversation) (user_id message_id : ℕ) (t : Tables) {r : Result (Unit {0}) × Tables}
    → AdvanceOutcome c user_id message_id t r
    → Grows t r.1
advance-Grows c user_id message_id t (not_a_target e) = Grows-refl t _ refl (omega arith)
advance-Grows c user_id message_id t (seller_moves m there s) = Grows-refl t _ refl (omega arith)
advance-Grows c user_id message_id t (buyer_moves m there s) = Grows-refl t _ refl (omega arith)

perform-Grows : (r : Request) (t : Tables) → Grows t (perform r t)
unfolding perform list_conversations list_messages_before list_messages_after inbox_statement
    before_statement after_statement
perform-Grows (start params) t =
    start-Grows params t (start_conversation-StartOutcome_tables params t)
perform-Grows (inbox query) t = Grows-refl t t refl (omega arith)
perform-Grows (get id user_id) t =
    rw (get_unchanged id user_id t) (Grows-refl t t refl (omega arith))
perform-Grows (before id before_id limit) t = Grows-refl t t refl (omega arith)
perform-Grows (after id after_id limit) t = Grows-refl t t refl (omega arith)
perform-Grows (create params) t = create-Grows params t (create_message-CreateOutcome params t)
perform-Grows (advance c user_id message_id) t =
    advance-Grows c user_id message_id t
      (advance_read_pointer-AdvanceOutcome c user_id message_id t)

run-Grows : (rs : List Request) (t : Tables) → Grows t (run rs t)
unfolding run
run-Grows [] t = Grows-refl t t refl (omega arith)
run-Grows (r ∷ rs) t =
    Grows-trans t (perform r t) (run rs (perform r t)) (perform-Grows r t)
      (run-Grows rs (perform r t))

-- Whatever calls the program makes of its chat store, the journal of each conversation is
-- afterwards what it was before followed by new messages, whose identifiers are at least the next
-- one of the sequence before the calls.
pub run-journals :
    (rs : List Request) (t : Tables) (id : ℕ)
    → (news : List Message) × (journals (run rs t) id ≡ journals t id ++ news)
      × (every (λ m. leb t.next_message_id m.id) news ≡ true)
run-journals rs t id =
    let g = run-Grows rs t in
    (
      history id g.news,
      ap (history id) g.appended ∙ keep-append (λ m. m.conversation_id == id) t.messages g.news,
      every-keep (λ m. leb t.next_message_id m.id) (λ m. m.conversation_id == id) g.news g.numbered,
    )

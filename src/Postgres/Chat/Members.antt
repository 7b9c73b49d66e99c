-- ===== src/Postgres/Chat/Members.antt =====
-- internal/adapter/postgres/chat.go: who takes part in a conversation does so for good.
use keebhub.Prelude.{ℕ, ◌≡◌, ◌∙◌, refl, Bool, true, ◌&&◌, List, [], ◌∷◌, ◌==◌, is_some}
use keebhub.Prelude.Rows.{change, is_some-first-append, is_some-first-change}
use keebhub.Domain.Errors.{Result}
use keebhub.Domain.Chat.{Conversation, is_participant, Message}
use keebhub.App.Chat.{StartConversationParams, CreateMessageParams}
use keebhub.Postgres.Chat.{list_conversations, list_messages_before, list_messages_after}
use keebhub.Postgres.Chat.Tables.{Tables, new_conversation, stored_time}
use keebhub.Postgres.Chat.Statements.{
  touched, read_by_seller, read_by_buyer, before_statement, after_statement,
}
use keebhub.Postgres.Chat.Inbox.{inbox_statement}
use keebhub.Postgres.Chat.Writes.{
  found, CreateOutcome, outsider, refused, too_early, created, create_message-CreateOutcome,
  StartOutcome, with_oneself, again, dangles, opened, start_conversation-StartOutcome_tables,
  AdvanceOutcome, not_a_target, seller_moves, buyer_moves, advance_read_pointer-AdvanceOutcome,
}
use keebhub.Postgres.Chat.Reachable.{
  Request, start, inbox, get, before, after, create, advance, perform, run, get_unchanged,
}

module _ (id user_id : ℕ) where
  abbrev pub takes_part : Tables → Bool
  takes_part t = is_some (found t id user_id)

  module _ (t : Tables) (member : takes_part t ≡ true) where
    takes_part-change :
        (q : Conversation → Bool) (f : Conversation → Conversation)
        → ((c : Conversation) → (f c).id ≡ c.id)
        → ((c : Conversation) → is_participant (f c) user_id ≡ is_participant c user_id)
        → takes_part (record t { conversations = change q f t.conversations }) ≡ true
    unfolding is_participant
    takes_part-change q f same_id same_users =
        is_some-first-change (λ c. c.id == id && is_participant c user_id) q f t.conversations
          (λ c. rw (same_id c, same_users c))
        ∙ member

    takes_part-create :
        (params : CreateMessageParams) {r : Result (Message × Conversation) × Tables}
        → CreateOutcome params t r
        → takes_part r.1 ≡ true
    unfolding is_participant
    takes_part-create params (outsider e) = member
    takes_part-create params (refused c e there bad) = member
    takes_part-create params (too_early c d there good late) = member
    takes_part-create params (created c there good early) =
        takes_part-change (λ d. d.id == params.conversation_id)
          (touched (stored_time params.created_at)) (λ d. refl) (λ d. refl)

    takes_part-start :
        (params : StartConversationParams) {r : Result (Conversation × Bool) × Tables}
        → StartOutcome params t r
        → takes_part r.1 ≡ true
    takes_part-start params (with_oneself e) = member
    takes_part-start params (again c e old) = member
    takes_part-start params (dangles constraint e fresh bad) = member
    takes_part-start params (opened e fresh good) =
        is_some-first-append (λ c. c.id == id && is_participant c user_id) t.conversations
          (new_conversation params t.next_conversation_id ∷ []) member

    takes_part-advance :
        (c : Conversation) (reader message_id : ℕ) {r : Result (Unit {0}) × Tables}
        → AdvanceOutcome c reader message_id t r
        → takes_part r.1 ≡ true
    unfolding is_participant
    takes_part-advance c reader message_id (not_a_target e) = member
    takes_part-advance c reader message_id (seller_moves m there s) =
        takes_part-change (λ d. d.id == c.id && d.seller_id == reader) (read_by_seller message_id)
          (λ d. refl) (λ d. refl)
    takes_part-advance c reader message_id (buyer_moves m there s) =
        takes_part-change (λ d. d.id == c.id && d.buyer_id == reader) (read_by_buyer message_id)
          (λ d. refl) (λ d. refl)

  pub takes_part-perform :
      (r : Request) (t : Tables) → takes_part t ≡ true → takes_part (perform r t) ≡ true
  unfolding perform list_conversations list_messages_before list_messages_after inbox_statement
      before_statement after_statement
  takes_part-perform (start params) t member =
      takes_part-start t member params (start_conversation-StartOutcome_tables params t)
  takes_part-perform (inbox query) t member = member
  takes_part-perform (get c reader) t member = rw (get_unchanged c reader t) member
  takes_part-perform (before c before_id limit) t member = member
  takes_part-perform (after c after_id limit) t member = member
  takes_part-perform (create params) t member =
      takes_part-create t member params (create_message-CreateOutcome params t)
  takes_part-perform (advance c reader message_id) t member =
      takes_part-advance t member c reader message_id
        (advance_read_pointer-AdvanceOutcome c reader message_id t)

  pub takes_part-run :
      (rs : List Request) (t : Tables) → takes_part t ≡ true → takes_part (run rs t) ≡ true
  unfolding run
  takes_part-run [] t member = member
  takes_part-run (r ∷ rs) t member = takes_part-run rs (perform r t) (takes_part-perform r t member)

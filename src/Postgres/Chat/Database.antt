-- ===== src/Postgres/Chat/Database.antt =====
-- The generated queries of the chat on the tables, and the store over them.
use keebhub.Postgres.Answers.{row}
use keebhub.Postgres.Chat.{ChatQueries}
use keebhub.Postgres.Chat.Tables.{Tables}
use keebhub.Postgres.Chat.Statements.{
  start_statement, participant_statement, before_statement, after_statement, message_statement,
  activity_statement, target_statement, seller_statement, buyer_statement,
}
use keebhub.Postgres.Chat.Inbox.{inbox_statement}

-- Sequences are not rolled back.
abbrev pub rolled_back : Tables → Tables → Tables
rolled_back t t' = record t {
  next_conversation_id = t'.next_conversation_id;
  next_message_id = t'.next_message_id;
}

-- A database that answers: no statement, begin or commit fails but by a constraint.
abbrev pub table_queries : ChatQueries Tables
table_queries = record {
  start_conversation = start_statement;
  list_conversations_for_user = inbox_statement;
  get_conversation_for_participant = participant_statement;
  list_messages_before = before_statement;
  list_messages_after = after_statement;
  insert_message = message_statement;
  update_conversation_last_message_at = activity_statement;
  get_message_in_conversation = target_statement;
  advance_seller_read_pointer = seller_statement;
  advance_buyer_read_pointer = buyer_statement;
  begin_transaction = λ t. (row tt, t);
  commit = λ t. (row tt, t);
  rollback = rolled_back;
}

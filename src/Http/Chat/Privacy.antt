-- ===== src/Http/Chat/Privacy.antt =====
-- internal/adapter/httpapi/chat.go over the service and the store: what an outsider is told.
use keebhub.Prelude.{
  ℕ, ◌≡◌, refl, ap, none, some, Option-cases, Bool-cases, inl, inr, List, [], ◌∷◌, ltb, Text,
}
use keebhub.Domain.Errors.{Error, not_found, user_disabled, validation, err, Result-cases}
use keebhub.Domain.User.{User, is_disabled}
use keebhub.Domain.Chat.{normalize_message_body, validate_message_body, validate_chat_page_limit}
use keebhub.App.Exec.{Exec}
use keebhub.App.Chat.{
  ChatService, MessageOptions, CreateMessageParams, message_options_error, chat_unconfigured,
  list_messages, send_message, mark_conversation_read,
}
use keebhub.Postgres.Chat.{
  chat_store, create_message, store_message, get_conversation_for_participant,
}
use keebhub.Postgres.Chat.Tables.{Tables}
use keebhub.Postgres.Chat.Statements.{participant_statement}
use keebhub.Postgres.Chat.Database.{table_queries}
use keebhub.Postgres.Chat.Writes.{found}
use keebhub.Http.Errors.{Failure, api, chat_error}
use keebhub.Http.Requests.{
  Checked, valid, rejected, JsonField, RequestBody, required, conversation_id_from_path,
  optional_positive_query_id, optional_query_int, decode_json_request,
}
use keebhub.Http.Chat.{
  Reply, failed, ChatHandlers, checked, answered, or_chat_error, requested_message_id,
  list_messages_handler, send_message_handler, mark_conversation_read_handler,
}

-- On all tables in which the user does not take part in the conversation, be it that others talk
-- in it or that there is none, the answer is the same failure, and the tables stay.
module _ (id : ℕ) (user : User) where
  abbrev pub Blind : {A : Type 0} → (Tables → Reply A × Tables) → Type 0
  Blind answer =
      (failure : Failure) × ((t : Tables)
        → found t id user.id ≡ none
        → answer t ≡ (failed failure, t))

  -- The same of a call of the service.
  abbrev BlindCall : {A : Type 0} → Exec Tables A → Type 0
  BlindCall call = (e : Error) × ((t : Tables) → found t id user.id ≡ none → call t ≡ (err e, t))

  checked-Blind :
      {A B : Type 0} (c : Checked A) (next : A → Tables → Reply B × Tables)
      → ((a : A) → Blind (next a))
      → Blind (λ t. checked c next t)
  checked-Blind (valid a) next blind = blind a
  checked-Blind (rejected failure) next blind = (failure, λ t outside. refl)

  answered-Blind :
      {A B : Type 0} (reply : A → Reply B) (call : Exec Tables A)
      → BlindCall call
      → Blind (λ t. answered reply (call t))
  answered-Blind reply call (e, blind) =
      (api (chat_error e), λ t outside. ap (answered reply) (blind t outside))

  unfound :
      (t : Tables)
      → found t id user.id ≡ none
      → get_conversation_for_participant table_queries id user.id t ≡ (err not_found, t)
  unfolding get_conversation_for_participant participant_statement
  unfound t outside = rw outside

  unsent :
      (t : Tables) (params : CreateMessageParams)
      → found t params.conversation_id params.sender_id ≡ none
      → create_message table_queries params t ≡ (err not_found, t)
  unfolding create_message participant_statement
  unsent t params outside = simp (outside, store_message)

  module _ (service : ChatService Tables)
      (set_up : service.repository ≡ some (chat_store table_queries)) where
    blind_list : (options : MessageOptions) → BlindCall (list_messages service user.id id options)
    unfolding list_messages
    blind_list options = elim (Option-cases service.listings) [
      | inl nil ↦ (Error.other chat_unconfigured, λ t outside. rw nil)
      | inr (get_listing, l) ↦ elim (Result-cases (validate_chat_page_limit options.limit)) [
        | inr (e, bad) ↦ (e, λ t outside. simp (l, set_up, bad))
        | inl (limit, good) ↦ elim (Option-cases (message_options_error options)) [
          | inr (e, bad) ↦ (e, λ t outside. simp (l, set_up, good, bad))
          | inl fine ↦ (not_found, λ t outside. simp (l, set_up, good, fine, unfound t outside))
        ]
      ]
    ]

    blind_mark : (message_id : ℕ) → BlindCall (mark_conversation_read service user.id id message_id)
    unfolding mark_conversation_read
    blind_mark message_id = elim (Option-cases service.listings) [
      | inl nil ↦ (Error.other chat_unconfigured, λ t outside. rw nil)
      | inr (get_listing, l) ↦ elim (Bool-cases (ltb message_id 1)) [
        | inl low ↦ (
          validation (("last_read_message_id", "must be a positive integer") ∷ []),
          λ t outside. simp (l, set_up, low),
        )
        | inr high ↦ (not_found, λ t outside. simp (l, set_up, high, unfound t outside))
      ]
    ]

    blind_send : (body : Text) (now : ℕ) → BlindCall (send_message service user id body now)
    unfolding send_message
    blind_send body now = elim (Option-cases service.listings) [
      | inl nil ↦ (Error.other chat_unconfigured, λ t outside. rw nil)
      | inr (get_listing, l) ↦ elim (Bool-cases (is_disabled user.status)) [
        | inl disabled ↦ (user_disabled, λ t outside. simp (l, set_up, disabled))
        | inr able ↦ elim (Option-cases (validate_message_body (normalize_message_body body))) [
          | inr (e, bad) ↦ (e, λ t outside. simp (l, set_up, able, bad))
          | inl fine ↦ (not_found, λ t outside. simp (l, set_up, able, fine, unsent t _ outside))
        ]
      ]
    ]

    module _ (h : ChatHandlers Tables) (chat_set_up : h.chat ≡ some service) (param : Text)
        (parsed : conversation_id_from_path param ≡ valid id) where
      -- For each request by a signed-in user about a conversation, to read its messages, to send
      -- one or to mark one as read, with whatever parameters and body, there is one failure that
      -- is the answer on all tables in which the user does not take part in that conversation, be
      -- it that others talk in it or that there is none; and the tables stay as they are.
      pub handlers-Blind :
          (format : ℕ → Text) (before_values after_values limit_values : List Text)
          (request : RequestBody (JsonField Text)) (now : ℕ)
          → Blind (
              list_messages_handler format h
                (some user)
                param
                before_values
                after_values
                limit_values)
            × Blind (send_message_handler format h (some user) param request now)
            × Blind (mark_conversation_read_handler h (some user) param request)
      unfolding list_messages_handler send_message_handler mark_conversation_read_handler
      handlers-Blind format before_values after_values limit_values request now =
          rw (chat_set_up, parsed)
            (
              checked-Blind (optional_positive_query_id "before_id" before_values) _ (λ before_id.
                  checked-Blind (optional_positive_query_id "after_id" after_values) _ (λ after_id.
                    checked-Blind (optional_query_int "limit" limit_values) _
                      (λ limit. answered-Blind _ _ (blind_list _)))),
              checked-Blind (decode_json_request request) _ (λ field.
                  checked-Blind (or_chat_error (required "body" field)) _
                    (λ body. answered-Blind _ _ (blind_send body now))),
              checked-Blind (decode_json_request request) _ (λ field.
                  checked-Blind
                    (or_chat_error (requested_message_id (required "last_read_message_id" field))) _
                    (λ message_id. answered-Blind _ _ (blind_mark message_id))),
            )

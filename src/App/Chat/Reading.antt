-- ===== src/App/Chat/Reading.antt =====
-- Reading messages, and marking them as read.
use keebhub.Prelude.{
  ℕ, zero, suc, ◌≢◌, ◌≡◌, ◌≤◌, ◌<◌, ◌⊎◌, inl, inr, refl, Bool-cases, Option-cases, Option, none,
  some, List, arith, ltb, ℤ, pos, Within, pos_part,
}
use keebhub.Domain.Errors.{Error, Result, ok, err, Result-cases}
use keebhub.Domain.Listing.{Listing}
use keebhub.Domain.Chat.{Conversation, Message, validate_chat_page_limit}
use keebhub.Domain.Chat.Bodies.{
  validate_chat_page_limit-Within, validate_chat_page_limit-refused, validate_chat_page_limit-asked,
}
use keebhub.App.Exec.{Exec, continue}
use keebhub.App.Chat.{
  ChatRepository, ChatService, MessageOptions, message_options_error, reverse_messages,
  read_messages, list_messages, mark_conversation_read,
}
use keebhub.App.Chat.Reversal.{IsReversal, reverse_messages-IsReversal}

-- An identifier that may be left out, and is positive where it is given.
abbrev pub IsPositive : Option ℕ → Type 0
IsPositive none = Unit
IsPositive (some n) = 0 < n

message_options_error_lem :
    (options : MessageOptions)
    → message_options_error options ≡ none
    → ((options.before_id ≡ none) ⊎ (options.after_id ≡ none))
      × (IsPositive options.before_id × IsPositive options.after_id)
message_options_error_lem options h = go options.before_id options.after_id refl refl
  where
    go :
        (before after : Option ℕ)
        → options.before_id ≡ before
        → options.after_id ≡ after
        → ((before ≡ none) ⊎ (after ≡ none)) × (IsPositive before × IsPositive after)
    go none none e p = (inl refl, (tt, tt))
    go none (some a) e p = (inl refl, (tt, ground arith))
    go (some b) none e p = (inr refl, (ground arith, tt))
    go (some b) (some a) e p = absurd (ground arith)

-- An identifier below 1, or both identifiers at once.
abbrev pub IsMistaken : MessageOptions → Type 0
IsMistaken options =
    (options.before_id ≡ some 0)
    ⊎ ((options.after_id ≡ some 0)
        ⊎ ((b : ℕ) × ((a : ℕ) × ((options.before_id ≡ some b) × (options.after_id ≡ some a)))))

message_options_error-IsMistaken :
    (options : MessageOptions) (e : Error)
    → message_options_error options ≡ some e
    → IsMistaken options
message_options_error-IsMistaken options e h = go options.before_id options.after_id refl refl
  where
    go :
        (before after : Option ℕ)
        → options.before_id ≡ before
        → options.after_id ≡ after
        → IsMistaken options
    go none none p q = absurd (ground arith)
    go none (some zero) p q = inr (inl q)
    go none (some (suc a)) p q = absurd (ground arith)
    go (some zero) none p q = inl p
    go (some (suc b)) none p q = absurd (ground arith)
    go (some b) (some a) p q = inr (inr (b, (a, (p, q))))

-- Options that can be answered, and the number of messages that they ask for: 20 for a limit of
-- zero, or the limit itself.
pub record Asks (options : MessageOptions) (limit : ℕ) : Type 0 where
  pub limited : ((options.limit ≡ pos 0) × (limit ≡ 20)) ⊎ (options.limit ≡ pos limit)
  pub low : 1 ≤ limit
  pub high : limit ≤ 100
  pub one : (options.before_id ≡ none) ⊎ (options.after_id ≡ none)
  pub before_fine : IsPositive options.before_id
  pub after_fine : IsPositive options.after_id

module _ {S : Type 0} (get_listing : ℕ → Exec S Listing) (repository : ChatRepository S)
    (user_id conversation_id : ℕ) where
  -- How a call of ListMessages on the state s can end.
  pub data ReadOutcome (options : MessageOptions) (s : S) (r : Result (List Message) × S)
      : Type 0 where
    refused :
        (e : Error)
        → ((options.limit ≢ pos 0) × ¬ Within 1 100 options.limit) ⊎ IsMistaken options
        → r ≡ (err e, s)
        → ReadOutcome options s r
    stranger :
        (limit : ℕ) (e : Error) (s' : S)
        → Asks options limit
        → repository.get_conversation_for_participant conversation_id user_id s ≡ (err e, s')
        → r ≡ (err e, s')
        → ReadOutcome options s r
    -- the messages after an identifier, as the repository gives them
    newer :
        (conversation : Conversation) (s' : S) (after_id limit : ℕ)
        → Asks options limit
        → repository.get_conversation_for_participant conversation_id user_id s
          ≡ (ok conversation, s')
        → options.after_id ≡ some after_id
        → r ≡ repository.list_messages_after conversation_id after_id limit s'
        → ReadOutcome options s r
    -- the latest messages, or those before an identifier, turned round
    older :
        (conversation : Conversation) (s' : S) (items : List Message) (limit : ℕ) (s'' : S)
        → Asks options limit
        → repository.get_conversation_for_participant conversation_id user_id s
          ≡ (ok conversation, s')
        → options.after_id ≡ none
        → repository.list_messages_before conversation_id options.before_id limit s'
          ≡ (ok items, s'')
        → (page : List Message) → IsReversal items page
        → r ≡ (ok page, s'')
        → ReadOutcome options s r
    -- the repository's own error
    failed :
        (conversation : Conversation) (s' : S) (e : Error) (limit : ℕ) (s'' : S)
        → Asks options limit
        → repository.get_conversation_for_participant conversation_id user_id s
          ≡ (ok conversation, s')
        → options.after_id ≡ none
        → repository.list_messages_before conversation_id options.before_id limit s' ≡ (err e, s'')
        → r ≡ (err e, s'')
        → ReadOutcome options s r

  read_lem :
      (options : MessageOptions) (s : S) (limit : ℕ) (conversation : Conversation) (s' : S)
      → Asks options limit
      → repository.get_conversation_for_participant conversation_id user_id s
        ≡ (ok conversation, s')
      → ReadOutcome options s (read_messages repository conversation_id options limit s')
  unfolding read_messages
  read_lem options s limit conversation s' asks e = elim (Option-cases options.after_id) [
    | inr (a, p) ↦ simp (p, read_messages) (newer conversation s' a limit asks e p refl)
    | inl p ↦
        simp (p, read_messages)
          (turned p (repository.list_messages_before conversation_id options.before_id limit s')
            refl)
  ]
    where
      turned :
          options.after_id ≡ none
          → (r : Result (List Message) × S)
          → repository.list_messages_before conversation_id options.before_id limit s' ≡ r
          → ReadOutcome options s (continue r.0 (λ items t. (ok (reverse_messages items), t)) r.1)
      turned p (ok items, s'') q =
          older conversation s' items limit s'' asks e p q (reverse_messages items)
            (reverse_messages-IsReversal items) refl
      turned p (err bad, s'') q = failed conversation s' bad limit s'' asks e p q refl

  -- ListMessages refuses a limit or an identifier out of range, and both identifiers together, before
  -- it reads anything; it reads messages only after the repository has found the conversation for
  -- this participant; it asks for as many messages as the limit says, or 20 for zero; and it returns the messages after an identifier
  -- in the repository's order, all others in the reverse of it.
  pub list_messages-ReadOutcome :
      (service : ChatService S) (options : MessageOptions) (s : S)
      → service.listings ≡ some get_listing
      → service.repository ≡ some repository
      → ReadOutcome options s (list_messages service user_id conversation_id options s)
  unfolding list_messages
  list_messages-ReadOutcome service options s set_up set_up' =
      simp (set_up, set_up')
        (elim (Result-cases (validate_chat_page_limit options.limit)) [
          | inr (e, bad) ↦
              simp bad (refused e (inl (validate_chat_page_limit-refused options.limit e bad)) refl)
          | inl (n, good) ↦ simp good (elim (Option-cases (message_options_error options)) [
            | inr (e, bad) ↦
                simp bad (refused e (inr (message_options_error-IsMistaken options e bad)) refl)
            | inl fine ↦ simp fine (
                after (pos_part n) (asked n good fine)
                  (repository.get_conversation_for_participant conversation_id user_id s) refl)
          ])
        ])
    where
      asked :
          (n : ℤ)
          → validate_chat_page_limit options.limit ≡ ok n
          → message_options_error options ≡ none
          → Asks options (pos_part n)
      asked n good fine =
          let ((sign, low, high), same) = validate_chat_page_limit-Within options.limit n good in
          let (one, (before_fine, after_fine)) = message_options_error_lem options fine in
          record {
            limited = validate_chat_page_limit-asked options.limit n good;
            low = low;
            high = high;
            one = one;
            before_fine = before_fine;
            after_fine = after_fine;
          }

      after :
          (limit : ℕ)
          → Asks options limit
          → (r : Result Conversation × S)
          → repository.get_conversation_for_participant conversation_id user_id s ≡ r
          → ReadOutcome options s
              (continue r.0 (λ c. read_messages repository conversation_id options limit) r.1)
      after limit asks (ok conversation, s') e = read_lem options s limit conversation s' asks e
      after limit asks (err e, s') p = stranger limit e s' asks p refl

  -- How a call of MarkConversationRead on the state s can end.
  pub data MarkOutcome (message_id : ℕ) (s : S) (r : Result (Unit {0}) × S) : Type 0 where
    refused : (e : Error) → message_id ≡ 0 → r ≡ (err e, s) → MarkOutcome message_id s r
    stranger :
        (e : Error) (s' : S)
        → repository.get_conversation_for_participant conversation_id user_id s ≡ (err e, s')
        → r ≡ (err e, s')
        → MarkOutcome message_id s r
    advanced :
        (conversation : Conversation) (s' : S)
        → repository.get_conversation_for_participant conversation_id user_id s
          ≡ (ok conversation, s')
        → 0 < message_id
        → r ≡ repository.advance_read_pointer conversation user_id message_id s'
        → MarkOutcome message_id s r

  -- A read pointer is moved only for a participant of the conversation, by the repository, and only to
  -- a message identifier of 1 at least; every other call changes no more than that lookup does.
  pub mark_conversation_read-MarkOutcome :
      (service : ChatService S) (message_id : ℕ) (s : S)
      → service.listings ≡ some get_listing
      → service.repository ≡ some repository
      → MarkOutcome message_id s
          (mark_conversation_read service user_id conversation_id message_id s)
  unfolding mark_conversation_read
  mark_conversation_read-MarkOutcome service message_id s set_up set_up' =
      simp (set_up, set_up')
        (elim (Bool-cases (ltb message_id 1)) [
          | inl low ↦ simp low (refused _ (ground arith) refl)
          | inr high ↦ simp high (
              after (ground arith)
                (repository.get_conversation_for_participant conversation_id user_id s) refl)
        ])
    where
      after :
          0 < message_id
          → (r : Result Conversation × S)
          → repository.get_conversation_for_participant conversation_id user_id s ≡ r
          → MarkOutcome message_id s
              (continue r.0 (λ c. repository.advance_read_pointer c user_id message_id) r.1)
      after h (ok conversation, s') e = advanced conversation s' e h refl
      after h (err e, s') p = stranger e s' p refl

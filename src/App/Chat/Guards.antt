-- ===== src/App/Chat/Guards.antt =====
-- What reaches the chat repository, and when an event is published.
use keebhub.Prelude.{
  ℕ, ◌≡◌, ◌≢◌, ◌≤◌, ◌⊎◌, inl, inr, refl, Bool, true, false, ◌&&◌, Bool-cases, Option-cases, none,
  some, [], arith, ==_iff, true, ◌==◌, Text, rune_count, trim_space,
}
use keebhub.Domain.Errors.{
  Error, Result, ok, err, user_disabled, listing_unavailable, self_conversation,
}
use keebhub.Domain.Listing.{Listing}
use keebhub.Domain.User.{User, is_disabled}
use keebhub.Domain.Chat.{
  Conversation, Message, MessageCreatedEvent, normalize_message_body, validate_message_body,
}
use keebhub.Domain.Chat.Bodies.{validate_message_body_iff}
use keebhub.App.Exec.{Exec, continue}
use keebhub.App.Chat.{
  ChatRepository, ChatService, CreateMessageParams, is_open, is_visible, notify, published,
  open_conversation, start_conversation, send_message,
}

module _ {S : Type 0} (get_listing : ℕ → Exec S Listing) (repository : ChatRepository S)
    (user : User) where
  -- Why a call gives the error e.
  pub data StartCause (listing_id : ℕ) (s : S) (e : Error) : Type 0 where
    is_barred : is_disabled user.status ≡ true → e ≡ user_disabled → StartCause listing_id s e
    is_unread : (s' : S) → get_listing listing_id s ≡ (err e, s') → StartCause listing_id s e
    is_closed :
        (listing : Listing) (s' : S)
        → get_listing listing_id s ≡ (ok listing, s')
        → (is_visible listing.moderation_status && is_open listing.status) ≡ false
        → e ≡ listing_unavailable
        → StartCause listing_id s e
    is_own :
        (listing : Listing) (s' : S)
        → get_listing listing_id s ≡ (ok listing, s')
        → listing.seller_id ≡ user.id
        → e ≡ self_conversation
        → StartCause listing_id s e

  -- How a call of StartConversation on the state s can end.
  pub data StartOutcome (listing_id now : ℕ) (s : S) (r : Result (Conversation × Bool) × S)
      : Type 0 where
    -- an error, with nothing done but the read
    refused :
        (e : Error)
        → StartCause listing_id s e
        → r.0 ≡ err e
        → (r.1 ≡ s) ⊎ (r.1 ≡ (get_listing listing_id s).1)
        → StartOutcome listing_id now s r
    -- what the repository gives for this listing, its seller and the user as the buyer
    opened :
        (listing : Listing) (s' : S)
        → get_listing listing_id s ≡ (ok listing, s')
        → is_disabled user.status ≡ false
        → is_visible listing.moderation_status ≡ true
        → is_open listing.status ≡ true
        → listing.seller_id ≢ user.id
        → r
          ≡ repository.start_conversation
              (record {
                listing_id = listing.id;
                seller_id = listing.seller_id;
                buyer_id = user.id;
                created_at = now;
              })
              s'
        → StartOutcome listing_id now s r

  opened_lem :
      (listing_id now : ℕ) (s : S) (listing : Listing) (s' : S)
      → get_listing listing_id s ≡ (ok listing, s')
      → is_disabled user.status ≡ false
      → StartOutcome listing_id now s (open_conversation repository user now listing s')
  unfolding open_conversation
  opened_lem listing_id now s listing s' e able =
      elim (Bool-cases (is_visible listing.moderation_status && is_open listing.status)) [
        | inr closed ↦
            simp closed (refused _ (is_closed listing s' e closed refl) refl (inr (ground arith)))
        | inl available ↦ simp available (elim (Bool-cases (listing.seller_id == user.id)) [
          | inl own ↦
              simp own (
                refused _ (is_own listing s' e ((==_iff _ _).0 own) refl) refl (inr (ground arith)))
          | inr other ↦
              simp other
                (opened listing s' e able (ground arith) (ground arith) (ground arith) refl)
        ])
      ]

  -- A conversation is opened only by a user who is not disabled, about a visible listing that is
  -- active or reserved and is not their own; the repository is given that listing, its seller and
  -- the user as the buyer. It fails only where one of these conditions does,
  -- or the read of the listing, and has then done nothing beyond that read; else the repository's
  -- answer is the call's.
  pub start_conversation-StartOutcome :
      (service : ChatService S) (listing_id now : ℕ) (s : S)
      → service.listings ≡ some get_listing
      → service.repository ≡ some repository
      → StartOutcome listing_id now s (start_conversation service user listing_id now s)
  unfolding start_conversation
  start_conversation-StartOutcome service listing_id now s set_up set_up' =
      simp (set_up, set_up')
        (elim (Bool-cases (is_disabled user.status)) [
          | inl disabled ↦ simp disabled (refused _ (is_barred disabled refl) refl (inl refl))
          | inr able ↦ simp able (after able (get_listing listing_id s) refl)
        ])
    where
      after :
          is_disabled user.status ≡ false
          → (r : Result Listing × S) → get_listing listing_id s ≡ r
          → StartOutcome listing_id now s (continue r.0 (open_conversation repository user now) r.1)
      after able (ok listing, s') e = opened_lem listing_id now s listing s' e able
      after able (err e, s') p = refused e (is_unread s' p) refl (inr (ground arith))

module _ {S : Type 0} (get_listing : ℕ → Exec S Listing) (repository : ChatRepository S)
    (user : User) (conversation_id : ℕ) (body : Text) (now : ℕ) where
  -- What is handed to CreateMessage.
  abbrev pub sent : CreateMessageParams
  sent = record {
    conversation_id = conversation_id;
    sender_id = user.id;
    body = trim_space body;
    created_at = now;
  }

  -- The event for a stored message.
  abbrev pub announced : Message → Conversation → MessageCreatedEvent
  announced message conversation = record {
    conversation_id = conversation.id;
    message_id = message.id;
    seller_id = conversation.seller_id;
    buyer_id = conversation.buyer_id;
  }

  -- How a call of SendMessage on the state s can end.
  pub data SendOutcome (service : ChatService S) (s : S) (r : Result Message × S) : Type 0 where
    refused :
        (e : Error)
        → (is_disabled user.status ≡ true) ⊎ (validate_message_body (trim_space body) ≡ some e)
        → r ≡ (err e, s)
        → SendOutcome service s r
    failed :
        (e : Error) (s' : S)
        → repository.create_message sent s ≡ (err e, s')
        → r ≡ (err e, s')
        → SendOutcome service s r
    delivered :
        (message : Message) (conversation : Conversation) (s' : S)
        → is_disabled user.status ≡ false
        → trim_space body ≢ []
        → rune_count (trim_space body) ≤ 2000
        → repository.create_message sent s ≡ (ok (message, conversation), s')
        → r ≡ (ok message, notify service.publisher (announced message conversation) s')
        → SendOutcome service s r

  -- An event is published only after the message is stored, once, for that message and the two users
  -- of its conversation, and the stored body is trimmed, not blank and at most 2000 characters long.
  -- A call that fails publishes nothing; one by a disabled user or with a bad body changes nothing, and
  -- no other call is refused before the message is stored.
  pub send_message-SendOutcome :
      (service : ChatService S) (s : S)
      → service.listings ≡ some get_listing
      → service.repository ≡ some repository
      → SendOutcome service s (send_message service user conversation_id body now s)
  unfolding send_message normalize_message_body
  send_message-SendOutcome service s set_up set_up' =
      simp (set_up, set_up')
        (elim (Bool-cases (is_disabled user.status)) [
          | inl disabled ↦ simp disabled (refused _ (inl disabled) refl)
          | inr able ↦ simp able (elim (Option-cases (validate_message_body (trim_space body))) [
            | inr (e, bad) ↦ simp bad (refused e (inr bad) refl)
            | inl fine ↦ simp fine (after able fine (repository.create_message sent s) refl)
          ])
        ])
    where
      after :
          is_disabled user.status ≡ false
          → validate_message_body (trim_space body) ≡ none
          → (r : Result (Message × Conversation) × S) → repository.create_message sent s ≡ r
          → SendOutcome service s (continue r.0 (published service.publisher) r.1)
      after able fine (ok (message, conversation), s') e =
          let (full, short) = (validate_message_body_iff (trim_space body)).0 fine in
          delivered message conversation s' able full short e refl
      after able fine (err e, s') p = failed e s' p refl

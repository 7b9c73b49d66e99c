-- ===== src/Postgres/Chat/Delivery.antt =====
-- internal/app/chat.go over internal/adapter/postgres/chat.go: what is sent can be read.
use keebhub.Prelude.{
  ℕ, zero, suc, ◌≤◌, ◌≡◌, ◌∙◌, refl, sym, ap, subst, true, none, some, Option-cases, inl, inr, List,
  [], ◌∷◌, ◌++◌, arith, keep, is_some, last?, take, trim_space, ℤ, pos_part, Text,
}
use mathlib.Core.List.{reverse, reverse-cons, reverse-append}
use keebhub.Domain.Errors.{Result, ok}
use keebhub.Domain.Listing.{Listing}
use keebhub.Domain.User.{User}
use keebhub.Domain.Chat.{Conversation, Message, MessageCreatedEvent, validate_chat_page_limit}
use keebhub.Domain.Chat.Bodies.{validate_chat_page_limit-Within}
use keebhub.App.Exec.{Exec}
use keebhub.App.Chat.{
  ChatService, CreateMessageParams, MessageOptions, list_messages, send_message, notify,
  message_params, event_of,
}
use keebhub.App.Chat.Guards.{SendOutcome, refused, failed, delivered, send_message-SendOutcome}
use keebhub.Postgres.Chat.{chat_store, create_message}
use keebhub.Postgres.Chat.Tables.{Tables}
use keebhub.Postgres.Chat.Database.{table_queries}
use keebhub.Postgres.Chat.WellFormed.{IsWellFormed}
use keebhub.Postgres.Chat.Writes.{found}
use keebhub.Postgres.Chat.Reachable.{create, perform, perform-IsWellFormed}
use keebhub.Postgres.Chat.Journal.{Journals, journals, Posts, posts, create_message-Posts}
use keebhub.Postgres.Chat.Members.{takes_part, takes_part-perform}
use keebhub.Postgres.Chat.Pages.{page, list_messages-journals}

last?-append : (ms : List Message) (m : Message) → last? (ms ++ m ∷ []) ≡ some m
last?-append [] m = refl
last?-append (n ∷ []) m = refl
last?-append (n ∷ k ∷ ms) m = last?-append (k ∷ ms) m

keep_all : (ms : List Message) → keep (λ m. true) ms ≡ ms
keep_all [] = refl
keep_all (m ∷ ms) = ap (λ ns. m ∷ ns) (keep_all ms)

-- The latest page ends with the last message.
last?-page :
    (limit : ℕ) (ms : List Message) (m : Message)
    → 1 ≤ limit
    → last? (page none none limit (ms ++ m ∷ [])) ≡ some m
last?-page zero ms m h = absurd (omega arith)
last?-page (suc limit) ms m h =
    rw (keep_all (ms ++ m ∷ []), reverse-append ms (m ∷ []))
      (rw (reverse-cons m (take limit (reverse ms)))
        (last?-append (reverse (take limit (reverse ms))) m))

posted :
    (params : CreateMessageParams) (j k : Journals) (m : Message) (c : Conversation)
    → Posts params j (ok (m, c)) k
    → k params.conversation_id ≡ j params.conversation_id ++ m ∷ []
posted params j k m c (posts m' c' e0 e1 e2 e3 e4 e5 grown) =
    grown params.conversation_id ∙ ground arith

create_message_journal :
    (params : CreateMessageParams) (t t' : Tables) (m : Message) (c : Conversation)
    → create_message table_queries params t ≡ (ok (m, c), t')
    → journals t' params.conversation_id ≡ journals t params.conversation_id ++ m ∷ []
create_message_journal params t t' m c e =
    posted params (journals t) (journals t') m c
      (subst (λ r. Posts params (journals t) r.0 (journals r.1)) e (create_message-Posts params t))

-- The answer is a page of messages that ends with this one.
abbrev pub EndsWith : Message → Result (List Message) → Type 0
EndsWith m r = (ms : List Message) × (r ≡ ok ms) × (last? ms ≡ some m)

module _ (service : ChatService Tables) (get_listing : ℕ → Exec Tables Listing) (reader id : ℕ)
    (options : MessageOptions) (limit : ℤ) (set_up : service.listings ≡ some get_listing)
    (set_up' : service.repository ≡ some (chat_store table_queries))
    (valid : validate_chat_page_limit options.limit ≡ ok limit)
    (no_before : options.before_id ≡ none) (no_after : options.after_id ≡ none) where
  read_latest :
      (t : Tables) (ms : List Message) (m : Message)
      → takes_part id reader t ≡ true
      → IsWellFormed t
      → journals t id ≡ ms ++ m ∷ []
      → EndsWith m (list_messages service reader id options t).0
  read_latest t ms m member w e = elim (Option-cases (found t id reader)) [
    | inl missing ↦ absurd (ground (arith, ap is_some missing))
    | inr (c, there) ↦
        let listed =
          list_messages-journals service get_listing reader id options limit t c set_up set_up'
            valid (rw (no_before, no_after)) there w in
        let full = (validate_chat_page_limit-Within options.limit limit valid).0.1 in
        (
          page none none (pos_part limit) (ms ++ m ∷ []),
          ap (λ r. r.0) listed ∙ rw (no_before, no_after, e),
          last?-page (pos_part limit) ms m full,
        )
  ]

  read_after :
      (user : User) (body : Text) (now : ℕ) (t : Tables) (m : Message)
      → ((e : MessageCreatedEvent) (s : Tables) → notify service.publisher e s ≡ s)
      → takes_part id reader t ≡ true
      → IsWellFormed t
      → (r : Result Message × Tables)
      → SendOutcome get_listing (chat_store table_queries) user id body now service t r
      → r.0 ≡ ok m
      → EndsWith m (list_messages service reader id options r.1).0
  unfolding perform
  read_after user body now t m quiet member w r (refused e x y) h = absurd (ground arith)
  read_after user body now t m quiet member w r (failed e s' x y) h = absurd (ground arith)
  read_after user body now t m quiet member w r (delivered m' c s' x y z done y') h =
      let params = message_params user id (trim_space body) now in
      let state : s' ≡ perform (create params) t = ap (λ p. p.1) (sym done) in
      let state' : r.1 ≡ perform (create params) t =
        ap (λ p. p.1) y' ∙ quiet (event_of m' c) s' ∙ state in
      let same : m' ≡ m = ground (arith, ap (λ p. p.0) y') in
      let written : journals (perform (create params) t) id ≡ journals t id ++ m ∷ [] =
        ap (λ u. journals u id) (sym state)
        ∙ create_message_journal params t s' m' c done
        ∙ ap (λ n. journals t id ++ n ∷ []) same in
      subst (λ u. EndsWith m (list_messages service reader id options u).0) (sym state')
        (read_latest (perform (create params) t) (journals t id) m
          (takes_part-perform id reader (create params) t member)
          (perform-IsWellFormed (create params) t w) written)

  -- Once a message is sent, each participant who asks for the latest messages, with any limit that
  -- is allowed, receives a page that ends with it. The tables are well-formed, and the publisher
  -- does not change them.
  pub send_message-EndsWith :
      (user : User) (body : Text) (now : ℕ) (t : Tables) (m : Message)
      → ((e : MessageCreatedEvent) (s : Tables) → notify service.publisher e s ≡ s)
      → takes_part id reader t ≡ true
      → IsWellFormed t
      → (send_message service user id body now t).0 ≡ ok m
      → EndsWith m
          (list_messages service reader id options (send_message service user id body now t).1).0
  send_message-EndsWith user body now t m quiet member w h =
      read_after user body now t m quiet member w (send_message service user id body now t)
        (send_message-SendOutcome get_listing (chat_store table_queries) user id body now service t
          set_up set_up')
        h

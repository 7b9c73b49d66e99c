-- ===== src/Postgres/Chat/CatchUp.antt =====
-- internal/app/chat.go over internal/adapter/postgres/chat.go: reading on after the last message.
use keebhub.Prelude.{
  ℕ, zero, suc, ◌+◌, ◌≤◌, ◌≡◌, ◌∙◌, sym, ap, subst, Bool, true, Option, none, some, Option-cases,
  inl, inr, List, [], ◌++◌, arith, keep, every, every-take, is_some, last?, take, ltb, leb, length,
  length-append, length-keep-le, ℤ, pos_part, ◌==◌,
}
use keebhub.Prelude.Rows.{keep-append, every_mono, every-keep, rising-keep}
use keebhub.Domain.Errors.{Result, ok, err}
use keebhub.Domain.Listing.{Listing}
use keebhub.Domain.Chat.{Message, validate_chat_page_limit}
use keebhub.Domain.Chat.Bodies.{validate_chat_page_limit-Within}
use keebhub.App.Exec.{Exec}
use keebhub.App.Chat.{ChatService, MessageOptions, list_messages}
use keebhub.Postgres.Chat.{chat_store}
use keebhub.Postgres.Chat.Tables.{Tables}
use keebhub.Postgres.Chat.Database.{table_queries}
use keebhub.Postgres.Chat.WellFormed.{IsWellFormed}
use keebhub.Postgres.Chat.Writes.{found}
use keebhub.Postgres.Chat.Reachable.{Request, run, run-IsWellFormed}
use keebhub.Postgres.Chat.Journal.{journals}
use keebhub.Postgres.Chat.Growth.{run-journals}
use keebhub.Postgres.Chat.Members.{takes_part, takes_part-run}
use keebhub.Postgres.Chat.PageRest.{
  newer, every-last?, page_rest, page_empty, newer-newer, every-newer, length-pos_last, empty_of,
  keep-every, newer_last,
}
use keebhub.Postgres.Chat.Pages.{list_messages-journals, journals-rise}

-- A client joins the page to what it reads after the page's last message.
abbrev pub follow :
    Option Message → List Message → Tables → (ℕ → Tables → List Message) → List Message
follow none ms t next = []
follow (some m) ms t next = ms ++ next m.id t

abbrev pub extend : Result (List Message) × Tables → (ℕ → Tables → List Message) → List Message
extend (ok ms, t) next = follow (last? ms) ms t next
extend (err e, t) next = []

module _ (service : ChatService Tables) (user_id id : ℕ) (limit : ℤ) where
  abbrev pub after_options : ℕ → MessageOptions
  after_options after_id = record { before_id = none; after_id = some after_id; limit = limit }

  -- A client that asks for the messages after the last one that it has, until a page is empty. The
  -- fuel bounds the number of pages.
  pub read_on : ℕ → ℕ → Tables → List Message
  unfolding list_messages
  read_on zero after_id t = []
  read_on (suc fuel) after_id t =
      extend (list_messages service user_id id (after_options after_id) t) (read_on fuel)

  module _ (get_listing : ℕ → Exec Tables Listing) (n : ℤ)
      (set_up : service.listings ≡ some get_listing)
      (set_up' : service.repository ≡ some (chat_store table_queries))
      (valid : validate_chat_page_limit limit ≡ ok n) where
    read_page :
        (after_id : ℕ) (t : Tables)
        → 1 ≤ after_id
        → takes_part id user_id t ≡ true
        → IsWellFormed t
        → list_messages service user_id id (after_options after_id) t
          ≡ (ok (take (pos_part n) (keep (newer after_id) (journals t id))), t)
    read_page after_id t pos member w = elim (Option-cases (found t id user_id)) [
      | inl missing ↦ absurd (ground (arith, ap is_some missing))
      | inr (c, there) ↦
          list_messages-journals service get_listing user_id id (after_options after_id) n t c
            set_up set_up' valid (ground arith) there w
    ]

    read_on-journals :
        (fuel after_id : ℕ) (t : Tables)
        → 1 ≤ after_id
        → takes_part id user_id t ≡ true
        → IsWellFormed t
        → length (keep (newer after_id) (journals t id)) ≤ fuel
        → read_on fuel after_id t ≡ keep (newer after_id) (journals t id)
    unfolding read_on
    read_on-journals zero after_id t pos member w h =
        empty_of (keep (newer after_id) (journals t id)) h
    read_on-journals (suc fuel) after_id t pos member w h =
        let rest = keep (newer after_id) (journals t id) in
        let full = (validate_chat_page_limit-Within limit n valid).0.1 in
        rw (read_page after_id t pos member w)
          (elim (Option-cases (last? (take (pos_part n) rest))) [
            | inl empty ↦ rw empty (sym (page_empty (pos_part n) rest full empty))
            | inr (m, e) ↦
                let first_part = take (pos_part n) rest in
                let later =
                  every-last? (newer after_id) first_part m
                    (every-take (newer after_id) (pos_part n) rest
                      (every-newer after_id (journals t id)))
                    e in
                let again = newer-newer after_id m.id (journals t id) (ground arith) in
                let split =
                  page_rest (pos_part n) rest m
                    (rising-keep Message.id (newer after_id) (journals t id) (journals-rise t id w))
                    e in
                let some_read = length-pos_last first_part m e in
                let sizes : length rest ≡ length first_part + length (keep (newer m.id) rest) =
                  ap length split ∙ length-append first_part (keep (newer m.id) rest) in
                let shorter : length (keep (newer m.id) (journals t id)) ≤ fuel =
                  subst (λ ms. length ms ≤ fuel) again (omega arith) in
                let ih = read_on-journals fuel m.id t (ground arith) member w shorter in
                rw e (ap (λ ms. first_part ++ ms) (ih ∙ sym again) ∙ sym split)
          ])

    -- A participant who has seen a conversation up to its last message, and later, after any calls
    -- of the store, reads on from there page by page, then has the whole conversation, each
    -- message once and in order. The tables are well-formed at the start, the page limit is
    -- allowed, and as many pages as there are messages are enough.
    pub read_on-run :
        (rs : List Request) (t : Tables) (m : Message) (fuel : ℕ)
        → takes_part id user_id t ≡ true
        → IsWellFormed t
        → last? (journals t id) ≡ some m
        → length (journals (run rs t) id) ≤ fuel
        → journals t id ++ read_on fuel m.id (run rs t) ≡ journals (run rs t) id
    read_on-run rs t m fuel member w seen enough =
        let u = run rs t in
        let (news, grown, numbered) = run-journals rs t id in
        let all_of = λ (p : Message → Bool) (h : every p t.messages ≡ true).
          every-last? p (journals t id) m (every-keep p (λ n. n.conversation_id == id) t.messages h)
            seen in
        let old = all_of (λ n. ltb n.id t.next_message_id) w.messages_counted in
        let positive = all_of (λ n. ltb 0 n.id) w.message_ids_positive in
        let fresh = keep-every (newer m.id) news (
          every_mono (λ n. leb t.next_message_id n.id) (newer m.id) news (λ n h. ground arith)
            numbered) in
        let none_left = newer_last (journals t id) m (journals-rise t id w) seen in
        let read =
          read_on-journals fuel m.id u (ground arith) (takes_part-run id user_id rs t member)
            (run-IsWellFormed rs t w)
            (omega (arith, length-keep-le (newer m.id) (journals u id))) in
        let parts : keep (newer m.id) (journals u id) ≡ news =
          ap (keep (newer m.id)) grown
          ∙ keep-append (newer m.id) (journals t id) news
          ∙ ap (λ ms. ms ++ keep (newer m.id) news) none_left
          ∙ fresh in
        ap (λ ms. journals t id ++ ms) (read ∙ parts) ∙ sym grown

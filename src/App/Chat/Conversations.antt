-- ===== src/App/Chat/Conversations.antt =====
-- internal/app/chat.go: the pages of conversations and their cursors.
use keebhub.Prelude.{
  ℕ, ◌+◌, ◌≤◌, ◌<◌, ◌≡◌, refl, arith, ◌⊎◌, inl, inr, not, ◌&&◌, Bool-cases, Option, none, some,
  List, [], ◌∷◌, ltb, leb, leb→le, ◌==◌, if◌then◌else◌, length, length-take, take, last?, ℤ,
  pos_part, Text,
}
use keebhub.Domain.Errors.{Error, Result, ok, err, query}
use keebhub.Domain.Chat.{ConversationSummary, validate_chat_page_limit}
use keebhub.App.Exec.{Exec, pure, configured, lift, ◌>>=◌}
use keebhub.App.Cursor.{Codec, Clock}
use keebhub.App.Catalog.Pages.{take-all, last?-take}
use keebhub.App.Chat.{ConversationPage, ChatService, chat_cursor_version, chat_unconfigured}

-- The encoded fields of chatCursor.
pub record ChatCursor : Type 0 where
  pub version : ℕ
  pub activity_at : Text
  pub id : ℕ

-- The two unencoded fields.
pub record ChatPosition : Type 0 where
  pub activity_at : Option ℕ
  pub id : Option ℕ

abbrev pub invalid_chat_cursor : Error
invalid_chat_cursor = query (("cursor", "is invalid") ∷ [])

abbrev pub last_activity : ConversationSummary → ℕ
last_activity last = elim last.conversation.last_message_at [
  | none ↦ last.conversation.created_at
  | some at ↦ at
]

module _ (codec : Codec ChatCursor) (clock : Clock) where
  open codec use {Token, is_blank, encode, decode, decode-encode, encode-is_blank}

  abbrev pub encode_chat_cursor : ℕ → ℕ → Token
  encode_chat_cursor activity_at id =
      encode
        (record { version = chat_cursor_version; activity_at = clock.format activity_at; id = id })

  unfoldable pub decode_chat_cursor : Token → Result ChatPosition
  decode_chat_cursor value =
      if is_blank value
      then ok (record { activity_at = none; id = none })
      else elim (decode value) [
        | none ↦ err invalid_chat_cursor
        | some cursor ↦
            if cursor.version == chat_cursor_version && not (ltb cursor.id 1)
            then elim (clock.parse cursor.activity_at) [
              | none ↦ err invalid_chat_cursor
              | some parsed ↦ ok (record { activity_at = some parsed; id = some cursor.id })
            ]
            else err invalid_chat_cursor
      ]

  abbrev pub summary_cursor : ConversationSummary → Token
  summary_cursor last = encode_chat_cursor (last_activity last) last.conversation.id

  -- The slice items[:limit] has a last element, since 1 ≤ limit < len(items).
  unfoldable pub conversation_page : List ConversationSummary → ℕ → ConversationPage Token
  conversation_page items limit =
      if leb (length items) limit then record { items = items; next_cursor = none } else record {
        items = take limit items;
        next_cursor = elim (last? (take limit items)) [
          | none ↦ none
          | some last ↦ some (summary_cursor last)
        ];
      }

  unfoldable pub list_conversations :
      {S : Type 0} → ChatService S → ℕ → Token → ℤ → Exec S (ConversationPage Token)
  unfolding decode_chat_cursor conversation_page
  list_conversations service user_id cursor limit = do
    get_listing ← configured service.listings chat_unconfigured
    repository ← configured service.repository chat_unconfigured
    n ← lift (validate_chat_page_limit limit)
    position ← lift (decode_chat_cursor cursor)
    items ← repository.list_conversations (record {
      user_id = user_id;
      cursor_activity_at = position.activity_at;
      cursor_id = position.id;
      limit = pos_part n + 1;
    })
    pure (conversation_page items (pos_part n))

  -- What a page of conversations is: at most `limit` of the rows, from the first on. Where rows are
  -- left over, its cursor decodes to the last activity and the identifier of the last one kept.
  pub record IsConversationPage (rows : List ConversationSummary) (limit : ℕ)
      (page : ConversationPage Token) : Type 0 where
    pub prefix : page.items ≡ take limit rows
    pub size : length page.items ≤ limit
    pub next :
        ((length rows ≤ limit) × (page.next_cursor ≡ none))
        ⊎ ((limit < length rows)
            × ((last : ConversationSummary) × ((token : Token) × ((last? page.items ≡ some last)
                    × ((page.next_cursor ≡ some token)
                        × (0 < last.conversation.id
                            → decode_chat_cursor token
                              ≡ ok (record {
                                activity_at = some (last_activity last);
                                id = some last.conversation.id;
                              })))))))

  decode_chat_cursor-encode :
      (activity_at id : ℕ)
      → 0 < id
      → decode_chat_cursor (encode_chat_cursor activity_at id)
        ≡ ok (record { activity_at = some activity_at; id = some id })
  unfolding decode_chat_cursor
  decode_chat_cursor-encode activity_at id h =
      simp (encode-is_blank, decode-encode, clock.parse-format) (ground arith)

  -- Conversations are cut into pages, for a limit of 1 at least: a page is the first rows, and when
  -- rows are left over its cursor leads back to the last conversation it shows.
  pub conversation_page-IsConversationPage :
      (rows : List ConversationSummary) (limit : ℕ)
      → 0 < limit
      → IsConversationPage rows limit (conversation_page rows limit)
  unfolding conversation_page
  conversation_page-IsConversationPage rows limit h = elim (Bool-cases (leb (length rows) limit)) [
    | inl short ↦
        let fits = leb→le (length rows) limit short in
        rw short
          (record { prefix = rw (take-all limit rows fits); size = fits; next = inl (fits, refl) })
    | inr long ↦
        let more : limit < length rows = ground arith in
        let (last, e) = last?-take limit rows h more in
        rw long (record {
          prefix = refl;
          size = omega (arith, length-take {0} limit rows);
          next = inr (
            more,
            (
              last,
              (
                summary_cursor last,
                (
                  e,
                  (
                    rw e,
                    λ k. decode_chat_cursor-encode (last_activity last) last.conversation.id k,
                  ),
                ),
              ),
            ),
          );
        })
  ]

-- ===== src/Lib.antt =====
-- KeebHub is a marketplace for mechanical keyboards: members log in with Discord, list what they
-- sell, search the listings of others and talk with them. This library models the core of its
-- server, as internal/domain, internal/app, internal/adapter/sse, the accounts and the chat of
-- internal/adapter/postgres, the chat and the login of internal/adapter/httpapi, and
-- internal/platform/config have it.
--
-- Parts and files.
-- - Prelude and its children: the libraries' names, Boolean tests on the native numbers, lists,
--   integers, texts, trimming, maps, and the rows of tables.
-- - Domain/Errors, Domain/Listing: internal/domain/catalog.go, the named errors, the listing, its
--   rules and its status machine (CanTransitionListingStatus is can_transition_listing_status).
-- - Domain/User, Domain/Handle: internal/domain/auth.go, and IsCanonicalHandle of
--   internal/domain/profile.go. Domain/Profile: the rest of that file.
-- - Domain/Chat: internal/domain/chat.go.
-- - Sse/Broker: internal/adapter/sse/broker.go. The state is the record Broker: the flag closed,
--   the map of subscriptions, and a heap of subscribers with their buffered channels, which the
--   browsers' streams share. A method is a function into Option, where none is a panic; receive is
--   what a stream does.
-- - App/Exec: calls that change the outside world and may fail. A repository is a record of such
--   calls, and a service is a record of the repositories it was given, none for a nil. App/Cursor:
--   the encodings of page cursors.
-- - App/Catalog and its children: internal/app/catalog.go. App/Seller: internal/app/seller.go.
--   App/Chat: internal/app/chat.go. App/Auth: internal/app/auth.go. An operation has the name of
--   its method (ChangeListingStatus is change_listing_status). Where its end depends on a read,
--   that end is a definition of its own (move_listing, open_conversation, read_messages,
--   open_session).
-- - Postgres/Accounts: internal/adapter/postgres/auth.go. The generated queries are a record,
--   with the beginning, the commit and the rollback of a transaction; a commit that fails may have
--   taken effect or not.
-- - Postgres/Answers: what a query answers. Postgres/Chat: internal/adapter/postgres/chat.go,
--   ChatStore over the generated queries, a record again. Its children: Tables has the tables of
--   db/migrations/00004_chat_and_sse.sql with their constraints, Statements and Inbox have each
--   statement of internal/generated/db/chat.sql.go as a function on them, and Database makes them
--   the queries of a store; WellFormed is the invariant of the tables; Writes says what each write
--   does, and Reachable, Growth and Members what sequences of calls do; Journal, Pages, Delivery,
--   CatchUp and Unread relate the calls to each other, through the chat service as well.
-- - Http/Errors: internal/adapter/httpapi/error.go and chatError. Http/Requests: the parameters
--   and JSON bodies of requests. Http/Chat: the handlers of internal/adapter/httpapi/chat.go;
--   startConversation is start_conversation_handler, and so on. Http/Auth:
--   internal/adapter/httpapi/auth.go.
-- - Platform/Config: internal/platform/config/config.go. Validate is validate, the sequence of
--   its checks; Environment has LoadFrom; Checks says what a sound configuration is.
-- - Examples: the theorems at concrete inputs.
--
-- How they interact. The HTTP handlers check a request, call a service and turn its answer into a
-- response. The services call the rules of Domain and then the repositories; the chat service
-- hands the broker, as its publisher, an event for each stored message; the login asks Discord,
-- the random source and the store in turn.
--
-- What is a parameter. The repositories and the generated queries (for the chat, the statements
-- on the tables are one such record), Discord, the publisher, JSON with base64 (the record
-- Codec), RFC 3339 times (Clock), SHA-256 and base64 of session tokens (TokenCodec),
-- url.ParseRequestURI, url.Parse, strings.EqualFold, time.ParseDuration, the environment, the
-- JSON decoder and the random source are arguments; their documented round trips are fields of
-- those records, that Rollback restores what is seen of the accounts and that a transaction which
-- does not begin leaves it are hypotheses of the theorem on the store's login, that io.ReadFull
-- fills its buffer is a hypothesis of the theorems on logins, and that the parser takes the root
-- for a page is one of that on their start.
--
-- Choices. A string is the list of its runes, and all strings are valid UTF-8. An identifier is a
-- natural number: the code's tests treat those below 1 alike. Prices, quantities and page limits
-- are integers. A time is a natural number of nanoseconds in UTC, and the reading of the clock is
-- an argument; the columns of the chat keep the whole microseconds of it. A map of messages is an
-- association list whose later entries hide earlier ones. to_lower agrees with strings.ToLower as
-- far as NormalizeHandle tells runes apart. The broker's methods hold its mutex to their end, so
-- each is one step; a set is visited in the order of its list. The swap loop of reverseMessages
-- has the length of the list as fuel, which the theorem on it shows to be enough; the digits of n
-- have n + 1, since a round divides by ten. The loop over handles has its thousand attempts as
-- fuel, as in the source. A client that reads on page by page has the number of its pages as
-- fuel, for which the number of the messages is enough. All other loops are structural. A
-- statement on the tables is one step, and a transaction is not interleaved with others; a
-- sequence goes on where a statement or a transaction fails.
--
-- Not modelled: the stores of the catalog and of sellers with their statements, the statements of
-- accounts, concurrent transactions and failures of the connection, the event stream, the HTTP
-- handlers of the catalog and of sellers, the middleware but for sessions, the Discord client,
-- migrations, logging and process lifetime, contexts and cancellation, and the browser's code.
pub mod Prelude
pub mod Domain
pub mod Sse
pub mod App
pub mod Postgres
pub mod Http
pub mod Platform
pub mod Examples

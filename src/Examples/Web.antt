-- ===== src/Examples/Web.antt =====
-- The HTTP handlers at concrete requests.
use keebhub.Prelude.{
  ℕ, zero, suc, ◌≡◌, refl, arith, true, false, Option, none, some, [], ◌∷◌, length, pos, Text,
  codes,
}
use keebhub.Domain.Errors.{ok, wrapped, not_found}
use keebhub.Domain.User.{User}
use keebhub.App.Cursor.{plain_codec}
use keebhub.App.Auth.{Bytes}
use keebhub.Postgres.Chat.Tables.{Tables}
use keebhub.Http.Errors.{api, chat_error, classify_error}
use keebhub.Http.Errors.Answers.{Shown, chat_error-Shown}
use keebhub.Http.Requests.{
  JsonField, value, RequestBody, json, end, conversation_id_from_path, parse_id, id_string,
}
use keebhub.Http.Requests.Identifiers.{parse_id-id_string}
use keebhub.Http.Chat.{
  ChatHandlers, list_messages_handler, send_message_handler, mark_conversation_read_handler,
}
use keebhub.Http.Chat.Privacy.{Blind, handlers-Blind}
use keebhub.Http.Auth.{
  RequestUri, OauthStateCookie, CallbackRequest, validate_return_to, discord_callback,
}
use keebhub.Http.Auth.Callback.{CallbackOutcome, discord_callback-CallbackOutcome}
use keebhub.Http.Auth.Session.{start_discord}
use keebhub.Http.Auth.Start.{IsStarted, start_discord-IsStarted}
use keebhub.Examples.{siti}
use keebhub.Examples.Logins.{codec, zeros, service}
use keebhub.Examples.Stores.{table_service}

abbrev stranger : User
stranger = record siti { id = 3 }

abbrev handlers : ChatHandlers Tables
handlers = record { chat = some table_service }

abbrev format : ℕ → Text
format t = t ∷ []

abbrev request : RequestBody (JsonField Text)
request = record {
  is_json = true;
  content_length = pos 20;
  first_value = json (some (value (codes "11")));
  trailer = end;
}

handlers-Blind_example :
    Blind 9 stranger (list_messages_handler format handlers (some stranger) (codes "9") [] [] [])
    × Blind 9 stranger
        (send_message_handler format handlers (some stranger) (codes "9") request 700)
    × Blind 9 stranger (mark_conversation_read_handler handlers (some stranger) (codes "9") request)
unfolding conversation_id_from_path
handlers-Blind_example =
    handlers-Blind 9 stranger table_service refl handlers refl (codes "9") refl format [] [] []
      request 700

chat_error-Shown_example :
    Shown
      (wrapped "get listing" not_found)
      (classify_error (api (chat_error (wrapped "get listing" not_found))))
chat_error-Shown_example = chat_error-Shown (wrapped "get listing" not_found)

parse_id-id_string_example : parse_id (id_string 42) ≡ some 42
parse_id-id_string_example = parse_id-id_string 42 (omega arith) (omega arith)

abbrev parse : Text → Option RequestUri
parse path = some (record { is_abs = false; host = []; has_user = false; path = path })

abbrev held : OauthStateCookie
held = record { state = zeros 32; return_to = codes "/sell"; expires_at = pos 600 }

abbrev callback : CallbackRequest (Option OauthStateCookie)
callback = record {
  oauth_cookie = some (some held);
  session_cookie = none;
  state = zeros 32;
  error = [];
  code = codes "code";
}

discord_callback-CallbackOutcome_example :
    CallbackOutcome codec
      (plain_codec OauthStateCookie)
      parse
      (some service)
      callback
      500
      0
      (discord_callback codec (plain_codec OauthStateCookie) parse (some service) callback 500 0)
discord_callback-CallbackOutcome_example =
    discord_callback-CallbackOutcome codec (plain_codec OauthStateCookie) parse (some service)
      callback 500 0

length-zeros_all : (n : ℕ) → length (zeros n) ≡ n
length-zeros_all zero = refl
length-zeros_all (suc n) = omega (arith, length-zeros_all n)

full : (n s s' : ℕ) (bytes : Bytes) → service.random n s ≡ (ok bytes, s') → length bytes ≡ n
full n s s' bytes h = ground (arith, length-zeros_all n)

root_parses : validate_return_to parse (codes "/") ≡ some (codes "/")
unfolding validate_return_to
root_parses = refl

start_discord-IsStarted_example :
    IsStarted parse codec
      (plain_codec OauthStateCookie)
      (codes "/sell")
      0
      (some held)
      600_000_000_000
unfolding validate_return_to start_discord
start_discord-IsStarted_example =
    start_discord-IsStarted parse root_parses codec (plain_codec OauthStateCookie) service.random
      (some service) full (codes "/sell") 0 (some held) 600_000_000_000 0 refl

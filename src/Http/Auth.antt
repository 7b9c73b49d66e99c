-- ===== src/Http/Auth.antt =====
-- internal/adapter/httpapi/auth.go: the login with Discord, the session's cookie and the user.
use keebhub.Prelude.{
  ℕ, ◌+◌, ◌/◌, ◌≤◌, ◌≡◌, Bool, true, false, not, ◌&&◌, ◌||◌, Option, none, some, List, [], ◌∷◌,
  ◌++◌, ltb, leb, ◌==◌, if◌then◌else◌, length, every, String, ℤ, pos, ltb_ℤ, Text, codes, text_eq,
  is_empty, byte_len, trim_space,
}
use keebhub.Domain.Errors.{
  Error, Result, ok, err, user_disabled, discord_unavailable, authentication_unavailable,
  invalid_session, wrapped,
}
use keebhub.Domain.User.{User}
use keebhub.App.Exec.{Exec}
use keebhub.App.Cursor.{Codec}
use keebhub.App.Auth.{
  TokenCodec, AuthService, LoginResult, authorization_url, login_with_discord, authenticate, logout,
}
use keebhub.Http.Errors.{HttpError, Failure, api, internal_error, root}
use keebhub.Http.Requests.{Checked, valid, rejected}
pub mod ReturnTo
pub mod Callback
pub mod Session
pub mod Start

-- 10 * time.Minute, in nanoseconds and in seconds
abbrev pub oauth_state_lifetime : ℕ
oauth_state_lifetime = 600_000_000_000

abbrev pub oauth_state_bytes : ℕ
oauth_state_bytes = 32

abbrev pub maximum_return_to : ℕ
maximum_return_to = 2048

-- What the code reads of url.ParseRequestURI's answer.
pub record RequestUri : Type 0 where
  pub is_abs : Bool
  pub host : Text
  pub has_user : Bool
  pub path : Text

-- strings.HasPrefix
abbrev pub has_prefix : Text → Text → Bool
has_prefix s [] = true
has_prefix [] (p ∷ ps) = false
has_prefix (c ∷ s) (p ∷ ps) = c == p && has_prefix s ps

-- unicode.IsControl
abbrev pub is_control : ℕ → Bool
is_control c = ltb c 0x20 || (leb 0x7f c && ltb c 0xa0)

abbrev pub is_under : Text → Text → Bool
is_under path reserved = text_eq path reserved || has_prefix path (reserved ++ b'/' ∷ [])

-- The loop over the backend's paths.
abbrev pub is_reserved : Text → Bool
is_reserved path =
    is_under path (codes "/api")
    || is_under path (codes "/auth")
    || is_under path (codes "/assets")
    || is_under path (codes "/healthz")
    || is_under path (codes "/readyz")

abbrev pub return_to_checked : Text → Option RequestUri → Option Text
return_to_checked value none = none
return_to_checked value (some parsed) =
    if parsed.is_abs
      || not (is_empty parsed.host)
      || parsed.has_user
      || has_prefix parsed.path (codes "//")
    then none
    else if is_reserved parsed.path
    then none
    else some value

-- The argument parse_request_uri is url.ParseRequestURI; none is an error.
unfoldable pub validate_return_to : (Text → Option RequestUri) → Text → Option Text
validate_return_to parse_request_uri value =
    if is_empty value
    then some (codes "/")
    else if ltb maximum_return_to (byte_len value)
        || not (has_prefix value (codes "/"))
        || has_prefix value (codes "//")
        || not (every (λ c. not (c == b'\\')) value)
    then none
    else if not (every (λ c. not (is_control c)) value)
    then none
    else return_to_checked value (parse_request_uri value)

-- oauthStateCookie; the time is in seconds.
pub record OauthStateCookie : Type 0 where
  pub state : Text
  pub return_to : Text
  pub expires_at : ℤ

-- Where a handler sends the browser: back to the login with an error, or to another address.
pub data Redirect : Type 0 where
  to_login : String → Text → Redirect
  to_address : Text → Redirect

-- A response: whether it clears the OAuth cookie, the OAuth and the session cookie that it sets,
-- each with its time of expiry, and the address.
pub record AuthReply (Token : Type 0) : Type 0 where
  pub clears_oauth : Bool
  pub oauth_cookie : Option (Token × ℕ)
  pub session_cookie : Option (Text × ℕ)
  pub redirect : Redirect

-- What a callback's request has: its cookies, and its query parameters, empty where they are missing.
pub record CallbackRequest (Token : Type 0) : Type 0 where
  pub oauth_cookie : Option Token
  pub session_cookie : Option Text
  pub state : Text
  pub error : Text
  pub code : Text

abbrev pub callback_error_by : Error → String
callback_error_by user_disabled = "account_disabled"
callback_error_by discord_unavailable = "discord_unavailable"
callback_error_by authentication_unavailable = "authentication_unavailable"
callback_error_by e = "authentication_failed"

abbrev pub callback_error_code : Error → String
callback_error_code e = callback_error_by (root e)

abbrev pub sent_to_login : {Token : Type 0} → String → Text → AuthReply Token
sent_to_login code return_to = record {
  clears_oauth = true;
  oauth_cookie = none;
  session_cookie = none;
  redirect = to_login code return_to;
}

abbrev pub logged_in : {Token : Type 0} → Text → Result LoginResult → AuthReply Token
logged_in return_to (err e) = sent_to_login (callback_error_code e) return_to
logged_in return_to (ok result) = record {
  clears_oauth = true;
  oauth_cookie = none;
  session_cookie = some (result.raw_token, result.expires_at);
  redirect = to_address return_to;
}

-- cookie.Value, empty where there is no cookie
abbrev pub or_empty : Option Text → Text
or_empty none = []
or_empty (some value) = value

abbrev pub returns_to : Text → Option Text → Bool
returns_to return_to none = false
returns_to return_to (some checked) = text_eq checked return_to

abbrev pub has_bytes : ℕ → Option (List ℕ) → Bool
has_bytes expected none = false
has_bytes expected (some decoded) = length decoded == expected

module _ (tokens : TokenCodec) where
  open tokens use {decode_string}

  abbrev pub valid_random_value : Text → ℕ → Bool
  valid_random_value value expected_bytes = has_bytes expected_bytes (decode_string value)

  -- subtle.ConstantTimeCompare is equality.
  unfoldable pub matching_oauth_state : Text → Text → Bool
  matching_oauth_state expected presented =
      valid_random_value expected oauth_state_bytes
      && valid_random_value presented oauth_state_bytes
      && text_eq expected presented

  -- The state of the OAuth cookie, if it is there, can be accepted and is the one presented.
  abbrev pub presented_state : Text → Option OauthStateCookie → Option OauthStateCookie
  presented_state presented none = none
  presented_state presented (some state) =
      if matching_oauth_state state.state presented then some state else none

module _ (tokens : TokenCodec) (states : Codec OauthStateCookie)
    (parse_request_uri : Text → Option RequestUri) where
  open tokens use {Hash}
  open states use {Token, decode}

  abbrev pub state_accepted : ℕ → Option OauthStateCookie → Option OauthStateCookie
  state_accepted now none = none
  state_accepted now (some state) =
      if not (valid_random_value tokens state.state oauth_state_bytes)
        || not (ltb_ℤ (pos (now / 1_000_000_000)) state.expires_at)
      then none
      else if returns_to state.return_to (validate_return_to parse_request_uri state.return_to)
      then some state
      else none

  unfoldable pub decode_oauth_state : Token → ℕ → Option OauthStateCookie
  unfolding validate_return_to
  decode_oauth_state value now = state_accepted now (decode value)

  abbrev pub cookie_state : Option Token → Text → ℕ → Option OauthStateCookie
  cookie_state none presented now = none
  cookie_state (some cookie) presented now =
      presented_state tokens presented (decode_oauth_state cookie now)

  module _ {S : Type 0} (auth : Option (AuthService Hash S)) where
    abbrev pub logged_in_by :
        Option (AuthService Hash S) → CallbackRequest Token → ℕ → Text → S → AuthReply Token × S
    logged_in_by none request now return_to s =
        (sent_to_login "authentication_unavailable" return_to, s)
    logged_in_by (some service) request now return_to s =
        let (r, s') =
          login_with_discord tokens service request.code (or_empty request.session_cookie) now s in
        (logged_in return_to r, s')

    -- discordCallback once the state is accepted.
    unfoldable pub authorized_callback :
        CallbackRequest Token → ℕ → OauthStateCookie → S → AuthReply Token × S
    authorized_callback request now state s =
        if not (is_empty request.error)
        then (
          sent_to_login
              (if text_eq request.error (codes "access_denied")
                then "authorization_denied"
                else "authentication_failed")
              state.return_to,
          s,
        )
        else if is_empty (trim_space request.code)
        then (sent_to_login "authentication_failed" state.return_to, s)
        else logged_in_by auth request now state.return_to s

    abbrev pub called_back :
        CallbackRequest Token → ℕ → Option OauthStateCookie → S → AuthReply Token × S
    called_back request now none s = (sent_to_login "oauth_state_invalid" (codes "/"), s)
    called_back request now (some state) s = authorized_callback request now state s

    unfoldable pub discord_callback : CallbackRequest Token → ℕ → S → AuthReply Token × S
    unfolding authorized_callback matching_oauth_state decode_oauth_state
    discord_callback request now s =
        called_back request now (cookie_state request.oauth_cookie request.state now) s

-- ===== src/Http/Auth/Session.antt =====
-- internal/adapter/httpapi/auth.go: the start of a login, the session's cookie and the logout.
use keebhub.Prelude.{
  ℕ, ◌+◌, ◌/◌, Bool, true, false, ◌||◌, Option, none, some, [], ◌∷◌, if◌then◌else◌, pos, Text,
  is_empty,
}
use keebhub.Domain.Errors.{Error, Result, ok, err, user_disabled, wrapped, is_invalid_session}
use keebhub.Domain.User.{User}
use keebhub.App.Exec.{Exec}
use keebhub.App.Cursor.{Codec}
use keebhub.App.Auth.{Bytes, TokenCodec, AuthService, authorization_url, authenticate, logout}
use keebhub.Http.Errors.{HttpError, api, internal_error}
use keebhub.Http.Requests.{Checked, valid, rejected}
use keebhub.Http.Auth.{
  RequestUri, OauthStateCookie, to_address, AuthReply, sent_to_login, or_empty, oauth_state_bytes,
  oauth_state_lifetime, validate_return_to,
}

abbrev pub invalid_return_to_error : HttpError
invalid_return_to_error = record {
  status = 400;
  code = "invalid_return_to";
  message = "The return address is not allowed.";
  fields = ("return_to", "must be an internal application route") ∷ [];
  cause = none;
}

abbrev pub is_user_disabled : Error → Bool
is_user_disabled user_disabled = true
is_user_disabled (wrapped context e) = is_user_disabled e
is_user_disabled e = false

abbrev pub new_state : Text → Text → ℕ → OauthStateCookie
new_state state return_to now = record {
  state = state;
  return_to = return_to;
  expires_at = pos ((now + oauth_state_lifetime) / 1_000_000_000);
}

module _ (tokens : TokenCodec) where
  open tokens use {Hash, encode_to_string}

  module _ (states : Codec OauthStateCookie) (parse_request_uri : Text → Option RequestUri)
      {S : Type 0} (random : ℕ → Exec S Bytes) (auth : Option (AuthService Hash S)) where
    open states use {Token, encode}

    abbrev pub unavailable : Text → AuthReply Token
    unavailable return_to = record (sent_to_login "authentication_unavailable" return_to) {
      clears_oauth = false;
    }

    abbrev pub sent_to_discord : Text → Text → ℕ → Result Text → AuthReply Token
    sent_to_discord state return_to now (err e) = unavailable return_to
    sent_to_discord state return_to now (ok url) = record {
      clears_oauth = false;
      oauth_cookie = some (encode (new_state state return_to now), now + oauth_state_lifetime);
      session_cookie = none;
      redirect = to_address url;
    }

    abbrev pub with_service :
        Option (AuthService Hash S) → Text → Text → ℕ → S → Checked (AuthReply Token) × S
    with_service none state return_to now s = (valid (unavailable return_to), s)
    with_service (some service) state return_to now s =
        let (r, s') = authorization_url tokens service state s in
        (valid (sent_to_discord state return_to now r), s')

    abbrev pub with_random : Text → ℕ → Result Bytes × S → Checked (AuthReply Token) × S
    with_random return_to now (err e, s) =
        (rejected (api (internal_error (wrapped "generate OAuth state" e))), s)
    with_random return_to now (ok value, s) =
        with_service auth (encode_to_string value) return_to now s

    abbrev pub with_return_to : Option Text → ℕ → S → Checked (AuthReply Token) × S
    with_return_to none now s = (rejected (api invalid_return_to_error), s)
    with_return_to (some return_to) now s = with_random return_to now (random oauth_state_bytes s)

    unfoldable pub start_discord : Text → ℕ → S → Checked (AuthReply Token) × S
    unfolding validate_return_to
    start_discord return_to now s =
        with_return_to (validate_return_to parse_request_uri return_to) now s

  module _ {S : Type 0} (auth : Option (AuthService Hash S)) where
    -- What sessionMiddleware finds out before it calls the next handler: the user, if there is one,
    -- and whether it clears the session's cookie.
    abbrev pub identified : Result User → Checked (Option User × Bool)
    identified (ok user) = valid (some user, false)
    identified (err e) =
        if is_invalid_session e || is_user_disabled e
        then valid (none, true)
        else rejected (api (internal_error e))

    abbrev pub identified_by :
        Option (AuthService Hash S) → Text → ℕ → S → Checked (Option User × Bool) × S
    identified_by none token now s = (valid (none, false), s)
    identified_by (some service) token now s =
        if is_empty token
        then (valid (none, false), s)
        else (let (r, s') = authenticate tokens service token now s in (identified r, s'))

    unfoldable pub session_middleware : Option Text → ℕ → S → Checked (Option User × Bool) × S
    session_middleware cookie now s = identified_by auth (or_empty cookie) now s

    -- A logout answers 204 and clears the session's cookie, unless the service fails.
    abbrev pub signed_out : Result (Unit {0}) → Checked (Unit {0})
    signed_out (ok tt) = valid tt
    signed_out (err e) = rejected (api (internal_error e))

    abbrev pub signed_out_by : Option (AuthService Hash S) → Text → S → Checked (Unit {0}) × S
    signed_out_by none token s = (valid tt, s)
    signed_out_by (some service) token s =
        let (r, s') = logout tokens service token s in (signed_out r, s')

    unfoldable pub logout_handler : Option Text → S → Checked (Unit {0}) × S
    logout_handler cookie s = signed_out_by auth (or_empty cookie) s

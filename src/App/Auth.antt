-- ===== src/App/Auth.antt =====
-- internal/app/auth.go: sessions and the login with Discord.
use keebhub.Prelude.{
  ℕ, ◌+◌, ◌*◌, ◌≡◌, refl, Bool, true, false, Option, none, some, List, ◌==◌, if◌then◌else◌, length,
  String, Text, is_empty,
}
use keebhub.Domain.Errors.{
  Error, Result, ok, err, invalid_session, authentication_unavailable, wrapped, is_invalid_session,
}
use keebhub.Domain.User.{User, DiscordIdentity, validate_identity}
use keebhub.Domain.Handle.{normalize_handle}
use keebhub.App.Exec.{Exec, pure, raise, configured, lift, require, ◌>>=◌, ◌>>◌}
pub mod Sessions
pub mod Login

abbrev pub session_token_bytes : ℕ
session_token_bytes = 32

-- 30 * 24 * time.Hour, in nanoseconds
abbrev pub session_lifetime : ℕ
session_lifetime = 30 * 24 * 3600 * 1_000_000_000

abbrev pub Bytes : Type 0
Bytes = List ℕ

-- crypto/sha256 and the unpadded base64url of encoding/base64. The law is the round trip that the
-- latter documents.
pub record TokenCodec : Type 1 where
  pub Hash : Type 0
  pub sum256 : Bytes → Hash
  pub encode_to_string : Bytes → Text
  pub decode_string : Text → Option Bytes
  pub decode_string-encode_to_string :
      (value : Bytes) → decode_string (encode_to_string value) ≡ some value

pub record LoginParams (Hash : Type 0) : Type 0 where
  pub identity : DiscordIdentity
  pub handle_base : Text
  pub token_hash : Hash
  pub previous_token_hash : Option Hash
  pub created_at : ℕ
  pub expires_at : ℕ

pub record LoginResult : Type 0 where
  pub user : User
  pub raw_token : Text
  pub expires_at : ℕ

pub record DiscordOauth (S : Type 0) : Type 0 where
  pub authorization_url : Text → Exec S Text
  pub identity_from_code : Text → Exec S DiscordIdentity

pub record AuthStore (Hash S : Type 0) : Type 0 where
  pub login : LoginParams Hash → Exec S User
  pub authenticate : Hash → ℕ → Exec S User
  pub delete_session : Hash → Exec S (Unit {0})

-- `random` reads as many bytes as it is asked for, as io.ReadFull does, or fails.
pub record AuthService (Hash S : Type 0) : Type 0 where
  pub oauth : Option (DiscordOauth S)
  pub store : Option (AuthStore Hash S)
  pub random : ℕ → Exec S Bytes

-- fmt.Errorf("context: %w", err)
abbrev pub within : {S A : Type 0} → String → Exec S A → Exec S A
within context m s =
    let (r, s') = m s in (elim r [ ok a ↦ ok a | err e ↦ err (wrapped context e) ], s')

abbrev pub in_context : String → Option Error → Option Error
in_context context none = none
in_context context (some e) = some (wrapped context e)

module _ (codec : TokenCodec) where
  open codec use {Hash, sum256, encode_to_string, decode_string}

  unfoldable pub session_token_hash : Text → Result Hash
  session_token_hash raw_token = elim (decode_string raw_token) [
    | none ↦ err invalid_session
    | some decoded ↦
        if length decoded == session_token_bytes then ok (sum256 decoded) else err invalid_session
  ]

  -- The hash of the token that a login replaces, if there is a valid one.
  abbrev pub ok_or_none : Result Hash → Option Hash
  ok_or_none (ok hash) = some hash
  ok_or_none (err e) = none

  unfoldable pub previous_hash : Text → Option Hash
  unfolding session_token_hash
  previous_hash previous_raw_token =
      if is_empty previous_raw_token
      then none
      else ok_or_none (session_token_hash previous_raw_token)

  abbrev pub login_params : DiscordIdentity → Text → Hash → ℕ → LoginParams Hash
  login_params identity previous_raw_token hash now = record {
    identity = identity;
    handle_base = normalize_handle identity.username;
    token_hash = hash;
    previous_token_hash = previous_hash previous_raw_token;
    created_at = now;
    expires_at = now + session_lifetime;
  }

  module _ {S : Type 0} where
    abbrev pub new_session_token : AuthService Hash S → Exec S (Text × Hash)
    new_session_token service = do
      value ← service.random session_token_bytes
      pure (encode_to_string value, sum256 value)

    abbrev pub authorization_url : AuthService Hash S → Text → Exec S Text
    authorization_url service state s = elim service.oauth [
      | none ↦ (err authentication_unavailable, s)
      | some oauth ↦ oauth.authorization_url state s
    ]

    -- LoginWithDiscord once the session's token is made.
    unfoldable pub open_session :
        AuthStore Hash S → DiscordIdentity → Text → ℕ → Text × Hash → Exec S LoginResult
    unfolding previous_hash normalize_handle
    open_session store identity previous_raw_token now token = do
      user ← store.login (login_params identity previous_raw_token token.1 now)
      pure (record { user = user; raw_token = token.0; expires_at = now + session_lifetime })

    -- LoginWithDiscord once Discord has named the user.
    unfoldable pub admit :
        AuthService Hash S → AuthStore Hash S → Text → ℕ → DiscordIdentity → Exec S LoginResult
    unfolding open_session
    admit service store previous_raw_token now identity = do
      require (in_context "validate Discord identity" (validate_identity identity))
      token ← within "generate session token" (new_session_token service)
      open_session store identity previous_raw_token now token

    unfoldable pub login_with_discord : AuthService Hash S → Text → Text → ℕ → Exec S LoginResult
    unfolding admit
    login_with_discord service code previous_raw_token now s = elim service.oauth [
      | none ↦ (err authentication_unavailable, s)
      | some oauth ↦
          (do
            store ← configured service.store "auth store is not configured"
            identity ← oauth.identity_from_code code
            admit service store previous_raw_token now identity)
            s
    ]

    unfoldable pub authenticate : AuthService Hash S → Text → ℕ → Exec S User
    unfolding session_token_hash
    authenticate service raw_token now = do
      store ← configured service.store "auth store is not configured"
      hash ← lift (session_token_hash raw_token)
      store.authenticate hash now

    -- The end of Logout: an invalid token is no error.
    abbrev pub sign_out : AuthStore Hash S → Result Hash → Exec S (Unit {0})
    sign_out store (ok hash) = store.delete_session hash
    sign_out store (err e) = if is_invalid_session e then pure tt else raise e

    unfoldable pub logout : AuthService Hash S → Text → Exec S (Unit {0})
    unfolding session_token_hash
    logout service raw_token s = if is_empty raw_token then (ok tt, s) else elim service.store [
      | none ↦ (ok tt, s)
      | some store ↦ sign_out store (session_token_hash raw_token) s
    ]

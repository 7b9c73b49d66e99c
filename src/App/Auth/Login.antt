-- ===== src/App/Auth/Login.antt =====
-- What a login with Discord hands to the store.
use keebhub.Prelude.{
  ℕ, ◌+◌, ◌≡◌, ◌≢◌, refl, ap, arith, inl, inr, true, false, Option, Option-cases, Bool-cases, none,
  some, [], ◌∷◌, length, is_empty, Text,
}
use keebhub.Domain.Errors.{Error, Result, ok, err, wrapped}
use keebhub.Domain.User.{User, DiscordIdentity, validate_identity}
use keebhub.Domain.Handle.{is_canonical_handle, normalize_handle}
use keebhub.Domain.Handle.Canonical.{normalize_handle-canonical}
use keebhub.App.Exec.{continue, pure, ◌>>=◌}
use keebhub.App.Auth.{
  Bytes, TokenCodec, LoginResult, DiscordOauth, AuthStore, AuthService, session_lifetime,
  LoginParams, session_token_hash, previous_hash, login_params, within, open_session, admit,
  login_with_discord,
}
use keebhub.App.Auth.Sessions.{session_token_hash-cases}

is_empty_nil : (t : Text) → is_empty t ≡ true → t ≡ []
is_empty_nil [] h = refl
is_empty_nil (c ∷ t) h = absurd (ground arith)

is_empty_cons : (t : Text) → is_empty t ≡ false → t ≢ []
is_empty_cons [] h = absurd (ground arith)
is_empty_cons (c ∷ t) h = λ e. ground arith

module _ (codec : TokenCodec) {S : Type 0} (service : AuthService codec.Hash S)
    (oauth : DiscordOauth S) (store : AuthStore codec.Hash S) (code previous : Text) (now : ℕ)
    (s : S) where
  open codec use {Hash, sum256, encode_to_string, decode_string, decode_string-encode_to_string}

  -- A text that encodes the 32 bytes of a token.
  abbrev pub IsToken : Text → Bytes → Type 0
  IsToken text value = (decode_string text ≡ some value) × (length value ≡ 32)

  -- The session that a login replaces: that of the token which the browser had, if it had one.
  pub data Replaces : Option Hash → Type 0 where
    replaces :
        (value : Bytes) → previous ≢ [] → IsToken previous value → Replaces (some (sum256 value))
    blank : previous ≡ [] → Replaces none
    other : ((value : Bytes) → ¬ IsToken previous value) → Replaces none

  -- What the store is asked for: this identity, a canonical handle to start from, the digest of the
  -- new token, and a session that starts now and ends 30 days, in nanoseconds, later.
  pub record IsLogin (identity : DiscordIdentity) (value : Bytes) (p : LoginParams Hash)
      : Type 0 where
    pub identified : p.identity ≡ identity
    pub valid : validate_identity identity ≡ none
    pub handle : p.handle_base ≡ normalize_handle identity.username
    pub canonical : is_canonical_handle p.handle_base ≡ true
    pub digest : p.token_hash ≡ sum256 value
    pub replaced : Replaces p.previous_token_hash
    pub starts : p.created_at ≡ now
    pub ends : p.expires_at ≡ now + 2_592_000_000_000_000

  -- How a login can end. The store is asked in the last two cases only.
  pub data LoginOutcome (r : Result LoginResult × S) : Type 0 where
    unknown :
        (e : Error) (s' : S)
        → oauth.identity_from_code code s ≡ (err e, s')
        → r ≡ (err e, s')
        → LoginOutcome r
    invalid :
        (identity : DiscordIdentity) (e : Error) (s' : S)
        → oauth.identity_from_code code s ≡ (ok identity, s')
        → validate_identity identity ≡ some e
        → r ≡ (err (wrapped "validate Discord identity" e), s')
        → LoginOutcome r
    no_token :
        (identity : DiscordIdentity) (e : Error) (s' s'' : S)
        → oauth.identity_from_code code s ≡ (ok identity, s')
        → service.random 32 s' ≡ (err e, s'')
        → r ≡ (err (wrapped "generate session token" e), s'')
        → LoginOutcome r
    refused :
        (identity : DiscordIdentity) (value : Bytes) (p : LoginParams Hash) (e : Error)
        (t s' s'' : S)
        → oauth.identity_from_code code s ≡ (ok identity, t)
        → service.random 32 t ≡ (ok value, s')
        → IsLogin identity value p
        → store.login p s' ≡ (err e, s'')
        → r ≡ (err e, s'')
        → LoginOutcome r
    opened :
        (identity : DiscordIdentity) (value : Bytes) (p : LoginParams Hash) (user : User)
        (t s' s'' : S)
        → oauth.identity_from_code code s ≡ (ok identity, t)
        → service.random 32 t ≡ (ok value, s')
        → IsLogin identity value p
        → store.login p s' ≡ (ok user, s'')
        → session_token_hash codec (encode_to_string value) ≡ ok (sum256 value)
        → r ≡ (
          ok (record {
            user = user;
            raw_token = encode_to_string value;
            expires_at = now + 2_592_000_000_000_000;
          }),
          s'',
        )
        → LoginOutcome r

  token_lem :
      (value : Bytes)
      → length value ≡ 32
      → session_token_hash codec (encode_to_string value) ≡ ok (sum256 value)
  unfolding session_token_hash
  token_lem value h = simp (session_token_hash, decode_string-encode_to_string, h) refl

  previous_hash-Replaces : Replaces (previous_hash codec previous)
  unfolding previous_hash
  previous_hash-Replaces = elim (Bool-cases (is_empty previous)) [
    | inl nothing ↦ rw nothing (blank (is_empty_nil previous nothing))
    | inr something ↦ rw something (elim (session_token_hash-cases codec previous) [
      | inl (value, (e, (size, hash))) ↦
          rw hash (replaces value (is_empty_cons previous something) (e, size))
      | inr (bad, hash) ↦ rw hash (other (λ value t. bad value t.0 t.1))
    ])
  ]

  login_params-IsLogin :
      (identity : DiscordIdentity) (value : Bytes)
      → validate_identity identity ≡ none
      → IsLogin identity value (login_params codec identity previous (sum256 value) now)
  login_params-IsLogin identity value fine = record {
    identified = refl;
    valid = fine;
    handle = refl;
    canonical = normalize_handle-canonical identity.username;
    digest = refl;
    replaced = previous_hash-Replaces;
    starts = refl;
    ends = refl;
  }

  opened_lem :
      (identity : DiscordIdentity) (value : Bytes) (t s' : S)
      → oauth.identity_from_code code s ≡ (ok identity, t)
      → service.random 32 t ≡ (ok value, s')
      → validate_identity identity ≡ none
      → length value ≡ 32
      → LoginOutcome
          (open_session codec store identity previous now (encode_to_string value, sum256 value) s')
  unfolding open_session
  opened_lem identity value t s' known drawn valid size =
      go (store.login (login_params codec identity previous (sum256 value) now) s') refl
    where
      go :
          (r : Result User × S)
          → store.login (login_params codec identity previous (sum256 value) now) s' ≡ r
          → LoginOutcome (
              continue r.0
                (λ user t. (
                  ok (record {
                    user = user;
                    raw_token = encode_to_string value;
                    expires_at = now + session_lifetime;
                  }),
                  t,
                ))
                r.1)
      go (ok user, s'') e =
          opened identity value _ user t s' s'' known drawn
            (login_params-IsLogin identity value valid) e (token_lem value size) refl
      go (err e, s'') p =
          refused identity value _ e t s' s'' known drawn
            (login_params-IsLogin identity value valid) p refl

  module _
      (fills : (t : S) (value : Bytes)
        → (service.random 32 t).0 ≡ ok value
        → length value ≡ 32) where
    admitted :
        (identity : DiscordIdentity) (s' : S)
        → oauth.identity_from_code code s ≡ (ok identity, s')
        → LoginOutcome (admit codec service store previous now identity s')
    unfolding admit
    admitted identity s' e = elim (Option-cases (validate_identity identity)) [
      | inr (bad, p) ↦ simp (admit, p) (invalid identity bad s' e p refl)
      | inl valid ↦ simp (admit, valid) (drawn valid (service.random 32 s') refl)
    ]
      where
        drawn :
            validate_identity identity ≡ none
            → (r : Result Bytes × S) → service.random 32 s' ≡ r
            → LoginOutcome (
                (within "generate session token"
                      (λ t. continue r.0 (λ value. pure (encode_to_string value, sum256 value)) r.1)
                    >>= open_session codec store identity previous now)
                  s')
        drawn valid (ok value, s'') p =
            opened_lem identity value s' s'' e p valid (fills s' value (ap (λ q. q.0) p))
        drawn valid (err bad, s'') p = no_token identity bad s' s'' e p refl

    -- A login asks the store only with an identity that is valid, with a canonical handle to start from,
    -- with the digest of the very token it gives back, which a later request is recognised by, and
    -- with that of the token it replaces, where the browser had one; the session starts now and ends
    -- 30 days later. A code that Discord does not accept, an invalid identity
    -- and a failing source of random bytes are errors, and the store is not asked. The random source,
    -- where it does not fail, fills the 32 bytes.
    pub login_with_discord-LoginOutcome :
        service.oauth ≡ some oauth
        → service.store ≡ some store
        → LoginOutcome (login_with_discord codec service code previous now s)
    unfolding login_with_discord
    login_with_discord-LoginOutcome set_up set_up' =
        simp (login_with_discord, set_up, set_up') (after (oauth.identity_from_code code s) refl)
      where
        after :
            (r : Result DiscordIdentity × S)
            → oauth.identity_from_code code s ≡ r
            → LoginOutcome (continue r.0 (admit codec service store previous now) r.1)
        after (ok identity, s') e = admitted identity s' e
        after (err e, s') p = unknown e s' p refl

-- ===== src/Http/Auth/Start.antt =====
-- internal/adapter/httpapi/auth.go: the state that a login starts with is accepted on its return.
use keebhub.Prelude.{
  ℕ, ◌+◌, ◌/◌, ◌<◌, ◌≡◌, refl, sym, subst, true, Option, none, some, inl, inr, arith, pos, ltb_ℤ,
  Text, codes, text_eq_refl, lt→ltb, length,
}
use keebhub.Domain.Errors.{Result, ok, err}
use keebhub.App.Exec.{Exec}
use keebhub.App.Cursor.{Codec}
use keebhub.App.Auth.{Bytes, TokenCodec, AuthService, authorization_url}
use keebhub.Http.Requests.{Checked, valid, rejected}
use keebhub.Http.Auth.{
  RequestUri, OauthStateCookie, AuthReply, validate_return_to, matching_oauth_state,
  decode_oauth_state, cookie_state, oauth_state_bytes, oauth_state_lifetime,
}
use keebhub.Http.Auth.ReturnTo.{validate_return_to-IsInternal}
use keebhub.Http.Auth.Session.{
  start_discord, with_return_to, with_random, with_service, sent_to_discord, new_state,
}

module _ (parse_request_uri : Text → Option RequestUri) (tokens : TokenCodec)
    (states : Codec OauthStateCookie) where
  open states use {Token}

  -- A login that is started: the state that it stores, with the page to return to, and that
  -- this state is accepted until it expires.
  pub record IsStarted (value : Text) (now : ℕ) (cookie : Token) (expires_at : ℕ) : Type 0 where
    pub state : OauthStateCookie
    pub return_to : validate_return_to parse_request_uri value ≡ some state.return_to
    pub lifetime : expires_at ≡ now + 600_000_000_000
    pub accepted :
        (later : ℕ)
        → later / 1_000_000_000 < expires_at / 1_000_000_000
        → cookie_state tokens states parse_request_uri (some cookie) state.state later ≡ some state

  -- The reply sets this OAuth cookie.
  abbrev pub Sets : Token → ℕ → Checked (AuthReply Token) → Type 0
  Sets cookie expires_at (valid reply) = reply.oauth_cookie ≡ some (cookie, expires_at)
  Sets cookie expires_at (rejected failure) = ⊥

module _ (parse_request_uri : Text → Option RequestUri)
    (root_parses : validate_return_to parse_request_uri (codes "/") ≡ some (codes "/")) where
  -- What is let through is let through again.
  validate_return_to_again :
      (value target : Text)
      → validate_return_to parse_request_uri value ≡ some target
      → validate_return_to parse_request_uri target ≡ some target
  validate_return_to_again value target h =
      elim ((validate_return_to-IsInternal parse_request_uri value target h).1) [
        | inl (empty, root) ↦
            subst (λ t. validate_return_to parse_request_uri t ≡ some t) (sym root) root_parses
        | inr (same, page) ↦
            subst (λ t. validate_return_to parse_request_uri t ≡ some target) (sym same) h
      ]

  module _ (tokens : TokenCodec) (states : Codec OauthStateCookie) where
    open tokens use {Hash, encode_to_string, decode_string-encode_to_string}
    open states use {Token, encode, decode-encode}

    new_state_accepted :
        (bytes : Bytes) (value return_to : Text) (now later : ℕ)
        → length bytes ≡ 32
        → validate_return_to parse_request_uri value ≡ some return_to
        → later / 1_000_000_000 < (now + oauth_state_lifetime) / 1_000_000_000
        → cookie_state tokens states parse_request_uri
            (some (encode (new_state (encode_to_string bytes) return_to now)))
            (encode_to_string bytes)
            later
          ≡ some (new_state (encode_to_string bytes) return_to now)
    unfolding decode_oauth_state matching_oauth_state
    new_state_accepted bytes value return_to now later size allowed soon =
        let unexpired : ltb_ℤ (pos (later / 1_000_000_000))
              (pos ((now + oauth_state_lifetime) / 1_000_000_000))
            ≡ true =
          lt→ltb _ _ (omega (arith, soon)) in
        simp (
          decode-encode,
          decode_string-encode_to_string,
          size,
          unexpired,
          validate_return_to_again value return_to allowed,
          text_eq_refl,
        )

    module _ {S : Type 0} (random : ℕ → Exec S Bytes) (auth : Option (AuthService Hash S))
        (full : (n : ℕ) (s s' : S) (bytes : Bytes)
          → random n s ≡ (ok bytes, s')
          → length bytes ≡ n) where
      module _ (value : Text) (now : ℕ) (cookie : Token) (expires_at : ℕ) where
        from_url :
            (return_to : Text) (bytes : Bytes) (r : Result Text)
            → validate_return_to parse_request_uri value ≡ some return_to
            → length bytes ≡ 32
            → Sets parse_request_uri tokens states cookie expires_at (
                valid (
                  sent_to_discord tokens states parse_request_uri random auth
                    (encode_to_string bytes)
                    return_to
                    now
                    r))
            → IsStarted parse_request_uri tokens states value now cookie expires_at
        from_url return_to bytes (err e) allowed size h = absurd (ground arith)
        from_url return_to bytes (ok url) allowed size h =
            let made : encode (new_state (encode_to_string bytes) return_to now) ≡ cookie = cc h in
            let ends : now + oauth_state_lifetime ≡ expires_at = cc h in
            record {
              state = new_state (encode_to_string bytes) return_to now;
              return_to = allowed;
              lifetime = sym ends;
              accepted = λ later soon.
                  subst
                    (λ k.
                      cookie_state tokens states parse_request_uri (some k) (encode_to_string bytes)
                        later
                      ≡ some (new_state (encode_to_string bytes) return_to now))
                    made
                    (new_state_accepted bytes value return_to now later size allowed
                      (subst (λ n. later / 1_000_000_000 < n / 1_000_000_000) (sym ends) soon));
            }

        from_service :
            (return_to : Text) (bytes : Bytes) (s : S) (a : Option (AuthService Hash S))
            → validate_return_to parse_request_uri value ≡ some return_to
            → length bytes ≡ 32
            → Sets parse_request_uri tokens states cookie expires_at
                (with_service tokens states parse_request_uri random auth a
                  (encode_to_string bytes)
                  return_to
                  now
                  s).0
            → IsStarted parse_request_uri tokens states value now cookie expires_at
        from_service return_to bytes s none allowed size h = absurd (ground arith)
        from_service return_to bytes s (some service) allowed size h =
            from_url return_to bytes (authorization_url tokens service (encode_to_string bytes) s).0
              allowed size h

        from_random :
            (return_to : Text) (s : S) (r : Result Bytes × S)
            → validate_return_to parse_request_uri value ≡ some return_to
            → random oauth_state_bytes s ≡ r
            → Sets parse_request_uri tokens states cookie expires_at
                (with_random tokens states parse_request_uri random auth return_to now r).0
            → IsStarted parse_request_uri tokens states value now cookie expires_at
        from_random return_to s (err e, s') allowed read h = elim h [ ]
        from_random return_to s (ok bytes, s') allowed read h =
            from_service return_to bytes s' auth allowed (full oauth_state_bytes s s' bytes read) h

        from_return_to :
            (s : S) (o : Option Text)
            → validate_return_to parse_request_uri value ≡ o
            → Sets parse_request_uri tokens states cookie expires_at
                (with_return_to tokens states parse_request_uri random auth o now s).0
            → IsStarted parse_request_uri tokens states value now cookie expires_at
        from_return_to s none checked h = elim h [ ]
        from_return_to s (some return_to) checked h =
            from_random return_to s (random oauth_state_bytes s) checked refl h

        -- Where the start of a login sets the OAuth cookie, the cookie lives for ten minutes and
        -- has a state that the callback accepts together with it until then, with the page that
        -- the start was asked to return to. The random source fills its buffer, and the root is a
        -- page.
        pub start_discord-IsStarted :
            (s : S)
            → Sets parse_request_uri tokens states cookie expires_at
                (start_discord tokens states parse_request_uri random auth value now s).0
            → IsStarted parse_request_uri tokens states value now cookie expires_at
        unfolding start_discord
        start_discord-IsStarted s h =
            from_return_to s (validate_return_to parse_request_uri value) refl h

-- ===== src/Http/Auth/Callback.antt =====
-- internal/adapter/httpapi/auth.go: who is logged in by the callback, and where the browser goes.
use keebhub.Prelude.{
  ℕ, ◌/◌, ◌≡◌, refl, ap, subst, Bool, true, false, Option, none, some, Bool-cases, inl, inr, arith,
  if◌then◌else◌, String, pos, ltb_ℤ, Text, codes, text_eq, text_eq_iff, &&-true_iff, is_empty,
  trim_space,
}
use keebhub.Domain.Errors.{Error, Result, ok, err}
use keebhub.App.Cursor.{Codec}
use keebhub.App.Auth.{TokenCodec, AuthService, LoginResult, login_with_discord}
use keebhub.Http.Auth.{
  RequestUri, OauthStateCookie, to_address, AuthReply, CallbackRequest, or_empty,
  validate_return_to, valid_random_value, matching_oauth_state, returns_to, state_accepted,
  decode_oauth_state, presented_state, cookie_state, sent_to_login, callback_error_code, logged_in,
  logged_in_by, authorized_callback, called_back, discord_callback,
}
use keebhub.Http.Auth.ReturnTo.{
  IsInternal, if_none, or_false, not-false, root_IsInternal, validate_return_to-IsInternal,
}

if_some :
    {A : Type 0} (b : Bool) (a c : A) → (if b then some a else none) ≡ some c → (b ≡ true) × (a ≡ c)
if_some true a c h = (refl, cc h)
if_some false a c h = absurd (ground arith)

module _ (tokens : TokenCodec) (states : Codec OauthStateCookie)
    (parse_request_uri : Text → Option RequestUri) where
  open tokens use {Hash, decode_string}
  open states use {Token, decode}

  -- The state that a callback is accepted by: the one of the cookie, presented again, of 32 bytes
  -- and not yet expired, with a page of this site to return to.
  pub record IsAccepted (request : CallbackRequest Token) (now : ℕ) (state : OauthStateCookie)
      : Type 0 where
    pub cookie : Token
    pub held : request.oauth_cookie ≡ some cookie
    pub decoded : decode cookie ≡ some state
    pub presented : state.state ≡ request.state
    pub random : valid_random_value tokens state.state 32 ≡ true
    pub unexpired : ltb_ℤ (pos (now / 1_000_000_000)) state.expires_at ≡ true
    pub internal : IsInternal state.return_to

  accepted_lem :
      (now : ℕ) (o : Option OauthStateCookie) (state : OauthStateCookie)
      → state_accepted tokens states parse_request_uri now o ≡ some state
      → (o ≡ some state)
        × (valid_random_value tokens state.state 32 ≡ true)
        × (ltb_ℤ (pos (now / 1_000_000_000)) state.expires_at ≡ true)
        × IsInternal state.return_to
  accepted_lem now none state h = absurd (ground arith)
  accepted_lem now (some held) state h =
      let (fresh, h') = if_none _ _ state h in
      let (random, unexpired) = or_false _ _ fresh in
      let (returns, same) = if_some _ held state h' in
      subst
        (λ st.
          (some held ≡ some st)
          × (valid_random_value tokens st.state 32 ≡ true)
          × (ltb_ℤ (pos (now / 1_000_000_000)) st.expires_at ≡ true)
          × IsInternal st.return_to)
        same
        (
          refl,
          not-false _ random,
          not-false _ unexpired,
          internal_of held.return_to (validate_return_to parse_request_uri held.return_to) refl
              returns,
        )
    where
      internal_of :
          (target : Text) (o : Option Text)
          → validate_return_to parse_request_uri target ≡ o
          → returns_to target o ≡ true
          → IsInternal target
      internal_of target none e r = absurd (ground arith)
      internal_of target (some found) e r =
          subst IsInternal ((text_eq_iff found target).0 r)
            ((validate_return_to-IsInternal parse_request_uri target found e).0)

  presented_lem :
      (presented : Text) (o : Option OauthStateCookie) (state : OauthStateCookie)
      → presented_state tokens presented o ≡ some state
      → (o ≡ some state) × (state.state ≡ presented)
  unfolding matching_oauth_state
  presented_lem presented none state h = absurd (ground arith)
  presented_lem presented (some held) state h =
      let (matching, same) = if_some _ held state h in
      let equal = (&&-true_iff _ (text_eq held.state presented)).0 matching in
      (
        ap some same,
        subst (λ (st : OauthStateCookie). st.state ≡ presented) same
            ((text_eq_iff held.state presented).0 equal.1),
      )

  cookie_state-IsAccepted :
      (request : CallbackRequest Token) (now : ℕ) (state : OauthStateCookie) (o : Option Token)
      → request.oauth_cookie ≡ o
      → cookie_state tokens states parse_request_uri o request.state now ≡ some state
      → IsAccepted request now state
  unfolding decode_oauth_state
  cookie_state-IsAccepted request now state none e h = absurd (ground arith)
  cookie_state-IsAccepted request now state (some cookie) e h =
      let shown = presented_lem request.state _ state h in
      let known = accepted_lem now (decode cookie) state shown.0 in
      record {
        cookie = cookie;
        held = e;
        decoded = known.0;
        presented = shown.1;
        random = known.1;
        unexpired = known.2;
        internal = known.3;
      }

  module _ {S : Type 0} (auth : Option (AuthService Hash S)) (request : CallbackRequest Token)
      (now : ℕ) (s : S) where
    -- How a callback on the state s can end.
    pub data CallbackOutcome (r : AuthReply Token × S) : Type 0 where
      logs_in :
          (state : OauthStateCookie) (service : AuthService Hash S) (result : LoginResult) (s' : S)
          → IsAccepted request now state
          → auth ≡ some service
          → is_empty request.error ≡ true
          → is_empty (trim_space request.code) ≡ false
          → login_with_discord tokens service request.code (or_empty request.session_cookie) now s
            ≡ (ok result, s')
          → r ≡ (
            record {
              clears_oauth = true;
              oauth_cookie = none;
              session_cookie = some (result.raw_token, result.expires_at);
              redirect = to_address state.return_to;
            },
            s',
          )
          → CallbackOutcome r
      login_fails :
          (state : OauthStateCookie) (service : AuthService Hash S) (e : Error) (s' : S)
          → IsAccepted request now state
          → login_with_discord tokens service request.code (or_empty request.session_cookie) now s
            ≡ (err e, s')
          → r ≡ (sent_to_login (callback_error_code e) state.return_to, s')
          → CallbackOutcome r
      refused :
          (code : String) (return_to : Text)
          → IsInternal return_to
          → r ≡ (sent_to_login code return_to, s)
          → CallbackOutcome r

    by_login :
        (state : OauthStateCookie) (service : AuthService Hash S)
        → IsAccepted request now state
        → auth ≡ some service
        → is_empty request.error ≡ true
        → is_empty (trim_space request.code) ≡ false
        → (r : Result LoginResult × S)
        → login_with_discord tokens service request.code (or_empty request.session_cookie) now s ≡ r
        → CallbackOutcome (logged_in state.return_to r.0, r.1)
    by_login state service accepted e clean coded (ok result, s') done =
        logs_in state service result s' accepted e clean coded done refl
    by_login state service accepted e clean coded (err error, s') done =
        login_fails state service error s' accepted done refl

    by_service :
        (state : OauthStateCookie) (a : Option (AuthService Hash S))
        → IsAccepted request now state
        → auth ≡ a
        → is_empty request.error ≡ true
        → is_empty (trim_space request.code) ≡ false
        → CallbackOutcome
            (logged_in_by tokens states parse_request_uri auth a request now state.return_to s)
    by_service state none accepted e clean coded =
        refused "authentication_unavailable" state.return_to accepted.internal refl
    by_service state (some service) accepted e clean coded =
        by_login state service accepted e clean coded
          (login_with_discord tokens service request.code (or_empty request.session_cookie) now s)
          refl

    after_state :
        (o : Option OauthStateCookie)
        → cookie_state tokens states parse_request_uri request.oauth_cookie request.state now ≡ o
        → CallbackOutcome (called_back tokens states parse_request_uri auth request now o s)
    unfolding authorized_callback
    after_state none e = refused "oauth_state_invalid" (codes "/") root_IsInternal refl
    after_state (some state) e =
        let accepted = cookie_state-IsAccepted request now state request.oauth_cookie refl e in
        elim (Bool-cases (is_empty request.error)) [
          | inr bad ↦ rw bad (refused _ state.return_to accepted.internal refl)
          | inl clean ↦ rw clean (elim (Bool-cases (is_empty (trim_space request.code))) [
            | inl blank ↦ rw blank (refused _ state.return_to accepted.internal refl)
            | inr coded ↦ rw coded (by_service state auth accepted refl clean coded)
          ])
        ]

    -- A callback logs in and sets the session's cookie only where the browser presents again the
    -- unexpired state of 32 bytes of its own OAuth cookie, without an error, with a code that is
    -- not blank, and where the login with that code succeeds; it then goes to the page of this
    -- site that the cookie names. A login that fails and any earlier refusal set no session cookie
    -- and go to the login page with a page of this site to return to; a refusal has asked nobody.
    pub discord_callback-CallbackOutcome :
        CallbackOutcome (discord_callback tokens states parse_request_uri auth request now s)
    unfolding discord_callback
    discord_callback-CallbackOutcome =
        after_state
          (cookie_state tokens states parse_request_uri request.oauth_cookie request.state now) refl

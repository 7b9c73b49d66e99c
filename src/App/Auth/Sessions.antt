-- ===== src/App/Auth/Sessions.antt =====
-- What a login hands to the store, and what session tokens are worth.
use keebhub.Prelude.{
  ℕ, ◌≡◌, ◌≢◌, refl, false, arith, ◌⊎◌, inl, inr, Bool-cases, Option-cases, some, length, ◌==◌,
  ==_iff, Text,
}
use keebhub.Domain.Errors.{ok, err, invalid_session}
use keebhub.App.Auth.{
  Bytes, TokenCodec, AuthStore, AuthService, session_token_hash, authenticate, logout,
}

module _ (codec : TokenCodec) where
  open codec use {Hash, sum256, encode_to_string, decode_string}

  -- The text encodes no 32 bytes.
  abbrev pub IsNoToken : Text → Type 0
  IsNoToken raw_token = (value : Bytes) → decode_string raw_token ≡ some value → length value ≢ 32

  -- The token hash of a text is the digest of the 32 bytes it encodes, or the text is no token.
  pub session_token_hash-cases :
      (raw_token : Text)
      → ((value : Bytes) × ((decode_string raw_token ≡ some value)
            × ((length value ≡ 32) × (session_token_hash codec raw_token ≡ ok (sum256 value)))))
        ⊎ (IsNoToken raw_token × (session_token_hash codec raw_token ≡ err invalid_session))
  unfolding session_token_hash
  session_token_hash-cases raw_token = elim (Option-cases (decode_string raw_token)) [
    | inl e ↦ inr (λ value known size. cc (e, known), simp (e, session_token_hash) refl)
    | inr (value, e) ↦ elim (Bool-cases (length value == 32)) [
      | inl fits ↦ inl (value, (e, ((==_iff _ _).0 fits, simp (e, fits, session_token_hash) refl)))
      | inr other ↦ inr (
        λ v known size.
            let same : value ≡ v = cc (e, known) in
            let other' : (length v == 32) ≡ false = rw (← same) other in ground arith,
        simp (e, other, session_token_hash) refl,
      )
    ]
  ]

  module _ {S : Type 0} (service : AuthService Hash S) (store : AuthStore Hash S) where
    -- Logging out deletes the session of a token of 32 bytes, and does nothing, without an error, for
    -- any other text, when there is a store.
    pub logout_lem :
        (raw_token : Text) (s : S)
        → service.store ≡ some store
        → ((value : Bytes) × ((decode_string raw_token ≡ some value)
              × ((length value ≡ 32)
                  × (logout codec service raw_token s ≡ store.delete_session (sum256 value) s))))
          ⊎ (logout codec service raw_token s ≡ (ok tt, s))
    unfolding logout
    logout_lem raw_token s set_up = ground (arith, session_token_hash-cases raw_token)

    -- A user is authenticated by the store, for the digest of a token of 32 bytes; every other text is
    -- an invalid session, and the store is not asked.
    pub authenticate_lem :
        (raw_token : Text) (now : ℕ) (s : S)
        → service.store ≡ some store
        → ((value : Bytes) × ((decode_string raw_token ≡ some value)
              × ((length value ≡ 32)
                  × (authenticate codec service raw_token now s
                      ≡ store.authenticate (sum256 value) now s))))
          ⊎ (IsNoToken raw_token
              × (authenticate codec service raw_token now s ≡ (err invalid_session, s)))
    unfolding authenticate
    authenticate_lem raw_token now s set_up =
        simp set_up (elim (session_token_hash-cases raw_token) [
          | inl (value, (e, (size, hash))) ↦ inl (value, (e, (size, simp hash refl)))
          | inr (other, bad) ↦ inr (other, simp bad refl)
        ])

-- ===== src/Examples/Logins.antt =====
-- Logins and sessions at concrete inputs.
use keebhub.Prelude.{ℕ, zero, suc, ◌≡◌, ◌⊎◌, refl, arith, none, some, [], ◌∷◌, length, codes}
use keebhub.Domain.Errors.{ok, err, invalid_session}
use keebhub.Domain.User.{DiscordIdentity}
use keebhub.App.Auth.{
  Bytes, TokenCodec, DiscordOauth, AuthStore, AuthService, login_with_discord, authenticate,
}
use keebhub.App.Auth.Sessions.{IsNoToken, authenticate_lem}
use keebhub.App.Auth.Login.{LoginOutcome, login_with_discord-LoginOutcome}
use keebhub.Examples.{siti}

abbrev pub codec : TokenCodec
codec = record {
  Hash = Bytes;
  sum256 = λ value. value;
  encode_to_string = λ value. value;
  decode_string = some;
  decode_string-encode_to_string = λ value. refl;
}

abbrev pub zeros : ℕ → Bytes
zeros zero = []
zeros (suc n) = 0 ∷ zeros n

abbrev identity : DiscordIdentity
identity = record {
  id = codes "42";
  username = codes "siti";
  display_name = codes "Siti";
  avatar_url = none;
}

abbrev oauth : DiscordOauth ℕ
oauth = record {
  authorization_url = λ state n. (ok (codes "https://discord.com"), n);
  identity_from_code = λ code n. (ok identity, n);
}

-- The state counts the calls of the store.
abbrev store : AuthStore Bytes ℕ
store = record {
  login = λ p n. (ok siti, suc n);
  authenticate = λ hash now n. (ok siti, suc n);
  delete_session = λ hash n. (ok tt, suc n);
}

abbrev pub service : AuthService Bytes ℕ
service = record { oauth = some oauth; store = some store; random = λ size n. (ok (zeros size), n) }

length-zeros : (t : ℕ) (value : Bytes) → (service.random 32 t).0 ≡ ok value → length value ≡ 32
length-zeros t value h = ground arith

login_with_discord-LoginOutcome_example :
    LoginOutcome codec service oauth store
      (codes "code")
      []
      500
      0
      (login_with_discord codec service (codes "code") [] 500 0)
login_with_discord-LoginOutcome_example =
    login_with_discord-LoginOutcome codec service oauth store (codes "code") [] 500 0 length-zeros
      refl refl

authenticate_lem_example :
    ((value : Bytes) × ((codec.decode_string (zeros 32) ≡ some value)
        × ((length value ≡ 32)
            × (authenticate codec service (zeros 32) 500 0
                ≡ store.authenticate (codec.sum256 value) 500 0))))
    ⊎ (IsNoToken codec (zeros 32)
        × (authenticate codec service (zeros 32) 500 0 ≡ (err invalid_session, 0)))
authenticate_lem_example = authenticate_lem codec service store (zeros 32) 500 0 refl

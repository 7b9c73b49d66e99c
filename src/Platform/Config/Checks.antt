-- ===== src/Platform/Config/Checks.antt =====
-- internal/platform/config/config.go: what it means for a configuration to be sound.
use keebhub.Prelude.{
  ◌≤◌, ◌≡◌, ◌≢◌, ◌↔◌, ◌⊎◌, Bool, true, false, Option, some, [], ℤ, pos_part, neg_part, Text, codes,
  trim_space,
}
use keebhub.Platform.Config.{Config, Url}

-- Conjunction, nested to the right.
infixr 10 ◌&◌
abbrev pub ◌&◌ : Type 0 → Type 0 → Type 0
P & Q = P × Q

-- An address with a scheme and a host, and with no user, query or fragment.
abbrev pub IsPlain : Url → Type 0
IsPlain u =
    (u.scheme ≢ []) & (u.host ≢ []) & (u.has_user ≡ false) & (u.raw_query ≡ []) & (u.fragment ≡ [])

abbrev pub IsPositive : ℤ → Type 0
IsPositive a = 1 ≤ pos_part a

abbrev pub IsStated : Text → Type 0
IsStated s = trim_space s ≢ []

abbrev pub InProduction : Config → Type 0
InProduction c = c.environment ≡ codes "production"

-- The origin of the site: a root over HTTP, and over HTTPS in production.
abbrev pub IsOrigin : Config → Url → Type 0
IsOrigin c base =
    IsPlain base
    & ((base.scheme ≡ codes "http") ⊎ (base.scheme ≡ codes "https"))
    & ((base.path ≡ []) ⊎ (base.path ≡ codes "/"))
    & (InProduction c → base.scheme ≡ codes "https")

-- Both of the credentials and the address that Discord redirects to.
abbrev pub HasLogin : Config → Type 0
HasLogin c =
    (c.discord_client_id ≢ []) & (c.discord_client_secret ≢ []) & (c.discord_redirect_uri ≢ [])

module _ (equal_fold : Text → Text → Bool) where
  -- The address is the path of the callback at the origin of the site.
  abbrev pub IsCallbackUrl : Url → Url → Type 0
  IsCallbackUrl base u =
      IsPlain u
      & (equal_fold u.scheme base.scheme ≡ true)
      & (equal_fold u.host base.host ≡ true)
      & (u.path ≡ codes "/auth/discord/callback")

  abbrev pub IsCallback : Option Url → Url → Type 0
  IsCallback url base = (u : Url) × ((url ≡ some u) & IsCallbackUrl base u)

module _ (equal_fold : Text → Text → Bool) (parse_url : Text → Option Url) where
  abbrev pub HasDiscord : Config → Url → Type 0
  HasDiscord c base =
      ((c.discord_client_id ≡ []) ↔ (c.discord_client_secret ≡ []))
      & (InProduction c → HasLogin c)
      & (((c.discord_client_id ≡ []) & (c.discord_redirect_uri ≡ []))
          ⊎ ((c.discord_redirect_uri ≢ [])
              & IsCallback equal_fold (parse_url c.discord_redirect_uri) base))

  abbrev pub IsServing : Config → Url → Type 0
  IsServing c base =
      IsStated c.http_addr
      & IsStated c.database_url
      & IsStated c.static_dir
      & IsStated c.migrations_dir
      & IsStated c.session_cookie_name
      & HasDiscord c base
      & IsPositive c.readiness_timeout
      & IsPositive c.shutdown_timeout
      & IsPositive c.http_body_limit
      & (neg_part c.db_min_conns ≡ 0)
      & IsPositive c.db_max_conns
      & (pos_part c.db_min_conns ≤ pos_part c.db_max_conns)
      & IsPositive c.db_max_conn_lifetime
      & IsPositive c.db_max_conn_idle_time
      & ((c.log_level ≡ codes "debug")
          ⊎ ((c.log_level ≡ codes "info")
              ⊎ ((c.log_level ≡ codes "warn") ⊎ (c.log_level ≡ codes "error"))))

  abbrev pub IsSound : Config → Type 0
  IsSound c =
      ((c.environment ≡ codes "development") ⊎ ((c.environment ≡ codes "test") ⊎ InProduction c))
      & ((base : Url) × ((parse_url c.base_url ≡ some base) & IsOrigin c base & IsServing c base))

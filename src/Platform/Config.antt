-- ===== src/Platform/Config.antt =====
-- internal/platform/config/config.go: the configuration of the process, from its environment.
use keebhub.Prelude.{
  ℕ, zero, suc, Bool, true, false, not, ◌*◌, ◌&&◌, ◌||◌, Option, none, some, List, [], ◌∷◌, ltb,
  if◌then◌else◌, String, ℤ, pos, negsuc, ltb_ℤ, Text, codes, text_eq, is_empty, trim_space,
}
use keebhub.Domain.Errors.{Error, Result, ok, err, wrapped}
pub mod Environment
pub mod Checks
pub mod Decisions
pub mod Validation
pub mod Settings
pub mod Loading

-- Durations are in nanoseconds.
pub record Config : Type 0 where
  pub environment : Text
  pub base_url : Text
  pub http_addr : Text
  pub database_url : Text
  pub log_level : Text
  pub static_dir : Text
  pub migrations_dir : Text
  pub session_cookie_name : Text
  pub discord_client_id : Text
  pub discord_client_secret : Text
  pub discord_redirect_uri : Text
  pub readiness_timeout : ℤ
  pub shutdown_timeout : ℤ
  pub http_body_limit : ℤ
  pub db_max_conns : ℤ
  pub db_min_conns : ℤ
  pub db_max_conn_lifetime : ℤ
  pub db_max_conn_idle_time : ℤ

-- What the code reads of a net/url.URL.
pub record Url : Type 0 where
  pub scheme : Text
  pub host : Text
  pub has_user : Bool
  pub raw_query : Text
  pub fragment : Text
  pub path : Text

-- `if failed { return fmt.Errorf(message) }`, and the checks after it.
abbrev pub fail_if : Bool → String → Option Error
fail_if true message = some (Error.other message)
fail_if false message = none

infixr 4 ◌<|>◌
abbrev pub ◌<|>◌ : Option Error → Option Error → Option Error
none <|> rest = rest
some e <|> rest = some e

-- Whether an address is not absolute, or has a user, a query or a fragment.
abbrev pub is_unfit : Url → Bool
is_unfit u =
    is_empty u.scheme
    || (is_empty u.host
        || (u.has_user || (not (is_empty u.raw_query) || not (is_empty u.fragment))))

unfoldable pub discord_configured : Config → Bool
discord_configured c =
    not (is_empty c.discord_client_id)
    && (not (is_empty c.discord_client_secret) && not (is_empty c.discord_redirect_uri))

abbrev pub is_production : Config → Bool
is_production c = text_eq c.environment (codes "production")

-- a != b
abbrev pub differ : Bool → Bool → Bool
differ true b = not b
differ false b = b

-- strings.EqualFold and url.Parse, where none is an error.
module _ (equal_fold : Text → Text → Bool) (parse_url : Text → Option Url) where
  abbrev pub validate_redirect : Url → Option Url → Option Error
  validate_redirect base none =
      some (Error.other "DISCORD_REDIRECT_URI must be an absolute callback URL")
  validate_redirect base (some redirect) =
      fail_if (is_unfit redirect) "DISCORD_REDIRECT_URI must be an absolute callback URL"
      <|> fail_if
          (not (equal_fold redirect.scheme base.scheme)
            || (not (equal_fold redirect.host base.host)
                || not (text_eq redirect.path (codes "/auth/discord/callback"))))
          "DISCORD_REDIRECT_URI must equal APP_BASE_URL with /auth/discord/callback"

  abbrev pub validate_redirect_uri : Config → Url → Option Error
  validate_redirect_uri c base =
      if is_empty c.discord_client_id && is_empty c.discord_redirect_uri
      then none
      else fail_if (not (is_empty c.discord_client_id) && is_empty c.discord_redirect_uri)
          "DISCORD_REDIRECT_URI is required when Discord credentials are configured"
        <|> validate_redirect base (parse_url c.discord_redirect_uri)

  unfoldable pub validate_discord : Config → Url → Option Error
  unfolding discord_configured
  validate_discord c base =
      fail_if (differ (not (is_empty c.discord_client_id)) (not (is_empty c.discord_client_secret)))
        "DISCORD_CLIENT_ID and DISCORD_CLIENT_SECRET must be configured together"
      <|> fail_if (is_production c && not (discord_configured c))
          "discord OAuth configuration is required in production"
      <|> validate_redirect_uri c base

  -- Validate from the check of HTTP_ADDR on.
  unfoldable pub validate_settings : Config → Url → Option Error
  validate_settings c base =
      fail_if (is_empty (trim_space c.http_addr)) "HTTP_ADDR must not be empty"
      <|> fail_if (is_empty (trim_space c.database_url)) "DATABASE_URL must not be empty"
      <|> fail_if (is_empty (trim_space c.static_dir)) "STATIC_DIR must not be empty"
      <|> fail_if (is_empty (trim_space c.migrations_dir)) "MIGRATIONS_DIR must not be empty"
      <|> fail_if (is_empty (trim_space c.session_cookie_name))
          "SESSION_COOKIE_NAME must not be empty"
      <|> validate_discord c base
      <|> fail_if (not (ltb_ℤ (pos 0) c.readiness_timeout)) "READINESS_TIMEOUT must be positive"
      <|> fail_if (not (ltb_ℤ (pos 0) c.shutdown_timeout)) "SHUTDOWN_TIMEOUT must be positive"
      <|> fail_if (not (ltb_ℤ (pos 0) c.http_body_limit)) "HTTP_BODY_LIMIT_BYTES must be positive"
      <|> fail_if (ltb_ℤ c.db_min_conns (pos 0)) "DB_MIN_CONNS must not be negative"
      <|> fail_if (not (ltb_ℤ (pos 0) c.db_max_conns)) "DB_MAX_CONNS must be positive"
      <|> fail_if (ltb_ℤ c.db_max_conns c.db_min_conns) "DB_MIN_CONNS must not exceed DB_MAX_CONNS"
      <|> fail_if (not (ltb_ℤ (pos 0) c.db_max_conn_lifetime))
          "DB_MAX_CONN_LIFETIME must be positive"
      <|> fail_if (not (ltb_ℤ (pos 0) c.db_max_conn_idle_time))
          "DB_MAX_CONN_IDLE_TIME must be positive"
      <|> fail_if
          (not (
            text_eq c.log_level (codes "debug")
            || (text_eq c.log_level (codes "info")
                || (text_eq c.log_level (codes "warn") || text_eq c.log_level (codes "error")))))
          "LOG_LEVEL must be debug, info, warn, or error"

  abbrev pub validate_base : Config → Option Url → Option Error
  validate_base c none = some (Error.other "APP_BASE_URL must be an absolute HTTP or HTTPS origin")
  validate_base c (some base) =
      fail_if (is_unfit base) "APP_BASE_URL must be an absolute HTTP or HTTPS origin"
      <|> fail_if
          (not (text_eq base.scheme (codes "http")) && not (text_eq base.scheme (codes "https")))
          "APP_BASE_URL must use http or https"
      <|> fail_if (not (is_empty base.path) && not (text_eq base.path (codes "/")))
          "APP_BASE_URL must not contain a path"
      <|> fail_if (is_production c && not (text_eq base.scheme (codes "https")))
          "APP_BASE_URL must use https in production"
      <|> validate_settings c base

  unfoldable pub validate : Config → Option Error
  unfolding validate_settings
  validate c =
      fail_if
        (not (text_eq c.environment (codes "development"))
          && (not (text_eq c.environment (codes "test")) && not (is_production c)))
        "APP_ENV must be development, test, or production"
      <|> validate_base c (parse_url c.base_url)

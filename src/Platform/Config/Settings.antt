-- ===== src/Platform/Config/Settings.antt =====
-- internal/platform/config/config.go: what LoadFrom reads for each setting.
use keebhub.Prelude.{
  ◌≡◌, refl, sym, Option, none, some, [], String, ℤ, pos, Text, codes, trim_space, arith,
}
use keebhub.Domain.Errors.{Error, Result, ok, err}
use keebhub.Platform.Config.{Config}
use keebhub.Platform.Config.Checks.{◌&◌}
use keebhub.Platform.Config.Environment.{
  LookupEnv, default_database_url, trimmed_or, value_or_default, parsed, parsed_or, parse_int64,
  parse_int32, seconds, ◌>>=◌, unless_error,
}

-- The setting is the trimmed value of its variable, read by the parser, or the fallback where the
-- variable is not set.
pub data Reads {A : Type 0} (lookup : LookupEnv) (parse : Text → Result A) (key : String)
    (fallback value : A) : Type 0 where
  unset : lookup key ≡ none → value ≡ fallback → Reads lookup parse key fallback value
  set :
      (s : Text)
      → lookup key ≡ some s
      → parse (trim_space s) ≡ ok value
      → Reads lookup parse key fallback value

module _ (parse_duration : Text → Result ℤ) (lookup : LookupEnv) where
  pub record IsLoaded (c : Config) : Type 0 where
    pub environment : Reads lookup ok "APP_ENV" (codes "development") c.environment
    pub base_url : Reads lookup ok "APP_BASE_URL" (codes "http://localhost:8080") c.base_url
    pub http_addr : Reads lookup ok "HTTP_ADDR" (codes ":8080") c.http_addr
    pub database_url : Reads lookup ok "DATABASE_URL" (codes default_database_url) c.database_url
    pub log_level : Reads lookup ok "LOG_LEVEL" (codes "info") c.log_level
    pub static_dir : Reads lookup ok "STATIC_DIR" (codes "web/dist") c.static_dir
    pub migrations_dir : Reads lookup ok "MIGRATIONS_DIR" (codes "db/migrations") c.migrations_dir
    pub session_cookie_name :
        Reads lookup ok "SESSION_COOKIE_NAME" (codes "keebhub_session") c.session_cookie_name
    pub discord_client_id : Reads lookup ok "DISCORD_CLIENT_ID" [] c.discord_client_id
    pub discord_client_secret : Reads lookup ok "DISCORD_CLIENT_SECRET" [] c.discord_client_secret
    pub discord_redirect_uri : Reads lookup ok "DISCORD_REDIRECT_URI" [] c.discord_redirect_uri
    pub readiness_timeout :
        Reads lookup parse_duration "READINESS_TIMEOUT" (seconds 1) c.readiness_timeout
    pub shutdown_timeout :
        Reads lookup parse_duration "SHUTDOWN_TIMEOUT" (seconds 15) c.shutdown_timeout
    pub http_body_limit :
        Reads lookup parse_int64 "HTTP_BODY_LIMIT_BYTES" (pos 1_048_576) c.http_body_limit
    pub db_max_conns : Reads lookup parse_int32 "DB_MAX_CONNS" (pos 10) c.db_max_conns
    pub db_min_conns : Reads lookup parse_int32 "DB_MIN_CONNS" (pos 1) c.db_min_conns
    pub db_max_conn_lifetime :
        Reads lookup parse_duration "DB_MAX_CONN_LIFETIME" (seconds 1_800) c.db_max_conn_lifetime
    pub db_max_conn_idle_time :
        Reads lookup parse_duration "DB_MAX_CONN_IDLE_TIME" (seconds 300) c.db_max_conn_idle_time

-- Each helper answers what the variable reads as.
trimmed_or-Reads :
    (lookup : LookupEnv) (key : String) (fallback : Text) (value : Option Text)
    → lookup key ≡ value
    → Reads lookup ok key fallback (trimmed_or fallback value)
trimmed_or-Reads lookup key fallback none e = unset e refl
trimmed_or-Reads lookup key fallback (some s) e = set s e refl

pub value_or_default-Reads :
    (lookup : LookupEnv) (key : String) (fallback : Text)
    → Reads lookup ok key fallback (value_or_default lookup key fallback)
unfolding value_or_default
value_or_default-Reads lookup key fallback = trimmed_or-Reads lookup key fallback (lookup key) refl

pub Reads-value_or_default :
    {lookup : LookupEnv} {key : String} {fallback value : Text}
    → Reads lookup ok key fallback value
    → value_or_default lookup key fallback ≡ value
unfolding value_or_default
Reads-value_or_default (unset e f) = rw e (sym f)
Reads-value_or_default (set s e f) = rw e (ground arith)

pub parsed_or-Reads :
    (lookup : LookupEnv) (parse : Text → Result ℤ) (key : String) (fallback a : ℤ)
    (value : Option Text)
    → lookup key ≡ value
    → parsed_or parse key fallback value ≡ ok a
    → Reads lookup parse key fallback a
parsed_or-Reads lookup parse key fallback a none e h = unset e (cc h)
parsed_or-Reads lookup parse key fallback a (some s) e h =
    set s e (of_parsed (parse (trim_space s)) h)
  where
    of_parsed : (r : Result ℤ) → parsed key r ≡ ok a → r ≡ ok a
    of_parsed (ok b) k = k
    of_parsed (err b) k = absurd (ground arith)

pub Reads-parsed_or :
    {lookup : LookupEnv} {parse : Text → Result ℤ} {key : String} {fallback a : ℤ}
    → Reads lookup parse key fallback a
    → parsed_or parse key fallback (lookup key) ≡ ok a
Reads-parsed_or (unset e f) = rw e (cc f)
Reads-parsed_or (set s e f) = rw (e, f) refl

pub bind-ok :
    {A B : Type 0} (r : Result A) (f : A → Result B) (b : B)
    → (r >>= f) ≡ ok b
    → (a : A) × ((r ≡ ok a) & (f a ≡ ok b))
unfolding ◌>>=◌
bind-ok (ok a) f b h = (a, (refl, h))
bind-ok (err e) f b h = absurd (ground arith)

pub bind_ok :
    {A B : Type 0} {r : Result A} {a : A} {b : B} (f : A → Result B)
    → r ≡ ok a
    → f a ≡ ok b
    → (r >>= f) ≡ ok b
unfolding ◌>>=◌
bind_ok f e h = rw e h

pub unless_error-ok :
    (c d : Config) (e : Option Error) → unless_error c e ≡ ok d → (e ≡ none) & (c ≡ d)
unless_error-ok c d none h = (refl, cc h)
unless_error-ok c d (some e) h = absurd (ground arith)

pub unless_error-accepted : (c : Config) (e : Option Error) → e ≡ none → unless_error c e ≡ ok c
unless_error-accepted c none h = refl
unless_error-accepted c (some e) h = absurd (ground arith)

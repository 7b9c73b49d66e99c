-- ===== src/Platform/Config/Loading.antt =====
-- internal/platform/config/config.go: when LoadFrom succeeds.
use keebhub.Prelude.{◌≡◌, ◌↔◌, Bool, refl, sym, subst, Option, none, [], ℤ, pos, Text, codes}
use keebhub.Domain.Errors.{Result, ok}
use keebhub.Platform.Config.{Config, Url, validate}
use keebhub.Platform.Config.Checks.{◌&◌, IsSound}
use keebhub.Platform.Config.Validation.{validate_iff}
use keebhub.Platform.Config.Environment.{
  LookupEnv, default_database_url, int64_value, int32_value, duration_value, seconds,
  initial_config, with_numbers, unless_error, load_from,
}
use keebhub.Platform.Config.Settings.{
  IsLoaded, value_or_default-Reads, Reads-value_or_default, parsed_or-Reads, Reads-parsed_or,
  bind-ok, bind_ok, unless_error-ok, unless_error-accepted,
}

module _ (equal_fold : Text → Text → Bool) (parse_url : Text → Option Url)
    (parse_duration : Text → Result ℤ) (lookup : LookupEnv) where
  -- The numbers that load_from reads on its way to a configuration.
  record Steps (c : Config) : Type 0 where
    readiness : ℤ
    shutdown : ℤ
    lifetime : ℤ
    idle : ℤ
    body_limit : ℤ
    max_conns : ℤ
    min_conns : ℤ
    reads_readiness :
        duration_value parse_duration lookup "READINESS_TIMEOUT" (seconds 1) ≡ ok readiness
    reads_shutdown :
        duration_value parse_duration lookup "SHUTDOWN_TIMEOUT" (seconds 15) ≡ ok shutdown
    reads_lifetime :
        duration_value parse_duration lookup "DB_MAX_CONN_LIFETIME" (seconds 1_800) ≡ ok lifetime
    reads_idle :
        duration_value parse_duration lookup "DB_MAX_CONN_IDLE_TIME" (seconds 300) ≡ ok idle
    reads_body_limit : int64_value lookup "HTTP_BODY_LIMIT_BYTES" (pos 1_048_576) ≡ ok body_limit
    reads_max_conns : int32_value lookup "DB_MAX_CONNS" (pos 10) ≡ ok max_conns
    reads_min_conns : int32_value lookup "DB_MIN_CONNS" (pos 1) ≡ ok min_conns
    is_whole :
        with_numbers lookup readiness shutdown lifetime idle body_limit max_conns min_conns ≡ c
    is_valid : validate equal_fold parse_url c ≡ none

  load_from-Steps :
      (c : Config) → load_from equal_fold parse_url parse_duration lookup ≡ ok c → Steps c
  unfolding load_from
  load_from-Steps c h =
      let (a1, (e1, h1)) = bind-ok _ _ c h in
      let (a2, (e2, h2)) = bind-ok _ _ c h1 in
      let (a3, (e3, h3)) = bind-ok _ _ c h2 in
      let (a4, (e4, h4)) = bind-ok _ _ c h3 in
      let (a5, (e5, h5)) = bind-ok _ _ c h4 in
      let (a6, (e6, h6)) = bind-ok _ _ c h5 in
      let (a7, (e7, h7)) = bind-ok _ _ c h6 in
      let (valid, whole) = unless_error-ok (with_numbers lookup a1 a2 a3 a4 a5 a6 a7) c _ h7 in
      record {
        readiness = a1;
        shutdown = a2;
        lifetime = a3;
        idle = a4;
        body_limit = a5;
        max_conns = a6;
        min_conns = a7;
        reads_readiness = e1;
        reads_shutdown = e2;
        reads_lifetime = e3;
        reads_idle = e4;
        reads_body_limit = e5;
        reads_max_conns = e6;
        reads_min_conns = e7;
        is_whole = whole;
        is_valid = subst (λ d. validate equal_fold parse_url d ≡ none) whole valid;
      }

  Steps-IsLoaded : (c : Config) → Steps c → IsLoaded parse_duration lookup c
  unfolding with_numbers initial_config duration_value int64_value int32_value
  Steps-IsLoaded c s = subst (IsLoaded parse_duration lookup) s.is_whole (record {
    environment = value_or_default-Reads lookup "APP_ENV" (codes "development");
    base_url = value_or_default-Reads lookup "APP_BASE_URL" (codes "http://localhost:8080");
    http_addr = value_or_default-Reads lookup "HTTP_ADDR" (codes ":8080");
    database_url = value_or_default-Reads lookup "DATABASE_URL" (codes default_database_url);
    log_level = value_or_default-Reads lookup "LOG_LEVEL" (codes "info");
    static_dir = value_or_default-Reads lookup "STATIC_DIR" (codes "web/dist");
    migrations_dir = value_or_default-Reads lookup "MIGRATIONS_DIR" (codes "db/migrations");
    session_cookie_name =
        value_or_default-Reads lookup "SESSION_COOKIE_NAME" (codes "keebhub_session");
    discord_client_id = value_or_default-Reads lookup "DISCORD_CLIENT_ID" [];
    discord_client_secret = value_or_default-Reads lookup "DISCORD_CLIENT_SECRET" [];
    discord_redirect_uri = value_or_default-Reads lookup "DISCORD_REDIRECT_URI" [];
    readiness_timeout = parsed_or-Reads lookup _ _ _ _ _ refl s.reads_readiness;
    shutdown_timeout = parsed_or-Reads lookup _ _ _ _ _ refl s.reads_shutdown;
    http_body_limit = parsed_or-Reads lookup _ _ _ _ _ refl s.reads_body_limit;
    db_max_conns = parsed_or-Reads lookup _ _ _ _ _ refl s.reads_max_conns;
    db_min_conns = parsed_or-Reads lookup _ _ _ _ _ refl s.reads_min_conns;
    db_max_conn_lifetime = parsed_or-Reads lookup _ _ _ _ _ refl s.reads_lifetime;
    db_max_conn_idle_time = parsed_or-Reads lookup _ _ _ _ _ refl s.reads_idle;
  })

  IsLoaded-whole :
      (c : Config)
      → IsLoaded parse_duration lookup c
      → with_numbers lookup c.readiness_timeout c.shutdown_timeout c.db_max_conn_lifetime
          c.db_max_conn_idle_time c.http_body_limit c.db_max_conns c.db_min_conns
        ≡ c
  unfolding with_numbers initial_config
  IsLoaded-whole c l = λ i. record c {
    environment = Reads-value_or_default l.environment i;
    base_url = Reads-value_or_default l.base_url i;
    http_addr = Reads-value_or_default l.http_addr i;
    database_url = Reads-value_or_default l.database_url i;
    log_level = Reads-value_or_default l.log_level i;
    static_dir = Reads-value_or_default l.static_dir i;
    migrations_dir = Reads-value_or_default l.migrations_dir i;
    session_cookie_name = Reads-value_or_default l.session_cookie_name i;
    discord_client_id = Reads-value_or_default l.discord_client_id i;
    discord_client_secret = Reads-value_or_default l.discord_client_secret i;
    discord_redirect_uri = Reads-value_or_default l.discord_redirect_uri i;
  }

  load_from_ok :
      (c : Config)
      → IsLoaded parse_duration lookup c
      → validate equal_fold parse_url c ≡ none
      → load_from equal_fold parse_url parse_duration lookup ≡ ok c
  unfolding load_from duration_value int64_value int32_value
  load_from_ok c l valid = bind_ok _ (Reads-parsed_or l.readiness_timeout) (
      bind_ok _ (Reads-parsed_or l.shutdown_timeout) (
        bind_ok _ (Reads-parsed_or l.db_max_conn_lifetime) (
          bind_ok _ (Reads-parsed_or l.db_max_conn_idle_time) (
            bind_ok _ (Reads-parsed_or l.http_body_limit) (
              bind_ok _ (Reads-parsed_or l.db_max_conns) (
                bind_ok _ (Reads-parsed_or l.db_min_conns) (
                  subst (λ (d : Config). unless_error d (validate equal_fold parse_url d) ≡ ok c)
                    (sym (IsLoaded-whole c l)) (unless_error-accepted c _ valid))))))))

  -- LoadFrom returns a configuration exactly when each of its settings is the trimmed value of
  -- its variable, as its parser reads it, or the default where the variable is not set, and the
  -- configuration is sound.
  pub load_from_iff :
      (c : Config)
      → (load_from equal_fold parse_url parse_duration lookup ≡ ok c)
        ↔ (IsLoaded parse_duration lookup c & IsSound equal_fold parse_url c)
  load_from_iff c = (
    λ h.
        let s = load_from-Steps c h in
        (Steps-IsLoaded c s, (validate_iff equal_fold parse_url c).0 s.is_valid),
    λ p. let (l, sound) = p in load_from_ok c l ((validate_iff equal_fold parse_url c).1 sound),
  )

-- ===== src/Platform/Config/Validation.antt =====
-- internal/platform/config/config.go: Validate accepts the sound configurations and no others.
use keebhub.Prelude.{
  ◌≡◌, ◌≢◌, ◌↔◌, ◌⊎◌, Bool, true, false, not, ◌||◌, Option, none, some, [], arith, String, ℤ, pos,
  ltb_ℤ, Text, codes, text_eq, text_eq_iff, is_empty, trim_space,
}
use keebhub.Platform.Config.{
  Config, Url, fail_if, is_unfit, discord_configured, is_production, validate_redirect,
  validate_redirect_uri, validate_discord, validate_settings, validate_base, validate,
}
use keebhub.Platform.Config.Decisions.{
  fail_if_iff, both_iff, ◌and_iff◌, present_iff, both_given_iff, or_iff, not_iff, either_iff,
  any_iff, implies_iff, all_iff, is_empty_iff, is_empty-nonempty_iff, not_empty_iff, IsPositive-iff,
  nonnegative_iff, ordered_iff, differ_iff, not_empty_false_iff, is_true_iff, is_false_iff,
  absent_or_iff,
}
use keebhub.Platform.Config.Checks.{
  ◌&◌, IsPlain, IsPositive, IsStated, InProduction, IsOrigin, HasLogin, IsCallback, IsCallbackUrl,
  HasDiscord, IsServing, IsSound,
}

IsPlain-iff : (u : Url) → (is_unfit u ≡ false) ↔ IsPlain u
IsPlain-iff u = or_iff _ _ (is_empty-nonempty_iff u.scheme) (
    or_iff _ _ (is_empty-nonempty_iff u.host) (
      or_iff _ _ (is_false_iff u.has_user)
        (or_iff _ _ (not_empty_false_iff u.raw_query) (not_empty_false_iff u.fragment))))

configured_iff : (c : Config) → (discord_configured c ≡ true) ↔ HasLogin c
unfolding discord_configured
configured_iff c =
    all_iff _ _ (not_empty_iff c.discord_client_id)
      (all_iff _ _ (not_empty_iff c.discord_client_secret) (not_empty_iff c.discord_redirect_uri))

production_iff : (c : Config) → (is_production c ≡ true) ↔ InProduction c
production_iff c = text_eq_iff c.environment (codes "production")

IsStated-iff :
    (message : String) (s : Text) → (fail_if (is_empty (trim_space s)) message ≡ none) ↔ IsStated s
IsStated-iff message s = fail_if_iff _ _ (is_empty-nonempty_iff (trim_space s))

must_be-IsPositive_iff :
    (message : String) (a : ℤ) → (fail_if (not (ltb_ℤ (pos 0) a)) message ≡ none) ↔ IsPositive a
must_be-IsPositive_iff message a = fail_if_iff _ _ (IsPositive-iff a)

level_iff :
    (message : String) (s : Text)
    → (fail_if
          (not (
            text_eq s (codes "debug")
            || (text_eq s (codes "info")
                || (text_eq s (codes "warn") || text_eq s (codes "error")))))
          message
        ≡ none)
      ↔ ((s ≡ codes "debug") ⊎ ((s ≡ codes "info") ⊎ ((s ≡ codes "warn") ⊎ (s ≡ codes "error"))))
level_iff message s = fail_if_iff _ _ (
    not_iff _ (
      any_iff _ _ (text_eq_iff s (codes "debug")) (
        any_iff _ _ (text_eq_iff s (codes "info"))
          (any_iff _ _ (text_eq_iff s (codes "warn")) (text_eq_iff s (codes "error"))))))

regroup_iff : {L A B C D E : Type 0} → L ↔ (A & B & C & D & E) → L ↔ ((A & B & C & D) & E)
regroup_iff (f, g) = (
  λ l. let (a, (b, (c, (d, e)))) = f l in ((a, (b, (c, d))), e),
  λ p. let ((a, (b, (c, d))), e) = p in g (a, (b, (c, (d, e)))),
)

module _ (equal_fold : Text → Text → Bool) (parse_url : Text → Option Url) where
  redirect_iff :
      (base : Url) (url : Option Url)
      → (validate_redirect equal_fold parse_url base url ≡ none) ↔ IsCallback equal_fold url base
  redirect_iff base none =
      (λ h. absurd (ground arith), λ p. let (u, (e, q)) = p in absurd (ground arith))
  redirect_iff base (some u) = present_iff (IsCallbackUrl equal_fold base) u (
      fail_if_iff _ _ (IsPlain-iff u)
      and_iff fail_if_iff _ _ (
          or_iff _ _ (not_iff _ (is_true_iff _)) (
            or_iff _ _ (not_iff _ (is_true_iff _))
              (not_iff _ (text_eq_iff u.path (codes "/auth/discord/callback"))))))

  redirect_uri_iff :
      (c : Config) (base : Url)
      → (validate_redirect_uri equal_fold parse_url c base ≡ none) ↔ (
          ((c.discord_client_id ≡ []) × (c.discord_redirect_uri ≡ []))
          ⊎ ((c.discord_redirect_uri ≢ [])
              × IsCallback equal_fold (parse_url c.discord_redirect_uri) base))
  redirect_uri_iff c base =
      absent_or_iff c.discord_client_id c.discord_redirect_uri _ _
        (redirect_iff base (parse_url c.discord_redirect_uri))

  discord_iff :
      (c : Config) (base : Url)
      → (validate_discord equal_fold parse_url c base ≡ none)
        ↔ HasDiscord equal_fold parse_url c base
  unfolding validate_discord
  discord_iff c base =
      both_iff _ _
        (fail_if_iff _ _ (
          differ_iff _ _ (not_empty_false_iff c.discord_client_id)
            (not_empty_false_iff c.discord_client_secret)))
        (both_iff _ _ (fail_if_iff _ _ (implies_iff _ _ (production_iff c) (configured_iff c)))
          (redirect_uri_iff c base))

  settings_iff :
      (c : Config) (base : Url)
      → (validate_settings equal_fold parse_url c base ≡ none)
        ↔ IsServing equal_fold parse_url c base
  unfolding validate_settings
  settings_iff c base =
      IsStated-iff _ c.http_addr
      and_iff IsStated-iff _ c.database_url
      and_iff IsStated-iff _ c.static_dir
      and_iff IsStated-iff _ c.migrations_dir
      and_iff IsStated-iff _ c.session_cookie_name
      and_iff discord_iff c base
      and_iff must_be-IsPositive_iff _ c.readiness_timeout
      and_iff must_be-IsPositive_iff _ c.shutdown_timeout
      and_iff must_be-IsPositive_iff _ c.http_body_limit
      and_iff both_given_iff _ _ (fail_if_iff _ _ (nonnegative_iff c.db_min_conns)) (λ low.
        both_given_iff _ _ (must_be-IsPositive_iff _ c.db_max_conns) (λ high.
          fail_if_iff _ _ (ordered_iff c.db_min_conns c.db_max_conns low high)
          and_iff must_be-IsPositive_iff _ c.db_max_conn_lifetime
          and_iff must_be-IsPositive_iff _ c.db_max_conn_idle_time
          and_iff level_iff _ c.log_level))

  base_iff :
      (c : Config) (url : Option Url)
      → (validate_base equal_fold parse_url c url ≡ none) ↔ (
          (base : Url) × ((url ≡ some base)
            & IsOrigin c base
            & IsServing equal_fold parse_url c base))
  base_iff c none = (λ h. absurd (ground arith), λ p. let (u, (e, q)) = p in absurd (ground arith))
  base_iff c (some u) =
      present_iff (λ (base : Url). IsOrigin c base & IsServing equal_fold parse_url c base) u
        (regroup_iff (
          fail_if_iff _ _ (IsPlain-iff u)
          and_iff fail_if_iff _ _ (
              either_iff _ _ (text_eq_iff u.scheme (codes "http"))
                (not_iff _ (text_eq_iff u.scheme (codes "https"))))
          and_iff fail_if_iff _ _
              (either_iff _ _ (is_empty_iff u.path) (not_iff _ (text_eq_iff u.path (codes "/"))))
          and_iff fail_if_iff _ _
              (implies_iff _ _ (production_iff c) (text_eq_iff u.scheme (codes "https")))
          and_iff settings_iff c u))

  -- Validate accepts a configuration exactly when it is sound.
  pub validate_iff :
      (c : Config) → (validate equal_fold parse_url c ≡ none) ↔ IsSound equal_fold parse_url c
  unfolding validate
  validate_iff c =
      both_iff _ _
        (fail_if_iff _ _ (
          either_iff _ _ (text_eq_iff c.environment (codes "development")) (
            either_iff _ _ (text_eq_iff c.environment (codes "test"))
              (not_iff _ (production_iff c)))))
        (base_iff c (parse_url c.base_url))
